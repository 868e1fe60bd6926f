-- ===== src/Tenants/Access.antt =====
-- Who may place a deployment where (app/tenants.py: `select_unit`, `place`).
use forgeapi_homelab.Prelude.{
  String, Bool, true, false, ◌≡◌, Option, none, some, List, [], ◌∷◌, arith, str_mem, not, ◌&&◌,
  select,
}
use forgeapi_homelab.Refusals.{ok}
use forgeapi_homelab.Tenants.{
  Caller, BusinessUnit, includes, can_deploy, environment_named, unit_named, select_unit, Placement,
  place, units_for,
}

-- What a placement grants.
pub record IsAllowed (caller : Caller) (unit : BusinessUnit) (name pattern : String)
    (archived : Bool) (p : Placement) : Type 0 where
  pub same_unit : p.unit ≡ unit
  pub environment : environment_named name unit.spec.environments ≡ some p.environment
  pub offered : str_mem pattern unit.spec.patterns ≡ true
  pub deploys : can_deploy unit caller p.environment ≡ true
  pub not_closed : (unit.archived && not archived) ≡ false

selected_includes :
    (caller : Caller) (n : String) (units : List BusinessUnit) (u : BusinessUnit)
    → unit_named n (units_for caller units) ≡ some u
    → includes u caller ≡ true
unfolding units_for unit_named select
selected_includes caller n [] u e = ground arith
selected_includes caller n (x ∷ xs) u e = ground (arith, selected_includes caller n xs u)

first_includes :
    (caller : Caller) (units : List BusinessUnit) (u : BusinessUnit) (us : List BusinessUnit)
    → units_for caller units ≡ u ∷ us
    → includes u caller ≡ true
unfolding units_for select
first_includes caller [] u us e = ground arith
first_includes caller (x ∷ xs) u us e = ground (arith, first_includes caller xs u us)

pub place-allows :
    (caller : Caller) (unit : BusinessUnit) (name pattern : String) (archived : Bool)
    (p : Placement)
    → place caller unit (some name) pattern archived ≡ ok p
    → IsAllowed caller unit name pattern archived p
unfolding place
place-allows caller unit name pattern archived p e = record {
  same_unit = ground arith;
  environment = ground arith;
  offered = ground arith;
  deploys = ground arith;
  not_closed = ground arith;
}

select-includes :
    (caller : Caller) (units : List BusinessUnit) (requested : Option String) (u : BusinessUnit)
    → select_unit caller units requested ≡ ok u
    → includes u caller ≡ true
unfolding select_unit
select-includes caller units none u e = ground (arith, first_includes caller units u [])
select-includes caller units (some n) u e = ground (arith, selected_includes caller n units u)

-- Where selecting a unit and placing a pattern in one of its environments both succeed, the caller
-- is a member of the unit, the unit offers the pattern and has the environment, the caller may
-- deploy to it, and an archived unit is only used where the request allows that.
pub place_safe :
    (caller : Caller) (units : List BusinessUnit) (requested : Option String) (unit : BusinessUnit)
    (name pattern : String) (archived : Bool) (p : Placement)
    → select_unit caller units requested ≡ ok unit
    → place caller unit (some name) pattern archived ≡ ok p
    → (includes unit caller ≡ true) × IsAllowed caller unit name pattern archived p
place_safe caller units requested unit name pattern archived p s e = (
  select-includes caller units requested unit s,
  place-allows caller unit name pattern archived p e,
)
