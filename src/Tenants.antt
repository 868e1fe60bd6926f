-- ===== src/Tenants.antt =====
-- Business units: who may deploy what, where (app/tenants.py). A set is a list; only membership in
-- it is ever tested.
pub mod Access
use Prim.Native.Nat.{◌+◌}
use forgeapi_homelab.Prelude.{
  ℕ, String, Bool, true, false, Option, none, some, List, [], ◌∷◌, ◌++◌, ◌&&◌, ◌||◌, not, map, any,
  select, str_mem, str_eq, if◌then◌else◌, is_some, ltb, length,
}
use forgeapi_homelab.Refusals.{Refusal, tenancy_error, Result, ok, err}

pub record Caller : Type 0 where
  pub id : String
  pub groups : List String

-- One cloud's entry of `targets`: a mapping of texts, or anything else.
pub data TargetConfig : Type 0 where
  malformed : TargetConfig
  entries : List (String × String) → TargetConfig

pub record Environment : Type 0 where
  pub name : String
  pub subscription_id : Option String
  pub groups : List String
  pub network : String
  pub budget_monthly : Option ℕ
  pub targets : List (String × TargetConfig)
  pub protected_resource_types : List String
  pub allow_destroy : Bool

-- A team's document, with its defaults filled in.
pub record UnitSpec : Type 0 where
  pub groups : List String
  pub inject : String
  pub patterns : List String
  pub regions_allowed : List String
  pub region_default : Option String
  pub environments : List Environment

pub record BusinessUnit : Type 0 where
  pub name : String
  pub spec : UnitSpec
  pub archived : Bool
  pub revision : Option ℕ

unfoldable pub build_unit : String → UnitSpec → Bool → Option ℕ → BusinessUnit
build_unit name spec archived revision = record {
  name = name;
  spec = spec;
  archived = archived;
  revision = revision;
}

-- `a & b` on sets, as a test.
unfoldable pub intersects : List String → List String → Bool
unfolding str_mem
intersects [] ys = false
intersects (x ∷ xs) ys = str_mem x ys || intersects xs ys

unfoldable pub environment_groups : List Environment → List String
environment_groups [] = []
environment_groups (e ∷ es) = e.groups ++ environment_groups es

unfoldable pub includes : BusinessUnit → Caller → Bool
unfolding intersects environment_groups
includes unit caller =
    intersects caller.groups (unit.spec.groups ++ environment_groups unit.spec.environments)

-- `environment.groups or self.groups`: an empty set counts as not given.
abbrev groups_or : List String → List String → List String
groups_or [] unit = unit
groups_or (g ∷ gs) unit = g ∷ gs

unfoldable pub can_deploy : BusinessUnit → Caller → Environment → Bool
unfolding intersects
can_deploy unit caller env = intersects caller.groups (groups_or env.groups unit.spec.groups)

-- `environments.get(name)` and `load().get(name)`.
unfoldable pub environment_named : String → List Environment → Option Environment
environment_named n [] = none
environment_named n (e ∷ es) = if str_eq e.name n then some e else environment_named n es

unfoldable pub unit_named : String → List BusinessUnit → Option BusinessUnit
unit_named n [] = none
unit_named n (u ∷ us) = if str_eq u.name n then some u else unit_named n us

unfoldable pub units_for : Caller → List BusinessUnit → List BusinessUnit
unfolding includes select
units_for caller units = select (λ u. includes u caller) units

abbrev sole_unit : List BusinessUnit → Result BusinessUnit
sole_unit [] = err (tenancy_error 403)
sole_unit (u ∷ []) = ok u
sole_unit (u ∷ v ∷ us) = err (tenancy_error 422)

abbrev member_unit : Option BusinessUnit → Result BusinessUnit
member_unit none = err (tenancy_error 403)
member_unit (some u) = ok u

-- The caller's own units decide; with several, the request has to name one.
unfoldable pub select_unit : Caller → List BusinessUnit → Option String → Result BusinessUnit
unfolding units_for unit_named
select_unit caller units none = sole_unit (units_for caller units)
select_unit caller units (some n) = member_unit (unit_named n (units_for caller units))

pub record Placement : Type 0 where
  pub unit : BusinessUnit
  pub environment : Environment

abbrev place_in : Caller → BusinessUnit → Option Environment → Result Placement
place_in caller unit none = err (tenancy_error 422)
place_in caller unit (some env) =
    if can_deploy unit caller env
    then ok (record { unit = unit; environment = env })
    else err (tenancy_error 403)

abbrev requested_environment : Option String → List Environment → Option Environment
requested_environment none envs = none
requested_environment (some n) envs = environment_named n envs

unfoldable pub place : Caller → BusinessUnit → Option String → String → Bool → Result Placement
unfolding can_deploy environment_named str_mem
place caller unit environment pattern allow_archived =
    if unit.archived && not allow_archived
    then err (tenancy_error 409)
    else if not (str_mem pattern unit.spec.patterns)
    then err (tenancy_error 403)
    else place_in caller unit (requested_environment environment unit.spec.environments)
