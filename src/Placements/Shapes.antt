-- ===== src/Placements/Shapes.antt =====
-- Every variable is either the caller's or the platform's (app/placement.py, `shape`).
use forgeapi_homelab.Prelude.{
  String, Bool, true, false, Option, none, some, List, [], ◌∷◌, ◌≡◌, refl, sym, ap, ◌∙◌, not, ◌&&◌,
  any, arith, str_eq, eq_iff, is_some, if◌then◌else◌,
}
use forgeapi_homelab.Refusals.{Result, Refusal, ok, err}
use forgeapi_homelab.Tenants.{Placement, BusinessUnit}
use forgeapi_homelab.Placements.{
  Values, Variable, Sizing, lookup, injected, visible, shape, candidates, sizes_for, restrict,
  show_one, inject_one, size_refused,
}

abbrev pub is_called : String → Variable → Bool
is_called n v = str_eq v.name n

restrict-name : (unit : BusinessUnit) (v : Variable) → (restrict unit v).name ≡ v.name
restrict-name unit v = ground arith

visible-one :
    (unit : BusinessUnit) (n : String) (v : Variable) (value : Option String) (rest : List Variable)
    → any (is_called n) (show_one unit v value rest) ≡ elim value [
      | none ↦ if str_eq v.name n then true else any (is_called n) rest
      | some x ↦ any (is_called n) rest
    ]
unfolding any
visible-one unit n v none rest = ground (arith, restrict-name unit v)
visible-one unit n v (some x) rest = refl

-- A variable is shown exactly where no value is injected for it.
any-visible :
    (unit : BusinessUnit) (values : Values) (n : String) (vs : List Variable)
    → any (is_called n) (visible unit values vs)
      ≡ (any (is_called n) vs && not (is_some (lookup n values)))
unfolding any visible
any-visible unit values n [] = refl
any-visible unit values n (v ∷ vs) = ground (
  arith,
  visible-one unit n v (lookup v.name values) (visible unit values vs),
  any-visible unit values n vs,
  eq_iff v.name n,
)

inject-one :
    (n name : String) (value : Option String) (rest : Values)
    → lookup n (inject_one name value rest) ≡ elim value [
      | none ↦ lookup n rest
      | some x ↦ if str_eq name n then some x else lookup n rest
    ]
unfolding lookup
inject-one n name none rest = refl
inject-one n name (some x) rest = refl

lookup-injected :
    (values : Values) (n : String) (vs : List Variable)
    → lookup n (injected values vs) ≡ (if any (is_called n) vs then lookup n values else none)
unfolding any injected lookup
lookup-injected values n [] = refl
lookup-injected values n (v ∷ vs) = ground (
  arith,
  inject-one n v.name (lookup v.name values) (injected values vs),
  lookup-injected values n vs,
  eq_iff v.name n,
)

abbrev unwrap : Result (List Variable × Values) → List Variable × Values
unwrap (ok r) = r
unwrap (err e) = ([], [])

shaped :
    (refused : Bool) (e : Refusal) (vs shown : List Variable) (xs values : Values)
    → ◌≡◌ {A = Result (List Variable × Values)}
        (if refused then err e else ok (vs, xs))
        (ok (shown, values))
    → (vs ≡ shown) × (xs ≡ values)
shaped true e vs shown xs values h = cc
shaped false e vs shown xs values h = (ap (λ r. (unwrap r).0) h, ap (λ r. (unwrap r).1) h)

-- Where shaping returns, the platform's values decide: a declared variable for which there is one is
-- injected with exactly that value and hidden from the caller, every other declared variable is
-- shown and not injected, and a name that is not declared is neither.
pub shape-split :
    (mapping : String → Values) (variables : List Variable) (p : Placement) (sizing : Sizing)
    (size : Option String) (require : Bool) (shown : List Variable) (values : Values) (n : String)
    → shape mapping variables p sizing size require ≡ ok (shown, values)
    → let platform = lookup n (candidates mapping p (sizes_for sizing p.environment.name) size) in
      (lookup n values ≡ (if any (is_called n) variables then platform else none))
      × (any (is_called n) shown ≡ (any (is_called n) variables && not (is_some platform)))
unfolding shape
shape-split mapping variables p sizing size require shown values n e =
    let platform = candidates mapping p (sizes_for sizing p.environment.name) size in
    let (a, b) =
      shaped (size_refused sizing (sizes_for sizing p.environment.name) size require) _
        (visible p.unit platform variables) shown (injected platform variables) values e in
    (
      ap (lookup n) (sym b) ∙ lookup-injected platform n variables,
      ap (any (is_called n)) (sym a) ∙ any-visible p.unit platform n variables,
    )
