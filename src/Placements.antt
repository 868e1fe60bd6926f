-- ===== src/Placements.antt =====
-- What the caller of a pattern may set and what the platform injects (app/placement.py). A value is
-- a text that stands for it, a mapping a list whose first entry for a key counts. The texts `inject` of a unit
-- and `network` of an environment are read by `mapping`, since YAML is outside.
pub mod Shapes
use forgeapi_homelab.Prelude.{
  ℕ, String, Bool, true, false, Option, none, some, List, [], ◌∷◌, ◌++◌, ◌&&◌, not, str_eq, is_some,
  or_else, if◌then◌else◌,
}
use forgeapi_homelab.Refusals.{Result, ok, err, tenancy_error}
use forgeapi_homelab.Tenants.{Placement, BusinessUnit}

abbrev pub Values : Type 0
Values = List (String × String)

unfoldable pub lookup {ℓ} : {A : Type ℓ} → String → List (String × A) → Option A
lookup k [] = none
lookup k ((j, v) ∷ rest) = if str_eq j k then some v else lookup k rest

-- `sizing.<size>.<environment>.<variable>` of a pattern's configuration.
abbrev pub Sizing : Type 0
Sizing = List (String × List (String × Values))

abbrev pub offer : String → Option Values → List (String × Values) → List (String × Values)
offer size none rest = rest
offer size (some values) rest = (size, values) ∷ rest

unfoldable pub sizes_for : Sizing → String → List (String × Values)
unfolding lookup
sizes_for [] environment = []
sizes_for ((size, per_env) ∷ sizing) environment =
    offer size (lookup environment per_env) (sizes_for sizing environment)

-- A validation of the pattern, or the one that keeps `location` to a unit's regions.
pub data Validation : Type 0 where
  declared : String → Validation
  allowed_regions : List String → String → Validation

pub record Variable : Type 0 where
  pub name : String
  pub required : Bool
  pub default : String
  pub validations : List Validation
  pub other : String

-- `{k: None for values in available.values() for k in values}`.
unfoldable pub hidden_of : Values → Values
hidden_of [] = []
hidden_of ((k, v) ∷ values) = (k, "null") ∷ hidden_of values

unfoldable pub hidden : List (String × Values) → Values
unfolding hidden_of
hidden [] = []
hidden ((size, values) ∷ rest) = hidden_of values ++ hidden rest

-- `available.get(size) or …`: a size without values counts as not chosen.
abbrev pub or_hidden : Option Values → Values → Values
or_hidden (some (v ∷ vs)) all = v ∷ vs
or_hidden _ all = all

abbrev pub chosen : Option String → List (String × Values) → Option Values
chosen none available = none
chosen (some size) available = lookup size available

-- `{**unit.inject, **env.network, "environment": env.name, **sized}`: a later entry wins.
unfoldable pub candidates :
    (String → Values) → Placement → List (String × Values) → Option String → Values
unfolding lookup hidden
candidates mapping p available size =
    or_hidden (chosen size available) (hidden available)
    ++ (("environment", p.environment.name)
        ∷ (mapping p.environment.network ++ mapping p.unit.spec.inject))

abbrev pub inject_one : String → Option String → Values → Values
inject_one name none rest = rest
inject_one name (some value) rest = (name, value) ∷ rest

-- A value is injected where the pattern declares a variable of its name.
unfoldable pub injected : Values → List Variable → Values
unfolding lookup
injected values [] = []
injected values (v ∷ vs) = inject_one v.name (lookup v.name values) (injected values vs)

abbrev pub is_nil : List String → Bool
is_nil [] = true
is_nil (x ∷ xs) = false

-- `unit.region_default or variable["default"]`.
abbrev pub default_for : Option String → String → String
default_for none value = value
default_for (some region) value = if str_eq region "" then value else region

abbrev pub restrict : BusinessUnit → Variable → Variable
restrict unit v =
    if str_eq v.name "location" && not (is_nil unit.spec.regions_allowed)
    then record v {
      required = v.required && not (is_some unit.spec.region_default);
      default = default_for unit.spec.region_default v.default;
      validations = v.validations ++ allowed_regions unit.spec.regions_allowed unit.name ∷ [];
    }
    else v

abbrev pub show_one : BusinessUnit → Variable → Option String → List Variable → List Variable
show_one unit v none rest = restrict unit v ∷ rest
show_one unit v (some value) rest = rest

unfoldable pub visible : BusinessUnit → Values → List Variable → List Variable
unfolding lookup
visible unit values [] = []
visible unit values (v ∷ vs) = show_one unit v (lookup v.name values) (visible unit values vs)

abbrev pub has_sizing : Sizing → Bool
has_sizing [] = false
has_sizing (s ∷ ss) = true

abbrev pub size_refused : Sizing → List (String × Values) → Option String → Bool → Bool
size_refused sizing available none require = has_sizing sizing && require
size_refused sizing available (some size) require = not (is_some (lookup size available))

unfoldable pub shape :
    (String → Values)
    → List Variable
    → Placement
    → Sizing
    → Option String
    → Bool
    → Result (List Variable × Values)
unfolding sizes_for candidates injected visible lookup
shape mapping variables p sizing size require =
    let available = sizes_for sizing p.environment.name in
    let values = candidates mapping p available size in
    if size_refused sizing available size require
    then err (tenancy_error 422)
    else ok (visible p.unit values variables, injected values variables)
