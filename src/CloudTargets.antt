-- ===== src/CloudTargets.antt =====
-- Platform-owned cloud placement (app/cloud_targets.py).
use Prim.Native.Char.{code}
use forgeapi_homelab.Prelude.{
  ℕ, String, Bool, true, false, Option, none, some, List, [], ◌∷◌, ◌&&◌, ◌||◌, not, all, any, map,
  select, str_mem, str_eq, ◌==◌, leb, if◌then◌else◌, opt_str_eq, opt_eq,
}
use forgeapi_homelab.Refusals.{
  tenancy_error, placement_changed, cloud_not_available, internal_error, Result, ok, err,
}
use forgeapi_homelab.Records.{Resolved}
use forgeapi_homelab.Tenants.{Environment, TargetConfig, malformed, entries}

abbrev pub Target : Type 0
Target = List (String × String)

-- Python's white space, which `str.strip` removes.
unfoldable pub is_space : ℕ → Bool
is_space c =
    (leb 9 c && leb c 13)
    || (leb 28 c && leb c 32)
    || c == 0x85
    || c == 0xa0
    || c == 0x1680
    || (leb 0x2000 c && leb c 0x200a)
    || c == 0x2028
    || c == 0x2029
    || c == 0x202f
    || c == 0x205f
    || c == 0x3000

-- `not v.strip()`.
unfoldable pub is_blank : String → Bool
unfolding is_space
is_blank String.[] = true
is_blank (String.◌∷◌ c s) = is_space (code c) && is_blank s

unfoldable pub identifier : String → Option String
identifier cloud =
    if str_eq cloud "azure"
    then some "subscription_id"
    else if str_eq cloud "aws"
    then some "aws_account_id"
    else if str_eq cloud "gcp"
    then some "project_id"
    else none

unfoldable pub target_named : String → List (String × TargetConfig) → Option TargetConfig
target_named n [] = none
target_named n ((k, t) ∷ ts) = if str_eq k n then some t else target_named n ts

abbrev pub keys : Target → List String
keys = map (λ e. e.0)

unfoldable pub subset : List String → List String → Bool
unfolding all str_mem
subset xs ys = all (λ x. str_mem x ys) xs

-- The entry holds exactly the required keys, each with a text that is not blank.
unfoldable pub is_complete : List String → Target → Bool
unfolding subset any is_blank
is_complete required target =
    subset (keys target) required
    && subset required (keys target)
    && not (any (λ e. is_blank e.1) target)

abbrev checked : Option String → TargetConfig → Result (Option Target)
checked none t = err internal_error
checked (some id) malformed = err (tenancy_error 503)
checked (some id) (entries target) =
    if is_complete (id ∷ "region" ∷ []) target then ok (some target) else err (tenancy_error 503)

abbrev offered : String → Option TargetConfig → Result (Option Target)
offered cloud none = err cloud_not_available
offered cloud (some t) = checked (identifier cloud) t

abbrev unplaced : List (String × TargetConfig) → Result (Option Target)
unplaced [] = ok none
unplaced (t ∷ ts) = err (tenancy_error 503)

unfoldable pub select_target : Environment → Option String → Result (Option Target)
unfolding is_complete identifier target_named
select_target env none = unplaced env.targets
select_target env (some cloud) = offered cloud (target_named cloud env.targets)

abbrev has_target : Option TargetConfig → Bool
has_target none = false
has_target (some t) = true

abbrev is_empty : List (String × TargetConfig) → Bool
is_empty [] = true
is_empty (t ∷ ts) = false

unfoldable pub deployable : Environment → Option String → Bool
unfolding target_named
deployable env none = is_empty env.targets
deployable env (some cloud) = has_target (target_named cloud env.targets)

-- Dictionary equality: the same value, or none, at every key of either.
unfoldable pub value_at : String → Target → Option String
value_at k [] = none
value_at k ((j, v) ∷ t) = if str_eq j k then some v else value_at k t

unfoldable pub agrees : List String → Target → Target → Bool
unfolding value_at
agrees [] s t = true
agrees (k ∷ ks) s t = opt_str_eq (value_at k s) (value_at k t) && agrees ks s t

unfoldable pub target_eq : Target → Target → Bool
unfolding agrees
target_eq s t = agrees (keys s) s t && agrees (keys t) s t

abbrev pub untargeted : Option Target → Bool
untargeted none = true
untargeted (some []) = true
untargeted (some (v ∷ vs)) = false

-- Whether the resource still goes where it was placed: its cloud, its target, and without a target
-- its subscription.
unfoldable pub unchanged :
    Resolved → Option String → Option Target → Option String → Result (Unit {0})
unfolding target_eq
unchanged resolved cloud target subscription =
    if not (opt_str_eq resolved.cloud cloud)
      || not (opt_eq target_eq resolved.cloud_target target)
      || (untargeted target && not (opt_str_eq resolved.subscription_id subscription))
    then err placement_changed
    else ok tt

-- A pattern's variable: its name, and the rest of its declaration.
abbrev pub Variable : Type 0
Variable = String × String

-- The variables that a request may still set, and the values that the platform sets.
unfoldable pub inject : List Variable → Option Target → Result (List Variable × Target)
unfolding subset select str_mem
inject variables none = ok (variables, [])
inject variables (some target) =
    if subset (keys target) (map (λ (v : Variable). v.0) variables)
    then ok (select (λ v. not (str_mem v.0 (keys target))) variables, target)
    else err (tenancy_error 503)
