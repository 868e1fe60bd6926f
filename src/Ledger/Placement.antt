-- ===== src/Ledger/Placement.antt =====
-- The placement check inside the acceptance transaction (app/ledger.py, `_check_placement`).
use forgeapi_homelab.Prelude.{
  ℕ, String, Bool, true, false, Option, none, some, List, [], ◌∷◌, ◌||◌, not, opt_eq, nat_eq,
  opt_str_eq, str_eq, if◌then◌else◌,
}
use forgeapi_homelab.Records.{Action, Resolved, Team, TeamState, active, archived}
use forgeapi_homelab.Refusals.{placement_stale, internal_error, Result, ok, err}
use forgeapi_homelab.Tenants.{
  BusinessUnit, Environment, build_unit, unit_named, environment_named, can_deploy,
}
use forgeapi_homelab.CloudTargets.{Target, select_target, target_eq, value_at}
use forgeapi_homelab.Config.{Config, TenantsSource, disabled, file, database}
use forgeapi_homelab.Ledger.Rows.{is_deploy}

unfoldable pub team_named : String → List Team → Option Team
team_named n [] = none
team_named n (t ∷ ts) = if str_eq t.name n then some t else team_named n ts

abbrev pub is_archived : TeamState → Bool
is_archived archived = true
is_archived active = false

unfoldable pub team_unit : Team → BusinessUnit
unfolding build_unit
team_unit t = build_unit t.name t.doc (is_archived t.state) (some t.revision)

abbrev map_team : Option Team → Option BusinessUnit
map_team none = none
map_team (some t) = some (team_unit t)

-- The unit as the source has it now, and whether its revision is another than at validation.
unfoldable pub unit_now : TenantsSource → List Team → String → Option BusinessUnit
unfolding team_named team_unit unit_named
unit_now disabled teams n = none
unit_now (file units) teams n = unit_named n units
unit_now database teams n = map_team (team_named n teams)

abbrev pub moved : TenantsSource → Option ℕ → BusinessUnit → Bool
moved database (some stamp) unit = not (opt_eq nat_eq unit.revision (some stamp))
moved _ _ unit = false

-- `target or None`.
abbrev pub given : Option Target → Option Target
given (some []) = none
given t = t

abbrev subscription : Environment → Option Target → Option String
subscription env none = env.subscription_id
subscription env (some target) = value_at "subscription_id" target

abbrev pub placed_elsewhere : Resolved → Environment → Option Target → Bool
placed_elsewhere resolved env target =
    not (opt_eq target_eq (given target) (given resolved.cloud_target))
    || not (opt_str_eq (subscription env (given target)) resolved.subscription_id)

-- A refusal to place counts as stale; another exception goes through.
abbrev target_stale : Resolved → Environment → Result (Option Target) → Result Bool
target_stale resolved env (ok target) = ok (placed_elsewhere resolved env target)
target_stale resolved env (err internal_error) = err internal_error
target_stale resolved env (err _) = ok true

abbrev pub caller_lost : BusinessUnit → Environment → Option (List String) → Bool
caller_lost unit env none = false
caller_lost unit env (some groups) = not (can_deploy unit (record { id = ""; groups = groups }) env)

abbrev environment_stale :
    Resolved → BusinessUnit → Option (List String) → Option Environment → Result Bool
environment_stale resolved unit groups none = ok true
environment_stale resolved unit groups (some env) =
    if caller_lost unit env groups
    then ok true
    else target_stale resolved env (select_target env resolved.cloud)

abbrev find_environment : Option String → BusinessUnit → Option Environment
find_environment none unit = none
find_environment (some n) unit = environment_named n unit.spec.environments

abbrev unit_stale :
    TenantsSource → Resolved → Option ℕ → Option (List String) → Option BusinessUnit → Result Bool
unit_stale source resolved stamp groups none = ok true
unit_stale source resolved stamp groups (some unit) =
    if unit.archived || moved source stamp unit
    then ok true
    else environment_stale resolved unit groups (find_environment resolved.environment unit)

abbrev refuse_stale : Result Bool → Result (Unit {0})
refuse_stale (ok true) = err placement_stale
refuse_stale (ok false) = ok tt
refuse_stale (err e) = err e

abbrev check_unit :
    TenantsSource
    → List Team
    → Resolved
    → Option ℕ
    → Option (List String)
    → Option String
    → Result (Unit {0})
check_unit disabled teams resolved stamp groups name = ok tt
check_unit source teams resolved stamp groups none = ok tt
check_unit source teams resolved stamp groups (some n) =
    if str_eq n ""
    then ok tt
    else refuse_stale (unit_stale source resolved stamp groups (unit_now source teams n))

unfoldable pub check_placement :
    Config → List Team → Action → Resolved → Option ℕ → Option (List String) → Result (Unit {0})
unfolding unit_now can_deploy environment_named select_target target_eq value_at
check_placement cfg teams action resolved stamp groups =
    if is_deploy action
    then check_unit cfg.tenants teams resolved stamp groups resolved.business_unit
    else ok tt
