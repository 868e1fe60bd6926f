-- ===== src/Policy.antt =====
-- Who may see and change a record, and which plans may run (app/policy.py: `authorize`,
-- `authorize_reconcile`, `check_guardrails`). The catalog of patterns is a file of its own, of which
-- only a pattern's cloud is read.
use forgeapi_homelab.Prelude.{
  ℕ, String, Bool, true, false, Option, none, some, List, ◌&&◌, not, any, leb, str_mem, str_eq,
  if◌then◌else◌,
}
use forgeapi_homelab.Refusals.{
  Result, ok, err, not_found, catalog_unavailable, team_archived, operator_required, policy_denied,
}
use forgeapi_homelab.Records.{Operation, Resource, Resolved, Action, deploy}
use forgeapi_homelab.Tenants.{
  Caller, BusinessUnit, Environment, includes, intersects, place, environment_named,
}
use forgeapi_homelab.CloudTargets.{select_target, unchanged}
use forgeapi_homelab.Config.{Config, TenantsSource, disabled, database}
use forgeapi_homelab.Tx.{Tx, World, pure, raise, lift, gets, ◌>>=◌, ◌>>◌, when, raise_if}
use forgeapi_homelab.Ledger.Rows.{is_destroy}
use forgeapi_homelab.Ledger.Placement.{unit_now}
use forgeapi_homelab.Teams.{archived_since}

-- What is read of outside files: the cloud of a pattern that the catalog lists, and the groups of the
-- operators.
pub record Catalog : Type 0 where
  pub cloud_of : String → Option (Option String)
  pub operators : List String

-- What `authorize` reads of an operation or a resource; only an operation has an action.
pub record Held : Type 0 where
  pub actor : String
  pub resolved : Resolved
  pub action : Option Action
  pub created_at : ℕ

abbrev pub held_operation : Operation → Held
held_operation op = record {
  actor = op.actor;
  resolved = op.resolved;
  action = some op.action;
  created_at = op.created_at;
}

abbrev pub held_resource : Resource → Held
held_resource r = record { actor = r.actor; resolved = r.resolved; action = none; created_at = 0 }

-- `tenants.load().get(record.get("business_unit"))`.
abbrev pub loaded : World → TenantsSource → Option String → Option BusinessUnit
loaded w source none = none
loaded w source (some name) = unit_now source w.db.teams name

abbrev pub seen_by : Caller → Option BusinessUnit → Result BusinessUnit
seen_by caller none = err not_found
seen_by caller (some unit) = if includes unit caller then ok unit else err not_found

abbrev pub known_cloud : Option (Option String) → Result (Option String)
known_cloud none = err catalog_unavailable
known_cloud (some cloud) = ok cloud

-- A destroy and a drift check still run in an archived team.
abbrev pub is_new_work : Option Action → Bool
is_new_work (some deploy) = true
is_new_work _ = false

abbrev pub is_since : Option ℕ → ℕ → Bool
is_since none at = false
is_since (some since) at = leb since at

-- `_refuse_new_work_on_archived`.
unfoldable pub refuse_new_work : TenantsSource → BusinessUnit → Held → Tx (Unit {0})
unfolding archived_since
refuse_new_work database unit r = do
  since ← gets (archived_since unit.name)
  raise_if (unit.archived && is_new_work r.action && is_since since r.created_at) team_archived
refuse_new_work _ unit r = pure tt

-- The part of `authorize` that a change needs.
unfoldable pub authorize_change :
    TenantsSource → Catalog → Caller → BusinessUnit → Held → Tx (Unit {0})
unfolding place select_target unchanged refuse_new_work
authorize_change source catalog caller unit r = do
  where_to ← lift (place caller unit r.resolved.environment r.resolved.pattern true)
  cloud ← lift (known_cloud (catalog.cloud_of r.resolved.pattern))
  target ← lift (select_target where_to.environment cloud)
  lift (unchanged r.resolved cloud target where_to.environment.subscription_id)
  refuse_new_work source unit r

unfoldable pub authorize_held : TenantsSource → Catalog → Caller → Bool → Held → Tx (Unit {0})
unfolding unit_now includes authorize_change
authorize_held disabled catalog caller change r =
    raise_if (not (str_eq r.actor caller.id)) not_found
authorize_held source catalog caller change r = do
  row ← gets (λ w. loaded w source r.resolved.business_unit)
  unit ← lift (seen_by caller row)
  when change (authorize_change source catalog caller unit r)

unfoldable pub authorize : Config → Catalog → Caller → Bool → Option Held → Tx (Unit {0})
unfolding authorize_held
authorize cfg catalog caller change none = raise not_found
authorize cfg catalog caller change (some r) = authorize_held cfg.tenants catalog caller change r

-- `authorize_reconcile`: operators decide in every unit; who may only see it gets another refusal.
abbrev pub seen_only : Caller → Option BusinessUnit → Result (Unit {0})
seen_only caller none = err not_found
seen_only caller (some unit) = if includes unit caller then err operator_required else err not_found

abbrev pub reconcile_held : TenantsSource → Catalog → Caller → Held → Tx (Unit {0})
reconcile_held disabled catalog caller r = authorize_held disabled catalog caller false r
reconcile_held source catalog caller r = do
  row ← gets (λ w. loaded w source r.resolved.business_unit)
  if intersects caller.groups catalog.operators then pure tt else lift (seen_only caller row)

unfoldable pub authorize_reconcile : Config → Catalog → Caller → Option Held → Tx (Unit {0})
unfolding authorize_held unit_now includes intersects
authorize_reconcile cfg catalog caller none = raise not_found
authorize_reconcile cfg catalog caller (some r) = reconcile_held cfg.tenants catalog caller r

-- An entry of a plan's `changes`.
pub record Change : Type 0 where
  pub address : String
  pub resource_type : String
  pub actions : List String

abbrev pub removes : List String → Change → Bool
removes protected c = str_mem c.resource_type protected && str_mem "delete" c.actions

abbrev pub environment_in : Option String → Option BusinessUnit → Option Environment
environment_in (some name) (some unit) = environment_named name unit.spec.environments
environment_in _ _ = none

abbrev pub guard : Option Environment → Action → List Change → Result (Unit {0})
guard none action changes = ok tt
guard (some env) action changes =
    if is_destroy action && not env.allow_destroy
    then err policy_denied
    else if any (removes env.protected_resource_types) changes
    then err policy_denied
    else ok tt

abbrev pub guarded_environment : TenantsSource → Resolved → World → Option Environment
guarded_environment disabled resolved w = none
guarded_environment source resolved w =
    environment_in resolved.environment (loaded w source resolved.business_unit)

unfoldable pub check_guardrails :
    Config → Resolved → Action → List Change → World → Result (Unit {0})
unfolding unit_now environment_named any str_mem
check_guardrails cfg resolved action changes w =
    guard (guarded_environment cfg.tenants resolved w) action changes
