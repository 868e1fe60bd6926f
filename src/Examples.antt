-- ===== src/Examples.antt =====
-- A small deployment of the platform, on which the operations run.
pub mod Costs
pub mod Placements
pub mod Promotions
pub mod Requests
pub mod Reservations
pub mod Teams
use forgeapi_homelab.Prelude.{
  ℕ, String, ◌≡◌, refl, true, false, none, some, List, [], ◌∷◌, All, arith, any, all, ◌==◌, ◌+◌,
  Option, if◌then◌else◌,
}
use forgeapi_homelab.Refusals.{ok}
use forgeapi_homelab.Records.{
  Resource, deploy, drift_check, State, plan, amount, Resolved, Operation, App, Db, planned, failed,
  uncertain, queued, planning, activity_interrupted,
}
use forgeapi_homelab.Tenants.{
  Caller, Environment, BusinessUnit, Placement, place, select_unit, includes,
}
use forgeapi_homelab.Tenants.Access.{IsAllowed, place_safe}
use forgeapi_homelab.Apps.{
  Snapshot, awaiting_replica_approval, derive_state, derive_rollout_state, current_router,
  last_unfailed, gate,
}
use forgeapi_homelab.Apps.States.{Tested, derive_state_priority, gate-planned}
use forgeapi_homelab.Keys.Disjoint.{system_key-injective}
use forgeapi_homelab.Ledger.Replays.{accept-replays}
use forgeapi_homelab.Ledger.Release.{discard, with_cost}
use forgeapi_homelab.Activities.{
  run_drift_check, drift_found, TerraformRun, plan_made, apply_raised, drift_raised,
  run_operation_phase,
}
use forgeapi_homelab.Activities.Runs.{Ran, run_settles}
use forgeapi_homelab.Activities.Checks.{settled, undrifted_row, plans_after, drift_check_harmless}
use forgeapi_homelab.Config.{Config, disabled}
use forgeapi_homelab.Tx.{World, ◌>>=◌}
use forgeapi_homelab.Tables.{find, update, upsert, delete}
use forgeapi_homelab.Ledger.Rows.{find_op, find_res}
use forgeapi_homelab.Ledger.Acceptance.{Intent, accept, find_keyed}
use forgeapi_homelab.Ledger.Progress.{claim, finish, interrupted, Report}
use forgeapi_homelab.Ledger.Lifecycle.Evolution.{IsSound}
use forgeapi_homelab.Ledger.Lifecycle.History.{
  Reach, start, after, call_accept, call_claim, call_interrupted, Later, Reach-exclusive,
  Reach-Later, Reach-Evolved,
}
use forgeapi_homelab.Ledger.Lifecycle.Claims.{claim_once}
use forgeapi_homelab.Workflows.Phase.{HasLeft, run_phase, phase_settles, lost as lost_worker}
use forgeapi_homelab.Ledger.Lifecycle.Locks.{LocksKept, locks, Reach-LockSteps}
use forgeapi_homelab.Ledger.Audit.{Logs}
use forgeapi_homelab.Ledger.Audit.Calls.{Reach-Logs}
use forgeapi_homelab.Ledger.Lifecycle.Fence.{late_finish}

-- The sum where nothing has to be rounded.
abbrev exact_sum : List ℕ → Option ℕ
exact_sum [] = some 0
exact_sum (n ∷ ns) = elim (exact_sum ns) [ none ↦ none | some m ↦ some (n + m) ]

abbrev pub settings : Config
settings = record {
  plan_max_age = some 3600;
  fingerprint = λ s. s;
  uuid = λ n. n;
  tenants = disabled;
  float_add = λ a b. some (a + b);
  float_sum = exact_sum;
}

distinct : (m n : ℕ) → settings.uuid m ≡ settings.uuid n → m ≡ n
distinct m n e = e

abbrev pub network : Resolved
network = record {
  business_unit = none;
  environment = none;
  pattern = "network";
  estimated_monthly_cost = amount 12;
  input_refs = [];
  labels = [];
  cloud = none;
  cloud_target = none;
  subscription_id = none;
  previous_operation_id = none;
  promoted_from = none;
  team_revision = none;
  other = "";
}

abbrev pub request : Intent
request = record { action = deploy; resource_id = none; body = "deploy network" }

abbrev pub no_rows : Db
no_rows = record {
  teams = [];
  team_revisions = [];
  operations = [];
  resources = [];
  apps = [];
  events = [];
}

abbrev pub fresh : World
fresh = record { db = no_rows; plans = []; clock = 100; drawn = 0 }

fresh-IsSound : IsSound settings fresh
unfolding find
fresh-IsSound = record { consistent = tt; fresh = λ n h. refl }

abbrev pub accepted : World
accepted = (accept settings "ada" "k1" request network none none fresh).1

abbrev pub claimed : World
claimed = (claim 1 plan accepted).1

abbrev lost : World
lost = (interrupted 1 plan claimed).1

reach_accepted : Reach settings fresh accepted
reach_accepted = after start (call_accept "ada" "k1" request network none none)

abbrev pub row : State → Operation
row s = record {
  id = 1;
  resource_id = 0;
  actor = "ada";
  request_key = "k1";
  fingerprint = "deploy network";
  action = deploy;
  state = s;
  resolved = network;
  created_at = 100;
  updated_at = 100;
  planned_at = none;
  plan_digest = none;
  previous_estimated_monthly_cost = some 0;
  planned_objects = none;
  drift = none;
  outputs = none;
  error = none;
  discarded = false;
  expired = false;
  reconciliation = none;
}

accepted-row : find_op 1 accepted ≡ some (row queued)
unfolding accept find update ◌>>=◌
accepted-row = refl

abbrev network_op : ℕ
network_op = 1

one_holder : network_op ≡ network_op
one_holder =
    Reach-exclusive settings distinct network_op network_op (row queued) (row queued) fresh-IsSound
      reach_accepted accepted-row accepted-row refl refl refl

reach_lost : Reach settings accepted lost
reach_lost = after (after start (call_claim 1 plan)) (call_interrupted 1 plan)

accepted-IsSound : IsSound settings accepted
accepted-IsSound = (Reach-Evolved settings distinct fresh-IsSound reach_accepted).sound

history : (p : Operation) × (find_op network_op lost ≡ some p) × Later (row queued) p
history =
    Reach-Later settings distinct network_op (row queued) accepted-IsSound reach_lost accepted-row

claimed-row : find_op network_op claimed ≡ some (row planning)
unfolding claim accept find update ◌>>=◌
claimed-row = refl

claimed-reply : (claim network_op plan accepted).0 ≡ ok (some (row planning))
unfolding claim accept find update ◌>>=◌
claimed-reply = refl

second_claim : claim network_op plan lost ≡ (ok none, lost)
second_claim =
    claim_once settings distinct network_op plan accepted lost (row planning) accepted-IsSound
      claimed-reply (after start (call_interrupted network_op plan))

abbrev lost_row : Operation
lost_row = record (row uncertain) { error = some activity_interrupted }

lost-row : find_op network_op lost ≡ some lost_row
unfolding interrupted claim accept find update ◌>>=◌
lost-row = refl

abbrev nothing : Report
nothing = record {
  plan_digest = none;
  planned_objects = none;
  drift = none;
  outputs = none;
  error = none;
}

late_result : finish (row planning) planned nothing lost ≡ (ok tt, lost)
late_result =
    late_finish settings distinct (row planning) lost_row planned nothing lost lost
      (Reach-Evolved settings distinct accepted-IsSound reach_lost).sound start lost-row
      (omega arith)

abbrev pub shop : App
shop = record {
  id = 7;
  actor = "ada";
  request_key = "k2";
  fingerprint = "shop";
  base = record {
    name = "shop";
    business_unit = none;
    environment = none;
    caller_groups = [];
    initial_primary = 0;
    other = "";
  };
  members =
      record { index = 0; operation_id = 1; resource_id = 0 }
      ∷ record { index = 1; operation_id = 3; resource_id = 2 }
      ∷ [];
  router_operation_id = none;
  router_resource_id = none;
  router_operations = [];
  primary = 0;
  failovers = [];
  teardowns = 0;
  teardown = none;
  teardown_history = [];
  error = none;
  created_at = 100;
  updated_at = 100;
}

abbrev all_planned : Snapshot
all_planned i = planned

one_failed : Tested false true (derive_state shop (λ i. if i == 3 then failed else planned))
unfolding any all current_router last_unfailed
one_failed = derive_state_priority shop (λ i. if i == 3 then failed else planned)

shop-awaits : derive_state shop all_planned ≡ ok awaiting_replica_approval
unfolding derive_state derive_rollout_state any all current_router last_unfailed
shop-awaits = refl

shop-gate : gate shop all_planned ≡ ok (1 ∷ 3 ∷ [])
unfolding gate derive_state derive_rollout_state any all current_router last_unfailed
shop-gate = refl

shop_approval : All (λ i. all_planned i ≡ planned) (1 ∷ 3 ∷ [])
shop_approval =
    gate-planned shop all_planned awaiting_replica_approval (1 ∷ 3 ∷ []) shop-awaits refl shop-gate

abbrev key_parts : List String
key_parts = "app" ∷ "0" ∷ []

same_parts : key_parts ≡ key_parts
same_parts =
    system_key-injective "app" "app" ("0" ∷ []) ("0" ∷ []) (refl, (refl, tt)) (refl, (refl, tt))
      refl

abbrev pub ada : Caller
ada = record { id = "ada"; groups = "web" ∷ [] }

abbrev pub test_environment : Environment
test_environment = record {
  name = "test";
  subscription_id = none;
  groups = [];
  network = "";
  budget_monthly = none;
  targets = [];
  protected_resource_types = [];
  allow_destroy = false;
}

abbrev pub web_team : BusinessUnit
web_team = record {
  name = "web";
  spec = record {
    groups = "web" ∷ [];
    inject = "";
    patterns = "network" ∷ [];
    regions_allowed = [];
    region_default = none;
    environments = test_environment ∷ [];
  };
  archived = false;
  revision = none;
}

abbrev test_placement : Placement
test_placement = record { unit = web_team; environment = test_environment }

web-selected : select_unit ada (web_team ∷ []) none ≡ ok web_team
unfolding select_unit
web-selected = refl

web-placed : place ada web_team (some "test") "network" false ≡ ok test_placement
unfolding place
web-placed = refl

ada_places :
    (includes web_team ada ≡ true) × IsAllowed ada web_team "test" "network" false test_placement
ada_places =
    place_safe ada (web_team ∷ []) none web_team "test" "network" false test_placement web-selected
      web-placed

abbrev check_row : Operation
check_row = record (row planning) { action = drift_check }

network_unharmed :
    settled 0 (run_drift_check check_row true (drift_found [] false 3) claimed).1
    ≡ (undrifted_row (find_res 0 claimed), plans_after true check_row claimed)
network_unharmed = drift_check_harmless 0 check_row true (drift_found [] false 3) claimed refl

-- The commands of a run: a plan with one object, then a provider that fails to apply it.
abbrev outage : TerraformRun
outage = record {
  rebuilds = true;
  saved_digest = "d1";
  plan_run = plan_made false "d1" [] ("net" ∷ []);
  apply_run = apply_raised;
  drift_run = drift_raised;
}

plan_ends : Ran network_op (run_operation_phase outage network_op plan accepted)
plan_ends = run_settles outage network_op plan (row planning) accepted claimed-reply

accepted-keyed : find_keyed "ada" "k1" accepted.db.operations ≡ some (row queued)
unfolding find_keyed accept find update ◌>>=◌
accepted-keyed = refl

request_again :
    accept settings "ada" "k1" request network none none accepted ≡ (ok (row queued), accepted)
request_again =
    accept-replays settings "ada" "k1" request network none none (row queued) accepted
      accepted-keyed

abbrev reviewed : World
reviewed = (finish (row planning) planned (record nothing { plan_digest = some "d1" }) claimed).1

abbrev planned_row : Operation
planned_row = record (row planned) { planned_at = some 100; plan_digest = some "d1" }

reviewed-row : find_op network_op reviewed ≡ some planned_row
unfolding finish claim accept find update ◌>>=◌
reviewed-row = refl

abbrev pub reserved : Resource
reserved = record {
  id = 0;
  actor = "ada";
  operation_id = network_op;
  state = none;
  resolved = network;
  resource_created_at = some 100;
  managed_objects = none;
  outputs = none;
  drift_status = none;
  drift_checked_at = none;
  drift = none;
  drift_error = none;
}

network_locked : LocksKept (locks fresh.db.operations) (locks accepted.db.operations)
network_locked = Reach-LockSteps settings distinct fresh-IsSound reach_accepted

network_logged : Logs fresh accepted
network_logged = Reach-Logs settings reach_accepted

-- A worker that was lost right after its claim.
plan_lost : HasLeft network_op plan (run_phase (lost_worker claimed) network_op plan accepted)
plan_lost = phase_settles (lost_worker claimed) network_op plan accepted (row planning, claimed-row)
