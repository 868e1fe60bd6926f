-- ===== src/Requests/Apps.antt =====
-- What a caller's requests on an app go through (app/apps.py: `load`, `require_change`,
-- `refuse_member_change`, `approve`, `discard`; app/main.py, `approve_app`).
use forgeapi_homelab.Prelude.{
  ℕ, String, Bool, true, false, Option, none, some, List, [], ◌∷◌, ◌==◌, ◌&&◌, not, map, any, all,
  is_some,
}
use forgeapi_homelab.Refusals.{
  not_found, internal_error, app_gate_mismatch, app_discard_unavailable, app_member,
}
use forgeapi_homelab.Records.{App, Member, Operation, State, failed, missing, accepted, named}
use forgeapi_homelab.Tenants.{Caller}
use forgeapi_homelab.Config.{Config}
use forgeapi_homelab.Tables.{find}
use forgeapi_homelab.Tx.{Tx, World, pure, raise, raise_if, lift, gets, ◌>>=◌, ◌>>◌}
use forgeapi_homelab.Ledger.Rows.{find_op, find_res}
use forgeapi_homelab.Ledger.Rollouts.{app_key}
use forgeapi_homelab.Ledger.Reads.{app_for_resource, record_app_event}
use forgeapi_homelab.Ledger.Execution.{execute_many, digest_of}
use forgeapi_homelab.Ledger.Release.{discard}
use forgeapi_homelab.Apps.{
  AppState, app_failed, app_destroyed, Snapshot, op_ids, planned_ids, derive_state, gate,
}
use forgeapi_homelab.Policy.{Catalog, Change, Held, authorize, check_guardrails}
use forgeapi_homelab.Requests.{held_op, held_res, guard_operation}

-- What `authorize` reads of an app, which has no pattern: it is only asked who may see it.
abbrev pub held_app : App → Held
held_app a = record {
  actor = a.actor;
  resolved = record {
    business_unit = a.base.business_unit;
    environment = a.base.environment;
    pattern = "";
    estimated_monthly_cost = missing;
    input_refs = [];
    labels = [];
    cloud = none;
    cloud_target = none;
    subscription_id = none;
    previous_operation_id = none;
    promoted_from = none;
    team_revision = none;
    other = "";
  };
  action = none;
  created_at = a.created_at;
}

abbrev pub state_of : Option Operation → State
state_of none = failed
state_of (some op) = op.state

-- `load(app)`: an operation without a row is a `KeyError`, so the state of none is never asked for.
abbrev pub snapshot : World → Snapshot
snapshot w i = state_of (find_op i w)

abbrev pub lacks_row : List ℕ → World → Bool
lacks_row ids w = any (λ i. not (is_some (find_op i w))) ids

unfoldable pub load_ops : App → Tx Snapshot
unfolding op_ids any
load_ops app = do lost ← gets (lacks_row (op_ids app)); raise_if lost internal_error; gets snapshot

abbrev pub one_of : List ℕ → ℕ → Bool
one_of ids i = any (λ j. j == i) ids

-- `set(plan_digests) != set(wanted)`, negated.
unfoldable pub same_ids : List ℕ → List ℕ → Bool
unfolding any all
same_ids xs ys = all (one_of ys) xs && all (one_of xs) ys

abbrev pub named_ids : List (ℕ × String) → List ℕ
named_ids digests = map (λ (e : ℕ × String). e.0) digests

abbrev pub digests_for : List (ℕ × String) → List ℕ → List (ℕ × String)
digests_for digests wanted = map (λ i. (i, digest_of i digests)) wanted

-- The operation of the first member; an app has at least one.
abbrev pub first_member : List Member → World → Option Operation
first_member [] w = none
first_member (m ∷ ms) w = find_op m.operation_id w

abbrev pub is_failed_app : AppState → Bool
is_failed_app app_failed = true
is_failed_app _ = false

abbrev pub is_destroyed_app : AppState → Bool
is_destroyed_app app_destroyed = true
is_destroyed_app _ = false

module _ (cfg : Config) (catalog : Catalog) (changes : Operation → List Change)
    (caller : Caller) where
  -- The loop of `approve` over the operations at the gate.
  unfoldable pub check_each : List ℕ → Tx (Unit {0})
  unfolding authorize check_guardrails
  check_each [] = pure tt
  check_each (id ∷ ids) = do
    row ← gets (find_op id)
    authorize cfg catalog caller true (held_op row)
    guarded ← gets (guard_operation cfg catalog changes caller id row)
    lift guarded
    check_each ids

  unfoldable pub approve : App → List (ℕ × String) → Tx (List Operation)
  unfolding load_ops gate same_ids check_each execute_many
  approve app digests = do
    ops ← load_ops app
    wanted ← lift (gate app ops)
    raise_if (not (same_ids (named_ids digests) wanted)) app_gate_mismatch
    check_each wanted
    execute_many cfg (digests_for digests wanted) caller.id (some app.id)

  abbrev pub approve_found : Option App → List (ℕ × String) → Tx (List Operation)
  approve_found none digests = raise not_found
  approve_found (some app) digests = do
    authorize cfg catalog caller false (some (held_app app))
    approve app digests

  unfoldable pub approve_app : ℕ → List (ℕ × String) → Tx (List Operation)
  unfolding authorize approve find
  approve_app app_id digests = do
    row ← gets (λ w. find app_key app_id w.db.apps)
    approve_found row digests

  unfoldable pub require_change : App → Tx (Unit {0})
  unfolding authorize
  require_change app = do
    row ← gets (first_member app.members)
    authorize cfg catalog caller true (held_op row)

  unfoldable pub discard_each : List ℕ → Tx (Unit {0})
  unfolding discard
  discard_each [] = pure tt
  discard_each (id ∷ ids) = do discard id caller.id; discard_each ids

  abbrev pub discard_planned : ℕ → List ℕ → Tx (List ℕ)
  discard_planned app_id [] = pure []
  discard_planned app_id (id ∷ ids) = do
    record_app_event app_id caller.id (named "app.discard") accepted
    discard_each (id ∷ ids)
    pure (id ∷ ids)

  abbrev pub discard_found : Option App → Tx (List ℕ)
  discard_found none = raise not_found
  discard_found (some app) = do
    authorize cfg catalog caller false (some (held_app app))
    ops ← load_ops app
    require_change app
    state ← lift (derive_state app ops)
    raise_if (not (is_failed_app state)) app_discard_unavailable
    discard_planned app.id (planned_ids app ops)

  unfoldable pub discard_app : ℕ → Tx (List ℕ)
  unfolding authorize load_ops require_change derive_state planned_ids record_app_event discard_each
      find
  discard_app app_id = do row ← gets (λ w. find app_key app_id w.db.apps); discard_found row

  -- A resource of an app is changed through the app.
  abbrev pub refuse_member : Option App → Tx (Unit {0})
  refuse_member none = pure tt
  refuse_member (some owner) = do
    ops ← load_ops owner
    state ← lift (derive_state owner ops)
    raise_if (not (is_destroyed_app state)) app_member

  unfoldable pub refuse_member_change : ℕ → Tx (Unit {0})
  unfolding authorize app_for_resource load_ops derive_state
  refuse_member_change rid = do
    row ← gets (find_res rid)
    authorize cfg catalog caller false (held_res row)
    owner ← gets (app_for_resource rid)
    refuse_member owner
