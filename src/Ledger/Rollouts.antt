-- ===== src/Ledger/Rollouts.antt =====
-- App rollouts in the ledger (app/ledger.py: `_replay_app`, `accept_app`, `accept_router`,
-- `fail_app`, `accept_failover`).
use Prim.Native.String.{◌++◌ as str_append}
use forgeapi_homelab.Prelude.{
  ℕ, suc, String, Bool, false, Option, none, some, List, [], ◌∷◌, ◌++◌, ◌==◌, ◌&&◌, ◌||◌, not,
  is_some, str_eq, length, if◌then◌else◌,
}
use forgeapi_homelab.Records.{
  Operation, App, AppBase, Member, Failover, Resolved, app, app_create, app_failover, app_router,
  app_state, accepted, refused, reached, failed,
}
use forgeapi_homelab.Refusals.{ok, idempotency_key_reused, resource_changed, internal_error}
use forgeapi_homelab.Config.{Config}
use forgeapi_homelab.Tables.{find, update}
use forgeapi_homelab.Keys.{system_key, app_text, str}
use forgeapi_homelab.Tx.{
  Tx, World, pure, raise, present, gets, when, raise_if, event, transaction, ◌>>=◌, ◌>>◌,
}
use forgeapi_homelab.Ledger.Rows.{find_op, unlink_plan, uuid4}
use forgeapi_homelab.Ledger.Acceptance.{Intent, Budget, accept_in}
use forgeapi_homelab.Ledger.Progress.{worker, is_succeeded}
use forgeapi_homelab.Apps.{router_ops, option_list}

abbrev pub app_key : App → ℕ
app_key a = a.id

-- `json.loads(con.execute("SELECT body FROM apps WHERE id=?").fetchone()[0])`.
unfoldable pub load_app : ℕ → Tx App
load_app id w = (present (find app_key id w.db.apps) internal_error, w)

abbrev pub stamped_app : ℕ → App → App
stamped_app now a = record a { updated_at = now }

unfoldable pub save_app : App → Tx App
save_app a w = (
  ok (stamped_app w.clock a),
  record w { db = record w.db { apps = update app_key (stamped_app w.clock a) w.db.apps } },
)

unfoldable pub insert_app : App → Tx (Unit {0})
insert_app a w = (ok tt, record w { db = record w.db { apps = w.db.apps ++ a ∷ [] } })

unfoldable pub find_keyed_app : String → String → List App → Option App
find_keyed_app actor key [] = none
find_keyed_app actor key (a ∷ as') =
    if str_eq a.actor actor && str_eq a.request_key key
    then some a
    else find_keyed_app actor key as'

abbrev pub same_material : String → Option App → Tx (Option App)
same_material digest none = pure none
same_material digest (some a) =
    if str_eq a.fingerprint digest then pure (some a) else raise idempotency_key_reused

unfoldable pub replay_app_row : String → String → String → Tx (Option App)
unfolding find_keyed_app
replay_app_row actor key digest = do
  row ← gets (λ w. find_keyed_app actor key w.db.apps)
  same_material digest row

-- One entry of `replicas`: `(intent, resolved, budget)`.
pub record Proposal : Type 0 where
  pub intent : Intent
  pub resolved : Resolved
  pub budget : Option Budget

abbrev pub replica_key : ℕ → ℕ → String
replica_key app_id index = system_key (app_text app_id ∷ "replica" ∷ str index ∷ [])

-- The loop of `accept_app`: the members in request order, and the blockers that expired.
unfoldable pub accept_replicas :
    Config → String → ℕ → ℕ → List Proposal → Tx (List Member × List Operation)
unfolding accept_in
accept_replicas cfg actor app_id index [] = pure ([], [])
accept_replicas cfg actor app_id index (p ∷ ps) = do
  (op, blocker) ← accept_in cfg actor (replica_key app_id index) p.intent p.resolved p.budget none
  (members, expired) ← accept_replicas cfg actor app_id (suc index) ps
  pure (
    record { index = index; operation_id = op.id; resource_id = op.resource_id } ∷ members,
    option_list blocker ++ expired,
  )

unfoldable pub new_app : ℕ → String → String → String → AppBase → List Member → ℕ → App
new_app id actor key digest base members now = record {
  id = id;
  actor = actor;
  request_key = key;
  fingerprint = digest;
  base = base;
  members = members;
  router_operation_id = none;
  router_resource_id = none;
  router_operations = [];
  primary = base.initial_primary;
  failovers = [];
  teardowns = 0;
  teardown = none;
  teardown_history = [];
  error = none;
  created_at = now;
  updated_at = now;
}

abbrev pub Admitted : Type 0
Admitted = App × List Operation

unfoldable pub accept_app_new :
    Config → String → String → String → List Proposal → AppBase → Tx Admitted
unfolding uuid4 accept_replicas new_app event insert_app
accept_app_new cfg actor key digest replicas base = do
  app_id ← uuid4 cfg
  (members, expired) ← accept_replicas cfg actor app_id 0 replicas
  now ← gets (λ w. w.clock)
  let row = new_app app_id actor key digest base members now
  event (app app_id) actor app_create accepted
  insert_app row
  pure (row, expired)

abbrev pub replayed_app : Option App → Tx Admitted → Tx Admitted
replayed_app (some a) rest = pure (a, [])
replayed_app none rest = rest

unfoldable pub accept_app_in :
    Config → String → String → String → List Proposal → AppBase → Tx Admitted
unfolding replay_app_row accept_app_new
accept_app_in cfg actor key digest replicas base = do
  existing ← replay_app_row actor key digest
  replayed_app existing (accept_app_new cfg actor key digest replicas base)

unfoldable pub unlink_plans : List Operation → Tx (Unit {0})
unfolding unlink_plan
unlink_plans [] = pure tt
unlink_plans (op ∷ ops) = unlink_plan op >> unlink_plans ops

-- `accept_app`: every replica and the app's row in one transaction.
unfoldable pub accept_app : Config → String → String → String → List Proposal → AppBase → Tx App
unfolding accept_app_in transaction unlink_plans
accept_app cfg actor key material replicas base = do
  (row, expired) ←
      transaction (accept_app_in cfg actor key (cfg.fingerprint material) replicas base)
  unlink_plans expired
  pure row

abbrev pub router_key : ℕ → String
router_key app_id = system_key (app_text app_id ∷ "router" ∷ [])

unfoldable pub accept_router_in : Config → ℕ → Proposal → Tx Admitted
unfolding load_app accept_in save_app
accept_router_in cfg app_id p = do
  row ← load_app app_id
  if is_some row.router_operation_id || is_some row.error then pure (row, []) else do
    (op, blocker) ← accept_in cfg row.actor (router_key app_id) p.intent p.resolved p.budget none
    row' ←
        save_app (record row {
          router_operation_id = some op.id;
          router_resource_id = some op.resource_id;
        })
    pure (row', option_list blocker)

unfoldable pub accept_router : Config → ℕ → Proposal → Tx App
unfolding accept_router_in transaction unlink_plans
accept_router cfg app_id p = do
  (row, expired) ← transaction (accept_router_in cfg app_id p)
  unlink_plans expired
  pure row

-- Whether the rollout's first router has succeeded.
abbrev pub succeeded_op : Option Operation → Bool
succeeded_op none = false
succeeded_op (some op) = is_succeeded op.state

abbrev pub first_ready : World → List ℕ → Bool
first_ready w [] = false
first_ready w (i ∷ is) = succeeded_op (find_op i w)

unfoldable pub record_failure : App → String → Bool → Tx App
unfolding save_app event
record_failure row reason refusal = do
  row' ← save_app (record row { error = some reason })
  when refusal (event (app row.id) worker app_router refused)
  event (app row.id) worker app_state (reached failed)
  pure row'

unfoldable pub fail_app_in : ℕ → String → Bool → Tx App
unfolding load_app record_failure
fail_app_in app_id reason refusal = do
  row ← load_app app_id
  ready ← gets (λ w. first_ready w (router_ops row))
  if is_some row.error || is_some row.teardown || ready
      then pure row
      else record_failure row reason refusal

unfoldable pub fail_app : ℕ → String → Bool → Tx App
unfolding fail_app_in transaction
fail_app app_id reason refusal = transaction (fail_app_in app_id reason refusal)

-- `_app_for_update`: the app as it was when the request was validated.
unfoldable pub app_for_update : ℕ → ℕ → Tx App
unfolding load_app
app_for_update app_id updated_at = do
  row ← load_app app_id
  raise_if (not (row.updated_at == updated_at)) resource_changed
  pure row

abbrev pub caller_key : String → String → String
caller_key actor key = str_append actor (str_append ":" key)

unfoldable pub find_failover : String → List Failover → Option Failover
find_failover key [] = none
find_failover key (f ∷ fs) = if str_eq f.key key then some f else find_failover key fs

abbrev pub Switched : Type 0
Switched = App × ℕ × List Operation

abbrev pub replayed_failover : String → App → Option Failover → Tx Switched → Tx Switched
replayed_failover digest row none rest = rest
replayed_failover digest row (some f) rest =
    if str_eq f.fingerprint digest
    then pure (row, f.operation_id, [])
    else raise idempotency_key_reused

-- The row after a failover to `primary` by the router operation `id`.
abbrev pub switched : App → ℕ → ℕ → String → String → App
switched row id primary key digest = record row {
  router_operations = router_ops row ++ id ∷ [];
  router_operation_id = some id;
  primary = primary;
  failovers =
      row.failovers
      ++ record { operation_id = id; primary = primary; key = key; fingerprint = digest } ∷ [];
}

unfoldable pub failover_new : Config → String → ℕ → String → String → Proposal → ℕ → ℕ → Tx Switched
unfolding app_for_update accept_in event save_app
failover_new cfg actor app_id key digest p primary updated_at = do
  row ← app_for_update app_id updated_at
  (op, blocker) ←
      accept_in cfg actor
        (system_key (app_text app_id ∷ "router" ∷ str (length (router_ops row)) ∷ [])) p.intent
        p.resolved p.budget none
  event (app app_id) actor app_failover accepted
  row' ← save_app (switched row op.id primary (caller_key actor key) digest)
  pure (row', op.id, option_list blocker)

unfoldable pub accept_failover_in :
    Config → String → ℕ → String → String → Proposal → ℕ → ℕ → Tx Switched
unfolding load_app find_failover failover_new
accept_failover_in cfg actor app_id key digest p primary updated_at = do
  row ← load_app app_id
  replayed_failover digest row (find_failover (caller_key actor key) row.failovers)
      (failover_new cfg actor app_id key digest p primary updated_at)

-- `accept_failover`. An app without a router has no failover: app/apps.py asks for a ready app.
unfoldable pub accept_failover :
    Config → String → ℕ → String → String → Proposal → ℕ → ℕ → Tx (App × ℕ)
unfolding accept_failover_in transaction unlink_plans
accept_failover cfg actor app_id key material p primary updated_at = do
  (row, id, expired) ←
      transaction
        (accept_failover_in cfg actor app_id key (cfg.fingerprint material) p primary updated_at)
  unlink_plans expired
  pure (row, id)
