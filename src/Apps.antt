-- ===== src/Apps.antt =====
-- App rollouts (app/apps.py): an app's state is derived from those of its member operations.
-- `ops` is the snapshot that `load` reads, as the state of each operation by id: the ledger never
-- deletes a row, so every id that an app names has one.
pub mod States
use forgeapi_homelab.Prelude.{
  ℕ, Bool, true, false, Option, none, some, List, [], ◌∷◌, ◌++◌, map, ◌==◌, ◌||◌, not, any, all,
  is_some, if◌then◌else◌,
}
use forgeapi_homelab.Records.{
  State, queued, planning, planned, apply_queued, applying, succeeded, failed, uncertain, App,
  Member, Failover, Teardown,
}
use forgeapi_homelab.Refusals.{Result, ok, err, internal_error, app_gate_mismatch}
use forgeapi_homelab.Ledger.Rows.{is_executing, is_planned, is_uncertain}
use forgeapi_homelab.Ledger.Progress.{is_failed, is_succeeded}

pub data AppState : Type 0 where
  planning_replicas awaiting_replica_approval applying_replicas : AppState
  planning_router awaiting_router_approval applying_router app_ready : AppState
  planning_router_destroy awaiting_router_destroy_approval destroying_router : AppState
  planning_replica_destroy awaiting_replica_destroy_approval destroying_replicas : AppState
  app_destroyed app_failed app_uncertain : AppState

abbrev pub Snapshot : Type 0
Snapshot = ℕ → State

abbrev pub option_list {ℓ} : {A : Type ℓ} → Option A → List A
option_list none = []
option_list (some a) = a ∷ []

abbrev pub option_items {ℓ} : {A : Type ℓ} → Option (List A) → List A
option_items none = []
option_items (some l) = l

abbrev pub router_history : Option ℕ → List ℕ → List ℕ
router_history router [] = option_list router
router_history router (i ∷ is) = i ∷ is

-- Every router operation, oldest first.
abbrev pub router_ops : App → List ℕ
router_ops app = router_history app.router_operation_id app.router_operations

-- The last id whose operation has not failed.
unfoldable pub last_unfailed : Snapshot → List ℕ → Option ℕ
last_unfailed ops [] = none
last_unfailed ops (i ∷ is) =
    let later = last_unfailed ops is in
    if is_some later then later else if is_failed (ops i) then none else some i

abbrev pub or_first : ℕ → Option ℕ → Option ℕ
or_first i none = some i
or_first i (some j) = some j

abbrev pub current_of : Snapshot → List ℕ → Option ℕ
current_of ops [] = none
current_of ops (i ∷ is) = or_first i (last_unfailed ops is)

unfoldable pub current_router : App → Snapshot → Option ℕ
unfolding last_unfailed
current_router app ops = current_of ops (router_ops app)

-- `targets.get(operation_id, initial_primary)`: of two entries the later one counts.
unfoldable pub target_primary : List Failover → ℕ → ℕ → ℕ
target_primary [] id initial = initial
target_primary (f ∷ fs) id initial =
    target_primary fs id (if f.operation_id == id then f.primary else initial)

unfoldable pub last_succeeded : Snapshot → List ℕ → Option ℕ
last_succeeded ops [] = none
last_succeeded ops (i ∷ is) =
    let later = last_succeeded ops is in
    if is_some later then later else if is_succeeded (ops i) then some i else none

abbrev pub primary_at : App → Option ℕ → ℕ
primary_at app none = app.base.initial_primary
primary_at app (some id) = target_primary app.failovers id app.base.initial_primary

unfoldable pub primary_of : App → Snapshot → ℕ
unfolding last_succeeded target_primary
primary_of app ops = primary_at app (last_succeeded ops (router_ops app))

abbrev pub teardown_ops : Option Teardown → List ℕ
teardown_ops none = []
teardown_ops (some t) = option_list t.router ++ option_items t.replicas

abbrev pub member_ids : App → List ℕ
member_ids app = map (λ m. m.operation_id) app.members

unfoldable pub op_ids : App → List ℕ
op_ids app = member_ids app ++ (router_ops app ++ teardown_ops app.teardown)

abbrev pub is_queued : State → Bool
is_queued queued = true
is_queued _ = false

unfoldable pub ids_in : (State → Bool) → Snapshot → List ℕ → List ℕ
ids_in test ops [] = []
ids_in test ops (i ∷ is) = let rest = ids_in test ops is in if test (ops i) then i ∷ rest else rest

unfoldable pub queued_ids : App → Snapshot → List ℕ
unfolding ids_in op_ids
queued_ids app ops = ids_in is_queued ops (op_ids app)

unfoldable pub planned_ids : App → Snapshot → List ℕ
unfolding ids_in op_ids
planned_ids app ops = ids_in is_planned ops (op_ids app)

-- The tables that map a router operation's state; the states they lack raise a `KeyError`.
abbrev pub router_destroy_state : State → Result AppState
router_destroy_state queued = ok planning_router_destroy
router_destroy_state planning = ok planning_router_destroy
router_destroy_state planned = ok awaiting_router_destroy_approval
router_destroy_state apply_queued = ok destroying_router
router_destroy_state applying = ok destroying_router
router_destroy_state _ = err internal_error

abbrev pub router_state : State → Result AppState
router_state queued = ok planning_router
router_state planning = ok planning_router
router_state planned = ok awaiting_router_approval
router_state apply_queued = ok applying_router
router_state applying = ok applying_router
router_state succeeded = ok app_ready
router_state _ = err internal_error

abbrev pub replica_destroy_state : List State → AppState
replica_destroy_state replicas =
    if all is_succeeded replicas
    then app_destroyed
    else if any is_executing replicas
    then destroying_replicas
    else if all is_planned replicas
    then awaiting_replica_destroy_approval
    else planning_replica_destroy

abbrev pub router_destroy_progress : Option State → Result AppState
router_destroy_progress none = ok planning_replica_destroy
router_destroy_progress (some s) =
    if is_succeeded s then ok planning_replica_destroy else router_destroy_state s

abbrev pub destroy_progress : Option State → Option (List State) → Result AppState
destroy_progress router (some replicas) = ok (replica_destroy_state replicas)
destroy_progress router none = router_destroy_progress router

abbrev pub map_state : Snapshot → Option ℕ → Option State
map_state ops none = none
map_state ops (some i) = some (ops i)

abbrev pub map_states : Snapshot → Option (List ℕ) → Option (List State)
map_states ops none = none
map_states ops (some is) = some (map ops is)

abbrev pub teardown_states : Teardown → Snapshot → List State
teardown_states t ops =
    option_list (map_state ops t.router) ++ option_items (map_states ops t.replicas)

unfoldable pub derive_teardown_state : Teardown → Snapshot → Result AppState
unfolding any all
derive_teardown_state t ops =
    if any is_uncertain (teardown_states t ops)
    then ok app_uncertain
    else if any is_failed (teardown_states t ops) || is_some t.error
    then ok app_failed
    else destroy_progress (map_state ops t.router) (map_states ops t.replicas)

abbrev pub replica_states : App → Snapshot → List State
replica_states app ops = map ops (member_ids app)

abbrev pub rollout_states : App → Snapshot → List State
rollout_states app ops =
    replica_states app ops ++ option_list (map_state ops (current_router app ops))

abbrev pub replica_progress : List State → AppState
replica_progress replicas =
    if all is_succeeded replicas
    then planning_router
    else if any is_executing replicas
    then applying_replicas
    else if all is_planned replicas
    then awaiting_replica_approval
    else planning_replicas

abbrev pub rollout_progress : List State → Option State → Result AppState
rollout_progress replicas none = ok (replica_progress replicas)
rollout_progress replicas (some s) = router_state s

unfoldable pub derive_rollout_state : App → Snapshot → Result AppState
unfolding any all current_router
derive_rollout_state app ops =
    if any is_uncertain (rollout_states app ops)
    then ok app_uncertain
    else if any is_failed (rollout_states app ops) || is_some app.error
    then ok app_failed
    else rollout_progress (replica_states app ops) (map_state ops (current_router app ops))

abbrev pub derive_by : App → Snapshot → Option Teardown → Result AppState
derive_by app ops none = derive_rollout_state app ops
derive_by app ops (some t) = derive_teardown_state t ops

unfoldable pub derive_state : App → Snapshot → Result AppState
unfolding derive_rollout_state derive_teardown_state
derive_state app ops = derive_by app ops app.teardown

-- `[current_router(app, ops)]`, `[app["teardown"]["router"]]` and `list(teardown["replicas"])`; an
-- absent value is a `TypeError` later on.
abbrev pub one_id : Option ℕ → Result (List ℕ)
one_id none = err internal_error
one_id (some i) = ok (i ∷ [])

abbrev pub teardown_router : Option Teardown → Option ℕ
teardown_router none = none
teardown_router (some t) = t.router

abbrev pub replicas_gate : Option (List ℕ) → Result (List ℕ)
replicas_gate none = err internal_error
replicas_gate (some is) = ok is

abbrev pub teardown_replicas : Option Teardown → Result (List ℕ)
teardown_replicas none = err internal_error
teardown_replicas (some t) = replicas_gate t.replicas

abbrev pub gate_at : App → Snapshot → AppState → Result (List ℕ)
gate_at app ops awaiting_replica_approval = ok (member_ids app)
gate_at app ops applying_replicas = ok (member_ids app)
gate_at app ops awaiting_router_approval = one_id (current_router app ops)
gate_at app ops applying_router = one_id (current_router app ops)
gate_at app ops awaiting_router_destroy_approval = one_id (teardown_router app.teardown)
gate_at app ops destroying_router = one_id (teardown_router app.teardown)
gate_at app ops awaiting_replica_destroy_approval = teardown_replicas app.teardown
gate_at app ops destroying_replicas = teardown_replicas app.teardown
gate_at app ops _ = err app_gate_mismatch

abbrev pub gate_of : App → Snapshot → Result AppState → Result (List ℕ)
gate_of app ops (ok s) = gate_at app ops s
gate_of app ops (err e) = err e

unfoldable pub gate : App → Snapshot → Result (List ℕ)
unfolding derive_state current_router
gate app ops = gate_of app ops (derive_state app ops)
