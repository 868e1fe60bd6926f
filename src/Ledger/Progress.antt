-- ===== src/Ledger/Progress.antt =====
-- What the worker and the operator record (app/ledger.py: `claim`, `finish`, `interrupted`,
-- `reconcile`, `_record_drift_check`, `_mark_succeeded_resource`).
use forgeapi_homelab.Prelude.{
  ℕ, String, Bool, true, false, Option, none, some, List, [], ◌∷◌, ◌&&◌, ◌||◌, not, is_some,
  or_else, if◌then◌else◌,
}
use forgeapi_homelab.Records.{
  State, planned, succeeded, failed, uncertain, Phase, Operation, Resource, Failure,
  drift_interrupted, activity_interrupted, reconciled_as_failed, ready, destroyed, DriftStatus,
  in_sync, drifted, unknown, operation, operation_state, operation_reconcile, accepted, reached,
  Outcome, outcome_succeeded, outcome_failed, Reconciliation,
}
use forgeapi_homelab.Refusals.{already_reconciled, operation_not_uncertain, never_executed}
use forgeapi_homelab.Tx.{Tx, pure, raise, gets, ◌>>=◌, ◌>>◌, when, event, transaction}
use forgeapi_homelab.Ledger.Rows.{
  phase_states, state_eq, is_check, is_destroy, is_uncertain, find_op, find_res, load, save,
  write_resource,
}
use forgeapi_homelab.Ledger.Release.{restore_reservation}

abbrev pub worker : String
worker = "temporal-worker"

-- `WHERE id=? AND state=?`.
abbrev pub in_state : State → Option Operation → Option Operation
in_state expected none = none
in_state expected (some op) = if state_eq op.state expected then some op else none

abbrev pub start : State → Option Operation → Tx (Option Operation)
start running none = pure none
start running (some op) = do
  op' ← save (record op { state = running })
  event (operation op.id) worker operation_state (reached running)
  pure (some op')

unfoldable pub claim : ℕ → Phase → Tx (Option Operation)
unfolding save event transaction
claim id phase = transaction (do
  row ← gets (λ w. in_state (phase_states phase).0 (find_op id w))
  start (phase_states phase).1 row)

abbrev pub has_drift : Option (List String) → Bool
has_drift (some (d ∷ ds)) = true
has_drift _ = false

abbrev pub is_succeeded : State → Bool
is_succeeded succeeded = true
is_succeeded _ = false

abbrev pub is_failed : State → Bool
is_failed failed = true
is_failed _ = false

-- The verdict of a finished check on its resource's row; nothing else of the row changes.
unfoldable pub drift_checked : Operation → Bool → ℕ → Resource → Resource
drift_checked op done now r =
    if done
    then record r {
      drift_status = some (if has_drift op.drift then drifted else in_sync);
      drift = some (or_else op.drift []);
      drift_error = none;
      drift_checked_at = some now;
    }
    else record r { drift_status = some unknown; drift = none; drift_checked_at = some now }

abbrev pub write_checked : Operation → State → Option Resource → Tx (Unit {0})
write_checked op state none = pure tt
write_checked op state (some r) = do
  now ← gets (λ w. w.clock)
  write_resource (drift_checked op (is_succeeded state) now r)

unfoldable pub record_drift_check : Operation → State → Tx (Unit {0})
unfolding drift_checked write_resource
record_drift_check op state = do row ← gets (find_res op.resource_id); write_checked op state row

abbrev pub created_at_of : Option Resource → Option ℕ
created_at_of none = none
created_at_of (some r) = r.resource_created_at

abbrev pub promoted_from_of : Option Resource → Option ℕ
promoted_from_of none = none
promoted_from_of (some r) = r.resolved.promoted_from

abbrev pub first_given : Option ℕ → Option ℕ → Option ℕ
first_given none other = other
first_given (some n) other = some n

-- The row of a resource after its operation succeeded: the operation's definition, with what was
-- set once at creation kept.
unfoldable pub succeeded_resource : Operation → Option Resource → DriftStatus → ℕ → Resource
succeeded_resource op previous status now =
    let gone = is_destroy op.action in
    record {
      id = op.resource_id;
      actor = op.actor;
      operation_id = op.id;
      state = some (if gone then destroyed else ready);
      resolved = record op.resolved {
        promoted_from = first_given op.resolved.promoted_from (promoted_from_of previous);
      };
      resource_created_at = created_at_of previous;
      managed_objects = if gone then some [] else op.planned_objects;
      outputs = op.outputs;
      drift_status = if gone then none else some status;
      drift_checked_at = if gone then none else some now;
      drift = if gone then none else some [];
      drift_error = none;
    }

unfoldable pub mark_succeeded_resource : Operation → DriftStatus → Tx (Unit {0})
unfolding succeeded_resource write_resource
mark_succeeded_resource op status = do
  row ← gets (find_res op.resource_id)
  now ← gets (λ w. w.clock)
  write_resource (succeeded_resource op row status now)

-- The keyword arguments of `finish`: a given one overrides the operation's own.
pub record Report : Type 0 where
  pub plan_digest : Option String
  pub planned_objects : Option (List String)
  pub drift : Option (List String)
  pub outputs : Option String
  pub error : Option Failure

abbrev pub override {ℓ} : {A : Type ℓ} → Option A → Option A → Option A
override none old = old
override (some new) old = some new

abbrev pub planned_stamp : State → ℕ → Option ℕ → Option ℕ
planned_stamp planned now old = some now
planned_stamp _ now old = old

unfoldable pub reported : Operation → State → Report → ℕ → Operation
reported op state report now = record op {
  state = state;
  plan_digest = override report.plan_digest op.plan_digest;
  planned_objects = override report.planned_objects op.planned_objects;
  drift = override report.drift op.drift;
  outputs = override report.outputs op.outputs;
  error = override report.error op.error;
  planned_at = planned_stamp state now op.planned_at;
}

unfoldable pub settle_resource : Operation → State → Tx (Unit {0})
unfolding record_drift_check mark_succeeded_resource restore_reservation
settle_resource op state =
    if is_check op.action
    then when (is_succeeded state || is_failed state) (record_drift_check op state)
    else if is_succeeded state
    then mark_succeeded_resource op in_sync
    else when (is_failed state) (restore_reservation op)

unfoldable pub record_finish : Operation → State → Report → Tx (Unit {0})
unfolding reported save event settle_resource
record_finish op state report = do
  now ← gets (λ w. w.clock)
  op' ← save (reported op state report now)
  event (operation op.id) worker operation_state (reached state)
  settle_resource op' state

abbrev pub unfenced : Operation → Option Operation → Bool
unfenced op none = false
unfenced op (some current) = state_eq current.state op.state

-- `op` is the worker's copy from its claim. A result is dropped once the row has moved on.
unfoldable pub finish_in : Operation → State → Report → Tx (Unit {0})
unfolding record_finish
finish_in op state report = do
  current ← gets (find_op op.id)
  when (unfenced op current) (record_finish op state report)

unfoldable pub finish : Operation → State → Report → Tx (Unit {0})
unfolding finish_in transaction
finish op state report = transaction (finish_in op state report)

abbrev pub outcome_eq : Outcome → Outcome → Bool
outcome_eq outcome_succeeded outcome_succeeded = true
outcome_eq outcome_failed outcome_failed = true
outcome_eq _ _ = false

abbrev pub outcome_state : Outcome → State
outcome_state outcome_succeeded = succeeded
outcome_state outcome_failed = failed

abbrev pub outcome_error : Outcome → Option Failure
outcome_error outcome_succeeded = none
outcome_error outcome_failed = some reconciled_as_failed

abbrev pub settle : Outcome → Operation → Tx (Unit {0})
settle outcome_succeeded op = mark_succeeded_resource op unknown
settle outcome_failed op = restore_reservation op

unfoldable pub decided : Operation → String → Outcome → String → ℕ → Operation
decided op actor outcome reason now = record op {
  state = outcome_state outcome;
  error = outcome_error outcome;
  reconciliation = some (record { outcome = outcome; actor = actor; reason = reason; at = now });
}

unfoldable pub record_decision : Operation → String → Outcome → String → Tx Operation
unfolding event save mark_succeeded_resource restore_reservation decided
record_decision op actor outcome reason = do
  now ← gets (λ w. w.clock)
  event (operation op.id) actor operation_reconcile accepted
  op' ← save (decided op actor outcome reason now)
  event (operation op.id) actor operation_state (reached (outcome_state outcome))
  settle outcome op'
  pure op'

abbrev pub is_success : Outcome → Bool
is_success outcome_succeeded = true
is_success outcome_failed = false

abbrev pub reconcile_found :
    Operation → String → Outcome → String → Option Reconciliation → Tx Operation
reconcile_found op actor outcome reason (some existing) =
    if outcome_eq existing.outcome outcome then pure op else raise already_reconciled
reconcile_found op actor outcome reason none =
    if not (is_uncertain op.state)
    then raise operation_not_uncertain
    else if is_success outcome && not (is_some op.plan_digest)
    then raise never_executed
    else record_decision op actor outcome reason

unfoldable pub reconcile : ℕ → String → Outcome → String → Tx Operation
unfolding record_decision transaction load
reconcile id actor outcome reason =
    transaction (do op ← load id; reconcile_found op actor outcome reason op.reconciliation)

unfoldable pub interrupt_check : Operation → Tx (Unit {0})
unfolding save event record_drift_check
interrupt_check op = do
  op' ← save (record op { state = failed; error = some drift_interrupted })
  event (operation op.id) worker operation_state (reached failed)
  record_drift_check op' failed

unfoldable pub interrupt_change : Operation → Tx (Unit {0})
unfolding save event
interrupt_change op = do
  save (record op { state = uncertain; error = some activity_interrupted })
  event (operation op.id) worker operation_state (reached uncertain)

abbrev pub in_phase : Phase → Operation → Bool
in_phase phase op =
    state_eq op.state (phase_states phase).0 || state_eq op.state (phase_states phase).1

abbrev pub interrupt : Phase → Option Operation → Tx (Unit {0})
interrupt phase none = pure tt
interrupt phase (some op) =
    if in_phase phase op
    then (if is_check op.action then interrupt_check op else interrupt_change op)
    else pure tt

unfoldable pub interrupted : ℕ → Phase → Tx (Unit {0})
unfolding interrupt_check interrupt_change transaction
interrupted id phase = transaction (do row ← gets (find_op id); interrupt phase row)
