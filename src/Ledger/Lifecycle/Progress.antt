-- ===== src/Ledger/Lifecycle/Progress.antt =====
-- `claim`, `finish`, `interrupted` and `reconcile` of app/ledger.py against the diagram.
use forgeapi_homelab.Prelude.{
  ℕ, String, ◌≡◌, refl, true, false, Option, none, some, arith, ◌&&◌, not, is_some,
}
use forgeapi_homelab.Records.{
  State, failed, uncertain, Phase, plan, apply, Operation, Resource, Outcome, outcome_succeeded,
  outcome_failed, Reconciliation, DriftStatus, activity_interrupted, drift_interrupted,
}
use forgeapi_homelab.Config.{Config}
use forgeapi_homelab.Tables.{find-own}
use forgeapi_homelab.Tx.{World, pure, raise, when}
use forgeapi_homelab.Tx.Keeps.{Keeps, Keeps-gets, keeps_rules}
use forgeapi_homelab.Ledger.Rows.{op_key, find_op, is_check, is_uncertain, phase_states, state_eq}
use forgeapi_homelab.Ledger.Progress.{
  claim, start, in_state, interrupted, interrupt, interrupt_check, interrupt_change, in_phase,
  record_drift_check, mark_succeeded_resource, settle_resource, record_finish, finish, finish_in,
  Report, reported, unfenced, reconcile, reconcile_found, record_decision, decided, settle,
  write_checked, outcome_state, outcome_error, outcome_eq, is_success,
}
use forgeapi_homelab.Ledger.Frames.{table_of, table_rules, restore_reservation-Keeps_table}
use forgeapi_homelab.Ledger.Lifecycle.{SameRequest, follows}
use forgeapi_homelab.Ledger.Lifecycle.Evolution.{
  IsSound, Evolved, Evolves, Evolved-refl, Evolved-if, Evolved-load, Evolved-reads, Evolved-when,
  Evolved-gets, Evolved-transacted, Evolves-transaction,
}
use forgeapi_homelab.Ledger.Lifecycle.Release.{save-Evolved, event-save-Evolved, SameRequest-flag}

write_checked-Keeps :
    (op : Operation) (s : State) (r : Option Resource) → Keeps table_of (write_checked op s r)
write_checked-Keeps op s none = search keeps_rules
write_checked-Keeps op s (some r) = search table_rules

pub record_drift_check-Keeps :
    (op : Operation) (s : State) → Keeps table_of (record_drift_check op s)
unfolding record_drift_check
record_drift_check-Keeps op s = search (table_rules, write_checked-Keeps)

mark_succeeded_resource-Keeps :
    (op : Operation) (d : DriftStatus) → Keeps table_of (mark_succeeded_resource op d)
unfolding mark_succeeded_resource
mark_succeeded_resource-Keeps op d = search table_rules

ruleset settle_rules = (
  table_rules, record_drift_check-Keeps, mark_succeeded_resource-Keeps,
  restore_reservation-Keeps_table,
)

pub settle_resource-Keeps : (op : Operation) (s : State) → Keeps table_of (settle_resource op s)
unfolding settle_resource
settle_resource-Keeps op s = search settle_rules

settle-Keeps : (o : Outcome) (op : Operation) → Keeps table_of (settle o op)
settle-Keeps outcome_succeeded op = search settle_rules
settle-Keeps outcome_failed op = search settle_rules

in_state-found :
    (s : State) (o : Option Operation) (op : Operation)
    → in_state s o ≡ some op
    → (o ≡ some op) × (state_eq op.state s ≡ true)
in_state-found s none op h = ground arith
in_state-found s (some x) op h = ground arith

claim-follows :
    (phase : Phase) (s : State)
    → state_eq s (phase_states phase).0 ≡ true
    → follows s (phase_states phase).1 ≡ true
claim-follows plan s h = ground arith
claim-follows apply s h = ground arith

interrupt-follows :
    (phase : Phase) (op : Operation)
    → in_phase phase op ≡ true
    → (follows op.state uncertain ≡ true) × (follows op.state failed ≡ true)
interrupt-follows plan op h = ground arith
interrupt-follows apply op h = ground arith

reported-SameRequest :
    (row op : Operation) (s : State) (report : Report) (now : ℕ)
    → SameRequest row op
    → SameRequest row (reported op s report now)
unfolding reported
reported-SameRequest row op s report now same = record {
  id = same.id;
  resource_id = same.resource_id;
  actor = same.actor;
  request_key = same.request_key;
  fingerprint = same.fingerprint;
  action = same.action;
  resolved = same.resolved;
  created_at = same.created_at;
  previous_estimated_monthly_cost = same.previous_estimated_monthly_cost;
}

decided-SameRequest :
    (op : Operation) (actor : String) (o : Outcome) (reason : String) (now : ℕ)
    → SameRequest op (decided op actor o reason now)
unfolding decided
decided-SameRequest op actor o reason now =
    SameRequest-flag op
      (record op {
        state = outcome_state o;
        error = outcome_error o;
        reconciliation = some (record { outcome = o; actor = actor; reason = reason; at = now });
      })
      refl

decided-follows :
    (op : Operation) (actor : String) (o : Outcome) (reason : String) (now : ℕ)
    → is_uncertain op.state ≡ true
    → follows op.state (decided op actor o reason now).state ≡ true
unfolding decided
decided-follows op actor outcome_succeeded reason now u = ground arith
decided-follows op actor outcome_failed reason now u = ground arith

eq_of_state_eq : (s t : State) → state_eq s t ≡ true → s ≡ t
eq_of_state_eq s t h = ground arith

module _ {cfg : Config} (w : World) (h : IsSound cfg w) where
  start-Evolved :
      (phase : Phase) (row : Option Operation)
      → ((op : Operation)
          → row ≡ some op
          → (find_op op.id w ≡ some op) × (state_eq op.state (phase_states phase).0 ≡ true))
      → Evolved cfg w (start (phase_states phase).1 row w).1
  unfolding pure
  start-Evolved phase none k = Evolved-refl w h
  start-Evolved phase (some op) k =
      let running = record op { state = (phase_states phase).1 } in
      save-Evolved w op running _ (λ q. search table_rules) (k op refl).0
        (SameRequest-flag op running refl) (claim-follows phase op.state (k op refl).1) h

  interrupt_check-Evolved :
      (op : Operation)
      → find_op op.id w ≡ some op
      → follows op.state failed ≡ true
      → Evolved cfg w (interrupt_check op w).1
  unfolding interrupt_check
  interrupt_check-Evolved op found f =
      let ended = record op { state = failed; error = some drift_interrupted } in
      save-Evolved w op ended _ (λ q. search settle_rules) found (SameRequest-flag op ended refl) f
        h

  interrupt_change-Evolved :
      (op : Operation)
      → find_op op.id w ≡ some op
      → follows op.state uncertain ≡ true
      → Evolved cfg w (interrupt_change op w).1
  unfolding interrupt_change
  interrupt_change-Evolved op found f =
      let doubtful = record op { state = uncertain; error = some activity_interrupted } in
      save-Evolved w op doubtful _ (λ q. search settle_rules) found
        (SameRequest-flag op doubtful refl) f h

  interrupt-Evolved :
      (phase : Phase) (row : Option Operation)
      → ((op : Operation) → row ≡ some op → find_op op.id w ≡ some op)
      → Evolved cfg w (interrupt phase row w).1
  unfolding pure
  interrupt-Evolved phase none k = Evolved-refl w h
  interrupt-Evolved phase (some op) k =
      Evolved-if w h (in_phase phase op) _ _
        (λ p.
          Evolved-if w h (is_check op.action) _ _
            (λ _. interrupt_check-Evolved op (k op refl) (interrupt-follows phase op p).1)
            (λ _. interrupt_change-Evolved op (k op refl) (interrupt-follows phase op p).0))
        (λ _. Evolved-refl w h)

  -- The worker's copy stands for the row that it was claimed from.
  record_finish-Evolved :
      (op row : Operation) (s : State) (report : Report)
      → find_op row.id w ≡ some row
      → SameRequest row op
      → follows row.state s ≡ true
      → Evolved cfg w (record_finish op s report w).1
  unfolding record_finish
  record_finish-Evolved op row s report found same f =
      Evolved-reads w h _ _ (Keeps-gets _) (λ now _.
        save-Evolved w row (reported op s report now) _
          (λ q. search (table_rules, settle_resource-Keeps)) found
          (reported-SameRequest row op s report now same) (unfold reported in f) h)

  record_decision-Evolved :
      (op : Operation) (actor : String) (o : Outcome) (reason : String)
      → find_op op.id w ≡ some op
      → is_uncertain op.state ≡ true
      → Evolved cfg w (record_decision op actor o reason w).1
  unfolding record_decision
  record_decision-Evolved op actor o reason found u = Evolved-reads w h _ _ (Keeps-gets _) (λ now _.
      event-save-Evolved w _ actor _ _ op (decided op actor o reason now) _
        (λ q. search (table_rules, settle-Keeps)) found (decided-SameRequest op actor o reason now)
        (decided-follows op actor o reason now u) h)

  reconcile_found-Evolved :
      (op : Operation) (actor : String) (o : Outcome) (reason : String) (r : Option Reconciliation)
      → find_op op.id w ≡ some op
      → Evolved cfg w (reconcile_found op actor o reason r w).1
  unfolding pure raise
  reconcile_found-Evolved op actor o reason (some r) found =
      Evolved-if w h (outcome_eq r.outcome o) _ _ (λ _. Evolved-refl w h) (λ _. Evolved-refl w h)
  reconcile_found-Evolved op actor o reason none found =
      Evolved-if w h (not (is_uncertain op.state)) _ _ (λ _. Evolved-refl w h)
        (λ u.
          Evolved-if w h (is_success o && not (is_some op.plan_digest)) _ _ (λ _. Evolved-refl w h)
            (λ _. record_decision-Evolved op actor o reason found (ground arith)))

  finish_if-Evolved :
      (op : Operation) (s : State) (report : Report) (current : Option Operation)
      → ((row : Operation)
          → current ≡ some row
          → (find_op row.id w ≡ some row) × SameRequest row op)
      → follows op.state s ≡ true
      → Evolved cfg w (when (unfenced op current) (record_finish op s report) w).1
  finish_if-Evolved op s report none k f = Evolved-when w h false _ (λ t. absurd (cc t))
  finish_if-Evolved op s report (some row) k f =
      Evolved-when w h (state_eq row.state op.state) _ (λ e.
        record_finish-Evolved op row s report (k row refl).0 (k row refl).1
          (rw (eq_of_state_eq row.state op.state e) f))

in_state-own :
    (w : World) (id : ℕ) (s : State) (op : Operation)
    → in_state s (find_op id w) ≡ some op
    → (find_op op.id w ≡ some op) × (state_eq op.state s ≡ true)
in_state-own w id s op e =
    let (found, at) = in_state-found s (find_op id w) op e in
    (find-own op_key id w.db.operations op found, at)

module _ {cfg : Config} where
  pub claim-Evolves : (id : ℕ) (phase : Phase) → Evolves cfg (claim id phase)
  unfolding claim
  claim-Evolves id phase = Evolves-transaction _ (record {
    at = λ w h.
        Evolved-gets w _ _
          (start-Evolved w h phase _ (λ op e. in_state-own w id (phase_states phase).0 op e));
  })

  pub interrupted-Evolves : (id : ℕ) (phase : Phase) → Evolves cfg (interrupted id phase)
  unfolding interrupted
  interrupted-Evolves id phase = Evolves-transaction _ (record {
    at = λ w h.
        Evolved-gets w _ _
          (interrupt-Evolved w h phase _ (λ op e. find-own op_key id w.db.operations op e));
  })

  pub reconcile-Evolves :
      (id : ℕ) (actor : String) (o : Outcome) (reason : String)
      → Evolves cfg (reconcile id actor o reason)
  unfolding reconcile
  reconcile-Evolves id actor o reason = Evolves-transaction _ (record {
    at = λ w h.
        Evolved-load w h id _
          (λ op found. reconcile_found-Evolved w h op actor o reason op.reconciliation found);
  })

  finish_in-Evolved :
      (w : World) (op : Operation) (s : State) (report : Report)
      → ((row : Operation) → find_op op.id w ≡ some row → SameRequest row op)
      → follows op.state s ≡ true
      → IsSound cfg w
      → Evolved cfg w (finish_in op s report w).1
  unfolding finish_in
  finish_in-Evolved w op s report same f h =
      Evolved-gets w (find_op op.id)
        (λ current. when (unfenced op current) (record_finish op s report))
        (finish_if-Evolved w h op s report (find_op op.id w)
          (λ row e. (find-own op_key op.id w.db.operations row e, same row e)) f)

  -- The worker's copy is one of the operation's own, in a state that the result may follow.
  pub finish-Evolved :
      (w : World) (op : Operation) (s : State) (report : Report)
      → ((row : Operation) → find_op op.id w ≡ some row → SameRequest row op)
      → follows op.state s ≡ true
      → IsSound cfg w
      → Evolved cfg w (finish op s report w).1
  unfolding finish
  finish-Evolved w op s report same f h =
      Evolved-transacted w (finish_in op s report) h (finish_in-Evolved w op s report same f h)
