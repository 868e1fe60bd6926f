-- ===== src/Workflows/Phase.antt =====
-- One phase of an operation (app/operation_workflow.py, `OperationPhaseWorkflow`).
use forgeapi_homelab.Prelude.{
  ℕ, ◌≡◌, refl, sym, subst, Bool, true, false, Option, some, if◌then◌else◌, ◌||◌,
}
use mathlib.Core.Bool.{false≢true}
use forgeapi_homelab.Refusals.{Result, ok, err}
use forgeapi_homelab.Records.{
  Operation, Phase, plan, apply, State, queued, planning, planned, apply_queued, applying,
  succeeded, failed, uncertain, Subject, reached, operation_state, drift_interrupted,
  activity_interrupted,
}
use forgeapi_homelab.Tx.{Tx, World, event, transaction, pure, ◌>>=◌}
use forgeapi_homelab.Tables.{find-key, find-own}
use forgeapi_homelab.Ledger.Rows.{op_key, find_op, save, stamped, is_check, state_eq, phase_states}
use forgeapi_homelab.Ledger.Total.{record_drift_check-Total}
use forgeapi_homelab.Ledger.Progress.{
  claim, interrupted, interrupt, interrupt_check, interrupt_change, in_phase, worker,
}
use forgeapi_homelab.Ledger.Lifecycle.Progress.{record_drift_check-Keeps}
use forgeapi_homelab.Activities.{TerraformRun, run_operation_phase, mark_operation_uncertain}
use forgeapi_homelab.Activities.Runs.{
  is_running, Settled, Finished, Finished-by, committed, saved-Settled, Ran, run_settles,
}

-- What became of the only attempt at the activity: the worker ran to its end, or it was lost (killed,
-- or past its timeout) and left the world as it then was.
pub data Attempt : Type 0 where
  ran : TerraformRun → Attempt
  lost : World → Attempt

-- An activity that raised, as one that was lost, is an `ActivityError`.
abbrev pub handle : ℕ → Phase → Result Bool × World → World
handle id phase (ok b, w) = w
handle id phase (err e, w) = (mark_operation_uncertain id phase w).1

unfoldable pub run_phase : Attempt → ℕ → Phase → World → World
unfolding run_operation_phase mark_operation_uncertain
run_phase (ran run) id phase w = handle id phase (run_operation_phase run id phase w)
run_phase (lost v) id phase w = (mark_operation_uncertain id phase v).1

-- The operation is stored and no longer in the phase.
abbrev pub HasLeft : ℕ → Phase → World → Type 0
HasLeft id phase w = (p : Operation) × (find_op id w ≡ some p) × (in_phase phase p ≡ false)

running_phase :
    (s : State) (phase : Phase)
    → is_running s ≡ false
    → (state_eq s (phase_states phase).0 || state_eq s (phase_states phase).1) ≡ false
running_phase queued phase h = absurd (false≢true (sym h))
running_phase planning phase h = absurd (false≢true (sym h))
running_phase apply_queued phase h = absurd (false≢true (sym h))
running_phase applying phase h = absurd (false≢true (sym h))
running_phase planned plan h = refl
running_phase planned apply h = refl
running_phase succeeded plan h = refl
running_phase succeeded apply h = refl
running_phase failed plan h = refl
running_phase failed apply h = refl
running_phase uncertain plan h = refl
running_phase uncertain apply h = refl

Settled-HasLeft : (id : ℕ) (phase : Phase) (w : World) → Settled id w → HasLeft id phase w
Settled-HasLeft id phase w (p, f, s) = (p, f, running_phase p.state phase s)

interrupt_check-Finished :
    (op : Operation) (w : World) → find_op op.id w ≡ some op → Finished op.id (interrupt_check op w)
unfolding interrupt_check save event ◌>>=◌
interrupt_check-Finished op w f =
    let o = record op { state = failed; error = some drift_interrupted } in
    let v =
      (event (Subject.operation op.id) worker operation_state (reached failed) (save o w).1).1 in
    Finished-by op.id v _ ((record_drift_check-Total (stamped w.clock o) failed).at v)
      ((record_drift_check-Keeps (stamped w.clock o) failed).at v)
      (saved-Settled op o w f refl refl)

interrupt_change-Finished :
    (op : Operation) (w : World)
    → find_op op.id w ≡ some op
    → Finished op.id (interrupt_change op w)
unfolding interrupt_change save event ◌>>=◌
interrupt_change-Finished op w f =
    saved-Settled op (record op { state = uncertain; error = some activity_interrupted }) w f refl
      refl

left_behind :
    (id : ℕ) (phase : Phase) (w : World) (r : Result (Unit {0}) × World)
    → Finished id r
    → HasLeft id phase r.1
left_behind id phase w (ok u, v) f = Settled-HasLeft id phase v f
left_behind id phase w (err e, v) f = absurd f

Finished-if :
    (id : ℕ) (b : Bool) (m n : Tx (Unit {0})) (w : World)
    → Finished id (m w)
    → Finished id (n w)
    → Finished id ((if b then m else n) w)
Finished-if id true m n w p q = p
Finished-if id false m n w p q = q

interrupt-if :
    (phase : Phase) (op : Operation) (b : Bool) (w : World)
    → in_phase phase op ≡ b
    → find_op op.id w ≡ some op
    → HasLeft op.id phase
        (transaction
          (if b
            then (if is_check op.action then interrupt_check op else interrupt_change op)
            else pure tt)
          w).1
unfolding transaction pure
interrupt-if phase op true w e f = left_behind op.id phase w _ (
    committed op.id w _ (
      Finished-if op.id (is_check op.action) _ _ w (interrupt_check-Finished op w f)
        (interrupt_change-Finished op w f)))
interrupt-if phase op false w e f = (op, f, e)

interrupt-HasLeft :
    (phase : Phase) (op : Operation) (row : Option Operation) (w : World)
    → row ≡ some op
    → find_op op.id w ≡ some op
    → HasLeft op.id phase (transaction (interrupt phase row) w).1
unfolding transaction
interrupt-HasLeft phase op row w q f =
    subst (λ r. HasLeft op.id phase (transaction (interrupt phase r) w).1) (sym q)
      (interrupt-if phase op (in_phase phase op) w refl f)

interrupted-HasLeft :
    (id : ℕ) (phase : Phase) (op : Operation) (w : World)
    → find_op id w ≡ some op
    → HasLeft id phase (interrupted id phase w).1
unfolding interrupted transaction ◌>>=◌
interrupted-HasLeft id phase op w f =
    let same = find-key op_key id w.db.operations op f in
    subst (λ k. HasLeft k phase (interrupted id phase w).1) same
      (interrupt-HasLeft phase op (find_op id w) w f (find-own op_key id w.db.operations op f))

handled-HasLeft :
    (id : ℕ) (phase : Phase) (r : Result Bool × World)
    → Ran id r
    → HasLeft id phase (handle id phase r)
handled-HasLeft id phase (ok b, w) (e, s) = Settled-HasLeft id phase w s
handled-HasLeft id phase (err x, w) r = absurd r

-- What is asked of an attempt: a worker that ran had claimed the phase, and one that was lost left the
-- operation's row in the table.
abbrev pub IsPossible : ℕ → Phase → World → Attempt → Type 0
IsPossible id phase w (ran run) = (op : Operation) × ((claim id phase w).0 ≡ ok (some op))
IsPossible id phase w (lost v) = (op : Operation) × (find_op id v ≡ some op)

-- A phase never hangs. Whether its worker claimed it and ran, whatever Terraform reports, or was lost
-- at any moment in any state of the ledger that has the operation's row: once the workflow is over
-- the operation is stored and has left the phase's two states.
pub phase_settles :
    (attempt : Attempt) (id : ℕ) (phase : Phase) (w : World)
    → IsPossible id phase w attempt
    → HasLeft id phase (run_phase attempt id phase w)
unfolding run_phase mark_operation_uncertain
phase_settles (ran run) id phase w (op, e) =
    handled-HasLeft id phase (run_operation_phase run id phase w) (run_settles run id phase op w e)
phase_settles (lost v) id phase w (op, f) = interrupted-HasLeft id phase op v f
