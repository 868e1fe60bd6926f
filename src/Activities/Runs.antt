-- ===== src/Activities/Runs.antt =====
-- How a run of the worker ends (app/operation_activities.py, `run_operation_phase`).
use forgeapi_homelab.Prelude.{
  ℕ, String, ◌≡◌, refl, ap, subst, ◌∙◌, Bool, true, false, Option, none, some, List, arith,
  if◌then◌else◌,
}
use mathlib.Core.Bool.{false≢true}
use forgeapi_homelab.Refusals.{Result, ok, err}
use forgeapi_homelab.Records.{
  State, queued, planning, planned, apply_queued, applying, succeeded, failed, uncertain, Phase,
  Operation, Resource, EventAction, EventOutcome, Subject,
}
use forgeapi_homelab.Tables.{find, find-update}
use forgeapi_homelab.Tx.{Tx, World, pure, transaction, when, event, ◌>>=◌, ◌>>◌}
use forgeapi_homelab.Ledger.Rows.{
  op_key, find_op, find_res, save, stamped, state_eq, unlink_plan, is_check,
}
use forgeapi_homelab.Activities.{
  PlanRun, plan_raised, plan_made, ApplyRun, stale_plan, other_version, state_locked, apply_raised,
  output_raised, applied, DriftRun, TerraformRun, fail, failure, owns, give_up, catch, run_plan,
  prepare, run_apply, apply_or_fail, apply_saved, is_changed, run_drift_check, drift_verdict,
  run_claimed, run_if_claimed, run_operation_phase, write_plan, plan_report, no_report, lock_held,
  drift_raised, drift_found,
}
use forgeapi_homelab.Ledger.Frames.{table_of}
use forgeapi_homelab.Ledger.Total.{is_ok, settle_resource-Total}
use forgeapi_homelab.Ledger.Progress.{
  claim, finish, finish_in, record_finish, settle_resource, reported, Report, unfenced,
}
use forgeapi_homelab.Ledger.Lifecycle.Claims.{claimed-found}
use forgeapi_homelab.Ledger.Lifecycle.Progress.{settle_resource-Keeps}

-- A state in which a worker waits for the operation's phase, or runs it.
abbrev pub is_running : State → Bool
is_running queued = true
is_running planning = true
is_running apply_queued = true
is_running applying = true
is_running _ = false

abbrev pub Settled : ℕ → World → Type 0
Settled id w = (p : Operation) × (find_op id w ≡ some p) × (is_running p.state ≡ false)

-- The run returned, and left the operation in a settled state.
abbrev pub Finished : ℕ → Result (Unit {0}) × World → Type 0
Finished id (ok u, w) = Settled id w
Finished id (err e, w) = ⊥

-- The same, or it raised with the operation as it was.
abbrev Attempted : Operation → Result (Unit {0}) × World → Type 0
Attempted op (ok u, w) = Settled op.id w
Attempted op (err e, w) = find_op op.id w ≡ some op

pub Finished-by :
    (id : ℕ) (v : World) (r : Result (Unit {0}) × World)
    → is_ok r.0 ≡ true
    → table_of r.1 ≡ table_of v
    → Settled id v
    → Finished id r
Finished-by id v (ok u, w) e t (p, f, s) =
    (p, ap (λ (x : List Operation × ℕ). find op_key id x.0) t ∙ f, s)
Finished-by id v (err x, w) e t s = absurd (false≢true e)

pub committed :
    (id : ℕ) (w : World) (r : Result (Unit {0}) × World)
    → Finished id r
    → Finished id (transaction (λ _. r) w)
unfolding transaction
committed id w (ok u, v) f = f
committed id w (err e, v) f = absurd f

Finished-Attempted :
    (op : Operation) (r : Result (Unit {0}) × World) → Finished op.id r → Attempted op r
Finished-Attempted op (ok u, w) f = f
Finished-Attempted op (err e, w) f = absurd f

state_eq_refl : (s : State) → state_eq s s ≡ true
state_eq_refl queued = refl
state_eq_refl planning = refl
state_eq_refl planned = refl
state_eq_refl apply_queued = refl
state_eq_refl applying = refl
state_eq_refl succeeded = refl
state_eq_refl failed = refl
state_eq_refl uncertain = refl

pub saved-Settled :
    (op o : Operation) (w : World)
    → find_op op.id w ≡ some op
    → o.id ≡ op.id
    → is_running o.state ≡ false
    → Settled op.id (save o w).1
unfolding save
saved-Settled op o w f e s = (
  stamped w.clock o,
  ground (arith, f, e, find-update op_key op.id (stamped w.clock o) w.db.operations),
  s,
)

recorded :
    (op o : Operation) (s : State) (a : EventAction) (r : EventOutcome) (actor : String) (w : World)
    → Settled op.id (save o w).1
    → Finished op.id
        ((do op' ← save o; event (Subject.operation op.id) actor a r; settle_resource op' s) w)
unfolding save event ◌>>=◌
recorded op o s a r actor w f =
    let v = (event (Subject.operation op.id) actor a r (save o w).1).1 in
    Finished-by op.id v _ ((settle_resource-Total (stamped w.clock o) s).at v)
      ((settle_resource-Keeps (stamped w.clock o) s).at v) f

guarded :
    (id : ℕ) (b : Bool) (m : Tx (Unit {0})) (w : World)
    → b ≡ true
    → Finished id (m w)
    → Finished id (when b m w)
unfolding when
guarded id true m w e f = f
guarded id false m w e f = absurd (false≢true e)

record_finish-Finished :
    (op : Operation) (s : State) (report : Report) (w : World)
    → find_op op.id w ≡ some op
    → is_running s ≡ false
    → Finished op.id (record_finish op s report w)
unfolding record_finish reported ◌>>=◌ save event
record_finish-Finished op s report w f h =
    recorded op (reported op s report w.clock) s _ _ _ w
      (saved-Settled op (reported op s report w.clock) w f refl h)

finish-Finished :
    (op : Operation) (s : State) (report : Report) (w : World)
    → find_op op.id w ≡ some op
    → is_running s ≡ false
    → Finished op.id (finish op s report w)
unfolding finish finish_in ◌>>=◌ transaction
finish-Finished op s report w f h = committed op.id w (finish_in op s report w) (
    guarded op.id (unfenced op (find_op op.id w)) (record_finish op s report) w
      (ap (unfenced op) f ∙ state_eq_refl op.state) (record_finish-Finished op s report w f h))

-- Dropping the plan file first.
unlinked_finish :
    (op : Operation) (b : Bool) (s : State) (report : Report) (w : World)
    → find_op op.id w ≡ some op
    → is_running s ≡ false
    → Finished op.id ((when b (unlink_plan op) >> finish op s report) w)
unfolding ◌>>=◌ when unlink_plan
unlinked_finish op true s report w f h = finish-Finished op s report (unlink_plan op w).1 f h
unlinked_finish op false s report w f h = finish-Finished op s report w f h

fail-Finished :
    (op : Operation) (text : String) (w : World)
    → find_op op.id w ≡ some op
    → Finished op.id (fail op text w)
unfolding fail ◌>>=◌
fail-Finished op text w f = unlinked_finish op (owns op w) failed (failure text) w f refl

Finished-if :
    (id : ℕ) (b : Bool) (m n : Tx (Unit {0})) (w : World)
    → Finished id (m w)
    → Finished id (n w)
    → Finished id ((if b then m else n) w)
Finished-if id true m n w p q = p
Finished-if id false m n w p q = q

give_up-Finished :
    (op : Operation) (w : World) → find_op op.id w ≡ some op → Finished op.id (give_up op w)
unfolding give_up
give_up-Finished op w f =
    Finished-if op.id (state_eq op.state applying) _ _ w
      (finish-Finished op uncertain (failure "execution outcome requires operator reconciliation") w
        f refl)
      (fail-Finished op _ w f)

caught :
    (op : Operation) (w : World) (r : Result (Unit {0}) × World)
    → Attempted op r
    → Finished op.id (catch (λ _. r) (give_up op) w)
unfolding catch
caught op w (ok u, v) a = a
caught op w (err e, v) a = give_up-Finished op v a

prepared_plan :
    (op : Operation) (b : Bool) (report : Report) (w : World)
    → find_op op.id w ≡ some op
    → Finished op.id ((do prepare op b; write_plan op.resource_id; finish op planned report) w)
unfolding prepare ◌>>=◌ when unlink_plan write_plan
prepared_plan op true report w f =
    finish-Finished op planned report (write_plan op.resource_id (unlink_plan op w).1).1 f refl
prepared_plan op false report w f =
    finish-Finished op planned report (write_plan op.resource_id w).1 f refl

run_plan-Attempted :
    (op : Operation) (b : Bool) (run : PlanRun) (w : World)
    → find_op op.id w ≡ some op
    → Attempted op (run_plan op b run w)
unfolding run_plan prepare ◌>>=◌ write_plan when unlink_plan
run_plan-Attempted op true plan_raised w f = f
run_plan-Attempted op false plan_raised w f = f
run_plan-Attempted op true (plan_made true digest drift objects) w f = f
run_plan-Attempted op false (plan_made true digest drift objects) w f = f
run_plan-Attempted op b (plan_made false digest drift objects) w f =
    Finished-Attempted op _ (prepared_plan op b (plan_report digest drift objects) w f)

apply_saved-Attempted :
    (op : Operation) (run : ApplyRun) (w : World)
    → find_op op.id w ≡ some op
    → Attempted op (apply_saved op run w)
unfolding apply_saved ◌>>=◌ unlink_plan
apply_saved-Attempted op stale_plan w f = Finished-Attempted op _ (fail-Finished op _ w f)
apply_saved-Attempted op other_version w f = Finished-Attempted op _ (fail-Finished op _ w f)
apply_saved-Attempted op state_locked w f = Finished-Attempted op _ (fail-Finished op _ w f)
apply_saved-Attempted op apply_raised w f = f
apply_saved-Attempted op output_raised w f = f
apply_saved-Attempted op (applied outputs) w f = Finished-Attempted op _ (
    finish-Finished op succeeded (record no_report { outputs = some outputs }) (unlink_plan op w).1
      f refl)

apply_or_fail-Attempted :
    (op : Operation) (run : ApplyRun) (changed : Bool) (w : World)
    → find_op op.id w ≡ some op
    → Attempted op (apply_or_fail op run changed w)
apply_or_fail-Attempted op run true w f = Finished-Attempted op _ (fail-Finished op _ w f)
apply_or_fail-Attempted op run false w f = apply_saved-Attempted op run w f

run_apply-Attempted :
    (op : Operation) (digest : String) (run : ApplyRun) (w : World)
    → find_op op.id w ≡ some op
    → Attempted op (run_apply op digest run w)
unfolding run_apply ◌>>=◌
run_apply-Attempted op digest run w f = apply_or_fail-Attempted op run (is_changed op digest w) w f

verdict-settles :
    (row : Option Resource) (run : DriftRun) → is_running (drift_verdict row run).0 ≡ false
verdict-settles row lock_held = refl
verdict-settles row drift_raised = refl
verdict-settles none (drift_found drift discloses n) = refl
verdict-settles (some r) (drift_found drift discloses n) = ground arith

run_drift_check-Finished :
    (op : Operation) (b : Bool) (run : DriftRun) (w : World)
    → find_op op.id w ≡ some op
    → Finished op.id (run_drift_check op b run w)
unfolding run_drift_check prepare ◌>>=◌ when unlink_plan
run_drift_check-Finished op true run w f =
    finish-Finished op _ _ (unlink_plan op w).1 f (verdict-settles (find_res op.resource_id w) run)
run_drift_check-Finished op false run w f =
    finish-Finished op _ _ w f (verdict-settles (find_res op.resource_id w) run)

run_claimed-Finished :
    (run : TerraformRun) (op : Operation) (w : World)
    → find_op op.id w ≡ some op
    → Finished op.id (run_claimed run op w)
unfolding catch
run_claimed-Finished run op w f =
    Finished-if op.id (is_check op.action) _ _ w
      (run_drift_check-Finished op run.rebuilds run.drift_run w f)
      (Finished-if op.id (state_eq op.state planning) _ _ w
        (caught op w _ (run_plan-Attempted op run.rebuilds run.plan_run w f))
        (caught op w _ (run_apply-Attempted op run.saved_digest run.apply_run w f)))

-- The activity returned true, and left the operation in a settled state.
abbrev pub Ran : ℕ → Result Bool × World → Type 0
Ran id (ok b, w) = (b ≡ true) × Settled id w
Ran id (err e, w) = ⊥

then_true :
    (id : ℕ) (w : World) (r : Result (Unit {0}) × World)
    → Finished id r
    → Ran id (((λ _. r) >> pure true) w)
unfolding ◌>>=◌
then_true id w (ok u, v) f = (refl, f)
then_true id w (err e, v) f = absurd f

run_if_claimed-Ran :
    (run : TerraformRun) (op : Operation) (w : World) (r : Result (Option Operation) × World)
    → r.0 ≡ ok (some op)
    → find_op op.id r.1 ≡ some op
    → Ran op.id (((λ _. r) >>= run_if_claimed run) w)
unfolding ◌>>=◌
run_if_claimed-Ran run op w (ok none, v) e f = cc
run_if_claimed-Ran run op w (ok (some x), v) e f =
    let same : op ≡ x = cc in
    subst (λ y. Ran op.id (run_if_claimed run (some y) v)) same
      (then_true op.id v (run_claimed run op v) (run_claimed-Finished run op v f))
run_if_claimed-Ran run op w (err x, v) e f = cc

-- Whatever Terraform reports, a worker whose claim of a phase returns an operation runs to its end:
-- the activity returns true and does not raise, and it leaves the operation in a state that is
-- neither queued, planning, apply_queued nor applying.
pub run_settles :
    (run : TerraformRun) (id : ℕ) (phase : Phase) (op : Operation) (w : World)
    → (claim id phase w).0 ≡ ok (some op)
    → Ran id (run_operation_phase run id phase w)
unfolding run_operation_phase ◌>>=◌
run_settles run id phase op w e =
    let (same, found) = claimed-found id phase w op e in
    subst (λ k. Ran k (run_operation_phase run id phase w)) same
      (run_if_claimed-Ran run op w (claim id phase w) e found)
