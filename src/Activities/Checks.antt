-- ===== src/Activities/Checks.antt =====
-- The effect of a drift check (app/operation_activities.py, `run_drift_check`).
use forgeapi_homelab.Prelude.{
  ℕ, String, ◌≡◌, refl, Bool, true, false, Option, none, some, List, arith, ◌==◌, Bool-cases, inl,
  inr, ◌∙◌, ap, if◌then◌else◌,
}
use mathlib.Core.Bool.{false≢true}
use forgeapi_homelab.Records.{State, Operation, Resource, EventAction, EventOutcome, Subject}
use forgeapi_homelab.Tables.{find-update, find-key}
use forgeapi_homelab.Tx.{World, event, ◌>>=◌, ◌>>◌, transaction, Tx, when}
use forgeapi_homelab.Tx.Keeps.{Keeps, Keeps-bind, Keeps-gets, Keeps-when}
use forgeapi_homelab.Refusals.{Result, ok, err}
use forgeapi_homelab.Ledger.Rows.{
  res_key, find_res, is_check, save, write_resource, stamped, unlink_plan,
}
use forgeapi_homelab.Ledger.Progress.{
  finish, finish_in, record_finish, settle_resource, record_drift_check, drift_checked, Report,
  write_checked, is_succeeded, reported,
}
use forgeapi_homelab.Activities.{DriftRun, drift_verdict, prepare, run_drift_check}

abbrev pub undrifted : Resource → Resource
undrifted r = record r {
  drift_status = none;
  drift = none;
  drift_checked_at = none;
  drift_error = none;
}

abbrev pub undrifted_row : Option Resource → Option Resource
undrifted_row none = none
undrifted_row (some r) = some (undrifted r)

-- Everything about a resource but the verdict of its last check, and the plan files.
abbrev pub LedgerView : Type 0
LedgerView = Option Resource × List ℕ

abbrev pub settled : ℕ → World → LedgerView
settled k w = (undrifted_row (find_res k w), w.plans)

drift_checked-undrifted :
    (op : Operation) (b : Bool) (now : ℕ) (r : Resource)
    → undrifted (drift_checked op b now r) ≡ undrifted r
unfolding drift_checked
drift_checked-undrifted op true now r = refl
drift_checked-undrifted op false now r = refl

drift_checked-key :
    (op : Operation) (b : Bool) (now : ℕ) (r : Resource) → res_key (drift_checked op b now r) ≡ r.id
unfolding drift_checked
drift_checked-key op true now r = refl
drift_checked-key op false now r = refl

event-settled :
    (k : ℕ) (s : Subject) (actor : String) (a : EventAction) (o : EventOutcome)
    → Keeps (settled k) (event s actor a o)
unfolding event
event-settled k s actor a o = record { at = λ w. refl }

save-settled : (k : ℕ) (op : Operation) → Keeps (settled k) (save op)
unfolding save
save-settled k op = record { at = λ w. refl }

abbrev written : Operation → Bool → World → Option Resource → World
written op done w none = w
written op done w (some r) = (write_resource (drift_checked op done w.clock r) w).1

rewritten :
    (k : ℕ) (op : Operation) (done : Bool) (w : World) (row : Option Resource)
    → find_res op.resource_id w ≡ row
    → undrifted_row (find_res k (written op done w row)) ≡ undrifted_row (find_res k w)
unfolding write_resource
rewritten k op done w none e = refl
rewritten k op done w (some r) e = elim (Bool-cases (op.resource_id == k)) [
  | inl same ↦ ground (
    arith,
    e,
    find-update res_key k (drift_checked op done w.clock r) w.db.resources,
    drift_checked-key op done w.clock r,
    drift_checked-undrifted op done w.clock r,
    find-key res_key op.resource_id w.db.resources r,
  )
  | inr other ↦ ground (
    arith,
    e,
    find-update res_key k (drift_checked op done w.clock r) w.db.resources,
    drift_checked-key op done w.clock r,
    find-key res_key op.resource_id w.db.resources r,
  )
]

write_checked-settled :
    (k : ℕ) (op : Operation) (s : State) (w : World) (row : Option Resource)
    → find_res op.resource_id w ≡ row
    → settled k (write_checked op s row w).1 ≡ settled k w
unfolding ◌>>=◌ write_resource
write_checked-settled k op s w none e = refl
write_checked-settled k op s w (some r) e =
    ap (λ o. (o, w.plans)) (rewritten k op (is_succeeded s) w (some r) e)

record_drift_check-settled :
    (k : ℕ) (op : Operation) (s : State) → Keeps (settled k) (record_drift_check op s)
unfolding record_drift_check ◌>>=◌
record_drift_check-settled k op s = record {
  at = λ w. write_checked-settled k op s w (find_res op.resource_id w) refl;
}

Keeps-then :
    {A B : Type 0} {view : World → B} (b : Bool) (m n : Tx A)
    → b ≡ true
    → Keeps view m
    → Keeps view (if b then m else n)
Keeps-then true m n e k = k
Keeps-then false m n e k = absurd (false≢true e)

settle_resource-settled :
    (k : ℕ) (op : Operation) (s : State)
    → is_check op.action ≡ true
    → Keeps (settled k) (settle_resource op s)
unfolding settle_resource
settle_resource-settled k op s c =
    Keeps-then _ _ _ c (Keeps-when _ _ (record_drift_check-settled k op s))

-- The two writes of `record_finish` on the operation's own row, then the resource's.
settle_after :
    (k : ℕ) (op o : Operation) (s : State) (actor : String) (a : EventAction) (r : EventOutcome)
    → is_check o.action ≡ true
    → Keeps
        (settled k)
        (do op' ← save o; event (Subject.operation op.id) actor a r; settle_resource op' s)
unfolding save ◌>>=◌ event settle_resource
settle_after k op o s actor a r c = record {
  at = λ w.
      (settle_resource-settled k (stamped w.clock o) s c).at
        (event (Subject.operation op.id) actor a r (save o w).1).1
      ∙ (event-settled k (Subject.operation op.id) actor a r).at (save o w).1
      ∙ (save-settled k o).at w;
}

record_finish-settled :
    (k : ℕ) (op : Operation) (s : State) (report : Report)
    → is_check op.action ≡ true
    → Keeps (settled k) (record_finish op s report)
unfolding record_finish reported
record_finish-settled k op s report c =
    Keeps-bind _ _ (Keeps-gets _) (λ now. settle_after k op (reported op s report now) s _ _ _ c)

finish-settled :
    (k : ℕ) (op : Operation) (s : State) (report : Report)
    → is_check op.action ≡ true
    → Keeps (settled k) (finish_in op s report)
unfolding finish_in
finish-settled k op s report c =
    Keeps-bind _ _ (Keeps-gets _) (λ o. Keeps-when _ _ (record_finish-settled k op s report c))

rolled_back :
    (k : ℕ) (w : World) (r : Result (Unit {0}) × World)
    → settled k r.1 ≡ settled k w
    → settled k (transaction (λ _. r) w).1 ≡ settled k w
unfolding transaction
rolled_back k w (ok a, v) e = e
rolled_back k w (err x, v) e = ap (λ (t : LedgerView). (undrifted_row (find_res k w), t.1)) e

finish-Keeps :
    (k : ℕ) (op : Operation) (s : State) (report : Report)
    → is_check op.action ≡ true
    → Keeps (settled k) (finish op s report)
unfolding finish transaction
finish-Keeps k op s report c = record {
  at = λ w. rolled_back k w (finish_in op s report w) ((finish-settled k op s report c).at w);
}

-- The plan files once the work directory is prepared.
abbrev pub plans_after : Bool → Operation → World → List ℕ
plans_after true op w = (unlink_plan op w).1.plans
plans_after false op w = w.plans

-- Whatever Terraform reports, running a drift check leaves every resource as it was but for the four
-- fields of its last check: no state, cost, definition, managed object or output of any resource
-- changes. It leaves the plan files too, but for the checked resource's own where its work directory
-- is made anew.
pub drift_check_harmless :
    (k : ℕ) (op : Operation) (rebuilds : Bool) (run : DriftRun) (w : World)
    → is_check op.action ≡ true
    → settled k (run_drift_check op rebuilds run w).1
      ≡ (undrifted_row (find_res k w), plans_after rebuilds op w)
unfolding run_drift_check prepare ◌>>=◌ when unlink_plan
drift_check_harmless k op true run w c =
    let verdict = drift_verdict (find_res op.resource_id w) run in
    (finish-Keeps k op verdict.0 verdict.1 c).at (unlink_plan op w).1
drift_check_harmless k op false run w c =
    let verdict = drift_verdict (find_res op.resource_id w) run in
    (finish-Keeps k op verdict.0 verdict.1 c).at w
