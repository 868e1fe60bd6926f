-- ===== src/Ledger/Audit/Methods.antt =====
-- The parts of the methods and what they add to the audit trail (app/ledger.py: `claim`, `finish`,
-- `interrupted`, `reconcile`, `discard`).
use forgeapi_homelab.Prelude.{ℕ, String, refl, Bool, true, Option, none, some}
use forgeapi_homelab.Records.{
  Operation, Resource, State, Phase, Outcome, EventAction, Failure, outcome_succeeded,
  outcome_failed, failed, uncertain, drift_interrupted, activity_interrupted, Reconciliation,
}
use forgeapi_homelab.Refusals.{Result, Refusal}
use forgeapi_homelab.Config.{Config}
use forgeapi_homelab.Tx.{Tx, World, lift, gets, pure, raise, raise_if, ◌>>=◌}
use forgeapi_homelab.Tx.Keeps.{Keeps, keeps_rules}
use forgeapi_homelab.Ledger.Rows.{
  save, write_resource, put_resource, insert_op, unlink_plan, uuid4, load,
}
use forgeapi_homelab.Ledger.Release.{
  restore_reservation, restore_previous, restore_to, release_plan, expire, discard, discard_found,
}
use forgeapi_homelab.Ledger.Progress.{
  record_drift_check, write_checked, mark_succeeded_resource, settle_resource, record_finish,
  finish_in, finish, Report, claim, start, interrupted, interrupt, interrupt_check,
  interrupt_change, reconcile, reconcile_found, reported, decided, record_decision, settle,
}
use forgeapi_homelab.Ledger.Execution.{expire_plan}
use forgeapi_homelab.Ledger.Audit.{
  trail, rows, Grows, Logs, Extends, Audited, Logs-refl, Logs-trans, Extends-Keeps, Audited-Keeps,
  Audited-if, Extends-if, Audited-transaction, Extends-when, Audited-when, Extends-event,
  Extends-bind, Audited-bind, Audited-event, Audited-save, saved_event-Audited,
}

-- What only removes a plan file or draws a UUID.
pub load-Audited : (id : ℕ) → Audited (load id)
unfolding load
load-Audited id = Audited-Keeps _ (record { at = λ w. refl }) (record { at = λ w. refl })

pub unlink_plan-Audited : (op : Operation) → Audited (unlink_plan op)
unfolding unlink_plan
unlink_plan-Audited op = Audited-Keeps _ (record { at = λ w. refl }) (record { at = λ w. refl })

pub uuid4-Audited : (cfg : Config) → Audited (uuid4 cfg)
unfolding uuid4
uuid4-Audited cfg = Audited-Keeps _ (record { at = λ w. refl }) (record { at = λ w. refl })

-- What does not touch the trail.
pub save-Keeps : (op : Operation) → Keeps trail (save op)
unfolding save
save-Keeps op = record { at = λ w. refl }

pub write_resource-Keeps : (r : Resource) → Keeps trail (write_resource r)
unfolding write_resource
write_resource-Keeps r = record { at = λ w. refl }

pub put_resource-Keeps : (r : Resource) → Keeps trail (put_resource r)
unfolding put_resource
put_resource-Keeps r = record { at = λ w. refl }

pub insert_op-Keeps : (op : Operation) → Keeps trail (insert_op op)
unfolding insert_op
insert_op-Keeps op = record { at = λ w. refl }

pub unlink_plan-Keeps : (op : Operation) → Keeps trail (unlink_plan op)
unfolding unlink_plan
unlink_plan-Keeps op = record { at = λ w. refl }

pub ruleset writes = (
  keeps_rules, save-Keeps, write_resource-Keeps, put_resource-Keeps, insert_op-Keeps,
  unlink_plan-Keeps,
)

restore_to-Keeps : (n : ℕ) (row : Option Resource) → Keeps trail (restore_to n row)
restore_to-Keeps n none = search writes
restore_to-Keeps n (some r) = search writes

restore_previous-Keeps : (op : Operation) (n : Option ℕ) → Keeps trail (restore_previous op n)
restore_previous-Keeps op none = search writes
restore_previous-Keeps op (some n) = search (writes, restore_to-Keeps)

restore_reservation-Keeps : (op : Operation) → Keeps trail (restore_reservation op)
unfolding restore_reservation
restore_reservation-Keeps op = search (writes, restore_previous-Keeps)

write_checked-Keeps :
    (op : Operation) (s : State) (row : Option Resource) → Keeps trail (write_checked op s row)
write_checked-Keeps op s none = search writes
write_checked-Keeps op s (some r) = search writes

record_drift_check-Keeps : (op : Operation) (s : State) → Keeps trail (record_drift_check op s)
unfolding record_drift_check
record_drift_check-Keeps op s = search (writes, write_checked-Keeps)

settle_resource-Keeps : (op : Operation) (s : State) → Keeps trail (settle_resource op s)
unfolding settle_resource mark_succeeded_resource
settle_resource-Keeps op s =
    search (writes, record_drift_check-Keeps, restore_reservation-Keeps) depth 9

settle-Keeps : (o : Outcome) (op : Operation) → Keeps trail (settle o op)
unfolding mark_succeeded_resource
settle-Keeps outcome_succeeded op = search writes
settle-Keeps outcome_failed op = search (writes, restore_reservation-Keeps)

-- The rules for what follows an event.
ruleset extends_rules = (Extends-bind, Extends-if, Extends-when, Extends-event)

pub ruleset audited_rules = (Audited-if, Audited-when, Audited-transaction)

release_plan-Audited :
    (op : Operation) (actor : String) (a : EventAction) (e : Failure) (flag : Operation → Operation)
    (unlink : Bool)
    → Audited (release_plan op actor a e flag unlink)
unfolding release_plan
release_plan-Audited op actor a e flag unlink =
    Audited-event _ actor a _ _
      (Extends-Keeps _ (search (writes, restore_reservation-Keeps) depth 8))

pub expire-Audited :
    (op : Operation) (actor : String) (unlink : Bool) → Audited (expire op actor unlink)
unfolding expire
expire-Audited op actor unlink = release_plan-Audited op actor _ _ _ unlink

-- What only reads, and what follows it.
pub read-Audited :
    {A B : Type 0} (m : Tx A) (f : A → Tx B)
    → Keeps trail m
    → Keeps rows m
    → ((a : A) → Audited (f a))
    → Audited (m >>= f)
read-Audited m f k r p = Audited-bind m f (Audited-Keeps m k r) p

pub gets-Audited :
    {A B : Type 0} (g : World → A) (f : A → Tx B)
    → ((a : A) → Audited (f a))
    → Audited (gets g >>= f)
gets-Audited g f p = read-Audited (gets g) f (search keeps_rules) (search keeps_rules) p

pub guard-Audited :
    {B : Type 0} (c : Bool) (e : Refusal) (f : Unit {0} → Tx B)
    → ((u : Unit {0}) → Audited (f u))
    → Audited (raise_if c e >>= f)
guard-Audited c e f p = read-Audited (raise_if c e) f (search keeps_rules) (search keeps_rules) p

pub lift-Audited :
    {A B : Type 0} (r : Result A) (f : A → Tx B)
    → ((a : A) → Audited (f a))
    → Audited (lift r >>= f)
lift-Audited r f p = read-Audited (lift r) f (search keeps_rules) (search keeps_rules) p

pub raise-Audited : {A : Type 0} (e : Refusal) → Audited (raise {A = A} e)
raise-Audited e = Audited-Keeps _ (search keeps_rules) (search keeps_rules)

pub pure-Audited : {A : Type 0} (a : A) → Audited (pure a)
pure-Audited a = Audited-Keeps _ (search keeps_rules) (search keeps_rules)

pub expire_plan-Audited : (op : Operation) (actor : String) → Audited (expire_plan op actor)
expire_plan-Audited op actor = Audited-bind _ _ (expire-Audited op actor true) λ op'. pure-Audited _

pub discard-Audited : (id : ℕ) (actor : String) → Audited (discard id actor)
unfolding discard discard_found
discard-Audited id actor = Audited-transaction _ (
    Audited-bind _ _ (load-Audited id)
      λ op. search (audited_rules, pure-Audited, raise-Audited, release_plan-Audited))

start-Audited : (s : State) (row : Option Operation) → Audited (start s row)
start-Audited s none = pure-Audited _
start-Audited s (some op) = Audited-save _ _ _ _ _ _ λ op'. Extends-Keeps _ (search keeps_rules)

pub claim-Audited : (id : ℕ) (phase : Phase) → Audited (claim id phase)
unfolding claim
claim-Audited id phase = Audited-transaction _ (gets-Audited _ _ λ row. start-Audited _ row)

record_finish-Audited :
    (op : Operation) (s : State) (report : Report) → Audited (record_finish op s report)
unfolding record_finish
record_finish-Audited op s report = gets-Audited _ _ λ now.
    Audited-save _ _ _ _ (reported op s report now) _
      λ op'. Extends-Keeps _ (settle_resource-Keeps op' s)

pub finish-Audited : (op : Operation) (s : State) (report : Report) → Audited (finish op s report)
unfolding finish finish_in
finish-Audited op s report =
    Audited-transaction _
      (gets-Audited _ _ λ row. Audited-when _ _ (record_finish-Audited op s report))

record_decision-Audited :
    (op : Operation) (actor : String) (o : Outcome) (reason : String)
    → Audited (record_decision op actor o reason)
unfolding record_decision
record_decision-Audited op actor o reason = gets-Audited _ _ λ now. Audited-event _ _ _ _ _ (
    Extends-bind _ _ (Extends-Keeps _ (save-Keeps (decided op actor o reason now))) λ op'.
      Extends-bind _ _ (Extends-event _ _ _ _)
        λ u. Extends-Keeps _ (search (keeps_rules, settle-Keeps)))

reconcile_found-Audited :
    (op : Operation) (actor : String) (o : Outcome) (reason : String) (r : Option Reconciliation)
    → Audited (reconcile_found op actor o reason r)
reconcile_found-Audited op actor o reason none =
    search (audited_rules, raise-Audited, record_decision-Audited)
reconcile_found-Audited op actor o reason (some r) =
    search (audited_rules, raise-Audited, pure-Audited)

pub reconcile-Audited :
    (id : ℕ) (actor : String) (o : Outcome) (reason : String)
    → Audited (reconcile id actor o reason)
unfolding reconcile
reconcile-Audited id actor o reason = Audited-transaction _ (
    Audited-bind _ _ (load-Audited id)
      λ op. reconcile_found-Audited op actor o reason op.reconciliation)

interrupt_check-Audited : (op : Operation) → Audited (interrupt_check op)
unfolding interrupt_check
interrupt_check-Audited op =
    Audited-save _ _ _ _ (record op { state = failed; error = some drift_interrupted }) _
      λ op'. Extends-Keeps _ (record_drift_check-Keeps op' failed)

interrupt_change-Audited : (op : Operation) → Audited (interrupt_change op)
unfolding interrupt_change
interrupt_change-Audited op =
    saved_event-Audited (record op { state = uncertain; error = some activity_interrupted }) _ _ _ _

interrupt-Audited : (phase : Phase) (row : Option Operation) → Audited (interrupt phase row)
interrupt-Audited phase none = pure-Audited tt
interrupt-Audited phase (some op) =
    search (audited_rules, pure-Audited, interrupt_check-Audited, interrupt_change-Audited)

pub interrupted-Audited : (id : ℕ) (phase : Phase) → Audited (interrupted id phase)
unfolding interrupted
interrupted-Audited id phase =
    Audited-transaction _ (gets-Audited _ _ λ row. interrupt-Audited phase row)
