-- ===== src/Ledger/Frames.antt =====
-- What the parts of app/ledger.py's methods leave as it was.
use forgeapi_homelab.Prelude.{refl, Bool, Option, none, some, List, [], ◌∷◌, String, ℕ}
use forgeapi_homelab.Records.{
  Operation, Resource, Resolved, InputRef, Action, Subject, EventAction, EventOutcome,
}
use forgeapi_homelab.Config.{Config}
use forgeapi_homelab.Tx.{World, event}
use forgeapi_homelab.Tx.Keeps.{Keeps, Keeps-bind, Keeps-gets, keeps_rules}
use forgeapi_homelab.Ledger.Rows.{load, write_resource, put_resource, unlink_plan}
use forgeapi_homelab.Ledger.References.{check_references, refuse_reference}
use forgeapi_homelab.Ledger.Release.{restore_reservation, restore_previous, restore_to}
use forgeapi_homelab.Ledger.Execution.{raise_expired, approval_event}
use forgeapi_homelab.Ledger.Acceptance.{
  Intent, Budget, costs, check_budget, check_request, replay_row, same_intent,
}

-- The table `operations`, and how many UUIDs have been drawn.
abbrev pub table_of : World → List Operation × ℕ
table_of w = (w.db.operations, w.drawn)

module _ {B : Type 0} {view : World → B} where
  pub Keeps-load : (id : ℕ) → Keeps view (load id)
  unfolding load
  Keeps-load id = record { at = λ w. refl }

  refuse_reference-Keeps : (o : Option String) → Keeps view (refuse_reference o)
  refuse_reference-Keeps none = search keeps_rules
  refuse_reference-Keeps (some s) = search keeps_rules

  pub check_references-Keeps : (refs : List InputRef) → Keeps view (check_references refs)
  unfolding check_references
  check_references-Keeps [] = search keeps_rules
  check_references-Keeps (r ∷ refs) =
      Keeps-bind _ _ (Keeps-gets _)
        (λ o. Keeps-bind _ _ (refuse_reference-Keeps o) (λ _. check_references-Keeps refs))

  pub costs-Keeps : (a : Action) (p : Option Resource) (r : Resolved) → Keeps view (costs a p r)
  unfolding costs
  costs-Keeps a p r = search keeps_rules depth 8

  pub check_budget-Keeps :
      (cfg : Config) (r : Resolved) (rid : ℕ) (b : Option Budget) (a : Option (ℕ × ℕ))
      → Keeps view (check_budget cfg r rid b a)
  unfolding check_budget
  check_budget-Keeps cfg r rid none a = search keeps_rules
  check_budget-Keeps cfg r rid (some b) none = search keeps_rules
  check_budget-Keeps cfg r rid (some b) (some (p, q)) = search keeps_rules depth 10

  pub check_request-Keeps :
      (cfg : Config) (i : Intent) (r : Resolved) (b : Option Budget) (rid : ℕ) (p : Option Resource)
      → Keeps view (check_request cfg i r b rid p)
  unfolding check_request
  check_request-Keeps cfg i r b rid p =
      search (keeps_rules, costs-Keeps, check_budget-Keeps, check_references-Keeps) depth 9

  same_intent-Keeps : (d : String) (o : Option Operation) → Keeps view (same_intent d o)
  same_intent-Keeps d none = search keeps_rules
  same_intent-Keeps d (some o) = search keeps_rules

  pub replay_row-Keeps : (a k d : String) → Keeps view (replay_row a k d)
  unfolding replay_row
  replay_row-Keeps a k d = search (keeps_rules, same_intent-Keeps)

pub event-Keeps_table :
    (s : Subject) (actor : String) (a : EventAction) (o : EventOutcome)
    → Keeps table_of (event s actor a o)
unfolding event
event-Keeps_table s actor a o = record { at = λ w. refl }

pub write_resource-Keeps_table : (r : Resource) → Keeps table_of (write_resource r)
unfolding write_resource
write_resource-Keeps_table r = record { at = λ w. refl }

pub put_resource-Keeps_table : (r : Resource) → Keeps table_of (put_resource r)
unfolding put_resource
put_resource-Keeps_table r = record { at = λ w. refl }

pub unlink_plan-Keeps_table : (op : Operation) → Keeps table_of (unlink_plan op)
unfolding unlink_plan
unlink_plan-Keeps_table op = record { at = λ w. refl }

pub ruleset table_rules = (
  keeps_rules, event-Keeps_table, write_resource-Keeps_table, put_resource-Keeps_table,
  unlink_plan-Keeps_table,
)

restore_to-Keeps_table : (n : ℕ) (r : Option Resource) → Keeps table_of (restore_to n r)
restore_to-Keeps_table n none = search table_rules
restore_to-Keeps_table n (some r) = search table_rules

restore_previous-Keeps_table :
    (op : Operation) (n : Option ℕ) → Keeps table_of (restore_previous op n)
restore_previous-Keeps_table op none = search table_rules
restore_previous-Keeps_table op (some n) = search (table_rules, restore_to-Keeps_table)

pub restore_reservation-Keeps_table : (op : Operation) → Keeps table_of (restore_reservation op)
unfolding restore_reservation
restore_reservation-Keeps_table op = search (table_rules, restore_previous-Keeps_table)

pub raise_expired-Keeps : (r : Operation × Bool) → Keeps table_of (raise_expired r)
raise_expired-Keeps (op, expired) = search keeps_rules

pub approval_event-Keeps :
    (app_id : Option ℕ) (actor : String) → Keeps table_of (approval_event app_id actor)
approval_event-Keeps none actor = search keeps_rules
approval_event-Keeps (some id) actor = search table_rules
