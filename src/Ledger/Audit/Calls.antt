-- ===== src/Ledger/Audit/Calls.antt =====
-- The audit trail over any sequence of calls (app/ledger.py: `accept`, `execute`, `execute_many`).
use forgeapi_homelab.Prelude.{ℕ, String, refl, Bool, false, Option, none, some, List, [], ◌∷◌}
use forgeapi_homelab.Records.{Operation, Resource, Resolved}
use forgeapi_homelab.Refusals.{Result, ok, err, plan_expired}
use forgeapi_homelab.Config.{Config}
use forgeapi_homelab.Tx.{Tx, World, pure, raise, ◌>>=◌, ◌>>◌}
use forgeapi_homelab.Tx.Keeps.{keeps_rules}
use forgeapi_homelab.Ledger.Frames.{check_request-Keeps, replay_row-Keeps, check_references-Keeps}
use forgeapi_homelab.Ledger.Execution.{
  queue_apply, execute_found, execute_in, execute, raise_expired, execute_each, execute_all,
  approval_event, fail_expired, execute_many, digest_of,
}
use forgeapi_homelab.Ledger.Acceptance.{
  Intent, Budget, Accepted, accept, accept_in, accept_new, admit, enter, record_acceptance,
  clear_blocker, clear, target_resource, replayed, unlink_expired, unstamped,
}
use forgeapi_homelab.Ledger.Audit.{
  Logs, Audited, Logs-refl, Logs-trans, Extends-Keeps, Audited-transaction, Audited-bind,
  Audited-event,
}
use forgeapi_homelab.Ledger.Lifecycle.History.{
  Call, call_accept, call_execute, call_execute_many, call_discard, call_claim, call_finish,
  call_interrupted, call_reconcile, time_passes, Reach, start as no_call, after,
}
use forgeapi_homelab.Ledger.Audit.Methods.{
  load-Audited, unlink_plan-Audited, uuid4-Audited, expire-Audited, read-Audited, gets-Audited,
  guard-Audited, lift-Audited, raise-Audited, pure-Audited, expire_plan-Audited, discard-Audited,
  claim-Audited, finish-Audited, reconcile-Audited, interrupted-Audited, writes, audited_rules,
}

queue_apply-Audited : (op : Operation) (actor : String) → Audited (queue_apply op actor)
unfolding queue_apply
queue_apply-Audited op actor =
    read-Audited _ _ (search (keeps_rules, check_references-Keeps))
      (search (keeps_rules, check_references-Keeps))
      λ u. Audited-event _ _ _ _ _ (Extends-Keeps _ (search writes))

execute_found-Audited :
    (cfg : Config) (digest actor : String) (op : Operation)
    → Audited (execute_found cfg digest actor op)
unfolding execute_found
execute_found-Audited cfg digest actor op = guard-Audited _ _ _ λ u. gets-Audited _ _ λ now.
    search (audited_rules, raise-Audited, pure-Audited, expire_plan-Audited, queue_apply-Audited)
      depth 8

execute_in-Audited :
    (cfg : Config) (id : ℕ) (digest actor : String) → Audited (execute_in cfg id digest actor)
unfolding execute_in
execute_in-Audited cfg id digest actor =
    Audited-bind _ _ (load-Audited id) λ op. execute_found-Audited cfg digest actor op

raise_expired-Audited : (r : Operation × Bool) → Audited (raise_expired r)
raise_expired-Audited (op, expired) = guard-Audited _ _ _ λ u. pure-Audited op

execute-Audited :
    (cfg : Config) (id : ℕ) (digest actor : String) → Audited (execute cfg id digest actor)
unfolding execute
execute-Audited cfg id digest actor =
    Audited-bind _ _ (Audited-transaction _ (execute_in-Audited cfg id digest actor))
      raise_expired-Audited

execute_each-Audited :
    (cfg : Config) (actor : String) (items : List (ℕ × String))
    → Audited (execute_each cfg actor items)
unfolding execute_each
execute_each-Audited cfg actor [] = pure-Audited []
execute_each-Audited cfg actor ((id, digest) ∷ items) =
    Audited-bind _ _ (execute_in-Audited cfg id digest actor) λ r.
      Audited-bind _ _ (raise_expired-Audited r)
        λ op. Audited-bind _ _ (execute_each-Audited cfg actor items) λ ops. pure-Audited _

approval_event-Audited :
    (id : Option ℕ) (actor : String) (ops : List Operation)
    → Audited (approval_event id actor >> pure ops)
approval_event-Audited none actor ops = Audited-bind _ _ (pure-Audited tt) λ u. pure-Audited ops
approval_event-Audited (some id) actor ops =
    Audited-event _ _ _ _ _ (Extends-Keeps _ (search keeps_rules))

execute_all-Audited :
    (cfg : Config) (items : List (ℕ × String)) (actor : String) (id : Option ℕ)
    → Audited (execute_all cfg items actor id)
unfolding execute_all
execute_all-Audited cfg items actor id = Audited-transaction _ (
    Audited-bind _ _ (execute_each-Audited cfg actor items)
      λ ops. approval_event-Audited id actor ops)

fail_expired-Audited :
    (cfg : Config) (items : List (ℕ × String)) (actor : String) (w : World)
    (r : Result (List Operation) × World)
    → Logs w r.1
    → Logs w (fail_expired cfg items actor r).1
unfolding ◌>>=◌
fail_expired-Audited cfg items actor w (ok ops, v) l = l
fail_expired-Audited cfg items actor w (err (plan_expired id), v) l = Logs-trans w v _ l (
    (Audited-bind (execute cfg id (digest_of id items) actor) (λ op. raise (plan_expired id))
        (execute-Audited cfg id (digest_of id items) actor) λ op. raise-Audited _).at
      v)
fail_expired-Audited cfg items actor w (err _, v) l = l

execute_many-Audited :
    (cfg : Config) (items : List (ℕ × String)) (actor : String) (id : Option ℕ)
    → Audited (execute_many cfg items actor id)
unfolding execute_many
execute_many-Audited cfg items actor id = record {
  at =
      λ w. fail_expired-Audited cfg items actor w _ ((execute_all-Audited cfg items actor id).at w);
}

module _ (cfg : Config) (actor key : String) (intent : Intent) (resolved : Resolved)
    (budget : Option Budget) (groups : Option (List String)) where
  record_acceptance-Audited :
      (previous : Option Resource) (am : Option (ℕ × ℕ)) (op : Operation)
      → Audited (record_acceptance previous am op)
  unfolding record_acceptance
  record_acceptance-Audited previous am op =
      Audited-event _ _ _ _ _ (Extends-Keeps _ (search writes))

  enter-Audited :
      (rid : ℕ) (previous : Option Resource) (am : Option (ℕ × ℕ)) (e : Option Operation)
      → Audited (enter cfg actor key intent resolved rid previous am e)
  unfolding enter
  enter-Audited rid previous am e = gets-Audited _ _ λ now.
      Audited-bind _ _ (uuid4-Audited cfg)
        λ id. Audited-bind _ _ (record_acceptance-Audited previous am _) λ u. pure-Audited _

  admit-Audited :
      (rid : ℕ) (e : Option Operation) → Audited (admit cfg actor key intent resolved budget rid e)
  unfolding admit
  admit-Audited rid e = gets-Audited _ _ λ previous.
      read-Audited _ _ (check_request-Keeps cfg intent (unstamped resolved) budget rid previous)
        (check_request-Keeps cfg intent (unstamped resolved) budget rid previous)
        λ am. enter-Audited rid previous am e

  target_resource-Audited : (rid : Option ℕ) → Audited (target_resource cfg rid)
  target_resource-Audited none = uuid4-Audited cfg
  target_resource-Audited (some rid) = pure-Audited rid

  clear-Audited : (busy : Option Operation) → Audited (clear cfg actor busy)
  clear-Audited none = pure-Audited none
  clear-Audited (some op) = gets-Audited _ _ λ now.
      guard-Audited _ _ _ λ u. Audited-bind _ _ (expire-Audited op actor false) λ e. pure-Audited _

  accept_new-Audited : Audited (accept_new cfg actor key intent resolved budget groups)
  unfolding accept_new clear_blocker
  accept_new-Audited = gets-Audited _ _ λ teams. lift-Audited _ _ λ u.
      Audited-bind _ _ (target_resource-Audited intent.resource_id)
        λ rid. Audited-bind _ _ (gets-Audited _ _ clear-Audited) λ e. admit-Audited rid e

  replayed-Audited :
      (row : Option Operation) (rest : Tx Accepted) → Audited rest → Audited (replayed row rest)
  replayed-Audited none rest p = p
  replayed-Audited (some op) rest p = pure-Audited _

  unlink_expired-Audited : (r : Accepted) → Audited (unlink_expired r)
  unlink_expired-Audited (op, none) = pure-Audited op
  unlink_expired-Audited (op, some b) =
      Audited-bind _ _ (unlink_plan-Audited b) λ u. pure-Audited op

  accept-Audited : Audited (accept cfg actor key intent resolved budget groups)
  unfolding accept accept_in
  accept-Audited =
      Audited-bind _ _
        (Audited-transaction _ (
          read-Audited _ _ (replay_row-Keeps _ _ _) (replay_row-Keeps _ _ _)
            λ row. replayed-Audited row _ accept_new-Audited))
        unlink_expired-Audited

Call-Logs : (cfg : Config) {u v : World} → Call cfg u v → Logs u v
Call-Logs cfg {u} (call_accept actor key intent resolved budget groups) =
    (accept-Audited cfg actor key intent resolved budget groups).at u
Call-Logs cfg {u} (call_execute id digest actor) = (execute-Audited cfg id digest actor).at u
Call-Logs cfg {u} (call_execute_many items actor app_id) =
    (execute_many-Audited cfg items actor app_id).at u
Call-Logs cfg {u} (call_discard id actor) = (discard-Audited id actor).at u
Call-Logs cfg {u} (call_claim id phase) = (claim-Audited id phase).at u
Call-Logs cfg {u} (call_finish op s report same f) = (finish-Audited op s report).at u
Call-Logs cfg {u} (call_interrupted id phase) = (interrupted-Audited id phase).at u
Call-Logs cfg {u} (call_reconcile id actor o reason) = (reconcile-Audited id actor o reason).at u
Call-Logs cfg {u} (time_passes n) = Logs-refl u _ refl refl

-- Over any sequence of the calls of `Call`, from any ledger, the audit trail only grows: its rows stay
-- in place, new ones come after them. A sequence that added none changed no operation and no resource.
pub Reach-Logs : (cfg : Config) {u w : World} → Reach cfg u w → Logs u w
Reach-Logs cfg {u} no_call = Logs-refl u u refl refl
Reach-Logs cfg {u} {w} (after {v} r c) = Logs-trans u v w (Reach-Logs cfg r) (Call-Logs cfg c)
