-- ===== src/Ledger/Execution.antt =====
-- Queueing the apply of reviewed plans (app/ledger.py: `_execute`, `execute`, `execute_many`).
use forgeapi_homelab.Prelude.{
  ℕ, String, Bool, true, false, Option, none, some, List, [], ◌∷◌, ◌==◌, ◌&&◌, not, opt_str_eq,
  if◌then◌else◌,
}
use forgeapi_homelab.Records.{
  Operation, apply_queued, operation, app, operation_execute, app_approve, accepted,
}
use forgeapi_homelab.Refusals.{
  Result, ok, err, plan_digest_mismatch, operation_not_planned, plan_expired,
}
use forgeapi_homelab.Config.{Config}
use forgeapi_homelab.Tx.{
  Tx, World, pure, raise, gets, ◌>>=◌, ◌>>◌, when, raise_if, event, transaction,
}
use forgeapi_homelab.Ledger.Rows.{is_planned, is_executing, is_destroy, load, save}
use forgeapi_homelab.Ledger.References.{check_references}
use forgeapi_homelab.Ledger.Release.{is_expired, expire}

unfoldable pub queue_apply : Operation → String → Tx (Operation × Bool)
unfolding check_references event save
queue_apply op actor = do
  when (not (is_destroy op.action)) (check_references op.resolved.input_refs)
  event (operation op.id) actor operation_execute accepted
  op' ← save (record op { state = apply_queued })
  pure (op', false)

abbrev pub expire_plan : Operation → String → Tx (Operation × Bool)
expire_plan op actor = do op' ← expire op actor true; pure (op', true)

-- The guards of `_execute` on the operation that was read, in the source's order.
unfoldable pub execute_found : Config → String → String → Operation → Tx (Operation × Bool)
unfolding is_expired
execute_found cfg digest actor op = do
  raise_if (not (opt_str_eq op.plan_digest (some digest))) plan_digest_mismatch
  now ← gets (λ w. w.clock)
  if is_executing op.state
      then pure (op, false)
      else if is_planned op.state && is_expired cfg now op
      then expire_plan op actor
      else if not (is_planned op.state)
      then raise operation_not_planned
      else queue_apply op actor

unfoldable pub execute_in : Config → ℕ → String → String → Tx (Operation × Bool)
unfolding execute_found load
execute_in cfg id digest actor = do op ← load id; execute_found cfg digest actor op

abbrev pub raise_expired : Operation × Bool → Tx Operation
raise_expired (op, expired) = do raise_if expired (plan_expired op.id); pure op

-- `execute`: the refusal of an expired plan is raised after the expiry has been committed.
unfoldable pub execute : Config → ℕ → String → String → Tx Operation
unfolding execute_in transaction
execute cfg id digest actor = do
  result ← transaction (execute_in cfg id digest actor)
  raise_expired result

-- The loop of `execute_many`. `_Expired(id)` is `plan_expired id`, which nothing else in the loop
-- raises.
unfoldable pub execute_each : Config → String → List (ℕ × String) → Tx (List Operation)
unfolding execute_in
execute_each cfg actor [] = pure []
execute_each cfg actor ((id, digest) ∷ items) = do
  result ← execute_in cfg id digest actor
  op ← raise_expired result
  ops ← execute_each cfg actor items
  pure (op ∷ ops)

abbrev pub approval_event : Option ℕ → String → Tx (Unit {0})
approval_event none actor = pure tt
approval_event (some id) actor = event (app id) actor app_approve accepted

unfoldable pub execute_all : Config → List (ℕ × String) → String → Option ℕ → Tx (List Operation)
unfolding execute_each event transaction
execute_all cfg items actor app_id =
    transaction
      (do results ← execute_each cfg actor items; approval_event app_id actor; pure results)

abbrev pub digest_of : ℕ → List (ℕ × String) → String
digest_of id [] = ""
digest_of id ((j, d) ∷ items) = if j == id then d else digest_of id items

-- The handler of `_Expired`: the plan that expired is failed on its own, and the call refused.
abbrev pub fail_expired :
    Config
    → List (ℕ × String)
    → String
    → Result (List Operation) × World
    → Result (List Operation) × World
fail_expired cfg items actor (err (plan_expired id), w) =
    (do execute cfg id (digest_of id items) actor; raise (plan_expired id)) w
fail_expired cfg items actor (err e, w) = (err e, w)
fail_expired cfg items actor (ok ops, w) = (ok ops, w)

unfoldable pub execute_many : Config → List (ℕ × String) → String → Option ℕ → Tx (List Operation)
unfolding execute_all execute
execute_many cfg items actor app_id w =
    fail_expired cfg items actor (execute_all cfg items actor app_id w)
