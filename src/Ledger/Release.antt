-- ===== src/Ledger/Release.antt =====
-- Releasing a plan that will not execute (app/ledger.py: `_expired`, `_restore_reservation`,
-- `_release_plan`, `_expire`, `discard`; app/contracts.py: `plan_expires_at`).
use forgeapi_homelab.Prelude.{
  ℕ, ◌+◌, String, Bool, true, false, Option, none, some, ltb, or_else, if◌then◌else◌, not,
}
use forgeapi_homelab.Records.{
  Operation, Resource, amount, Failure, plan_expired, plan_discarded, failed, operation,
  EventAction, accepted, operation_expire, operation_discard,
}
use forgeapi_homelab.Refusals.{operation_not_planned}
use forgeapi_homelab.Config.{Config}
use forgeapi_homelab.Tx.{Tx, pure, raise, gets, ◌>>=◌, ◌>>◌, when, event, transaction}
use forgeapi_homelab.Ledger.Rows.{
  is_planned, is_deploy, find_res, load, save, write_resource, unlink_plan,
}

unfoldable pub plan_expires_at : Config → Operation → Option ℕ
plan_expires_at cfg op =
    if is_planned op.state
    then elim cfg.plan_max_age [
      | none ↦ none
      | some age ↦ some (or_else op.planned_at op.updated_at + age)
    ]
    else none

-- `expires is not None and now() > expires`.
unfoldable pub is_expired : Config → ℕ → Operation → Bool
unfolding plan_expires_at
is_expired cfg now op = elim (plan_expires_at cfg op) [
  | none ↦ false
  | some expires ↦ ltb expires now
]

abbrev pub with_cost : ℕ → Resource → Resource
with_cost n r = record r { resolved = record r.resolved { estimated_monthly_cost = amount n } }

abbrev pub restore_to : ℕ → Option Resource → Tx (Unit {0})
restore_to previous none = pure tt
restore_to previous (some r) = write_resource (with_cost previous r)

abbrev pub restore_previous : Operation → Option ℕ → Tx (Unit {0})
restore_previous op none = pure tt
restore_previous op (some previous) = do
  row ← gets (find_res op.resource_id)
  restore_to previous row

unfoldable pub restore_reservation : Operation → Tx (Unit {0})
unfolding write_resource
restore_reservation op =
    when (is_deploy op.action) (restore_previous op op.previous_estimated_monthly_cost)

-- `flag` marks the released operation: `op["expired"]` or `op["discarded"]`.
unfoldable pub release_plan :
    Operation → String → EventAction → Failure → (Operation → Operation) → Bool → Tx Operation
unfolding event save unlink_plan restore_reservation
release_plan op actor action error flag unlink = do
  event (operation op.id) actor action accepted
  op' ← save (flag (record op { state = failed; error = some error }))
  when unlink (unlink_plan op')
  restore_reservation op'
  pure op'

abbrev pub mark_expired : Operation → Operation
mark_expired op = record op { expired = true }

abbrev pub mark_discarded : Operation → Operation
mark_discarded op = record op { discarded = true }

unfoldable pub expire : Operation → String → Bool → Tx Operation
expire op actor unlink = release_plan op actor operation_expire plan_expired mark_expired unlink

unfoldable pub discard_found : Operation → String → Tx Operation
discard_found op actor =
    if op.discarded
    then pure op
    else if not (is_planned op.state)
    then raise operation_not_planned
    else release_plan op actor operation_discard plan_discarded mark_discarded true

unfoldable pub discard : ℕ → String → Tx Operation
unfolding discard_found release_plan transaction load
discard id actor = transaction (do op ← load id; discard_found op actor)
