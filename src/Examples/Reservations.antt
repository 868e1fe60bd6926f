-- ===== src/Examples/Reservations.antt =====
-- A resource that stands, a deploy over it that costs more, and the discard of its plan.
use forgeapi_homelab.Prelude.{ℕ, ◌≡◌, refl, subst, sym, ◌∙◌, true, false, none, some, [], ◌∷◌}
use forgeapi_homelab.Refusals.{ok}
use forgeapi_homelab.Records.{
  State, queued, planning, planned, plan, failed, deploy, amount, Operation, Resolved,
  plan_discarded, ready,
}
use forgeapi_homelab.Tx.{World, ◌>>=◌}
use forgeapi_homelab.Tables.{find, update, delete, upsert}
use forgeapi_homelab.Ledger.Rows.{find_op, find_res}
use forgeapi_homelab.Ledger.Accounting.{accounting_amount}
use forgeapi_homelab.Ledger.Acceptance.{Intent, accept, find_keyed, find_busy, stored_cost}
use forgeapi_homelab.Ledger.Progress.{claim, finish, Report}
use forgeapi_homelab.Ledger.Release.{discard}
use forgeapi_homelab.Ledger.Lifecycle.{SameRequest}
use forgeapi_homelab.Ledger.Lifecycle.Release.{SameRequest-flag}
use forgeapi_homelab.Ledger.Lifecycle.Evolution.{IsSound}
use forgeapi_homelab.Ledger.Lifecycle.History.{Reach, start, after, call_claim, call_finish}
use forgeapi_homelab.Ledger.Reservations.{costing, discard-restores}
use forgeapi_homelab.Examples.{settings, distinct, network, fresh, row, reserved, nothing}

abbrev standing : World
standing = record fresh {
  db = record (fresh.db) {
    resources =
        record reserved {
          operation_id = 9;
          state = some ready;
          resolved = record network { estimated_monthly_cost = amount 7 };
        }
        ∷ [];
  };
}

standing-IsSound : IsSound settings standing
unfolding find
standing-IsSound = record { consistent = tt; fresh = λ n h. refl }

abbrev again : Intent
again = record { action = deploy; resource_id = some 0; body = "deploy network" }

abbrev larger : Resolved
larger = record network { previous_operation_id = some 9 }

abbrev redeployed : World
redeployed = (accept settings "ada" "k1" again larger none none standing).1

abbrev redeploy : State → Operation
redeploy s = record (row s) { id = 0; resolved = larger; previous_estimated_monthly_cost = some 7 }

redeploy_reply :
    (accept settings "ada" "k1" again larger none none standing).0 ≡ ok (redeploy queued)
unfolding accept find_keyed find find_busy ◌>>=◌
redeploy_reply = refl

abbrev running : World
running = (claim 0 plan redeployed).1

running-row : find_op 0 running ≡ some (redeploy planning)
unfolding accept claim find update upsert ◌>>=◌
running-row = refl

abbrev report : Report
report = record nothing { plan_digest = some "d1" }

abbrev planned_again : World
planned_again = (finish (redeploy planning) planned report running).1

same_copy : (r : Operation) → find_op 0 running ≡ some r → SameRequest r (redeploy planning)
same_copy r f =
    let both : some (redeploy planning) ≡ some r = sym running-row ∙ f in
    let same : redeploy planning ≡ r = cc in
    subst (λ x. SameRequest x (redeploy planning)) same
      (SameRequest-flag (redeploy planning) (redeploy planning) refl)

planned_again-reached : Reach settings redeployed planned_again
planned_again-reached =
    after (after start (call_claim 0 plan))
      (call_finish (redeploy planning) planned report same_copy refl)

abbrev reviewed_again : Operation
reviewed_again = record (redeploy planned) { planned_at = some 100; plan_digest = some "d1" }

reviewed_again-row : find_op 0 planned_again ≡ some reviewed_again
unfolding accept claim finish find update upsert ◌>>=◌
reviewed_again-row = refl

not_discarded : (x : Operation) → find_op 0 planned_again ≡ some x → x.discarded ≡ false
not_discarded x f =
    let both : some reviewed_again ≡ some x = sym reviewed_again-row ∙ f in
    let same : reviewed_again ≡ x = cc in subst (λ (o : Operation). o.discarded ≡ false) same refl

discard_reply :
    (discard 0 "ada" planned_again).0
    ≡ ok (record reviewed_again { state = failed; error = some plan_discarded; discarded = true })
unfolding discard accept claim finish find update upsert ◌>>=◌ delete
discard_reply = refl

seven_restored :
    (p : ℕ) × (accounting_amount (stored_cost (find_res 0 standing)) ≡ ok p)
    × (failed ≡ failed)
    × (find_res 0 (discard 0 "ada" planned_again).1 ≡ costing p (find_res 0 planned_again))
unfolding find_keyed find_busy
seven_restored =
    discard-restores settings distinct "ada" "k1" again larger none refl none "ada"
      (redeploy queued)
      (record reviewed_again { state = failed; error = some plan_discarded; discarded = true })
      standing planned_again standing-IsSound refl refl redeploy_reply planned_again-reached
      not_discarded discard_reply
