-- ===== src/Ledger/Reservations.antt =====
-- What discarding a plan gives back (app/ledger.py, `_accept` and `discard`).
use mathlib.Core.Bool.{false≢true}
use forgeapi_homelab.Prelude.{
  ℕ, String, ◌≡◌, refl, ap, subst, ◌∙◌, true, false, Option, none, some, List, arith, Bool-cases,
  inl, inr,
}
use forgeapi_homelab.Refusals.{ok}
use forgeapi_homelab.Records.{Operation, Resource, Resolved, failed}
use forgeapi_homelab.Config.{Config}
use forgeapi_homelab.Tables.{find-update, find-key}
use forgeapi_homelab.Tx.{World, event, ◌>>=◌, transaction, when}
use forgeapi_homelab.Ledger.Rows.{
  find_op, find_res, load, save, unlink_plan, write_resource, res_key, is_planned, is_deploy,
}
use forgeapi_homelab.Ledger.Accounting.{accounting_amount}
use forgeapi_homelab.Ledger.Acceptance.{Intent, Budget, stored_cost, accept, find_busy, find_keyed}
use forgeapi_homelab.Ledger.Release.{
  discard, discard_found, release_plan, restore_reservation, with_cost,
}
use forgeapi_homelab.Ledger.Entries.{accept-AcceptedDeploy}
use forgeapi_homelab.Ledger.Lifecycle.Evolution.{IsSound}
use forgeapi_homelab.Ledger.Lifecycle.Acceptance.{accept-Evolves}
use forgeapi_homelab.Ledger.Lifecycle.History.{Reach, Reach-Later}

-- A resource's row with another amount.
abbrev pub costing : ℕ → Option Resource → Option Resource
costing p none = none
costing p (some r) = some (with_cost p r)

rewritten :
    (k p : ℕ) (r : Resource) (w : World)
    → find_res k w ≡ some r
    → find_res k (write_resource (with_cost p r) w).1 ≡ some (with_cost p r)
unfolding write_resource
rewritten k p r w f = ground (
  arith,
  f,
  find-update res_key k (with_cost p r) w.db.resources,
  find-key res_key k w.db.resources r,
)

-- A discard that returns of a deploy whose plan is not discarded yet.
discarded_deploy :
    (id p : ℕ) (actor : String) (op o : Operation) (row : Option Resource) (w : World)
    → find_op id w ≡ some op
    → op.discarded ≡ false
    → is_deploy op.action ≡ true
    → op.previous_estimated_monthly_cost ≡ some p
    → find_res op.resource_id w ≡ row
    → (discard id actor w).0 ≡ ok o
    → (o.state ≡ failed) × (find_res op.resource_id (discard id actor w).1 ≡ costing p row)
unfolding discard discard_found release_plan restore_reservation load save event unlink_plan
    write_resource ◌>>=◌ transaction when
discarded_deploy id p actor op o none w f d a c g e = elim (Bool-cases (is_planned op.state)) [
  | inl s ↦ (ground (arith, f, s, d, a, c, g, e), ground (arith, f, s, d, a, c, g))
  | inr s ↦ absurd (false≢true (ground (arith, f, s, d, e)))
]
discarded_deploy id p actor op o (some r) w f d a c g e = elim (Bool-cases (is_planned op.state)) [
  | inl s ↦ (
    ground (arith, f, s, d, a, c, g, e),
    ground (arith, f, s, d, a, c, g, rewritten op.resource_id p r w g),
  )
  | inr s ↦ absurd (false≢true (ground (arith, f, s, d, e)))
]

module _ (cfg : Config) (distinct : (m n : ℕ) → cfg.uuid m ≡ cfg.uuid n → m ≡ n)
    (actor key : String) (intent : Intent) (resolved : Resolved) (budget : Option Budget)
    (is_change : is_deploy intent.action ≡ true) where
  -- From a ledger whose table is sound, if the UUIDs drawn are distinct: where a deploy was accepted
  -- under a new key while no operation held its resource, and later, after any calls of `Call`, its
  -- operation, not discarded before, is discarded by a call that returns, the operation is failed and
  -- the resource's row, if it is still there, has the amount that the ledger counted for the resource
  -- before the acceptance, the rest of the row as it was before the discard.
  pub discard-restores :
      (groups : Option (List String)) (who : String) (op o : Operation) (w v : World)
      → IsSound cfg w
      → find_keyed actor key w.db.operations ≡ none
      → find_busy op.resource_id w.db.operations ≡ none
      → (accept cfg actor key intent resolved budget groups w).0 ≡ ok op
      → Reach cfg (accept cfg actor key intent resolved budget groups w).1 v
      → ((x : Operation) → find_op op.id v ≡ some x → x.discarded ≡ false)
      → (discard op.id who v).0 ≡ ok o
      → (p : ℕ) × (accounting_amount (stored_cost (find_res op.resource_id w)) ≡ ok p)
        × (o.state ≡ failed)
        × (find_res op.resource_id (discard op.id who v).1 ≡ costing p (find_res op.resource_id v))
  discard-restores groups who op o w v h fresh free e reach kept returned =
      let entry =
        accept-AcceptedDeploy cfg actor key intent resolved budget is_change groups w op fresh h
          free e in
      let sound = (accept-Evolves cfg distinct actor key intent resolved budget groups).at w h in
      let (x, found, later) = Reach-Later cfg distinct op.id op sound.sound reach entry.found in
      let same = later.same in
      let (ended, row) =
        discarded_deploy op.id entry.amount_before who x o (find_res x.resource_id v) v found
          (kept x found) (ap is_deploy same.action ∙ entry.deploys)
          (same.previous_estimated_monthly_cost ∙ entry.kept) refl returned in
      (
        entry.amount_before,
        entry.before,
        ended,
        subst (λ k. find_res k (discard op.id who v).1 ≡ costing entry.amount_before (find_res k v))
            same.resource_id row,
      )
