-- ===== src/Ledger/Entries.antt =====
-- What an accepted deploy has stored (app/ledger.py, `_accept`).
use forgeapi_homelab.Prelude.{
  ℕ, String, ◌≡◌, refl, sym, ap, subst, ◌∙◌, true, Option, none, some, List, [], ◌∷◌, ◌++◌, arith,
}
use forgeapi_homelab.Refusals.{ok}
use forgeapi_homelab.Records.{Operation, Resource, Resolved}
use forgeapi_homelab.Config.{Config}
use forgeapi_homelab.Tables.{find, find-append}
use forgeapi_homelab.Tx.{World, Tx, pure, lift, gets, event, ◌>>=◌, when}
use forgeapi_homelab.Tx.Replies.{bind-returned, transaction-committed, read-world}
use forgeapi_homelab.Ledger.Rows.{
  find_op, find_res, unlink_plan, res_key, op_key, is_deploy, uuid4, insert_op, put_resource,
}
use forgeapi_homelab.Ledger.Accounting.{accounting_amount}
use forgeapi_homelab.Ledger.Acceptance.{
  Intent, Budget, Accepted, stored_cost, check_request, record_acceptance, enter, admit, accept_new,
  accept_in, accept, find_busy, find_keyed, clear, clear_blocker, target_resource, replay_row,
  same_intent, replayed, unlink_expired, unstamped, new_operation,
}
use forgeapi_homelab.Ledger.Frames.{check_request-Keeps}
use forgeapi_homelab.Ledger.Checks.{check_request-amounts}
use forgeapi_homelab.Ledger.Lifecycle.Evolution.{IsSound}

-- What accepting the deploy `op` in `w` has stored in `v`: the operation, with the amount that its
-- resource had.
pub record AcceptedDeploy (op : Operation) (w v : World) : Type 0 where
  pub amount_before : ℕ
  pub before : accounting_amount (stored_cost (find_res op.resource_id w)) ≡ ok amount_before
  pub kept : op.previous_estimated_monthly_cost ≡ some amount_before
  pub deploys : is_deploy op.action ≡ true
  pub found : find_op op.id v ≡ some op

module _ (cfg : Config) (actor key : String) (intent : Intent) (resolved : Resolved)
    (budget : Option Budget) (is_change : is_deploy intent.action ≡ true) where
  abbrev new_row : ℕ → ℕ → ℕ → World → Operation
  new_row rid p r w =
      new_operation actor key (cfg.fingerprint intent.body) intent.action rid (unstamped resolved)
        (some (p, r)) (cfg.uuid w.drawn) w.clock

  entered :
      (rid p r : ℕ) (previous : Option Resource) (expired : Option Operation) (w : World)
      → (enter cfg actor key intent resolved rid previous (some (p, r)) expired w).0
        ≡ ok (new_row rid p r w, expired)
  unfolding enter uuid4 record_acceptance insert_op put_resource event new_operation ◌>>=◌ when
  entered rid p r previous expired w = ground (arith, is_change)

  entered-operations :
      (rid p r : ℕ) (previous : Option Resource) (expired : Option Operation) (w : World)
      → (enter cfg actor key intent resolved rid previous (some (p, r)) expired w).1.db.operations
        ≡ w.db.operations ++ new_row rid p r w ∷ []
  unfolding enter uuid4 record_acceptance insert_op put_resource event new_operation ◌>>=◌ when
  entered-operations rid p r previous expired w = ground (arith, is_change)

  -- The operation that `admit` returns.
  admitted_entry :
      (rid : ℕ) (expired : Option Operation) (w : World) (a : Accepted)
      → (admit cfg actor key intent resolved budget rid expired w).0 ≡ ok a
      → (p : ℕ) × (r : ℕ) × (accounting_amount (stored_cost (find_res rid w)) ≡ ok p)
        × ((new_row rid p r w, expired) ≡ a)
        × ((admit cfg actor key intent resolved budget rid expired w).1.db.operations
            ≡ w.db.operations ++ new_row rid p r w ∷ [])
  unfolding admit ◌>>=◌
  admitted_entry rid expired w a e =
      let (am, f, g, world) =
        read-world (check_request cfg intent (unstamped resolved) budget rid (find_res rid w))
          (λ am. enter cfg actor key intent resolved rid (find_res rid w) am expired) w a
          (check_request-Keeps cfg intent (unstamped resolved) budget rid (find_res rid w)) e in
      let (p, r, shape, before) =
        check_request-amounts cfg intent (unstamped resolved) budget rid (find_res rid w) w am
          is_change f in
      let reply = entered rid p r (find_res rid w) expired w in
      let g' : (enter cfg actor key intent resolved rid (find_res rid w) (some (p, r)) expired w).0
          ≡ ok a =
        subst (λ y. (enter cfg actor key intent resolved rid (find_res rid w) y expired w).0 ≡ ok a)
          shape g in
      (
        p,
        r,
        before,
        cc,
        ap (λ (v : World). v.db.operations) world
            ∙ ap
                (λ y.
                  (enter cfg actor key intent resolved rid (find_res rid w) y expired
                    w).1.db.operations)
                shape
            ∙ entered-operations rid p r (find_res rid w) expired w,
      )

  -- Choosing the resource leaves the tables and their constraints.
  chosen :
      (target : Option ℕ) (w : World)
      → IsSound cfg w
      → IsSound cfg (target_resource cfg target w).1
        × ((target_resource cfg target w).1.db.operations ≡ w.db.operations)
        × ((target_resource cfg target w).1.db.resources ≡ w.db.resources)
  unfolding uuid4 pure
  chosen none w h =
      (record { consistent = h.consistent; fresh = λ n k. h.fresh n (omega arith) }, refl, refl)
  chosen (some rid) w h = (h, refl, refl)

  -- A free resource needs no clearing.
  clear_blocker-free :
      (rid : ℕ) (w : World)
      → find_busy rid w.db.operations ≡ none
      → (clear_blocker cfg actor rid w).1 ≡ w
  unfolding clear_blocker ◌>>=◌
  clear_blocker-free rid w f = ap (λ b. (clear cfg actor b w).1) f

  admit-AcceptedDeploy :
      (rid : ℕ) (expired : Option Operation) (w : World) (a : Accepted)
      → IsSound cfg w
      → (admit cfg actor key intent resolved budget rid expired w).0 ≡ ok a
      → (a.0.resource_id ≡ rid)
        × AcceptedDeploy a.0 w (admit cfg actor key intent resolved budget rid expired w).1
  admit-AcceptedDeploy rid expired w a h e =
      let (p, r, before, reply, rows) = admitted_entry rid expired w a e in
      let op = new_row rid p r w in
      let unused : find op_key op.id w.db.operations ≡ none =
        unfold new_operation in h.fresh w.drawn (omega arith) in
      let entry : AcceptedDeploy op w (admit cfg actor key intent resolved budget rid expired w).1 =
        record {
          amount_before = p;
          before = unfold new_operation in before;
          kept = unfold new_operation in refl;
          deploys = unfold new_operation in is_change;
          found =
              ap (find op_key op.id) rows
              ∙ ground (arith, find-append op_key op.id w.db.operations op, unused);
        } in
      subst
        (λ (x : Accepted).
          (x.0.resource_id ≡ rid)
          × AcceptedDeploy x.0 w (admit cfg actor key intent resolved budget rid expired w).1)
        reply (unfold new_operation in refl, entry)

  moved-AcceptedDeploy :
      (op : Operation) (w u v v' : World)
      → AcceptedDeploy op u v
      → u.db.resources ≡ w.db.resources
      → v'.db.operations ≡ v.db.operations
      → AcceptedDeploy op w v'
  moved-AcceptedDeploy op w u v v' h e f = record {
    amount_before = h.amount_before;
    before =
        subst
          (λ rs.
            accounting_amount (stored_cost (find res_key op.resource_id rs)) ≡ ok h.amount_before)
          e h.before;
    kept = h.kept;
    deploys = h.deploys;
    found = ap (find op_key op.id) f ∙ h.found;
  }

  admit-target :
      (rid : ℕ) (expired : Option Operation) (w : World) (a : Accepted)
      → (admit cfg actor key intent resolved budget rid expired w).0 ≡ ok a
      → a.0.resource_id ≡ rid
  unfolding new_operation
  admit-target rid expired w a e =
      let (p, r, before, reply, rows) = admitted_entry rid expired w a e in
      sym (ap (λ (x : Accepted). x.0.resource_id) reply)

  abbrev cleared : ℕ → Tx Accepted
  cleared rid = do
    expired ← clear_blocker cfg actor rid
    admit cfg actor key intent resolved budget rid expired

  cleared-AcceptedDeploy :
      (rid : ℕ) (w : World) (a : Accepted)
      → IsSound cfg w
      → find_busy a.0.resource_id w.db.operations ≡ none
      → (cleared rid w).0 ≡ ok a
      → AcceptedDeploy a.0 w (cleared rid w).1
  cleared-AcceptedDeploy rid w a h free e =
      let (expired, e1, e2, world) = bind-returned (clear_blocker cfg actor rid) _ w a e in
      let target = admit-target rid expired _ a e2 in
      let same =
        clear_blocker-free rid w (subst (λ k. find_busy k w.db.operations ≡ none) target free) in
      let (own, entry) = admit-AcceptedDeploy rid expired w a h (
        subst (λ v. (admit cfg actor key intent resolved budget rid expired v).0 ≡ ok a) same e2) in
      subst (AcceptedDeploy a.0 w)
        (sym (world ∙ ap (λ v. (admit cfg actor key intent resolved budget rid expired v).1) same))
        entry

  chosen-AcceptedDeploy :
      (w : World) (a : Accepted)
      → IsSound cfg w
      → find_busy a.0.resource_id w.db.operations ≡ none
      → ((target_resource cfg intent.resource_id >>= cleared) w).0 ≡ ok a
      → AcceptedDeploy a.0 w ((target_resource cfg intent.resource_id >>= cleared) w).1
  chosen-AcceptedDeploy w a h free e =
      let (rid, e1, e2, world) =
        bind-returned (target_resource cfg intent.resource_id) cleared w a e in
      let (sound, operations, resources) = chosen intent.resource_id w h in
      let entry =
        cleared-AcceptedDeploy rid _ a sound
          (subst (λ ops. find_busy a.0.resource_id ops ≡ none) (sym operations) free) e2 in
      moved-AcceptedDeploy a.0 w _ _ _ entry resources (ap (λ (v : World). v.db.operations) world)

  accept_new-AcceptedDeploy :
      (groups : Option (List String)) (w : World) (a : Accepted)
      → IsSound cfg w
      → find_busy a.0.resource_id w.db.operations ≡ none
      → (accept_new cfg actor key intent resolved budget groups w).0 ≡ ok a
      → AcceptedDeploy a.0 w (accept_new cfg actor key intent resolved budget groups w).1
  unfolding accept_new lift gets
  accept_new-AcceptedDeploy groups w a h free e =
      let (teams, e1, e2, w1) = bind-returned _ _ w a e in
      let (placed, e3, e4, w2) = bind-returned _ _ _ a e2 in
      subst (AcceptedDeploy a.0 w) (sym (w1 ∙ w2)) (chosen-AcceptedDeploy w a h free e4)

  -- `_accept` on the row that the key has.
  by_row : Option (List String) → Option Operation → Tx Accepted
  by_row groups row = do
    existing ← same_intent (cfg.fingerprint intent.body) row
    replayed existing (accept_new cfg actor key intent resolved budget groups)

  by_row-AcceptedDeploy :
      (groups : Option (List String)) (row : Option Operation) (w : World) (a : Accepted)
      → row ≡ none
      → IsSound cfg w
      → find_busy a.0.resource_id w.db.operations ≡ none
      → (by_row groups row w).0 ≡ ok a
      → AcceptedDeploy a.0 w (by_row groups row w).1
  unfolding by_row ◌>>=◌
  by_row-AcceptedDeploy groups none w a q h free e = accept_new-AcceptedDeploy groups w a h free e
  by_row-AcceptedDeploy groups (some op) w a q h free e = cc

  accept_in-AcceptedDeploy :
      (groups : Option (List String)) (w : World) (a : Accepted)
      → find_keyed actor key w.db.operations ≡ none
      → IsSound cfg w
      → find_busy a.0.resource_id w.db.operations ≡ none
      → (accept_in cfg actor key intent resolved budget groups w).0 ≡ ok a
      → AcceptedDeploy a.0 w (accept_in cfg actor key intent resolved budget groups w).1
  unfolding accept_in replay_row by_row ◌>>=◌
  accept_in-AcceptedDeploy groups w a fresh h free e =
      by_row-AcceptedDeploy groups (find_keyed actor key w.db.operations) w a fresh h free e

  unlinked :
      (a : Accepted) (w : World) (op : Operation)
      → (unlink_expired a w).0 ≡ ok op
      → (a.0 ≡ op) × ((unlink_expired a w).1.db.operations ≡ w.db.operations)
  unfolding unlink_plan ◌>>=◌
  unlinked (x, none) w op e = (cc, refl)
  unlinked (x, some blocker) w op e = (cc, refl)

  pub accept-AcceptedDeploy :
      (groups : Option (List String)) (w : World) (op : Operation)
      → find_keyed actor key w.db.operations ≡ none
      → IsSound cfg w
      → find_busy op.resource_id w.db.operations ≡ none
      → (accept cfg actor key intent resolved budget groups w).0 ≡ ok op
      → AcceptedDeploy op w (accept cfg actor key intent resolved budget groups w).1
  unfolding accept
  accept-AcceptedDeploy groups w op fresh h free e =
      let (a, f, g, world) = bind-returned _ _ w op e in
      let (returned, committed) =
        transaction-committed (accept_in cfg actor key intent resolved budget groups) w a f in
      let (same, kept) = unlinked a _ op g in
      let entry =
        accept_in-AcceptedDeploy groups w a fresh h
          (subst (λ (o : Operation). find_busy o.resource_id w.db.operations ≡ none) (sym same)
            free)
          returned in
      let stored = (accept_in cfg actor key intent resolved budget groups w).1 in
      moved-AcceptedDeploy op w w stored _
        (subst (λ (o : Operation). AcceptedDeploy o w stored) same entry) refl
        (ap (λ (v : World). v.db.operations) world
          ∙ kept
          ∙ ap (λ (v : World). v.db.operations) committed)
