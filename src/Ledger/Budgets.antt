-- ===== src/Ledger/Budgets.antt =====
-- What an accepted deploy may reserve (app/ledger.py, `_accept`).
use forgeapi_homelab.Prelude.{
  ℕ, ◌≤◌, String, true, ◌≡◌, refl, sym, ap, subst, ◌∙◌, Option, none, some, List, [], ◌∷◌, ◌++◌,
  max, arith,
}
use forgeapi_homelab.Refusals.{ok}
use forgeapi_homelab.Records.{Operation, Resource, Resolved, amount}
use forgeapi_homelab.Config.{Config}
use forgeapi_homelab.Tables.{find, delete, upsert, find-key, find-upsert}
use forgeapi_homelab.Tx.{Tx, World, ◌>>=◌, when, event}
use forgeapi_homelab.Tx.Replies.{read-world, bind-returned, transaction-committed}
use forgeapi_homelab.Ledger.Rows.{
  res_key, find_res, is_deploy, put_resource, insert_op, uuid4, unlink_plan,
}
use forgeapi_homelab.Ledger.Accounting.{
  accounting_amount, amounts_in, is_counted, summed, reserved_in, total_with,
}
use forgeapi_homelab.Ledger.Acceptance.{
  Intent, Budget, check_request, accepted_resource, record_acceptance, enter, admit, accept_new,
  accept_in, accept, find_keyed, replay_row, unstamped, Accepted, new_operation, unlink_expired,
  replayed, same_intent,
}
use forgeapi_homelab.Ledger.Frames.{check_request-Keeps}
use forgeapi_homelab.Ledger.Checks.{check_request-Checked}

-- The amounts beside a resource's own do not change when its row does.
amounts_in-delete :
    (u e : Option String) (k : ℕ) (rs : List Resource)
    → amounts_in u e (some k) (delete res_key k rs) ≡ amounts_in u e (some k) rs
unfolding amounts_in delete is_counted
amounts_in-delete u e k [] = refl
amounts_in-delete u e k (r ∷ rs) = ground (arith, amounts_in-delete u e k rs)

amounts_in-append :
    (u e : Option String) (r : Resource) (rs : List Resource)
    → amounts_in u e (some r.id) (rs ++ r ∷ []) ≡ amounts_in u e (some r.id) rs
unfolding amounts_in is_counted
amounts_in-append u e r [] = ground arith
amounts_in-append u e r (x ∷ rs) = ground (arith, amounts_in-append u e r rs)

reserved_in-upsert :
    (cfg : Config) (u e : Option String) (r : Resource) (rs : List Resource)
    → reserved_in cfg u e (some r.id) (upsert res_key r rs) ≡ reserved_in cfg u e (some r.id) rs
unfolding reserved_in upsert
reserved_in-upsert cfg u e r rs =
    ap (summed cfg)
      (amounts_in-append u e r (delete res_key r.id rs) ∙ amounts_in-delete u e r.id rs)

-- The limit for what the resource reserves, what is reserved besides in the request's unit and
-- environment, and what the legacy API has committed there, added as the source adds them.
pub record IsWithin (cfg : Config) (b : Budget) (resolved : Resolved) (rid : ℕ) (rs : List Resource)
    : Type 0 where
  pub own : Resource
  pub requested : ℕ
  pub reserved : ℕ
  pub used : ℕ
  pub legacy : ℕ
  pub total : ℕ
  pub found : find res_key rid rs ≡ some own
  pub held : own.resolved.estimated_monthly_cost ≡ amount reserved
  pub asked : accounting_amount resolved.estimated_monthly_cost ≡ ok requested
  pub covers : requested ≤ reserved
  pub besides : reserved_in cfg resolved.business_unit resolved.environment (some rid) rs ≡ ok used
  pub committed : accounting_amount b.legacy_committed ≡ ok legacy
  pub added : total_with cfg used legacy reserved ≡ ok total
  pub bounded : total ≤ b.limit

-- The row that acceptance writes has the larger amount reserved.
accepted_resource-cost :
    (previous : Option Resource) (p r : ℕ) (op : Operation)
    → ((accepted_resource previous (some (p, r)) op).resolved.estimated_monthly_cost
        ≡ amount (max p r))
unfolding accepted_resource
accepted_resource-cost none p r op = refl
accepted_resource-cost (some x) p r op = refl

-- A new operation's row: `enter` puts the accepted resource in the place of the old one.
enter-resources :
    (cfg : Config) (actor key : String) (intent : Intent) (resolved : Resolved) (rid : ℕ)
    (previous : Option Resource) (p r : ℕ) (expired : Option Operation) (w : World) (a : Accepted)
    → is_deploy intent.action ≡ true
    → (enter cfg actor key intent resolved rid previous (some (p, r)) expired w).0 ≡ ok a
    → (a.0.resource_id ≡ rid)
      × ((enter cfg actor key intent resolved rid previous (some (p, r)) expired w).1.db.resources
          ≡ upsert res_key (accepted_resource previous (some (p, r)) a.0) w.db.resources)
unfolding enter uuid4 record_acceptance insert_op put_resource event new_operation ◌>>=◌ when
enter-resources cfg actor key intent resolved rid previous p r expired w a d e =
    let op =
      new_operation actor key (cfg.fingerprint intent.body) intent.action rid (unstamped resolved)
        (some (p, r)) (cfg.uuid w.drawn) w.clock in
    let replied : (enter cfg actor key intent resolved rid previous (some (p, r)) expired w).0
        ≡ ok (op, expired) =
      ground (arith, d) in
    let same : (op, expired) ≡ a = cc in
    let rows : (enter cfg actor key intent resolved rid previous (some (p, r)) expired
          w).1.db.resources
        ≡ upsert res_key (accepted_resource previous (some (p, r)) op) w.db.resources =
      ground (arith, d) in
    (
      sym (ap (λ (x : Accepted). x.0.resource_id) same),
      rows
          ∙ ap
              (λ (x : Accepted).
                upsert res_key (accepted_resource previous (some (p, r)) x.0) w.db.resources)
              same,
    )

accepted_id :
    (rid p r : ℕ) (op : Operation) (w : World) (row : Option Resource)
    → op.resource_id ≡ rid
    → find_res rid w ≡ row
    → (accepted_resource row (some (p, r)) op).id ≡ rid
unfolding accepted_resource
accepted_id rid p r op w none e f = e
accepted_id rid p r op w (some x) e f = find-key res_key rid w.db.resources x f

module _ (cfg : Config) (actor key : String) (intent : Intent) (resolved : Resolved) (b : Budget)
    (is_change : is_deploy intent.action ≡ true) where
  abbrev Within : ℕ → World → Type 0
  Within rid w = IsWithin cfg b resolved rid w.db.resources

  entered-IsWithin :
      (rid : ℕ) (expired : Option Operation) (w : World) (a : Accepted) (am : Option (ℕ × ℕ))
      → (check_request cfg intent (unstamped resolved) (some b) rid (find_res rid w) w).0 ≡ ok am
      → (enter cfg actor key intent resolved rid (find_res rid w) am expired w).0 ≡ ok a
      → Within a.0.resource_id
          (enter cfg actor key intent resolved rid (find_res rid w) am expired w).1
  entered-IsWithin rid expired w a am f g =
      let (p, r, shape, asked, checked) =
        check_request-Checked cfg intent (unstamped resolved) b rid (find_res rid w) w am is_change
          f in
      let (own, rows) =
        enter-resources cfg actor key intent resolved rid (find_res rid w) p r expired w a is_change
          (subst
            (λ y. (enter cfg actor key intent resolved rid (find_res rid w) y expired w).0 ≡ ok a)
            shape g) in
      let new = accepted_resource (find_res rid w) (some (p, r)) a.0 in
      let id : new.id ≡ rid = accepted_id rid p r a.0 w (find_res rid w) own refl in
      let within : IsWithin cfg b resolved rid (upsert res_key new w.db.resources) = record {
        own = new;
        requested = r;
        reserved = max p r;
        used = checked.used;
        legacy = checked.legacy;
        total = checked.total;
        found = ground (arith, find-upsert res_key rid new w.db.resources, id);
        held = accepted_resource-cost (find_res rid w) p r a.0;
        asked = asked;
        covers = omega arith;
        besides =
            subst
              (λ k.
                reserved_in cfg resolved.business_unit resolved.environment (some k)
                  (upsert res_key new w.db.resources)
                ≡ reserved_in cfg resolved.business_unit resolved.environment (some k)
                    w.db.resources)
              id
              (reserved_in-upsert cfg resolved.business_unit resolved.environment new
                w.db.resources)
            ∙ checked.besides;
        committed = checked.committed;
        added = checked.added;
        bounded = checked.bounded;
      } in
      subst
        (λ k. Within k (enter cfg actor key intent resolved rid (find_res rid w) am expired w).1)
        (sym own)
        (subst
          (λ y. Within rid (enter cfg actor key intent resolved rid (find_res rid w) y expired w).1)
          (sym shape) (subst (λ rs. IsWithin cfg b resolved rid rs) (sym rows) within))

  admit-IsWithin :
      (rid : ℕ) (expired : Option Operation) (w : World) (a : Accepted)
      → (admit cfg actor key intent resolved (some b) rid expired w).0 ≡ ok a
      → Within a.0.resource_id (admit cfg actor key intent resolved (some b) rid expired w).1
  unfolding admit ◌>>=◌
  admit-IsWithin rid expired w a e =
      let (am, f, g, world) =
        read-world (check_request cfg intent (unstamped resolved) (some b) rid (find_res rid w))
          (λ am. enter cfg actor key intent resolved rid (find_res rid w) am expired) w a
          (check_request-Keeps cfg intent (unstamped resolved) (some b) rid (find_res rid w)) e in
      subst (Within a.0.resource_id) (sym world) (entered-IsWithin rid expired w a am f g)

  accept_new-IsWithin :
      (groups : Option (List String)) (w : World) (a : Accepted)
      → (accept_new cfg actor key intent resolved (some b) groups w).0 ≡ ok a
      → Within a.0.resource_id (accept_new cfg actor key intent resolved (some b) groups w).1
  unfolding accept_new
  accept_new-IsWithin groups w a e =
      let (teams, e1, e2, w1) = bind-returned _ _ w a e in
      let (placed, e3, e4, w2) = bind-returned _ _ _ a e2 in
      let (rid, e5, e6, w3) = bind-returned _ _ _ a e4 in
      let (expired, e7, e8, w4) = bind-returned _ _ _ a e6 in
      subst (Within a.0.resource_id) (sym (w1 ∙ w2 ∙ w3 ∙ w4)) (admit-IsWithin rid expired _ a e8)

  -- `_accept` on the row that the key has.
  by_row : Option (List String) → Option Operation → Tx Accepted
  by_row groups row = do
    existing ← same_intent (cfg.fingerprint intent.body) row
    replayed existing (accept_new cfg actor key intent resolved (some b) groups)

  by_row-IsWithin :
      (groups : Option (List String)) (row : Option Operation) (w : World) (a : Accepted)
      → row ≡ none
      → (by_row groups row w).0 ≡ ok a
      → Within a.0.resource_id (by_row groups row w).1
  unfolding by_row ◌>>=◌
  by_row-IsWithin groups none w a q e = accept_new-IsWithin groups w a e
  by_row-IsWithin groups (some op) w a q e = cc

  accept_in-IsWithin :
      (groups : Option (List String)) (w : World) (a : Accepted)
      → find_keyed actor key w.db.operations ≡ none
      → (accept_in cfg actor key intent resolved (some b) groups w).0 ≡ ok a
      → Within a.0.resource_id (accept_in cfg actor key intent resolved (some b) groups w).1
  unfolding accept_in replay_row by_row ◌>>=◌
  accept_in-IsWithin groups w a fresh e =
      by_row-IsWithin groups (find_keyed actor key w.db.operations) w a fresh e

  unlinked :
      (a : Accepted) (w : World) (op : Operation)
      → (unlink_expired a w).0 ≡ ok op
      → Within a.0.resource_id w
      → Within op.resource_id (unlink_expired a w).1
  unfolding unlink_plan ◌>>=◌
  unlinked (x, none) w op e h =
      let same : x ≡ op = cc in subst (λ (o : Operation). Within o.resource_id w) same h
  unlinked (x, some blocker) w op e h =
      let same : x ≡ op = cc in subst (λ (o : Operation). Within o.resource_id w) same h

  -- After a deploy was accepted under a new key and against a budget, its resource's row reserves at
  -- least the requested amount, and what is reserved besides in its unit and environment, plus what the
  -- legacy API has committed, plus that row's amount is within the limit, in the source's order of
  -- additions and whatever they round to.
  pub accept-IsWithin :
      (groups : Option (List String)) (w : World) (op : Operation)
      → find_keyed actor key w.db.operations ≡ none
      → (accept cfg actor key intent resolved (some b) groups w).0 ≡ ok op
      → Within op.resource_id (accept cfg actor key intent resolved (some b) groups w).1
  unfolding accept
  accept-IsWithin groups w op fresh e =
      let (a, f, g, world) = bind-returned _ _ w op e in
      let (h, committed) =
        transaction-committed (accept_in cfg actor key intent resolved (some b) groups) w a f in
      subst (Within op.resource_id) (sym world) (
        unlinked a _ op g
          (subst (Within a.0.resource_id) (sym committed) (accept_in-IsWithin groups w a fresh h)))
