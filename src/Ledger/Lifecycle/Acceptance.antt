-- ===== src/Ledger/Lifecycle/Acceptance.antt =====
-- `accept` of app/ledger.py against the diagram.
use forgeapi_homelab.Prelude.{
  ℕ, suc, String, ◌≡◌, refl, ap, Bool, false, Option, none, some, List, [], ◌∷◌, ◌++◌, arith, not,
}
use forgeapi_homelab.Records.{failed, queued, Operation, Resource, Resolved, plan_expired}
use forgeapi_homelab.Refusals.{ok}
use forgeapi_homelab.Config.{Config}
use forgeapi_homelab.Tables.{find, update, find-append}
use forgeapi_homelab.Tx.{Tx, World, pure, when, event, ◌>>=◌}
use forgeapi_homelab.Tx.Keeps.{Keeps, Keeps-gets, Keeps-lift, Keeps-pure, keeps_rules}
use forgeapi_homelab.Ledger.Rows.{
  op_key, find_op, find_res, is_active, is_check, insert_op, put_resource, save, stamped, uuid4,
}
use forgeapi_homelab.Ledger.Release.{is_expired, expire, release_plan, mark_expired}
use forgeapi_homelab.Ledger.Acceptance.{
  find_busy, clear, clear_blocker, check_request, new_operation, record_acceptance, admit,
  accept_new, accept_in, accept, Intent, Budget, Accepted, replayed, target_resource,
  unlink_expired, unstamped, enter, accepted_resource,
}
use forgeapi_homelab.Ledger.Frames.{table_of, table_rules, check_request-Keeps, replay_row-Keeps}
use forgeapi_homelab.Ledger.Lifecycle.{Step, admitted, here, next}
use forgeapi_homelab.Ledger.Lifecycle.Table.{IsConsistent, Step-IsConsistent, update-absent}
use forgeapi_homelab.Ledger.Lifecycle.Evolution.{
  IsSound, Evolved, Evolves, Evolved-table, Evolved-reads, Evolved-gets, Evolved-bind,
  Evolved-guard, Evolved-then, Evolved-after, Evolves-Keeps, Evolves-bind, Evolves-transaction,
}
use forgeapi_homelab.Ledger.Lifecycle.Release.{
  expire-Evolved, is_expired-planned, release_rest-Keeps,
}

find_busy-own :
    (rid : ℕ) (ops : List Operation) (b : Operation)
    → IsConsistent ops
    → find_busy rid ops ≡ some b
    → find op_key b.id ops ≡ some b
unfolding find find_busy
find_busy-own rid [] b c h = ground arith
find_busy-own rid (x ∷ ops) b c h = ground (arith, find_busy-own rid ops b c.2)

-- The resource is free once its holder has ended.
find_busy-released :
    (rid : ℕ) (ops : List Operation) (b p : Operation)
    → IsConsistent ops
    → find_busy rid ops ≡ some b
    → p.id ≡ b.id
    → is_active p.state ≡ false
    → find_busy rid (update op_key p ops) ≡ none
unfolding find find_busy update
find_busy-released rid [] b p c h i e = refl
find_busy-released rid (x ∷ ops) b p c h i e =
    ground
      (arith, update-absent p ops, find_busy-own rid ops b c.2, find_busy-released rid ops b p c.2)

expired_row : ℕ → Operation → Operation
expired_row now op =
    stamped now (mark_expired (record op { state = failed; error = some plan_expired }))

expire-operations :
    (w : World) (op : Operation) (actor : String) (unlink : Bool)
    → table_of (expire op actor unlink w).1
      ≡ (update op_key (expired_row w.clock op) w.db.operations, w.drawn)
unfolding expire release_plan event save ◌>>=◌ expired_row
expire-operations w op actor unlink =
    (release_rest-Keeps unlink (
        stamped w.clock
          (mark_expired (record op { state = failed; error = some plan_expired })))).at
      _

clear-free :
    (cfg : Config) (w : World) (actor : String) (rid : ℕ) (busy r : Option Operation)
    → IsConsistent w.db.operations
    → find_busy rid w.db.operations ≡ busy
    → (clear cfg actor busy w).0 ≡ ok r
    → find_busy rid (clear cfg actor busy w).1.db.operations ≡ none
unfolding ◌>>=◌ expired_row
clear-free cfg w actor rid none r c h o = h
clear-free cfg w actor rid (some b) r c h o = ground (
  arith,
  ap (λ (t : List Operation × ℕ). t.0) (expire-operations w b actor false),
  find_busy-released rid w.db.operations b (expired_row w.clock b) c h,
)

module _ {cfg : Config} where
  clear-Evolved :
      (w : World) (actor : String) (busy : Option Operation)
      → ((b : Operation) → busy ≡ some b → find_op b.id w ≡ some b)
      → IsSound cfg w
      → Evolved cfg w (clear cfg actor busy w).1
  clear-Evolved w actor none own h = (Evolves-Keeps _ (Keeps-pure _)).at w h
  clear-Evolved w actor (some b) own h = Evolved-reads w h _ _ (Keeps-gets _) (λ now _.
      Evolved-guard w h (not (is_expired cfg now b)) _ _ (λ x.
        Evolved-then w _ _ (λ q. search keeps_rules)
          (expire-Evolved w b actor false (own b refl) (is_expired-planned cfg now b (ground arith))
            h)))

  clear_blocker-Evolved :
      (w : World) (actor : String) (rid : ℕ)
      → IsSound cfg w
      → Evolved cfg w (clear_blocker cfg actor rid w).1
  unfolding clear_blocker
  clear_blocker-Evolved w actor rid h =
      Evolved-gets w _ (clear cfg actor)
        (clear-Evolved w actor _ (λ b e. find_busy-own rid w.db.operations b h.consistent e) h)

  clear_blocker-free :
      (w : World) (actor : String) (rid : ℕ) (r : Option Operation)
      → IsSound cfg w
      → (clear_blocker cfg actor rid w).0 ≡ ok r
      → find_busy rid (clear_blocker cfg actor rid w).1.db.operations ≡ none
  unfolding clear_blocker ◌>>=◌
  clear_blocker-free w actor rid r h o =
      clear-free cfg w actor rid (find_busy rid w.db.operations) r h.consistent refl o

record_acceptance-table :
    (w : World) (previous : Option Resource) (amounts : Option (ℕ × ℕ)) (op : Operation)
    → table_of (record_acceptance previous amounts op w).1 ≡ (w.db.operations ++ op ∷ [], w.drawn)
unfolding record_acceptance event insert_op ◌>>=◌
record_acceptance-table w previous amounts op =
    let rest : Keeps table_of
        (when (not (is_check op.action)) (put_resource (accepted_resource previous amounts op))) =
      search table_rules in
    rest.at _

uuid4-Evolved :
    {cfg : Config} (w : World) → IsSound cfg w → Evolved cfg w (record w { drawn = suc w.drawn })
uuid4-Evolved w h = record {
  steps = here;
  sound = record { consistent = h.consistent; fresh = λ n k. h.fresh n (omega arith) };
  grown = omega arith;
}

uuid4-Evolves : {cfg : Config} → Evolves cfg (uuid4 cfg)
unfolding uuid4
uuid4-Evolves = record { at = uuid4-Evolved }

unlink_expired-Keeps : (r : Accepted) → Keeps table_of (unlink_expired r)
unlink_expired-Keeps (op, none) = search keeps_rules
unlink_expired-Keeps (op, some b) = search table_rules

replayed-Evolves :
    {cfg : Config} (existing : Option Operation) {m : Tx Accepted}
    → Evolves cfg m
    → Evolves cfg (replayed existing m)
replayed-Evolves none e = e
replayed-Evolves (some op) e = Evolves-Keeps _ (Keeps-pure _)

module _ (cfg : Config) (distinct : (m n : ℕ) → cfg.uuid m ≡ cfg.uuid n → m ≡ n) where
  Evolved-admitted :
      (w v : World) (op : Operation)
      → op.id ≡ cfg.uuid w.drawn
      → op.state ≡ queued
      → find_busy op.resource_id w.db.operations ≡ none
      → table_of v ≡ (w.db.operations ++ op ∷ [], suc w.drawn)
      → IsSound cfg w
      → Evolved cfg w v
  Evolved-admitted w v op i q b t h =
      let step : Step w.db.operations (w.db.operations ++ op ∷ []) =
        admitted op q (rw i (h.fresh w.drawn (omega arith))) b in
      let grown : World = record w {
        db = record w.db { operations = w.db.operations ++ op ∷ [] };
        drawn = suc w.drawn;
      } in
      Evolved-table {v = grown} {w = v}
        (record {
          steps = next here step;
          sound = record {
            consistent = Step-IsConsistent step h.consistent;
            fresh = λ n k. ground (
              arith,
              find-append op_key (cfg.uuid n) w.db.operations op,
              h.fresh n,
              i,
              distinct w.drawn n,
            );
          };
          grown = omega arith;
        })
        t

  module _ (actor key : String) (intent : Intent) (resolved : Resolved) where
    enter-Evolved :
        (w : World) (rid : ℕ) (previous : Option Resource) (amounts : Option (ℕ × ℕ))
        (expired : Option Operation)
        → find_busy rid w.db.operations ≡ none
        → IsSound cfg w
        → Evolved cfg w (enter cfg actor key intent resolved rid previous amounts expired w).1
    unfolding enter uuid4
    enter-Evolved w rid previous amounts expired b h =
        let op =
          new_operation actor key (cfg.fingerprint intent.body) intent.action rid
            (unstamped resolved) amounts (cfg.uuid w.drawn) w.clock in
        let v : World = record w { drawn = suc w.drawn } in
        unfold ◌>>=◌ in
        Evolved-after w v (record_acceptance previous amounts op) (λ _. pure (op, expired))
          (λ _. Keeps-pure (op, expired))
          (Evolved-admitted w (record_acceptance previous amounts op v).1 op
            (unfold new_operation in refl) (unfold new_operation in refl)
            (unfold new_operation in b) (record_acceptance-table v previous amounts op) h)

    admit-Evolved :
        (w : World) (budget : Option Budget) (rid : ℕ) (expired : Option Operation)
        → find_busy rid w.db.operations ≡ none
        → IsSound cfg w
        → Evolved cfg w (admit cfg actor key intent resolved budget rid expired w).1
    unfolding admit
    admit-Evolved w budget rid expired b h = Evolved-gets w (find_res rid) _ (
        Evolved-reads w h
          (check_request cfg intent (unstamped resolved) budget rid (find_res rid w))
          (λ amounts. enter cfg actor key intent resolved rid (find_res rid w) amounts expired)
          (check_request-Keeps cfg intent (unstamped resolved) budget rid (find_res rid w))
          (λ amounts _. enter-Evolved w rid (find_res rid w) amounts expired b h))

    target_resource-Evolves : (rid : Option ℕ) → Evolves cfg (target_resource cfg rid)
    target_resource-Evolves none = uuid4-Evolves
    target_resource-Evolves (some rid) = Evolves-Keeps _ (Keeps-pure _)

    accept_new-Evolves :
        (budget : Option Budget) (groups : Option (List String))
        → Evolves cfg (accept_new cfg actor key intent resolved budget groups)
    unfolding accept_new
    accept_new-Evolves budget groups = Evolves-bind _ _ (Evolves-Keeps _ (Keeps-gets _)) (λ teams.
        Evolves-bind _ _ (Evolves-Keeps _ (Keeps-lift _)) (λ _.
          Evolves-bind _ _ (target_resource-Evolves intent.resource_id) (λ rid. record {
            at = λ w h.
                Evolved-bind w (clear_blocker cfg actor rid) _ (clear_blocker-Evolved w actor rid h)
                  (λ expired o.
                    admit-Evolved _ budget rid expired (clear_blocker-free w actor rid expired h o)
                      (clear_blocker-Evolved w actor rid h).sound);
          })))

    pub accept_in-Evolves :
        (budget : Option Budget) (groups : Option (List String))
        → Evolves cfg (accept_in cfg actor key intent resolved budget groups)
    unfolding accept_in
    accept_in-Evolves budget groups =
        Evolves-bind _ _ (Evolves-Keeps _ (replay_row-Keeps actor key _))
          (λ existing. replayed-Evolves existing (accept_new-Evolves budget groups))

    pub accept-Evolves :
        (budget : Option Budget) (groups : Option (List String))
        → Evolves cfg (accept cfg actor key intent resolved budget groups)
    unfolding accept
    accept-Evolves budget groups =
        Evolves-bind _ _ (Evolves-transaction _ (accept_in-Evolves budget groups))
          (λ r. Evolves-Keeps _ (unlink_expired-Keeps r))
