-- ===== src/Ledger/Lifecycle/Execution.antt =====
-- `discard`, `execute` and `execute_many` of app/ledger.py against the diagram.
use forgeapi_homelab.Prelude.{
  ℕ, String, ◌≡◌, refl, true, Option, some, List, [], ◌∷◌, arith, ◌&&◌, not,
}
use forgeapi_homelab.Records.{State, planned, apply_queued, Operation}
use forgeapi_homelab.Refusals.{Result, ok, err, plan_expired}
use forgeapi_homelab.Config.{Config}
use forgeapi_homelab.Tx.{World, pure, raise}
use forgeapi_homelab.Tx.Keeps.{Keeps-gets, keeps_rules}
use forgeapi_homelab.Ledger.Rows.{find_op, is_planned, is_executing}
use forgeapi_homelab.Ledger.Release.{is_expired, discard}
use forgeapi_homelab.Ledger.Execution.{
  queue_apply, execute_found, execute_in, execute, execute_each, execute_all, execute_many,
  expire_plan, digest_of, fail_expired,
}
use forgeapi_homelab.Ledger.Frames.{
  table_rules, check_references-Keeps, raise_expired-Keeps, approval_event-Keeps,
}
use forgeapi_homelab.Ledger.Lifecycle.{follows}
use forgeapi_homelab.Ledger.Lifecycle.Evolution.{
  IsSound, Evolved, Evolves, Evolved-refl, Evolved-trans, Evolved-if, Evolved-guard, Evolved-load,
  Evolved-reads, Evolved-then, Evolves-Keeps, Evolves-bind, Evolves-transaction,
}
use forgeapi_homelab.Ledger.Lifecycle.Release.{
  event-save-Evolved, expire-Evolved, discard_found-Evolved, SameRequest-flag,
}

follows-apply_queued : (s : State) → is_planned s ≡ true → follows s apply_queued ≡ true
follows-apply_queued planned h = refl
follows-apply_queued _ h = ground arith

module _ {cfg : Config} where
  pub discard-Evolves : (id : ℕ) (actor : String) → Evolves cfg (discard id actor)
  unfolding discard
  discard-Evolves id actor = Evolves-transaction _ (record {
    at = λ w h. Evolved-load w h id _ (λ op found. discard_found-Evolved w op actor found h);
  })

  queue_apply-Evolved :
      (w : World) (op : Operation) (actor : String)
      → find_op op.id w ≡ some op
      → is_planned op.state ≡ true
      → IsSound cfg w
      → Evolved cfg w (queue_apply op actor w).1
  unfolding queue_apply
  queue_apply-Evolved w op actor found p h =
      Evolved-reads w h _ _ (search (keeps_rules, check_references-Keeps)) (λ _ _.
        event-save-Evolved w _ actor _ _ op (record op { state = apply_queued }) _
          (λ q. search keeps_rules) found
          (SameRequest-flag op (record op { state = apply_queued }) refl)
          (follows-apply_queued op.state p) h)

  expire_plan-Evolved :
      (w : World) (op : Operation) (actor : String)
      → find_op op.id w ≡ some op
      → is_planned op.state ≡ true
      → IsSound cfg w
      → Evolved cfg w (expire_plan op actor w).1
  expire_plan-Evolved w op actor found p h =
      Evolved-then w _ _ (λ q. search keeps_rules) (expire-Evolved w op actor true found p h)

  execute_found-Evolved :
      (w : World) (op : Operation) (digest actor : String)
      → find_op op.id w ≡ some op
      → IsSound cfg w
      → Evolved cfg w (execute_found cfg digest actor op w).1
  unfolding execute_found pure raise
  execute_found-Evolved w op digest actor found h = Evolved-guard w h _ _ _ (λ _.
      Evolved-reads w h _ _ (Keeps-gets _) (λ now _.
        Evolved-if w h (is_executing op.state) _ _ (λ _. Evolved-refl w h)
          (λ _.
            Evolved-if w h (is_planned op.state && is_expired cfg now op) _ _
              (λ x. expire_plan-Evolved w op actor found (ground arith) h)
              (λ _.
                Evolved-if w h (not (is_planned op.state)) _ _ (λ _. Evolved-refl w h)
                  (λ p. queue_apply-Evolved w op actor found (ground arith) h)))))

  execute_in-Evolves :
      (id : ℕ) (digest actor : String) → Evolves cfg (execute_in cfg id digest actor)
  unfolding execute_in
  execute_in-Evolves id digest actor = record {
    at = λ w h. Evolved-load w h id _ (λ op found. execute_found-Evolved w op digest actor found h);
  }

  pub execute-Evolves : (id : ℕ) (digest actor : String) → Evolves cfg (execute cfg id digest actor)
  unfolding execute
  execute-Evolves id digest actor =
      Evolves-bind _ _ (Evolves-transaction _ (execute_in-Evolves id digest actor))
        (λ r. Evolves-Keeps _ (raise_expired-Keeps r))

  execute_each-Evolves :
      (actor : String) (items : List (ℕ × String)) → Evolves cfg (execute_each cfg actor items)
  unfolding execute_each
  execute_each-Evolves actor [] = Evolves-Keeps _ (search keeps_rules)
  execute_each-Evolves actor ((id, digest) ∷ items) =
      Evolves-bind _ _ (execute_in-Evolves id digest actor) (λ r.
        Evolves-bind _ _ (Evolves-Keeps _ (raise_expired-Keeps r)) (λ _.
          Evolves-bind _ _ (execute_each-Evolves actor items)
            (λ _. Evolves-Keeps _ (search keeps_rules))))

  execute_all-Evolves :
      (items : List (ℕ × String)) (actor : String) (app_id : Option ℕ)
      → Evolves cfg (execute_all cfg items actor app_id)
  unfolding execute_all
  execute_all-Evolves items actor app_id = Evolves-transaction _ (
      Evolves-bind _ _ (execute_each-Evolves actor items)
        (λ _. Evolves-Keeps _ (search (table_rules, approval_event-Keeps))))

  fail_expired-Evolved :
      (u w : World) (items : List (ℕ × String)) (actor : String) (r : Result (List Operation))
      → Evolved cfg u w
      → Evolved cfg u (fail_expired cfg items actor (r, w)).1
  fail_expired-Evolved u w items actor (err (plan_expired id)) e = Evolved-trans e (
      (Evolves-bind _ _ (execute-Evolves id (digest_of id items) actor)
          (λ _. Evolves-Keeps _ (search keeps_rules))).at
        w e.sound)
  fail_expired-Evolved u w items actor (err _) e = e
  fail_expired-Evolved u w items actor (ok ops) e = e

  pub execute_many-Evolves :
      (items : List (ℕ × String)) (actor : String) (app_id : Option ℕ)
      → Evolves cfg (execute_many cfg items actor app_id)
  unfolding execute_many
  execute_many-Evolves items actor app_id = record {
    at = λ w h.
        fail_expired-Evolved w (execute_all cfg items actor app_id w).1 items actor
          (execute_all cfg items actor app_id w).0
          ((execute_all-Evolves items actor app_id).at w h);
  }
