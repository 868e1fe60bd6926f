-- ===== src/Ledger/Lifecycle/Release.antt =====
-- Saving an operation in its next state, and releasing a plan (app/ledger.py, `_save`, `_release_plan`),
-- against the diagram.
use forgeapi_homelab.Prelude.{ℕ, String, ◌≡◌, refl, Bool, true, Option, some, arith, not, ap}
use forgeapi_homelab.Records.{
  State, planned, failed, Operation, Subject, EventAction, EventOutcome, Failure, Action, Resolved,
  operation_expire, operation_discard, plan_expired, plan_discarded,
}
use forgeapi_homelab.Config.{Config}
use forgeapi_homelab.Tx.{Tx, World, pure, raise, when, event, ◌>>=◌, ◌>>◌}
use forgeapi_homelab.Tx.Keeps.{Keeps}
use forgeapi_homelab.Ledger.Rows.{is_planned, save, stamped, unlink_plan, find_op}
use forgeapi_homelab.Ledger.Release.{
  is_expired, restore_reservation, release_plan, expire, mark_expired, mark_discarded,
  discard_found,
}
use forgeapi_homelab.Ledger.Frames.{
  table_of, table_rules, event-Keeps_table, restore_reservation-Keeps_table,
}
use forgeapi_homelab.Ledger.Lifecycle.{SameRequest, follows}
use forgeapi_homelab.Ledger.Lifecycle.Evolution.{
  IsSound, Evolved, Evolved-trans, Evolved-if, Evolved-refl, Evolved-table, Evolved-moved,
  Evolves-Keeps,
}

pub SameRequest-stamped :
    {o p : Operation} (now : ℕ) → SameRequest o p → SameRequest o (stamped now p)
SameRequest-stamped now s = record {
  id = s.id;
  resource_id = s.resource_id;
  actor = s.actor;
  request_key = s.request_key;
  fingerprint = s.fingerprint;
  action = s.action;
  resolved = s.resolved;
  created_at = s.created_at;
  previous_estimated_monthly_cost = s.previous_estimated_monthly_cost;
}

module _ {A : Type 0} {cfg : Config} where
  -- The rest may do anything that leaves the table alone.
  pub save-Evolved :
      (w : World) (o p : Operation) (rest : Operation → Tx A)
      → ((q : Operation) → Keeps table_of (rest q))
      → find_op o.id w ≡ some o
      → SameRequest o p
      → follows o.state p.state ≡ true
      → IsSound cfg w
      → Evolved cfg w ((save p >>= rest) w).1
  unfolding save ◌>>=◌
  save-Evolved w o p rest k f s e h =
      Evolved-table (Evolved-moved w o (stamped w.clock p) f (SameRequest-stamped w.clock s) e h)
        ((k (stamped w.clock p)).at _)

  pub event-save-Evolved :
      (w : World) (s : Subject) (actor : String) (a : EventAction) (out : EventOutcome)
      (o p : Operation) (rest : Operation → Tx A)
      → ((q : Operation) → Keeps table_of (rest q))
      → find_op o.id w ≡ some o
      → SameRequest o p
      → follows o.state p.state ≡ true
      → IsSound cfg w
      → Evolved cfg w ((event s actor a out >> (save p >>= rest)) w).1
  unfolding event ◌>>=◌
  event-save-Evolved w s actor a out o p rest k f same e h =
      let first =
        (Evolves-Keeps {cfg = cfg} (event s actor a out) (event-Keeps_table s actor a out)).at w
          h in
      Evolved-trans first (save-Evolved (event s actor a out w).1 o p rest k f same e first.sound)

pub release_rest-Keeps :
    (unlink : Bool) (q : Operation)
    → Keeps table_of (do when unlink (unlink_plan q); restore_reservation q; pure q)
release_rest-Keeps unlink q = search (table_rules, restore_reservation-Keeps_table)

-- Two operations with the same request as far as it is compared.
abbrev pub request_of :
    Operation → ℕ × ℕ × String × String × String × Action × Resolved × ℕ × Option ℕ
request_of o = (
  o.id, o.resource_id, o.actor, o.request_key, o.fingerprint, o.action, o.resolved, o.created_at,
  o.previous_estimated_monthly_cost,
)

pub SameRequest-flag : (o p : Operation) → request_of p ≡ request_of o → SameRequest o p
SameRequest-flag o p e = record {
  id = ap (λ (t : ℕ × ℕ × String × String × String × Action × Resolved × ℕ × Option ℕ). t.0) e;
  resource_id =
      ap (λ (t : ℕ × ℕ × String × String × String × Action × Resolved × ℕ × Option ℕ). t.1) e;
  actor = ap (λ (t : ℕ × ℕ × String × String × String × Action × Resolved × ℕ × Option ℕ). t.2) e;
  request_key =
      ap (λ (t : ℕ × ℕ × String × String × String × Action × Resolved × ℕ × Option ℕ). t.3) e;
  fingerprint =
      ap (λ (t : ℕ × ℕ × String × String × String × Action × Resolved × ℕ × Option ℕ). t.4) e;
  action = ap (λ (t : ℕ × ℕ × String × String × String × Action × Resolved × ℕ × Option ℕ). t.5) e;
  resolved =
      ap (λ (t : ℕ × ℕ × String × String × String × Action × Resolved × ℕ × Option ℕ). t.6) e;
  created_at =
      ap (λ (t : ℕ × ℕ × String × String × String × Action × Resolved × ℕ × Option ℕ). t.7) e;
  previous_estimated_monthly_cost =
      ap (λ (t : ℕ × ℕ × String × String × String × Action × Resolved × ℕ × Option ℕ). t.8) e;
}

follows-failed : (s : State) → is_planned s ≡ true → follows s failed ≡ true
follows-failed planned h = refl
follows-failed _ h = ground arith

-- Any flag that is a mark on the operation and nothing else.
pub release_plan-Evolved :
    {cfg : Config} (w : World) (op : Operation) (actor : String) (a : EventAction) (f : Failure)
    (flag : Operation → Operation) (unlink : Bool)
    → ((o : Operation) → SameRequest o (flag o))
    → ((o : Operation) → (flag o).state ≡ o.state)
    → find_op op.id w ≡ some op
    → is_planned op.state ≡ true
    → IsSound cfg w
    → Evolved cfg w (release_plan op actor a f flag unlink w).1
unfolding release_plan
release_plan-Evolved w op actor a f flag unlink same st found pl h =
    let failing = record op { state = failed; error = some f } in
    let q = same failing in
    event-save-Evolved w _ actor a _ op (flag failing) _ (release_rest-Keeps unlink) found
      (record {
        id = q.id;
        resource_id = q.resource_id;
        actor = q.actor;
        request_key = q.request_key;
        fingerprint = q.fingerprint;
        action = q.action;
        resolved = q.resolved;
        created_at = q.created_at;
        previous_estimated_monthly_cost = q.previous_estimated_monthly_cost;
      })
      (rw st (follows-failed op.state pl)) h

pub expire-Evolved :
    {cfg : Config} (w : World) (op : Operation) (actor : String) (unlink : Bool)
    → find_op op.id w ≡ some op
    → is_planned op.state ≡ true
    → IsSound cfg w
    → Evolved cfg w (expire op actor unlink w).1
unfolding expire
expire-Evolved w op actor unlink found pl h =
    release_plan-Evolved w op actor operation_expire plan_expired mark_expired unlink
      (λ o. SameRequest-flag o (mark_expired o) refl) (λ o. refl) found pl h

pub discard_found-Evolved :
    {cfg : Config} (w : World) (op : Operation) (actor : String)
    → find_op op.id w ≡ some op
    → IsSound cfg w
    → Evolved cfg w (discard_found op actor w).1
unfolding discard_found pure raise
discard_found-Evolved w op actor found h =
    Evolved-if w h op.discarded _ _ (λ _. Evolved-refl w h)
      (λ _.
        Evolved-if w h (not (is_planned op.state)) _ _ (λ _. Evolved-refl w h)
          (λ p.
            release_plan-Evolved w op actor operation_discard plan_discarded mark_discarded true
              (λ o. SameRequest-flag o (mark_discarded o) refl) (λ o. refl) found (ground arith) h))

pub is_expired-planned :
    (cfg : Config) (now : ℕ) (op : Operation)
    → is_expired cfg now op ≡ true
    → is_planned op.state ≡ true
unfolding is_expired
is_expired-planned cfg now op h = ground arith
