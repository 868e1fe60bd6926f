-- ===== src/Ledger/Lifecycle/Claims.antt =====
-- Handing a phase of an operation to a worker (app/ledger.py, `claim`).
use forgeapi_homelab.Prelude.{
  ℕ, ◌≤◌, ◌≡◌, refl, ap, subst, sym, ◌∙◌, Option, none, some, arith, Option-cases, inl, inr,
}
use forgeapi_homelab.Records.{State, Phase, plan, apply, Operation}
use forgeapi_homelab.Refusals.{Result, ok}
use forgeapi_homelab.Config.{Config}
use forgeapi_homelab.Tables.{find-update, find-key}
use forgeapi_homelab.Tx.{World, ◌>>=◌}
use forgeapi_homelab.Ledger.Rows.{op_key, find_op, phase_states, stamped}
use forgeapi_homelab.Ledger.Progress.{claim, in_state}
use forgeapi_homelab.Ledger.Lifecycle.{rank}
use forgeapi_homelab.Ledger.Lifecycle.Evolution.{IsSound}
use forgeapi_homelab.Ledger.Lifecycle.History.{Reach, Reach-Later}
use forgeapi_homelab.Ledger.Lifecycle.Progress.{claim-Evolves}

claimed_row : World → State → Operation → Operation
claimed_row w running r = stamped w.clock (record r { state = running })

claimed_row-state : (w : World) (s : State) (r : Operation) → (claimed_row w s r).state ≡ s
unfolding claimed_row
claimed_row-state w s r = refl

-- What a claim does to the operation it finds, and to a world in which it finds none.
claim-row :
    (id : ℕ) (phase : Phase) (w : World) (r : Operation)
    → in_state (phase_states phase).0 (find_op id w) ≡ some r
    → (claim id phase w).0 ≡ ok (some (claimed_row w (phase_states phase).1 r))
unfolding claim ◌>>=◌ claimed_row
claim-row id phase w r e = ground (arith, e)

claim-none :
    (id : ℕ) (phase : Phase) (w : World)
    → in_state (phase_states phase).0 (find_op id w) ≡ none
    → claim id phase w ≡ (ok none, w)
unfolding claim ◌>>=◌
claim-none id phase w e = ground (arith, e)

claim-found :
    (id : ℕ) (phase : Phase) (w : World) (r : Operation)
    → in_state (phase_states phase).0 (find_op id w) ≡ some r
    → find_op id (claim id phase w).1 ≡ some (claimed_row w (phase_states phase).1 r)
unfolding claim ◌>>=◌ claimed_row
claim-found id phase w r e = ground (
  arith,
  e,
  find-update op_key id (stamped w.clock (record r { state = (phase_states phase).1 }))
      w.db.operations,
  find-key op_key id w.db.operations r,
)

in_state-later :
    (phase : Phase) (s : State) (p : Operation)
    → s ≡ (phase_states phase).1
    → rank s ≤ rank p.state
    → in_state (phase_states phase).0 (some p) ≡ none
in_state-later plan s p e h = ground (arith, e)
in_state-later apply s p e h = ground (arith, e)

returned_none :
    (id : ℕ) (phase : Phase) (w : World) (op : Operation)
    → in_state (phase_states phase).0 (find_op id w) ≡ none
    → (claim id phase w).0 ≡ ok (some op)
    → ⊥
returned_none id phase w op e o =
    let c = ap (λ (t : Result (Option Operation) × World). t.0) (claim-none id phase w e) in cc

returned_row :
    (id : ℕ) (phase : Phase) (w : World) (op r : Operation)
    → in_state (phase_states phase).0 (find_op id w) ≡ some r
    → (claim id phase w).0 ≡ ok (some op)
    → (op.id ≡ id) × (find_op op.id (claim id phase w).1 ≡ some op)
returned_row id phase w op r e o =
    let c = claim-row id phase w r e in
    let same : claimed_row w (phase_states phase).1 r ≡ op = cc in
    let found : find_op id (claim id phase w).1 ≡ some op =
      claim-found id phase w r e ∙ ap some same in
    let own : op.id ≡ id = find-key op_key id (claim id phase w).1.db.operations op found in
    (own, subst (λ k. find_op k (claim id phase w).1 ≡ some op) (sym own) found)

-- The operation that a claim returns is the row that it leaves.
pub claimed-found :
    (id : ℕ) (phase : Phase) (w : World) (op : Operation)
    → (claim id phase w).0 ≡ ok (some op)
    → (op.id ≡ id) × (find_op op.id (claim id phase w).1 ≡ some op)
claimed-found id phase w op o =
    elim (Option-cases (in_state (phase_states phase).0 (find_op id w))) [
      | inl e ↦ absurd (returned_none id phase w op e o)
      | inr (r, e) ↦ returned_row id phase w op r e o
    ]

module _ (cfg : Config) (distinct : (m n : ℕ) → cfg.uuid m ≡ cfg.uuid n → m ≡ n) where
  claimed_once :
      (id : ℕ) (phase : Phase) (u w : World) (r : Operation)
      → IsSound cfg u
      → in_state (phase_states phase).0 (find_op id u) ≡ some r
      → Reach cfg (claim id phase u).1 w
      → claim id phase w ≡ (ok none, w)
  claimed_once id phase u w r h e reach =
      let (p, f, l) =
        Reach-Later cfg distinct id _ ((claim-Evolves id phase).at u h).sound reach
          (claim-found id phase u r e) in
      claim-none id phase w (
        ap (in_state (phase_states phase).0) f
        ∙ in_state-later phase (phase_states phase).1 p refl (
            subst (λ (s : State). rank s ≤ rank p.state)
              (claimed_row-state u (phase_states phase).1 r) l.no_return))

  -- A worker that was handed a phase of an operation is the only one: from a sound ledger, and if the
  -- UUIDs drawn are distinct, a later claim of the same phase returns nothing and changes nothing,
  -- whatever calls of `Call` are made in between.
  pub claim_once :
      (id : ℕ) (phase : Phase) (u w : World) (op : Operation)
      → IsSound cfg u
      → (claim id phase u).0 ≡ ok (some op)
      → Reach cfg (claim id phase u).1 w
      → claim id phase w ≡ (ok none, w)
  claim_once id phase u w op h o reach =
      elim (Option-cases (in_state (phase_states phase).0 (find_op id u))) [
        | inl e ↦
            cc (ap (λ (t : Result (Option Operation) × World). t.0) (claim-none id phase u e), o)
        | inr (r, e) ↦ claimed_once id phase u w r h e reach
      ]
