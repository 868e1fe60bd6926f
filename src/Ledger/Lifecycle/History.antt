-- ===== src/Ledger/Lifecycle/History.antt =====
-- Any number of callers, workers and operators, one transaction at a time: SQLite's write lock
-- makes every interleaving a sequence of whole calls.
use forgeapi_homelab.Prelude.{
  ℕ, ◌+◌, ◌≤◌, String, ◌≡◌, refl, sym, ap, subst, ◌∙◌, true, false, Option, none, some, List, [],
  ◌∷◌, arith, ◌==◌, Bool-cases, ◌⊎◌, inl, inr,
}
use mathlib.Core.Bool.{false≢true}
use forgeapi_homelab.Records.{State, Phase, Operation, Resolved, Outcome}
use forgeapi_homelab.Config.{Config}
use forgeapi_homelab.Tables.{find, update, find-update, find-append}
use forgeapi_homelab.Tx.{World}
use forgeapi_homelab.Ledger.Rows.{op_key, find_op, is_active}
use forgeapi_homelab.Ledger.Acceptance.{Intent, Budget, accept, find_busy}
use forgeapi_homelab.Ledger.Release.{discard}
use forgeapi_homelab.Ledger.Execution.{execute, execute_many}
use forgeapi_homelab.Ledger.Progress.{claim, finish, Report, interrupted, reconcile}
use forgeapi_homelab.Ledger.Lifecycle.{
  SameRequest, Step, admitted, moved, Steps, here, next, follows, rank, follows-rank,
  follows-is_active,
}
use forgeapi_homelab.Ledger.Lifecycle.Table.{IsConsistent, find_busy-none}
use forgeapi_homelab.Ledger.Lifecycle.Evolution.{
  IsSound, Evolved, Evolved-refl, Evolved-trans, Evolved-table,
}
use forgeapi_homelab.Ledger.Lifecycle.Release.{SameRequest-flag}
use forgeapi_homelab.Ledger.Lifecycle.Execution.{
  discard-Evolves, execute-Evolves, execute_many-Evolves,
}
use forgeapi_homelab.Ledger.Lifecycle.Progress.{
  claim-Evolves, interrupted-Evolves, reconcile-Evolves, finish-Evolved,
}
use forgeapi_homelab.Ledger.Lifecycle.Acceptance.{accept-Evolves}

-- One call of a method on single operations, or time passing. The methods for apps are not among
-- them. The worker's copy of an operation is one that it read from the ledger, and it reports a state
-- that may follow: what app/operation_activities.py does with the row of its claim.
pub data Call (cfg : Config) (w : World) : World → Type 0 where
  call_accept :
      (actor key : String) (intent : Intent) (resolved : Resolved) (budget : Option Budget)
      (groups : Option (List String))
      → Call cfg w (accept cfg actor key intent resolved budget groups w).1
  call_execute : (id : ℕ) (digest actor : String) → Call cfg w (execute cfg id digest actor w).1
  call_execute_many :
      (items : List (ℕ × String)) (actor : String) (app_id : Option ℕ)
      → Call cfg w (execute_many cfg items actor app_id w).1
  call_discard : (id : ℕ) (actor : String) → Call cfg w (discard id actor w).1
  call_claim : (id : ℕ) (phase : Phase) → Call cfg w (claim id phase w).1
  call_finish :
      (op : Operation) (s : State) (report : Report)
      → ((row : Operation) → find_op op.id w ≡ some row → SameRequest row op)
      → follows op.state s ≡ true
      → Call cfg w (finish op s report w).1
  call_interrupted : (id : ℕ) (phase : Phase) → Call cfg w (interrupted id phase w).1
  call_reconcile :
      (id : ℕ) (actor : String) (o : Outcome) (reason : String)
      → Call cfg w (reconcile id actor o reason w).1
  time_passes : (n : ℕ) → Call cfg w (record w { clock = w.clock + n })

pub data Reach (cfg : Config) (u : World) : World → Type 0 where
  start : Reach cfg u u
  after : {v w : World} → Reach cfg u v → Call cfg v w → Reach cfg u w

-- What a later row of the table has of an earlier one.
pub record Later (o p : Operation) : Type 0 where
  pub same : SameRequest o p
  pub no_return : rank o.state ≤ rank p.state
  pub ended : is_active o.state ≡ false → p ≡ o

Later-refl : (o : Operation) → Later o o
Later-refl o = record {
  same = SameRequest-flag o o refl;
  no_return = omega arith;
  ended = λ _. refl;
}

SameRequest-trans : {o p q : Operation} → SameRequest o p → SameRequest p q → SameRequest o q
SameRequest-trans s t = record {
  id = t.id ∙ s.id;
  resource_id = t.resource_id ∙ s.resource_id;
  actor = t.actor ∙ s.actor;
  request_key = t.request_key ∙ s.request_key;
  fingerprint = t.fingerprint ∙ s.fingerprint;
  action = t.action ∙ s.action;
  resolved = t.resolved ∙ s.resolved;
  created_at = t.created_at ∙ s.created_at;
  previous_estimated_monthly_cost =
      t.previous_estimated_monthly_cost ∙ s.previous_estimated_monthly_cost;
}

Later-trans : {o p q : Operation} → Later o p → Later p q → Later o q
Later-trans {o} {p} {q} a b = record {
  same = SameRequest-trans a.same b.same;
  no_return = omega arith;
  ended = λ e.
      let back = a.ended e in b.ended (ap (λ (x : Operation). is_active x.state) back ∙ e) ∙ back;
}

abbrev Found : ℕ → Operation → List Operation → Type 0
Found id o ops = (p : Operation) × (find op_key id ops ≡ some p) × Later o p

moved-Later : {x p : Operation} → SameRequest x p → follows x.state p.state ≡ true → Later x p
moved-Later {x} {p} s e = record {
  same = s;
  no_return = omega (arith, follows-rank x.state p.state e);
  ended = λ d. absurd (false≢true (sym d ∙ follows-is_active x.state p.state e));
}

same_row :
    (id : ℕ) (o x : Operation) (a : List Operation)
    → find op_key id a ≡ some o
    → find op_key x.id a ≡ some x
    → x.id ≡ id
    → x ≡ o
same_row id o x a f g e = cc

moved-Found :
    (id : ℕ) (o x p : Operation) (a : List Operation)
    → find op_key id a ≡ some o
    → find op_key x.id a ≡ some x
    → SameRequest x p
    → follows x.state p.state ≡ true
    → Found id o (update op_key p a)
moved-Found id o x p a f g s e = elim (Bool-cases (p.id == id)) [
  | inl eq ↦ (
    p,
    ground (arith, find-update op_key id p a),
    subst (λ t. Later t p) (same_row id o x a f g (ground arith)) (moved-Later s e),
  )
  | inr ne ↦ (o, ground (arith, find-update op_key id p a), Later-refl o)
]

Step-Found :
    {a b : List Operation} (id : ℕ) (o : Operation)
    → Step a b
    → find op_key id a ≡ some o
    → Found id o b
Step-Found {a} id o (admitted op q n b) f =
    (o, ground (arith, find-append op_key id a op), Later-refl o)
Step-Found {a} id o (moved x p g s e) f = moved-Found id o x p a f g s e

Steps-Found :
    {a b : List Operation} (id : ℕ) (o : Operation)
    → Steps a b
    → find op_key id a ≡ some o
    → Found id o b
Steps-Found id o here f = (o, f, Later-refl o)
Steps-Found id o (next s t) f =
    let (p, g, l) = Steps-Found id o s f in
    let (q, k, m) = Step-Found id p t g in (q, k, Later-trans l m)

-- What a lookup in a table finds: its first row, or a row of the rest.
found_split :
    (i : ℕ) (o x : Operation) (ops : List Operation)
    → find op_key i (x ∷ ops) ≡ some o
    → ((i ≡ x.id) × (o ≡ x)) ⊎ (find op_key i ops ≡ some o)
unfolding find
found_split i o x ops f = ground arith

no_second :
    (j : ℕ) (x p : Operation) (ops : List Operation)
    → (is_active x.state ≡ true → find_busy x.resource_id ops ≡ none)
    → find op_key j ops ≡ some p
    → x.resource_id ≡ p.resource_id
    → is_active x.state ≡ true
    → is_active p.state ≡ true
    → ⊥
no_second j x p ops free g r a b =
    let n = find_busy-none x.resource_id j ops p (free a) g in ground (arith, n)

-- Two rows of the table `operations` that both hold one resource are one row.
exclusive_in :
    (i j : ℕ) (o p : Operation) (ops : List Operation)
    → IsConsistent ops
    → find op_key i ops ≡ some o
    → find op_key j ops ≡ some p
    → o.resource_id ≡ p.resource_id
    → is_active o.state ≡ true
    → is_active p.state ≡ true
    → i ≡ j
exclusive_in i j o p [] c f g r a b = unfold find in ground arith
exclusive_in i j o p (x ∷ ops) c f g r a b = elim (found_split i o x ops f) [
  | inl (ix, ox) ↦ elim (found_split j p x ops g) [
    | inl (jx, px) ↦ ix ∙ sym jx
    | inr g' ↦ absurd (no_second j x p ops c.1 g' (cc) (cc) b)
  ]
  | inr f' ↦ elim (found_split j p x ops g) [
    | inl (jx, px) ↦ absurd (no_second i x o ops c.1 f' (cc) (cc) a)
    | inr g' ↦ exclusive_in i j o p ops c.2 f' g' r a b
  ]
]

module _ (cfg : Config) (distinct : (m n : ℕ) → cfg.uuid m ≡ cfg.uuid n → m ≡ n) where
  Call-Evolved : {u v : World} → IsSound cfg u → Call cfg u v → Evolved cfg u v
  Call-Evolved {u} h (call_accept actor key intent resolved budget groups) =
      (accept-Evolves cfg distinct actor key intent resolved budget groups).at u h
  Call-Evolved {u} h (call_execute id digest actor) = (execute-Evolves id digest actor).at u h
  Call-Evolved {u} h (call_execute_many items actor app_id) =
      (execute_many-Evolves items actor app_id).at u h
  Call-Evolved {u} h (call_discard id actor) = (discard-Evolves id actor).at u h
  Call-Evolved {u} h (call_claim id phase) = (claim-Evolves id phase).at u h
  Call-Evolved {u} h (call_finish op s report same f) = finish-Evolved u op s report same f h
  Call-Evolved {u} h (call_interrupted id phase) = (interrupted-Evolves id phase).at u h
  Call-Evolved {u} h (call_reconcile id actor o reason) =
      (reconcile-Evolves id actor o reason).at u h
  Call-Evolved {u} h (time_passes n) = Evolved-table (Evolved-refl u h) refl

  pub Reach-Evolved : {u w : World} → IsSound cfg u → Reach cfg u w → Evolved cfg u w
  Reach-Evolved {u} h start = Evolved-refl u h
  Reach-Evolved h (after r c) =
      let e = Reach-Evolved h r in Evolved-trans e (Call-Evolved e.sound c)

  -- A row of the ledger stays, answers the same request, never returns to an earlier stage, and is
  -- not touched again once it has succeeded or failed. This holds from a ledger whose table is sound,
  -- over any sequence of the calls of `Call`, if the UUIDs drawn are distinct.
  pub Reach-Later :
      {u w : World} (id : ℕ) (o : Operation)
      → IsSound cfg u
      → Reach cfg u w
      → find_op id u ≡ some o
      → (p : Operation) × (find_op id w ≡ some p) × Later o p
  Reach-Later id o h r f = Steps-Found id o (Reach-Evolved h r).steps f

  -- From a ledger whose table is sound, if the UUIDs drawn are distinct, whatever calls of `Call` are
  -- made and in whatever order: no two operations that are neither succeeded nor failed are about
  -- the same resource.
  pub Reach-exclusive :
      {u w : World} (i j : ℕ) (o p : Operation)
      → IsSound cfg u
      → Reach cfg u w
      → find_op i w ≡ some o
      → find_op j w ≡ some p
      → o.resource_id ≡ p.resource_id
      → is_active o.state ≡ true
      → is_active p.state ≡ true
      → i ≡ j
  Reach-exclusive {u} {w} i j o p h r =
      exclusive_in i j o p w.db.operations (Reach-Evolved h r).sound.consistent
