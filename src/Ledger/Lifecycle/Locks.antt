-- ===== src/Ledger/Lifecycle/Locks.antt =====
-- The ledger as a set of locks, one for each resource: what a caller sees of `resource_busy`.
use forgeapi_homelab.Prelude.{
  ℕ, ◌≡◌, ap, sym, ◌∙◌, true, Option, none, some, List, [], ◌∷◌, ◌++◌, arith, ◌==◌, if◌then◌else◌,
  Bool-cases, inl, inr,
}
use forgeapi_homelab.Records.{Operation}
use forgeapi_homelab.Tables.{find, update, find-append, find-update}
use forgeapi_homelab.Config.{Config}
use forgeapi_homelab.Tx.{World}
use forgeapi_homelab.Ledger.Rows.{op_key, is_active}
use forgeapi_homelab.Ledger.Acceptance.{holds, find_busy}
use forgeapi_homelab.Ledger.Lifecycle.{Step, admitted, moved, Steps, here, next, follows-is_active}
use forgeapi_homelab.Ledger.Lifecycle.Table.{
  IsConsistent, update-absent, find_busy-none, Steps-IsConsistent,
}
use forgeapi_homelab.Ledger.Lifecycle.Evolution.{IsSound}
use forgeapi_homelab.Ledger.Lifecycle.History.{Reach, Reach-Evolved}

-- The specification: which operation has each resource's lock, and which resource each known
-- operation is for. An operation that was not known takes the free lock of its resource; an
-- operation gives up the lock it has; nothing else happens.
pub record Locks : Type 0 where
  pub owner : ℕ → Option ℕ
  pub resource_of : ℕ → Option ℕ

pub data LockStep (l m : Locks) : Type 0 where
  takes :
      (rid id : ℕ)
      → l.owner rid ≡ none
      → l.resource_of id ≡ none
      → ((r : ℕ) → m.owner r ≡ (if rid == r then some id else l.owner r))
      → ((i : ℕ) → m.resource_of i ≡ (if id == i then some rid else l.resource_of i))
      → LockStep l m
  gives_up :
      (rid id : ℕ)
      → l.owner rid ≡ some id
      → ((r : ℕ) → m.owner r ≡ (if rid == r then none else l.owner r))
      → ((i : ℕ) → m.resource_of i ≡ l.resource_of i)
      → LockStep l m
  stays :
      ((r : ℕ) → m.owner r ≡ l.owner r)
      → ((i : ℕ) → m.resource_of i ≡ l.resource_of i)
      → LockStep l m

pub data LockSteps (l : Locks) : Locks → Type 0 where
  no_step : LockSteps l l
  then_step : {m n : Locks} → LockSteps l m → LockStep m n → LockSteps l n

-- A known operation stays known, and has a lock only if it had it.
LockStep-kept :
    {l m : Locks} (rid id k : ℕ)
    → LockStep l m
    → l.resource_of id ≡ some k
    → (m.resource_of id ≡ some k) × (m.owner rid ≡ some id → l.owner rid ≡ some id)
LockStep-kept rid id k (takes r i free fresh owner known) h =
    let o = owner rid in
    let n = known id in (ground (arith, n, h, fresh), λ e. ground (arith, o, h, fresh, e))
LockStep-kept rid id k (gives_up r i held owner known) h =
    let o = owner rid in (known id ∙ h, λ e. ground (arith, o, e))
LockStep-kept rid id k (stays owner known) h = (known id ∙ h, λ e. sym (owner rid) ∙ e)

LockSteps-kept :
    {l m : Locks} (rid id k : ℕ)
    → LockSteps l m
    → l.resource_of id ≡ some k
    → (m.resource_of id ≡ some k) × (m.owner rid ≡ some id → l.owner rid ≡ some id)
LockSteps-kept rid id k no_step h = (h, λ e. e)
LockSteps-kept rid id k (then_step s t) h =
    let (known, back) = LockSteps-kept rid id k s h in
    let (known', back') = LockStep-kept rid id k t known in (known', λ e. back (back' e))

-- The locks move by such steps only, so that no operation that was known has a lock that it did not
-- have before.
pub record LocksKept (l m : Locks) : Type 0 where
  pub steps : LockSteps l m
  pub no_return :
      (rid id k : ℕ) → l.resource_of id ≡ some k → m.owner rid ≡ some id → l.owner rid ≡ some id

abbrev pub id_of : Option Operation → Option ℕ
id_of none = none
id_of (some o) = some o.id

abbrev pub resource_in_row : Option Operation → Option ℕ
resource_in_row none = none
resource_in_row (some o) = some o.resource_id

-- What the table says of the locks.
unfoldable pub locks : List Operation → Locks
unfolding find_busy find
locks ops = record {
  owner = λ rid. id_of (find_busy rid ops);
  resource_of = λ id. resource_in_row (find op_key id ops);
}

target-admitted :
    (i : ℕ) (ops : List Operation) (p : Operation)
    → find op_key p.id ops ≡ none
    → resource_in_row (find op_key i (ops ++ p ∷ []))
      ≡ (if p.id == i then some p.resource_id else resource_in_row (find op_key i ops))
target-admitted i ops p n = ground (arith, find-append op_key i ops p, n)

target-moved :
    (i : ℕ) (o p : Operation) (ops : List Operation)
    → find op_key o.id ops ≡ some o
    → p.id ≡ o.id
    → p.resource_id ≡ o.resource_id
    → resource_in_row (find op_key i (update op_key p ops)) ≡ resource_in_row (find op_key i ops)
target-moved i o p ops f k r = ground (arith, find-update op_key i p ops, f, k, r)

find_busy-admitted :
    (rid : ℕ) (ops : List Operation) (p : Operation)
    → id_of (find_busy rid (ops ++ p ∷ [])) ≡ elim (find_busy rid ops) [
      | none ↦ (if holds rid p then some p.id else none)
      | some x ↦ some x.id
    ]
unfolding find_busy
find_busy-admitted rid [] p = ground arith
find_busy-admitted rid (x ∷ ops) p = ground (arith, find_busy-admitted rid ops p)

find_busy-own :
    (i : ℕ) (ops : List Operation) (o : Operation)
    → IsConsistent ops
    → find op_key i ops ≡ some o
    → is_active o.state ≡ true
    → find_busy o.resource_id ops ≡ some o
unfolding find find_busy
find_busy-own i [] o c f a = ground arith
find_busy-own i (x ∷ ops) o c f a =
    ground (arith, find_busy-own i ops o c.2, find_busy-none x.resource_id i ops o)

-- The operation that holds `rid` once `p` is written over its row `o`.
abbrev held_after : Option ℕ → ℕ → Operation → Option ℕ
held_after before rid p =
    if p.resource_id == rid then (if is_active p.state then some p.id else none) else before

find_busy-moved :
    (rid : ℕ) (o p : Operation) (ops : List Operation)
    → IsConsistent ops
    → find op_key o.id ops ≡ some o
    → p.id ≡ o.id
    → p.resource_id ≡ o.resource_id
    → is_active o.state ≡ true
    → id_of (find_busy rid (update op_key p ops)) ≡ held_after (id_of (find_busy rid ops)) rid p
unfolding find find_busy update
find_busy-moved rid o p [] c f i r a = ground arith
find_busy-moved rid o p (x ∷ ops) c f i r a = ground (
  arith,
  update-absent p ops,
  find_busy-none x.resource_id o.id ops o,
  find_busy-moved rid o p ops c.2,
)

Step-LockStep : {a b : List Operation} → Step a b → IsConsistent a → LockStep (locks a) (locks b)
unfolding locks
Step-LockStep {a} (admitted op q f n) c =
    takes op.resource_id op.id (ap id_of n) (ap resource_in_row f)
      (λ r. ground (arith, find_busy-admitted r a op, n, q)) (λ i. target-admitted i a op f)
Step-LockStep {a} (moved o p f s e) c =
    let active = follows-is_active o.state p.state e in
    let before = find_busy-own o.id a o c f active in
    let targets = λ (i : ℕ). target-moved i o p a f s.id s.resource_id in
    elim (Bool-cases (is_active p.state)) [
      | inl k ↦
          stays
            (λ r. ground (
              arith,
              find_busy-moved r o p a c f s.id s.resource_id active,
              before,
              k,
              s.id,
              s.resource_id,
            ))
            targets
      | inr k ↦
          gives_up o.resource_id o.id (ap id_of before)
            (λ r.
              ground
                (arith, find_busy-moved r o p a c f s.id s.resource_id active, k, s.resource_id))
            targets
    ]

Steps-LockSteps :
    {a b : List Operation} → Steps a b → IsConsistent a → LockSteps (locks a) (locks b)
Steps-LockSteps here c = no_step
Steps-LockSteps (next s t) c =
    then_step (Steps-LockSteps s c) (Step-LockStep t (Steps-IsConsistent s c))

module _ (cfg : Config) (distinct : (m n : ℕ) → cfg.uuid m ≡ cfg.uuid n → m ≡ n) where
  -- The table refines the locks: from a ledger whose table is sound, if the UUIDs drawn are distinct,
  -- what any sequence of the calls of `Call` does to the locks is a sequence in which an operation that
  -- is not yet in the table takes the lock of its own resource where that is free, and an operation gives
  -- up the lock that it has. So a lock never passes to an operation that was in the table already.
  pub Reach-LockSteps :
      {u w : World}
      → IsSound cfg u
      → Reach cfg u w
      → LocksKept (locks u.db.operations) (locks w.db.operations)
  Reach-LockSteps h r =
      let steps = Steps-LockSteps (Reach-Evolved cfg distinct h r).steps h.consistent in
      record {
        steps = steps;
        no_return = λ rid id k known. (LockSteps-kept rid id k steps known).1;
      }
