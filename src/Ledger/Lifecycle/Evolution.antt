-- ===== src/Ledger/Lifecycle/Evolution.antt =====
-- What it is for a method of app/ledger.py to change the table `operations` by steps of the diagram.
use forgeapi_homelab.Prelude.{
  ℕ, ◌≤◌, ◌≡◌, refl, sym, ap, subst, Bool, true, false, Option, none, some, List, arith,
  if◌then◌else◌,
}
use forgeapi_homelab.Records.{Operation}
use forgeapi_homelab.Refusals.{Refusal, internal_error, Result, ok, err}
use forgeapi_homelab.Config.{Config}
use forgeapi_homelab.Tables.{find, update, find-update, find-own}
use forgeapi_homelab.Tx.{Tx, World, lift, gets, raise_if, when, transaction, present, ◌>>=◌}
use forgeapi_homelab.Tx.Keeps.{Keeps}
use forgeapi_homelab.Ledger.Rows.{op_key, find_op, load}
use forgeapi_homelab.Ledger.Frames.{table_of}
use forgeapi_homelab.Ledger.Lifecycle.{SameRequest, moved, Steps, here, next, Steps-trans, follows}
use forgeapi_homelab.Ledger.Lifecycle.Table.{IsConsistent, Step-IsConsistent}

-- The table's constraints hold, and no UUID that is still to be drawn names a row.
pub record IsSound (cfg : Config) (w : World) : Type 0 where
  pub consistent : IsConsistent w.db.operations
  pub fresh : (n : ℕ) → w.drawn ≤ n → find op_key (cfg.uuid n) w.db.operations ≡ none

pub record Evolved (cfg : Config) (w w' : World) : Type 0 where
  pub steps : Steps w.db.operations w'.db.operations
  pub sound : IsSound cfg w'
  pub grown : w.drawn ≤ w'.drawn

-- From a sound world `m` leads to a sound world, by steps of the diagram.
pub record Evolves {A : Type 0} (cfg : Config) (m : Tx A) : Type 0 where
  pub at : (w : World) → IsSound cfg w → Evolved cfg w (m w).1

module _ {cfg : Config} where
  pub Evolved-refl : (w : World) → IsSound cfg w → Evolved cfg w w
  Evolved-refl w s = record { steps = here; sound = s; grown = omega arith }

  pub Evolved-trans : {u v w : World} → Evolved cfg u v → Evolved cfg v w → Evolved cfg u w
  Evolved-trans e f = record {
    steps = Steps-trans e.steps f.steps;
    sound = f.sound;
    grown = omega arith;
  }

  -- A world that differs elsewhere only.
  pub Evolved-table : {u v w : World} → Evolved cfg u v → table_of w ≡ table_of v → Evolved cfg u w
  Evolved-table {u} {v} {w} e q = record {
    steps = rw (ap (λ (t : List Operation × ℕ). t.0) q) e.steps;
    sound = record {
      consistent = rw (ap (λ (t : List Operation × ℕ). t.0) q) e.sound.consistent;
      fresh = λ n h. ground (arith, q, e.sound.fresh n);
    };
    grown = ground (arith, q, e.grown);
  }

  -- One row moved along the diagram.
  pub Evolved-moved :
      (w : World) (o p : Operation)
      → find op_key o.id w.db.operations ≡ some o
      → SameRequest o p
      → follows o.state p.state ≡ true
      → IsSound cfg w
      → Evolved cfg w
          (record w { db = record w.db { operations = update op_key p w.db.operations } })
  Evolved-moved w o p f s e h = record {
    steps = next here (moved o p f s e);
    sound = record {
      consistent = Step-IsConsistent (moved o p f s e) h.consistent;
      fresh = λ n k. ground (arith, find-update op_key (cfg.uuid n) p w.db.operations, h.fresh n);
    };
    grown = omega arith;
  }

module _ {A : Type 0} {cfg : Config} where
  pub Evolves-Keeps : (m : Tx A) → Keeps table_of m → Evolves cfg m
  Evolves-Keeps m k = record { at = λ w s. Evolved-table (Evolved-refl w s) (k.at w) }

  pub Evolves-if :
      (b : Bool) (m n : Tx A) → Evolves cfg m → Evolves cfg n → Evolves cfg (if b then m else n)
  Evolves-if true m n em en = em
  Evolves-if false m n em en = en

module _ {A B : Type 0} {cfg : Config} where
  Evolves-continue :
      (r : Result A) (f : A → Tx B) → ((a : A) → Evolves cfg (f a)) → Evolves cfg (lift r >>= f)
  unfolding ◌>>=◌
  Evolves-continue (ok a) f e = record { at = (e a).at }
  Evolves-continue (err x) f e = record { at = Evolved-refl }

  pub Evolves-bind :
      (m : Tx A) (f : A → Tx B)
      → Evolves cfg m
      → ((a : A) → Evolves cfg (f a))
      → Evolves cfg (m >>= f)
  unfolding ◌>>=◌
  Evolves-bind m f em ef = record {
    at = λ w s.
        let e = em.at w s in Evolved-trans e ((Evolves-continue (m w).0 f ef).at (m w).1 e.sound);
  }

rolled_back :
    {cfg : Config} (w w' : World)
    → IsSound cfg w
    → Evolved cfg w w'
    → Evolved cfg w (record w' { db = w.db })
rolled_back w w' s e = record {
  steps = here;
  sound = record { consistent = s.consistent; fresh = λ n h. s.fresh n (omega (arith, e.grown)) };
  grown = e.grown;
}

Evolved-end :
    {A : Type 0} {cfg : Config} (w w' : World) (r : Result A)
    → IsSound cfg w
    → Evolved cfg w w'
    → Evolved cfg w (transaction (λ _. (r, w')) w).1
unfolding transaction
Evolved-end w w' (ok a) s e = e
Evolved-end w w' (err x) s e = rolled_back w w' s e

-- The rules at one world, for code whose guards matter.
module _ {A : Type 0} {cfg : Config} (w : World) (h : IsSound cfg w) where
  pub Evolved-if :
      (b : Bool) (m n : Tx A)
      → (b ≡ true → Evolved cfg w (m w).1)
      → (b ≡ false → Evolved cfg w (n w).1)
      → Evolved cfg w ((if b then m else n) w).1
  Evolved-if true m n em en = em refl
  Evolved-if false m n em en = en refl

  pub Evolved-guard :
      (b : Bool) (e : Refusal) (m : Tx A)
      → (b ≡ false → Evolved cfg w (m w).1)
      → Evolved cfg w ((raise_if b e >>= λ _. m) w).1
  unfolding ◌>>=◌
  Evolved-guard true e m k = Evolved-refl w h
  Evolved-guard false e m k = k refl

  present-Evolved :
      (o : Option Operation) (e : Refusal) (f : Operation → Tx A)
      → ((p : Operation) → o ≡ some p → Evolved cfg w (f p w).1)
      → Evolved cfg w ((lift (present o e) >>= f) w).1
  unfolding ◌>>=◌
  present-Evolved none e f k = Evolved-refl w h
  present-Evolved (some p) e f k = k p refl

  pub Evolved-load :
      (id : ℕ) (f : Operation → Tx A)
      → ((p : Operation) → find_op p.id w ≡ some p → Evolved cfg w (f p w).1)
      → Evolved cfg w ((load id >>= f) w).1
  unfolding load ◌>>=◌
  Evolved-load id f k =
      present-Evolved (find_op id w) internal_error f
        (λ p e. k p (find-own op_key id w.db.operations p e))

module _ {A B : Type 0} {cfg : Config} (w : World) (h : IsSound cfg w) where
  result-Evolved :
      (r : Result A) (f : A → Tx B)
      → ((a : A) → r ≡ ok a → Evolved cfg w (f a w).1)
      → Evolved cfg w ((lift r >>= f) w).1
  unfolding ◌>>=◌
  result-Evolved (ok a) f k = k a refl
  result-Evolved (err e) f k = Evolved-refl w h

  -- A part that only reads, before the rest.
  pub Evolved-reads :
      (m : Tx A) (f : A → Tx B)
      → Keeps (λ v. v) m
      → ((a : A) → (m w).0 ≡ ok a → Evolved cfg w (f a w).1)
      → Evolved cfg w ((m >>= f) w).1
  unfolding ◌>>=◌
  Evolved-reads m f k e =
      subst (λ v. Evolved cfg w ((lift (m w).0 >>= f) v).1) (sym (k.at w))
        (result-Evolved (m w).0 f e)

pub Evolved-when :
    {cfg : Config} (w : World) (h : IsSound cfg w) (b : Bool) (m : Tx (Unit {0}))
    → (b ≡ true → Evolved cfg w (m w).1)
    → Evolved cfg w (when b m w).1
unfolding when
Evolved-when w h true m k = k refl
Evolved-when w h false m k = Evolved-refl w h

pub Evolved-gets :
    {A B : Type 0} {cfg : Config} (w : World) (f : World → A) (k : A → Tx B)
    → Evolved cfg w (k (f w) w).1
    → Evolved cfg w ((gets f >>= k) w).1
unfolding ◌>>=◌
Evolved-gets w f k e = e

module _ {A B : Type 0} {cfg : Config} where
  -- What follows leaves the table alone.
  pub Evolved-after :
      (u w : World) (m : Tx A) (f : A → Tx B)
      → ((a : A) → Keeps table_of (f a))
      → Evolved cfg u (m w).1
      → Evolved cfg u ((m >>= f) w).1
  unfolding ◌>>=◌
  Evolved-after u w m f k e =
      Evolved-trans e
        ((Evolves-continue (m w).0 f (λ a. Evolves-Keeps (f a) (k a))).at (m w).1 e.sound)

  pub Evolved-then :
      (w : World) (m : Tx A) (f : A → Tx B)
      → ((a : A) → Keeps table_of (f a))
      → Evolved cfg w (m w).1
      → Evolved cfg w ((m >>= f) w).1
  Evolved-then w m f k e = Evolved-after w w m f k e

pub Evolved-transacted :
    {A : Type 0} {cfg : Config} (w : World) (m : Tx A)
    → IsSound cfg w
    → Evolved cfg w (m w).1
    → Evolved cfg w (transaction m w).1
unfolding transaction
Evolved-transacted w m s e = Evolved-end w (m w).1 (m w).0 s e

module _ {A B : Type 0} {cfg : Config} where
  continue-Evolved :
      (w v : World) (r : Result A) (f : A → Tx B)
      → Evolved cfg w v
      → ((a : A) → r ≡ ok a → Evolved cfg v (f a v).1)
      → Evolved cfg w ((lift r >>= f) v).1
  unfolding ◌>>=◌
  continue-Evolved w v (ok a) f e k = Evolved-trans e (k a refl)
  continue-Evolved w v (err x) f e k = e

  -- The second part may use what the first one returned.
  pub Evolved-bind :
      (w : World) (m : Tx A) (f : A → Tx B)
      → Evolved cfg w (m w).1
      → ((a : A) → (m w).0 ≡ ok a → Evolved cfg (m w).1 (f a (m w).1).1)
      → Evolved cfg w ((m >>= f) w).1
  unfolding ◌>>=◌
  Evolved-bind w m f e k = continue-Evolved w (m w).1 (m w).0 f e k

pub Evolves-transaction :
    {A : Type 0} {cfg : Config} (m : Tx A) → Evolves cfg m → Evolves cfg (transaction m)
unfolding transaction
Evolves-transaction m e = record { at = λ w s. Evolved-end w (m w).1 (m w).0 s (e.at w s) }

pub ruleset evolves_rules = (Evolves-if, Evolves-bind, Evolves-transaction)
