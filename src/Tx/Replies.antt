-- ===== src/Tx/Replies.antt =====
-- What a call that returned went through.
use forgeapi_homelab.Prelude.{◌≡◌, ◌∙◌, ap, refl, subst, Bool, true, false}
use forgeapi_homelab.Refusals.{Result, Refusal, ok, err}
use forgeapi_homelab.Tx.Keeps.{Keeps}
use forgeapi_homelab.Tx.{Tx, World, lift, transaction, raise_if, ◌>>=◌}

module _ {A B : Type 0} where
  returned_continue :
      (r : Result A) (f : A → Tx B) (w : World) (b : B)
      → ((lift r >>= f) w).0 ≡ ok b
      → (a : A) × (r ≡ ok a) × ((f a w).0 ≡ ok b)
  unfolding ◌>>=◌
  returned_continue (ok a) f w b e = (a, refl, e)
  returned_continue (err x) f w b e = cc

  pub lift-returned :
      (r : Result A) (f : A → Tx B) (w : World) (b : B)
      → ((lift r >>= f) w).0 ≡ ok b
      → (a : A) × (r ≡ ok a) × ((f a w).0 ≡ ok b)
  lift-returned = returned_continue

transaction_cases :
    {A : Type 0} (w : World) (r : Result A × World) (a : A)
    → (transaction (λ _. r) w).0 ≡ ok a
    → r.0 ≡ ok a
unfolding transaction
transaction_cases w (ok b, v) a e = e
transaction_cases w (err x, v) a e = cc

pub transaction-returned :
    {A : Type 0} (m : Tx A) (w : World) (a : A) → (transaction m w).0 ≡ ok a → (m w).0 ≡ ok a
unfolding transaction
transaction-returned m w a e = transaction_cases w (m w) a e

module _ {A B : Type 0} where
  bound_cases :
      (r : Result A × World) (f : A → Tx B) (w : World) (b : B)
      → (((λ _. r) >>= f) w).0 ≡ ok b
      → (a : A) × (r.0 ≡ ok a) × ((f a r.1).0 ≡ ok b) × ((((λ _. r) >>= f) w).1 ≡ (f a r.1).1)
  unfolding ◌>>=◌
  bound_cases (ok a, v) f w b e = (a, refl, e, refl)
  bound_cases (err x, v) f w b e = cc

  -- Both parts of a chain that returned.
  pub bind-returned :
      (m : Tx A) (f : A → Tx B) (w : World) (b : B)
      → ((m >>= f) w).0 ≡ ok b
      → (a : A) × ((m w).0 ≡ ok a) × ((f a (m w).1).0 ≡ ok b) × (((m >>= f) w).1 ≡ (f a (m w).1).1)
  unfolding ◌>>=◌
  bind-returned m f w b e = bound_cases (m w) f w b e

committed_cases :
    {A : Type 0} (w : World) (r : Result A × World) (a : A)
    → (transaction (λ _. r) w).0 ≡ ok a
    → (r.0 ≡ ok a) × ((transaction (λ _. r) w).1 ≡ r.1)
unfolding transaction
committed_cases w (ok b, v) a e = (e, refl)
committed_cases w (err x, v) a e = cc

pub transaction-committed :
    {A : Type 0} (m : Tx A) (w : World) (a : A)
    → (transaction m w).0 ≡ ok a
    → ((m w).0 ≡ ok a) × ((transaction m w).1 ≡ (m w).1)
unfolding transaction
transaction-committed m w a e = committed_cases w (m w) a e

module _ {B : Type 0} where
  -- A guard that let the rest go on.
  pub guard-returned :
      (c : Bool) (e : Refusal) (f : Unit {0} → Tx B) (w : World) (b : B)
      → ((raise_if c e >>= f) w).0 ≡ ok b
      → (c ≡ false) × ((f tt w).0 ≡ ok b)
  unfolding ◌>>=◌ raise_if
  guard-returned true e f w b h = cc
  guard-returned false e f w b h = (refl, h)

module _ {A B : Type 0} where
  -- A part that only reads.
  pub read-returned :
      (m : Tx A) (f : A → Tx B) (w : World) (b : B)
      → Keeps (λ (v : World). v) m
      → ((m >>= f) w).0 ≡ ok b
      → (a : A) × ((m w).0 ≡ ok a) × ((f a w).0 ≡ ok b)
  read-returned m f w b k e =
      let (a, x, y, z) = bind-returned m f w b e in (a, x, subst (λ v. (f a v).0 ≡ ok b) (k.at w) y)

  -- The world after a part that only reads and what follows it.
  pub read-world :
      (m : Tx A) (f : A → Tx B) (w : World) (b : B)
      → Keeps (λ (v : World). v) m
      → ((m >>= f) w).0 ≡ ok b
      → (a : A) × ((m w).0 ≡ ok a) × ((f a w).0 ≡ ok b) × (((m >>= f) w).1 ≡ (f a w).1)
  read-world m f w b k e =
      let (a, x, y, z) = bind-returned m f w b e in
      (a, x, subst (λ v. (f a v).0 ≡ ok b) (k.at w) y, z ∙ ap (λ v. (f a v).1) (k.at w))
