-- ===== src/Tables.antt =====
-- The SQL statements that the ledger runs on a table: a lookup and an update by primary key.
use forgeapi_homelab.Prelude.{
  ℕ, ◌≡◌, Option, none, some, List, [], ◌∷◌, ◌++◌, arith, ◌==◌, if◌then◌else◌, length,
}

module _ {A : Type 0} (key : A → ℕ) where
  -- `SELECT body FROM t WHERE id=?`, with `fetchone`.
  unfoldable pub find : ℕ → List A → Option A
  find k [] = none
  find k (x ∷ xs) = if key x == k then some x else find k xs

  -- `UPDATE t SET body=? WHERE id=?`: the id is that of the row written.
  unfoldable pub update : A → List A → List A
  update r [] = []
  update r (x ∷ xs) = (if key x == key r then r else x) ∷ update r xs

  -- `INSERT OR REPLACE INTO t VALUES (?, ?)`: the replaced row goes, the new one comes last.
  unfoldable pub delete : ℕ → List A → List A
  delete k [] = []
  delete k (x ∷ xs) = let rest = delete k xs in if key x == k then rest else x ∷ rest

  unfoldable pub upsert : A → List A → List A
  upsert r xs = delete (key r) xs ++ r ∷ []

  abbrev replaced : A → Option A → Option A
  replaced r none = none
  replaced r (some x) = some r

  pub find-update :
      (k : ℕ) (r : A) (xs : List A)
      → find k (update r xs) ≡ (if key r == k then replaced r (find k xs) else find k xs)
  unfolding find update
  find-update k r [] = ground arith
  find-update k r (x ∷ xs) = ground (arith, find-update k r xs)

  pub find-append :
      (k : ℕ) (xs : List A) (r : A)
      → find k (xs ++ r ∷ [])
        ≡ elim (find k xs) [ none ↦ (if key r == k then some r else none) | some x ↦ some x ]
  unfolding find
  find-append k [] r = ground arith
  find-append k (x ∷ xs) r = ground (arith, find-append k xs r)

  pub find-key : (k : ℕ) (xs : List A) (x : A) → find k xs ≡ some x → key x ≡ k
  unfolding find
  find-key k [] x h = ground arith
  find-key k (y ∷ xs) x h = ground (arith, find-key k xs x)

  pub find-own : (k : ℕ) (xs : List A) (x : A) → find k xs ≡ some x → find (key x) xs ≡ some x
  find-own k xs x h = cc (find-key k xs x h)

  pub find-delete :
      (k j : ℕ) (xs : List A) → find k (delete j xs) ≡ (if j == k then none else find k xs)
  unfolding find delete
  find-delete k j [] = ground arith
  find-delete k j (x ∷ xs) = ground (arith, find-delete k j xs)

  pub find-upsert :
      (k : ℕ) (r : A) (xs : List A)
      → find k (upsert r xs) ≡ (if key r == k then some r else find k xs)
  unfolding upsert
  find-upsert k r xs = ground (arith, find-append k (delete (key r) xs) r, find-delete k (key r) xs)

  pub length-update : (r : A) (xs : List A) → length (update r xs) ≡ length xs
  unfolding update
  length-update r [] = ground arith
  length-update r (x ∷ xs) = ground (arith, length-update r xs)
