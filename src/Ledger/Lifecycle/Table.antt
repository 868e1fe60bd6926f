-- ===== src/Ledger/Lifecycle/Table.antt =====
-- The constraints of the table `operations`: the primary key, and at most one operation that holds
-- a resource (the index `resource_busy`).
use forgeapi_homelab.Prelude.{ℕ, ◌≡◌, refl, true, false, none, some, List, [], ◌∷◌, ◌++◌, arith}
use forgeapi_homelab.Records.{Operation}
use forgeapi_homelab.Tables.{find, update, find-update, find-append}
use forgeapi_homelab.Ledger.Rows.{op_key, is_active}
use forgeapi_homelab.Ledger.Acceptance.{holds, find_busy}
use forgeapi_homelab.Ledger.Lifecycle.{Step, admitted, moved, Steps, here, next, follows-is_active}

abbrev pub IsConsistent : List Operation → Type 0
IsConsistent [] = Unit
IsConsistent (o ∷ os) =
    (find op_key o.id os ≡ none)
    × (is_active o.state ≡ true → find_busy o.resource_id os ≡ none)
    × IsConsistent os

pub update-absent :
    (p : Operation) (ops : List Operation) → find op_key p.id ops ≡ none → update op_key p ops ≡ ops
unfolding find update
update-absent p [] h = refl
update-absent p (o ∷ ops) h = ground (arith, update-absent p ops)

pub find_busy-none :
    (rid i : ℕ) (ops : List Operation) (o : Operation)
    → find_busy rid ops ≡ none
    → find op_key i ops ≡ some o
    → holds rid o ≡ false
unfolding find find_busy
find_busy-none rid i [] o h f = ground arith
find_busy-none rid i (x ∷ ops) o h f = ground (arith, find_busy-none rid i ops o)

pub find_busy-update :
    (rid : ℕ) (p : Operation) (ops : List Operation)
    → find_busy rid ops ≡ none
    → holds rid p ≡ false
    → find_busy rid (update op_key p ops) ≡ none
unfolding find_busy update
find_busy-update rid p [] h n = refl
find_busy-update rid p (x ∷ ops) h n = ground (arith, find_busy-update rid p ops)

find_busy-append :
    (rid : ℕ) (p : Operation) (ops : List Operation)
    → find_busy rid ops ≡ none
    → holds rid p ≡ false
    → find_busy rid (ops ++ p ∷ []) ≡ none
unfolding find_busy
find_busy-append rid p [] h n = ground arith
find_busy-append rid p (x ∷ ops) h n = ground (arith, find_busy-append rid p ops)

pub find_busy-found :
    (rid : ℕ) (ops : List Operation) (o : Operation)
    → find_busy rid ops ≡ some o
    → (o.resource_id ≡ rid) × (is_active o.state ≡ true)
unfolding find_busy
find_busy-found rid [] o h = ground arith
find_busy-found rid (x ∷ ops) o h = ground (arith, find_busy-found rid ops o)

update-IsConsistent :
    (o p : Operation) (ops : List Operation)
    → IsConsistent ops
    → find op_key o.id ops ≡ some o
    → p.id ≡ o.id
    → p.resource_id ≡ o.resource_id
    → is_active o.state ≡ true
    → IsConsistent (update op_key p ops)
unfolding find update
update-IsConsistent o p [] c f i r a = tt
update-IsConsistent o p (x ∷ ops) c f i r a = ground (
  arith,
  update-absent p ops,
  find-update op_key x.id p ops,
  find_busy-none x.resource_id o.id ops o,
  find_busy-update x.resource_id p ops,
  update-IsConsistent o p ops c.2,
)

append-IsConsistent :
    (p : Operation) (ops : List Operation)
    → IsConsistent ops
    → find op_key p.id ops ≡ none
    → find_busy p.resource_id ops ≡ none
    → IsConsistent (ops ++ p ∷ [])
unfolding find find_busy
append-IsConsistent p [] c f b = (refl, λ _. refl, tt)
append-IsConsistent p (x ∷ ops) c f b = ground (
  arith,
  find-append op_key x.id ops p,
  find_busy-append x.resource_id p ops,
  append-IsConsistent p ops c.2,
)

pub Step-IsConsistent : {a b : List Operation} → Step a b → IsConsistent a → IsConsistent b
Step-IsConsistent {a} (admitted op q f b) c = append-IsConsistent op a c f b
Step-IsConsistent {a} (moved o p f s e) c =
    update-IsConsistent o p a c f s.id s.resource_id (follows-is_active o.state p.state e)

pub Steps-IsConsistent : {a b : List Operation} → Steps a b → IsConsistent a → IsConsistent b
Steps-IsConsistent here c = c
Steps-IsConsistent (next s t) c = Step-IsConsistent t (Steps-IsConsistent s c)
