-- ===== src/Ledger/Audit.antt =====
-- The audit trail (app/ledger.py: `event` and the methods that call it): the table `events` next to
-- the tables that it tells of.
pub mod Methods
pub mod Calls
use forgeapi_homelab.Prelude.{
  ◌≡◌, refl, sym, ap, ◌∙◌, Bool, true, false, List, [], ◌∷◌, ◌++◌, String, if◌then◌else◌,
}
use forgeapi_homelab.Records.{Event, Operation, Resource, Subject, EventAction, EventOutcome}
use forgeapi_homelab.Refusals.{Refusal, Result, ok, err}
use forgeapi_homelab.Tx.{Tx, World, lift, when, event, transaction, ◌>>=◌, ◌>>◌}
use forgeapi_homelab.Tx.Keeps.{Keeps}
use forgeapi_homelab.Ledger.Rows.{save}

abbrev pub trail : World → List Event
trail w = w.db.events

-- The rows of operations and resources.
abbrev pub rows : World → List Operation × List Resource
rows w = (w.db.operations, w.db.resources)

-- The trail only grows.
pub record Grows (u w : World) : Type 0 where
  pub more : List Event
  pub grown : trail w ≡ trail u ++ more

-- The trail only grows, and nothing changes that it does not tell of.
pub record Logs (u w : World) : Type 0 where
  pub more : List Event
  pub grown : trail w ≡ trail u ++ more
  pub silent : more ≡ [] → rows w ≡ rows u

pub record Extends {A : Type 0} (m : Tx A) : Type 0 where
  pub at : (w : World) → Grows w (m w).1

pub record Audited {A : Type 0} (m : Tx A) : Type 0 where
  pub at : (w : World) → Logs w (m w).1

append_nil : (xs : List Event) → xs ≡ xs ++ []
append_nil [] = refl
append_nil (x ∷ xs) = ap (◌∷◌ x) (append_nil xs)

append_assoc : (xs ys zs : List Event) → (xs ++ ys) ++ zs ≡ xs ++ (ys ++ zs)
append_assoc [] ys zs = refl
append_assoc (x ∷ xs) ys zs = ap (◌∷◌ x) (append_assoc xs ys zs)

nil_left : (xs ys : List Event) → xs ++ ys ≡ [] → xs ≡ []
nil_left [] ys e = refl
nil_left (x ∷ xs) ys e = cc

nil_right : (xs ys : List Event) → xs ++ ys ≡ [] → ys ≡ []
nil_right [] ys e = e
nil_right (x ∷ xs) ys e = cc

Grows-refl : (u w : World) → trail w ≡ trail u → Grows u w
Grows-refl u w e = record { more = []; grown = e ∙ append_nil (trail u) }

Grows-trans : (u v w : World) → Grows u v → Grows v w → Grows u w
Grows-trans u v w g h = record {
  more = g.more ++ h.more;
  grown = h.grown ∙ ap (λ xs. xs ++ h.more) g.grown ∙ append_assoc (trail u) g.more h.more;
}

pub Logs-refl : (u w : World) → trail w ≡ trail u → rows w ≡ rows u → Logs u w
Logs-refl u w e r = record { more = []; grown = e ∙ append_nil (trail u); silent = λ _. r }

pub Logs-trans : (u v w : World) → Logs u v → Logs v w → Logs u w
Logs-trans u v w g h = record {
  more = g.more ++ h.more;
  grown = h.grown ∙ ap (λ xs. xs ++ h.more) g.grown ∙ append_assoc (trail u) g.more h.more;
  silent = λ e. h.silent (nil_right g.more h.more e) ∙ g.silent (nil_left g.more h.more e);
}

-- An event, then more.
Logs-first :
    (u w : World) (e : Event) (g : List Event) → trail w ≡ (trail u ++ e ∷ []) ++ g → Logs u w
Logs-first u w e g q = record {
  more = e ∷ g;
  grown = q ∙ append_assoc (trail u) (e ∷ []) g;
  silent = λ n. absurd (filled n);
}
  where
    filled : e ∷ g ≡ [] → ⊥
    filled n = cc

module _ {A : Type 0} where
  pub Extends-Keeps : (m : Tx A) → Keeps trail m → Extends m
  Extends-Keeps m k = record { at = λ w. Grows-refl w (m w).1 (k.at w) }

  pub Audited-Keeps : (m : Tx A) → Keeps trail m → Keeps rows m → Audited m
  Audited-Keeps m k r = record { at = λ w. Logs-refl w (m w).1 (k.at w) (r.at w) }

  pub Audited-if : (b : Bool) (m n : Tx A) → Audited m → Audited n → Audited (if b then m else n)
  Audited-if true m n p q = p
  Audited-if false m n p q = q

  pub Extends-if : (b : Bool) (m n : Tx A) → Extends m → Extends n → Extends (if b then m else n)
  Extends-if true m n p q = p
  Extends-if false m n p q = q

  committed-Logs :
      (w : World) (r : Result A × World) → Logs w r.1 → Logs w (transaction (λ _. r) w).1
  unfolding transaction
  committed-Logs w (ok a, v) l = l
  committed-Logs w (err e, v) l = Logs-refl w (record v { db = w.db }) refl refl

  pub Audited-transaction : (m : Tx A) → Audited m → Audited (transaction m)
  unfolding transaction
  Audited-transaction m p = record { at = λ w. committed-Logs w (m w) (p.at w) }

pub Extends-when : (b : Bool) (m : Tx (Unit {0})) → Extends m → Extends (when b m)
unfolding when
Extends-when true m p = record { at = p.at }
Extends-when false m p = record { at = λ w. Grows-refl w w refl }

pub Audited-when : (b : Bool) (m : Tx (Unit {0})) → Audited m → Audited (when b m)
unfolding when
Audited-when true m p = record { at = p.at }
Audited-when false m p = record { at = λ w. Logs-refl w w refl refl }

pub Extends-event :
    (s : Subject) (actor : String) (a : EventAction) (o : EventOutcome)
    → Extends (event s actor a o)
unfolding event
Extends-event s actor a o = record { at = λ w. record { more = _; grown = refl } }

module _ {A B : Type 0} where
  Extends-continue :
      (r : Result A) (f : A → Tx B) → ((a : A) → Extends (f a)) → Extends (lift r >>= f)
  unfolding ◌>>=◌
  Extends-continue (ok a) f p = record { at = (p a).at }
  Extends-continue (err x) f p = record { at = λ w. Grows-refl w w refl }

  pub Extends-bind :
      (m : Tx A) (f : A → Tx B) → Extends m → ((a : A) → Extends (f a)) → Extends (m >>= f)
  unfolding ◌>>=◌
  Extends-bind m f p q = record {
    at = λ w. Grows-trans w (m w).1 _ (p.at w) ((Extends-continue (m w).0 f q).at (m w).1);
  }

  Audited-continue :
      (r : Result A) (f : A → Tx B) → ((a : A) → Audited (f a)) → Audited (lift r >>= f)
  unfolding ◌>>=◌
  Audited-continue (ok a) f p = record { at = (p a).at }
  Audited-continue (err x) f p = record { at = λ w. Logs-refl w w refl refl }

  pub Audited-bind :
      (m : Tx A) (f : A → Tx B) → Audited m → ((a : A) → Audited (f a)) → Audited (m >>= f)
  unfolding ◌>>=◌
  Audited-bind m f p q = record {
    at = λ w. Logs-trans w (m w).1 _ (p.at w) ((Audited-continue (m w).0 f q).at (m w).1);
  }

module _ {B : Type 0} (s : Subject) (actor : String) (a : EventAction) (o : EventOutcome) where
  -- What starts with an event is told of.
  pub Audited-event : (k : Tx B) → Extends k → Audited (event s actor a o >> k)
  unfolding event ◌>>=◌
  Audited-event k p = record { at = λ w. let g = p.at _ in Logs-first w _ _ g.more g.grown }

  -- And a row that is saved right before its event.
  pub Audited-save :
      (op : Operation) (k : Operation → Tx B)
      → ((op' : Operation) → Extends (k op'))
      → Audited (save op >>= λ op'. event s actor a o >> k op')
  unfolding save event ◌>>=◌
  Audited-save op k p = record { at = λ w. let g = (p _).at _ in Logs-first w _ _ g.more g.grown }

-- A row that is saved, and its event as the last step.
pub saved_event-Audited :
    (op : Operation) (s : Subject) (actor : String) (a : EventAction) (o : EventOutcome)
    → Audited (save op >> event s actor a o)
unfolding save event ◌>>=◌
saved_event-Audited op s actor a o = record { at = λ w. Logs-first w _ _ [] (append_nil _) }
