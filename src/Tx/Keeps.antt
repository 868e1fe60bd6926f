-- ===== src/Tx/Keeps.antt =====
-- What an action leaves as it was, one rule for each way to build an action.
use forgeapi_homelab.Prelude.{◌≡◌, refl, ◌∙◌, Bool, true, false, if◌then◌else◌}
use forgeapi_homelab.Refusals.{Refusal, Result, ok, err}
use forgeapi_homelab.Tx.{Tx, World, pure, raise, lift, gets, raise_if, when, ◌>>=◌}

-- Whether it returns or raises, `m` leaves what `view` shows of the world.
pub record Keeps {A B : Type 0} (view : World → B) (m : Tx A) : Type 0 where
  pub at : (w : World) → view (m w).1 ≡ view w

module _ {A B : Type 0} {view : World → B} where
  pub Keeps-pure : (a : A) → Keeps view (pure a)
  unfolding pure
  Keeps-pure a = record { at = λ w. refl }

  pub Keeps-raise : (e : Refusal) → Keeps view (raise {A = A} e)
  unfolding raise
  Keeps-raise e = record { at = λ w. refl }

  pub Keeps-lift : (r : Result A) → Keeps view (lift r)
  unfolding lift
  Keeps-lift r = record { at = λ w. refl }

  pub Keeps-gets : (f : World → A) → Keeps view (gets f)
  unfolding gets
  Keeps-gets f = record { at = λ w. refl }

  pub Keeps-if :
      (b : Bool) (m n : Tx A) → Keeps view m → Keeps view n → Keeps view (if b then m else n)
  Keeps-if true m n km kn = km
  Keeps-if false m n km kn = kn

module _ {B : Type 0} {view : World → B} where
  pub Keeps-raise_if : (b : Bool) (e : Refusal) → Keeps view (raise_if b e)
  unfolding raise_if
  Keeps-raise_if true e = record { at = λ w. refl }
  Keeps-raise_if false e = record { at = λ w. refl }

  pub Keeps-when : (b : Bool) (m : Tx (Unit {0})) → Keeps view m → Keeps view (when b m)
  unfolding when
  Keeps-when true m k = record { at = k.at }
  Keeps-when false m k = record { at = λ w. refl }

module _ {A C B : Type 0} {view : World → B} where
  Keeps-continue :
      (r : Result A) (f : A → Tx C) → ((a : A) → Keeps view (f a)) → Keeps view (lift r >>= f)
  unfolding ◌>>=◌
  Keeps-continue (ok a) f kf = record { at = (kf a).at }
  Keeps-continue (err e) f kf = record { at = λ w. refl }

  pub Keeps-bind :
      (m : Tx A) (f : A → Tx C) → Keeps view m → ((a : A) → Keeps view (f a)) → Keeps view (m >>= f)
  unfolding ◌>>=◌
  Keeps-bind m f km kf = record { at = λ w. (Keeps-continue (m w).0 f kf).at (m w).1 ∙ km.at w }

pub ruleset keeps_rules = (
  Keeps-pure, Keeps-raise, Keeps-lift, Keeps-gets, Keeps-if, Keeps-raise_if, Keeps-when, Keeps-bind,
)
