-- ===== src/Ledger/Total.antt =====
-- Which parts of the methods of app/ledger.py never raise.
use forgeapi_homelab.Prelude.{ℕ, ◌≡◌, refl, Bool, true, false, Option, none, some, if◌then◌else◌}
use forgeapi_homelab.Refusals.{Result, ok, err}
use forgeapi_homelab.Records.{State, Operation, Resource, DriftStatus}
use forgeapi_homelab.Tx.{Tx, World, pure, lift, gets, when, ◌>>=◌}
use forgeapi_homelab.Ledger.Rows.{write_resource}
use forgeapi_homelab.Ledger.Release.{restore_reservation, restore_previous, restore_to}
use forgeapi_homelab.Ledger.Progress.{
  settle_resource, record_drift_check, write_checked, mark_succeeded_resource,
}

abbrev pub is_ok : {A : Type 0} → Result A → Bool
is_ok (ok a) = true
is_ok (err e) = false

pub record Total {A : Type 0} (m : Tx A) : Type 0 where
  pub at : (w : World) → is_ok (m w).0 ≡ true

module _ {A : Type 0} where
  Total-pure : (a : A) → Total (pure a)
  unfolding pure
  Total-pure a = record { at = λ w. refl }

  Total-gets : (f : World → A) → Total (gets f)
  unfolding gets
  Total-gets f = record { at = λ w. refl }

  Total-if : (b : Bool) (m n : Tx A) → Total m → Total n → Total (if b then m else n)
  Total-if true m n p q = p
  Total-if false m n p q = q

Total-when : (b : Bool) (m : Tx (Unit {0})) → Total m → Total (when b m)
unfolding when
Total-when true m p = record { at = p.at }
Total-when false m p = record { at = λ w. refl }

Total-write_resource : (r : Resource) → Total (write_resource r)
unfolding write_resource
Total-write_resource r = record { at = λ w. refl }

module _ {A B : Type 0} where
  Total-continue :
      (r : Result A) (f : A → Tx B)
      → is_ok r ≡ true
      → ((a : A) → Total (f a))
      → Total (lift r >>= f)
  unfolding ◌>>=◌
  Total-continue (ok a) f e p = record { at = (p a).at }
  Total-continue (err x) f e p = cc

  Total-bind : (m : Tx A) (f : A → Tx B) → Total m → ((a : A) → Total (f a)) → Total (m >>= f)
  unfolding ◌>>=◌
  Total-bind m f p q = record { at = λ w. (Total-continue (m w).0 f (p.at w) q).at (m w).1 }

ruleset total_rules =
    (Total-pure, Total-gets, Total-if, Total-when, Total-write_resource, Total-bind)

restore_to-Total : (n : ℕ) (r : Option Resource) → Total (restore_to n r)
restore_to-Total n none = search total_rules
restore_to-Total n (some r) = search total_rules

restore_previous-Total : (op : Operation) (n : Option ℕ) → Total (restore_previous op n)
restore_previous-Total op none = search total_rules
restore_previous-Total op (some n) = search (total_rules, restore_to-Total)

restore_reservation-Total : (op : Operation) → Total (restore_reservation op)
unfolding restore_reservation
restore_reservation-Total op = search (total_rules, restore_previous-Total)

write_checked-Total :
    (op : Operation) (s : State) (r : Option Resource) → Total (write_checked op s r)
write_checked-Total op s none = search total_rules
write_checked-Total op s (some r) = search total_rules

pub record_drift_check-Total : (op : Operation) (s : State) → Total (record_drift_check op s)
unfolding record_drift_check
record_drift_check-Total op s = search (total_rules, write_checked-Total)

mark_succeeded_resource-Total :
    (op : Operation) (d : DriftStatus) → Total (mark_succeeded_resource op d)
unfolding mark_succeeded_resource
mark_succeeded_resource-Total op d = search total_rules

pub settle_resource-Total : (op : Operation) (s : State) → Total (settle_resource op s)
unfolding settle_resource
settle_resource-Total op s = search (
  total_rules, restore_reservation-Total, record_drift_check-Total, mark_succeeded_resource-Total,
)
