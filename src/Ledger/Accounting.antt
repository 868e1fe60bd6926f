-- ===== src/Ledger/Accounting.antt =====
-- Budget reservations (app/ledger.py, `accounting_amount` and `_reserved`). Amounts are added by the
-- parameters `float_add` and `float_sum`, which round.
use forgeapi_homelab.Prelude.{
  ℕ, String, Bool, true, false, Option, some, none, List, [], ◌∷◌, ◌&&◌, not, if◌then◌else◌,
  opt_str_eq, opt_eq, nat_eq,
}
use forgeapi_homelab.Records.{Money, missing, amount, corrupt, Resource, ResourceState, destroyed}
use forgeapi_homelab.Config.{Config}
use forgeapi_homelab.Refusals.{Result, ok, err, invalid_accounting}

abbrev pub accounting_amount : Money → Result ℕ
accounting_amount missing = ok 0
accounting_amount (amount n) = ok n
accounting_amount corrupt = err invalid_accounting

abbrev pub is_destroyed : Option ResourceState → Bool
is_destroyed (some destroyed) = true
is_destroyed _ = false

-- The filter of `_reserved`: this unit and environment, not the resource being changed, and not
-- destroyed.
unfoldable pub is_counted : Option String → Option String → Option ℕ → Resource → Bool
is_counted unit environment exclude r =
    opt_str_eq r.resolved.business_unit unit
    && opt_str_eq r.resolved.environment environment
    && not (opt_eq nat_eq (some r.id) exclude)
    && not (is_destroyed r.state)

abbrev pub with_amount : Result ℕ → Result (List ℕ) → Result (List ℕ)
with_amount (ok a) (ok ns) = ok (a ∷ ns)
with_amount (ok a) (err e) = err e
with_amount (err e) r = err e

-- What `_reserved` sums, in the table's order.
unfoldable pub amounts_in :
    Option String → Option String → Option ℕ → List Resource → Result (List ℕ)
unfolding is_counted
amounts_in unit environment exclude [] = ok []
amounts_in unit environment exclude (r ∷ rs) =
    let rest = amounts_in unit environment exclude rs in
    if is_counted unit environment exclude r
    then with_amount (accounting_amount r.resolved.estimated_monthly_cost) rest
    else rest

-- `accounting_amount` of a sum.
abbrev pub finite : Option ℕ → Result ℕ
finite (some n) = ok n
finite none = err invalid_accounting

abbrev pub summed : Config → Result (List ℕ) → Result ℕ
summed cfg (ok ns) = finite (cfg.float_sum ns)
summed cfg (err e) = err e

unfoldable pub reserved_in :
    Config → Option String → Option String → Option ℕ → List Resource → Result ℕ
unfolding amounts_in
reserved_in cfg unit environment exclude rs = summed cfg (amounts_in unit environment exclude rs)

abbrev pub plus : Config → Option ℕ → ℕ → Option ℕ
plus cfg none n = none
plus cfg (some m) n = cfg.float_add m n

-- `accounting_amount(used + legacy + reservation)`.
abbrev pub total_with : Config → ℕ → ℕ → ℕ → Result ℕ
total_with cfg used legacy reservation = finite (plus cfg (cfg.float_add used legacy) reservation)
