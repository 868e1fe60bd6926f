-- ===== src/Costs/History.antt =====
-- The rules of the cost history against what the ledger writes (app/cost_history.py, `replay`;
-- app/ledger.py, `_accept`, `finish`, `_restore_reservation`, `_mark_succeeded_resource`).
use forgeapi_homelab.Prelude.{
  ℕ, ◌≡◌, Bool, true, false, Option, none, some, List, [], ◌∷◌, not, ◌&&◌, select, if◌then◌else◌,
  is_some,
}
use forgeapi_homelab.Refusals.{Result, ok}
use forgeapi_homelab.Records.{Action, deploy, Operation, Resource, DriftStatus}
use forgeapi_homelab.Ledger.Rows.{is_check, is_deploy, is_destroy}
use forgeapi_homelab.Ledger.Accounting.{accounting_amount, is_destroyed}
use forgeapi_homelab.Ledger.Acceptance.{accepted_resource, stored_cost}
use forgeapi_homelab.Ledger.Release.{with_cost}
use forgeapi_homelab.Ledger.Progress.{succeeded_resource, drift_checked, is_succeeded, is_failed}
use forgeapi_homelab.Costs.{Replay, current}

abbrev pub amounts_of : Action → ℕ → ℕ → Option (ℕ × ℕ)
amounts_of deploy p q = some (p, q)
amounts_of _ p q = none

-- The row once the operation, as it is stored at last, has run its course: after a success the
-- operation's own definition, after a failed deploy the amount from before.
abbrev pub row_after : Operation → ℕ → DriftStatus → ℕ → Resource → Resource
row_after op p status now r =
    if is_succeeded op.state
    then succeeded_resource op (some r) status now
    else if is_failed op.state && is_deploy op.action
    then with_cost p r
    else r

-- How the ledger takes a resource's row (`none`: no row yet) through a list of operations: an
-- acceptance and what follows it, or a drift check. `p` is the amount that the ledger counted_now for
-- the row and stored with the operation, `q` the amount that the operation asked for.
pub data History : Option Resource → List Operation → Option Resource → Type 0 where
  unchanged : (row : Option Resource) → History row [] row
  checked :
      {r : Resource} {ops : List Operation} {last : Option Resource} (op : Operation) (done : Bool)
      (now : ℕ)
      → is_check op.action ≡ true
      → History (some (drift_checked op done now r)) ops last
      → History (some r) (op ∷ ops) last
  operated :
      {row : Option Resource} {ops : List Operation} {last : Option Resource} (op : Operation)
      (p q : ℕ) (status : DriftStatus) (now : ℕ)
      → is_check op.action ≡ false
      → accounting_amount (stored_cost row) ≡ ok p
      → accounting_amount op.resolved.estimated_monthly_cost ≡ ok q
      → (is_deploy op.action ≡ true → op.previous_estimated_monthly_cost ≡ some p)
      → (is_destroy op.action ≡ true → is_some row ≡ true)
      → History
          (some (row_after op p status now (accepted_resource row (amounts_of op.action p q) op)))
          ops
          last
      → History row (op ∷ ops) last

abbrev pub is_gone : Option Resource → Bool
is_gone none = false
is_gone (some r) = is_destroyed r.state

-- What the ledger counts for the row.
abbrev pub counted_now : Option Resource → Result ℕ
counted_now none = ok 0
counted_now (some r) = current r

pub record Tracks {Delta : Type 0} (s : Replay Delta) (row : Option Resource) : Type 0 where
  pub gone : s.destroyed ≡ is_gone row
  pub value_now : counted_now row ≡ ok s.last

module _ {Delta : Type 0} (float_sub : ℕ → ℕ → Delta) where
  -- The operations that `replay` reads.
  abbrev pub real : List Operation → List Operation
  real ops = select (λ op. not (is_check op.action)) ops
