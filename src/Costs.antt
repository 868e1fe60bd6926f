-- ===== src/Costs.antt =====
-- Cost history (app/cost_history.py, `_current` and `replay`): a resource's reserved estimate,
-- rebuilt from its operations. The subtraction of two floats is a parameter.
pub mod History
use forgeapi_homelab.Prelude.{
  ℕ, Bool, true, false, Option, none, some, List, [], ◌∷◌, ◌++◌, ◌==◌, not, select, max, or_else,
  if◌then◌else◌,
}
use forgeapi_homelab.Records.{State, succeeded, failed, Operation, Resource}
use forgeapi_homelab.Refusals.{Result, ok, err}
use forgeapi_homelab.Ledger.Rows.{is_check, is_destroy}
use forgeapi_homelab.Ledger.Accounting.{accounting_amount, is_destroyed}
use forgeapi_homelab.Ledger.Progress.{is_succeeded, is_failed}

-- A chain of steps that may raise.
abbrev pub and_then : {A B : Type 0} → Result A → (A → Result B) → Result B
and_then (ok a) f = f a
and_then (err e) f = err e

unfoldable pub current : Resource → Result ℕ
current r =
    if is_destroyed r.state then ok 0 else accounting_amount r.resolved.estimated_monthly_cost

-- What `replay` keeps between operations; a step is its time and by how much the value moved.
pub record Replay (Delta : Type 0) : Type 0 where
  pub cost : ℕ
  pub destroyed : Bool
  pub last : ℕ
  pub steps : List (ℕ × Delta)

abbrev pub value : ℕ → Bool → ℕ
value cost true = 0
value cost false = cost

-- `op.get("previous_estimated_monthly_cost")`; the ledger writes nothing else there than an amount.
abbrev pub previous_cost : Operation → ℕ
previous_cost op = or_else op.previous_estimated_monthly_cost 0

-- The value before the first operation.
abbrev pub initial_cost : Operation → Result ℕ
initial_cost op =
    if is_destroy op.action
    then accounting_amount op.resolved.estimated_monthly_cost
    else ok (previous_cost op)

module _ {Delta : Type 0} (float_sub : ℕ → ℕ → Delta) where
  abbrev pub steps_to : ℕ → ℕ → ℕ → List (ℕ × Delta) → List (ℕ × Delta)
  steps_to at last now steps = if now == last then steps else steps ++ (at, float_sub now last) ∷ []

  -- `move(at, new_cost, new_destroyed)`.
  unfoldable pub move : ℕ → ℕ → Bool → Replay Delta → Replay Delta
  move at cost gone s = record {
    cost = cost;
    destroyed = gone;
    last = value cost gone;
    steps = steps_to at s.last (value cost gone) s.steps;
  }

  -- An accepted deploy reserves the larger amount at once.
  unfoldable pub reserve_step : Operation → ℕ → Replay Delta → Replay Delta
  unfolding move
  reserve_step op requested s =
      if is_destroy op.action
      then s
      else move op.created_at (max (previous_cost op) requested) s.destroyed s

  -- What the end of the operation does: a success keeps or releases, a failed deploy restores.
  unfoldable pub end_step : Operation → ℕ → Replay Delta → Replay Delta
  unfolding move
  end_step op requested s =
      if is_succeeded op.state
      then move op.updated_at requested (is_destroy op.action) s
      else if is_failed op.state
      then (if is_destroy op.action then s else move op.updated_at (previous_cost op) s.destroyed s)
      else s

  unfoldable pub replay_each : List Operation → Replay Delta → Result (Replay Delta)
  unfolding reserve_step end_step
  replay_each [] s = ok s
  replay_each (op ∷ ops) s =
      and_then (accounting_amount op.resolved.estimated_monthly_cost)
        λ requested. replay_each ops (end_step op requested (reserve_step op requested s))

  abbrev pub from_cost : ℕ → Replay Delta
  from_cost cost = record { cost = cost; destroyed = false; last = cost; steps = [] }

  -- The last step corrects to the stored row.
  unfoldable pub corrected : ℕ → ℕ → ℕ → Replay Delta → ℕ × List (ℕ × Delta)
  corrected initial target stop s = (initial, steps_to stop s.last target s.steps)

  unfoldable pub replay_real : List Operation → ℕ → ℕ → Result (ℕ × List (ℕ × Delta))
  unfolding replay_each corrected
  replay_real [] target stop = ok (target, [])
  replay_real (op ∷ ops) target stop = and_then (initial_cost op) λ initial.
      and_then (replay_each (op ∷ ops) (from_cost initial))
        λ s. ok (corrected initial target stop s)

  unfoldable pub replay : List Operation → Resource → ℕ → Result (ℕ × List (ℕ × Delta))
  unfolding select current replay_real
  replay ops r stop =
      and_then (current r)
        λ target. replay_real (select (λ op. not (is_check op.action)) ops) target stop
