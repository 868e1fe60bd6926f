-- ===== src/Workflows.antt =====
-- The Temporal workflows that wait for an app (app/operation_workflow.py: `AppRolloutWorkflow`,
-- `AppTeardownWorkflow`). Temporal is outside code: what its activities
-- return in one cycle of a loop is an argument, and `none` stands for an `ActivityError`.
-- Starting the plan of a queued operation is a child workflow with an id of its own, and changes
-- nothing of the loop's state, so the loop's next step is modelled without it.
pub mod Ends
pub mod Phase
use forgeapi_homelab.Prelude.{
  ℕ, suc, zero, ◌+◌, ◌*◌, Bool, true, false, Option, none, some, List, [], ◌∷◌, ◌&&◌, ltb, leb,
  if◌then◌else◌,
}
use forgeapi_homelab.Apps.{AppState, app_ready, app_failed, app_destroyed, app_uncertain}
use forgeapi_homelab.Rollout.{
  Check, superseded, rollout_ready, router_needed, replicas_needed, in_progress,
}

abbrev pub poll_seconds : ℕ
poll_seconds = 5

abbrev pub slow_poll_seconds : ℕ
slow_poll_seconds = 30

abbrev pub slow_after_seconds : ℕ
slow_after_seconds = 3600

abbrev pub max_wait_seconds : ℕ
max_wait_seconds = 7 * 24 * 3600

-- `accept_app_router` and `accept_teardown_replica_destroys`: accepted (or refused, which fails the
-- app), or to be tried again.
pub data Acceptance : Type 0 where
  settled retry : Acceptance

-- What the activities of one cycle return; the failure writes tell whether they succeeded.
pub record Cycle : Type 0 where
  pub check : Option Check
  pub acceptance : Option Acceptance
  pub refusal_recorded : Bool
  pub timeout_recorded : Bool

pub data Ending : Type 0 where
  ended_ready ended_failed ended_destroyed : Ending

-- After a cycle: the workflow returns, looks again at once (`continue`), or sleeps.
pub data Next : Type 0 where
  ends : Ending → Next
  at_once : Next
  sleeps : Next

abbrev pub pause : ℕ → ℕ
pause waited = if ltb waited slow_after_seconds then poll_seconds else slow_poll_seconds

-- The end of a cycle that neither ended nor looks again.
abbrev pub timeout : Bool → ℕ → Next
timeout recorded waited =
    if leb max_wait_seconds waited && recorded then ends ended_failed else sleeps

abbrev pub rollout_ending : Check → Bool → ℕ → Next
rollout_ending rollout_ready recorded waited = ends ended_ready
rollout_ending superseded recorded waited = ends ended_ready
rollout_ending (in_progress app_ready) recorded waited = ends ended_ready
rollout_ending (in_progress app_failed) recorded waited = ends ended_failed
rollout_ending check recorded waited = timeout recorded waited

-- The router's acceptance: an error ends the workflow once the failure is recorded.
abbrev pub rollout_acceptance : Cycle → Option Acceptance → ℕ → Next
rollout_acceptance c none waited =
    if c.refusal_recorded then ends ended_failed else timeout c.timeout_recorded waited
rollout_acceptance c (some settled) waited = at_once
rollout_acceptance c (some retry) waited = timeout c.timeout_recorded waited

abbrev pub rollout_next : Cycle → Option Check → ℕ → Next
rollout_next c none waited = timeout c.timeout_recorded waited
rollout_next c (some router_needed) waited = rollout_acceptance c c.acceptance waited
rollout_next c (some check) waited = rollout_ending check c.timeout_recorded waited

-- One cycle of `AppRolloutWorkflow.run`.
unfoldable pub rollout_cycle : Cycle → ℕ → Next
rollout_cycle c waited = rollout_next c c.check waited

abbrev pub teardown_ending : Check → Bool → ℕ → Next
teardown_ending (in_progress app_destroyed) recorded waited = ends ended_destroyed
teardown_ending (in_progress app_failed) recorded waited = ends ended_failed
teardown_ending check recorded waited = timeout recorded waited

abbrev pub teardown_next : Cycle → Option Check → ℕ → Next
teardown_next c none waited = timeout c.timeout_recorded waited
teardown_next c (some replicas_needed) waited = rollout_acceptance c c.acceptance waited
teardown_next c (some check) waited = teardown_ending check c.timeout_recorded waited

-- One cycle of `AppTeardownWorkflow.run`, with its patch `teardown-poll-uncertain`.
unfoldable pub teardown_cycle : Cycle → ℕ → Next
teardown_cycle c waited = teardown_next c c.check waited

-- The loop, on fuel: `cycles n` is what the activities return in the n-th cycle. `continue_as_new`
-- goes on with the same `waited`.
module _ (cycle : Cycle → ℕ → Next) where
  abbrev pub step : Next → ℕ → Option ℕ
  step (ends e) waited = none
  step at_once waited = some waited
  step sleeps waited = some (waited + pause waited)

  abbrev pub ending : Next → Option Ending
  ending (ends e) = some e
  ending _ = none

  unfoldable pub run : ℕ → (ℕ → Cycle) → ℕ → ℕ → Option Ending
  run zero cycles n waited = none
  run (suc fuel) cycles n waited = elim (step (cycle (cycles n) waited) waited) [
    | none ↦ ending (cycle (cycles n) waited)
    | some later ↦ run fuel cycles (suc n) later
  ]
