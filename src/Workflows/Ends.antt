-- ===== src/Workflows/Ends.antt =====
-- How long a workflow loop can go on (app/operation_workflow.py).
use forgeapi_homelab.Prelude.{
  ℕ, suc, zero, ◌+◌, ◌-◌, ◌<◌, ◌≡◌, refl, ap, Bool, true, false, Option, none, some, ltb, leb,
  arith, if◌then◌else◌, Bool-cases, inl, inr,
}
use Prim.Native.Nat.{◌/◌}
use mathlib.Core.Bool.{false≢true}
use forgeapi_homelab.Rollout.{
  Check, superseded, rollout_ready, router_needed, replicas_needed, in_progress,
}
use forgeapi_homelab.Apps.{AppState, app_ready, app_failed, app_destroyed}
use forgeapi_homelab.Workflows.{
  Cycle, Acceptance, settled, retry, Next, ends, at_once, sleeps, Ending, ended_ready, ended_failed,
  ended_destroyed, rollout_cycle, rollout_next, rollout_acceptance, teardown_cycle, run, step,
  ending, pause, max_wait_seconds, timeout, rollout_ending, teardown_ending, teardown_next,
}

-- How many more pauses there are until the wait is over.
unfoldable pub pauses_left : ℕ → ℕ
pauses_left waited =
    if ltb waited 3600
    then (3600 - waited + 4) / 5 + 20040
    else (max_wait_seconds - waited + 29) / 30

pauses_left-pause :
    (waited : ℕ)
    → waited < max_wait_seconds
    → pauses_left (waited + pause waited) < pauses_left waited
unfolding pauses_left
pauses_left-pause waited h = ground arith

-- Whether the acceptance of this cycle went through, so that the loop looks again at once.
abbrev pub is_settled : Option Acceptance → Bool
is_settled (some settled) = true
is_settled _ = false

unfoldable pub settled_count : ℕ → (ℕ → Cycle) → ℕ → ℕ
settled_count zero cycles n = 0
settled_count (suc fuel) cycles n =
    (if is_settled (cycles n).acceptance then 1 else 0) + settled_count fuel cycles (suc n)

pub settled_count-none :
    (fuel : ℕ) (cycles : ℕ → Cycle) (n : ℕ)
    → ((m : ℕ) → is_settled (cycles m).acceptance ≡ false)
    → settled_count fuel cycles n ≡ 0
unfolding settled_count
settled_count-none zero cycles n h = refl
settled_count-none (suc fuel) cycles n h =
    ground (arith, h n, settled_count-none fuel cycles (suc n) h)

-- What a cycle may do: a sleep only while there is time left.
data Outcome (c : Cycle) (waited : ℕ) : Next → Type 0 where
  over : (e : Ending) → Outcome c waited (ends e)
  again : is_settled c.acceptance ≡ true → Outcome c waited at_once
  waits : waited < max_wait_seconds → Outcome c waited sleeps

timeout-Outcome :
    (c : Cycle) (recorded : Bool) (waited : ℕ)
    → recorded ≡ true
    → Outcome c waited (timeout recorded waited)
timeout-Outcome c true waited h = elim (Bool-cases (leb max_wait_seconds waited)) [
  | inl e ↦ rw e (over ended_failed)
  | inr e ↦ rw e (waits (ground arith))
]
timeout-Outcome c false waited h = absurd (false≢true h)

Outcome-if :
    (c : Cycle) (waited : ℕ) (b : Bool) (m n : Next)
    → Outcome c waited m
    → Outcome c waited n
    → Outcome c waited (if b then m else n)
Outcome-if c waited true m n p q = p
Outcome-if c waited false m n p q = q

acceptance-Outcome :
    (c : Cycle) (a : Option Acceptance) (waited : ℕ)
    → c.acceptance ≡ a
    → c.timeout_recorded ≡ true
    → Outcome c waited (rollout_acceptance c a waited)
acceptance-Outcome c none waited e h =
    Outcome-if c waited c.refusal_recorded _ _ (over ended_failed)
      (timeout-Outcome c c.timeout_recorded waited h)
acceptance-Outcome c (some settled) waited e h = again (ap is_settled e)
acceptance-Outcome c (some retry) waited e h = timeout-Outcome c c.timeout_recorded waited h

-- Each loop's cycle keeps to the outcomes, once its timeout can be recorded.
record IsTimed (cycle : Cycle → ℕ → Next) : Type 0 where
  outcome : (c : Cycle) (waited : ℕ) → c.timeout_recorded ≡ true → Outcome c waited (cycle c waited)

rollout_state-Outcome :
    (c : Cycle) (s : AppState) (waited : ℕ)
    → c.timeout_recorded ≡ true
    → Outcome c waited (rollout_ending (in_progress s) c.timeout_recorded waited)
rollout_state-Outcome c app_ready waited h = over ended_ready
rollout_state-Outcome c app_failed waited h = over ended_failed
rollout_state-Outcome c _ waited h = timeout-Outcome c c.timeout_recorded waited h

rollout_next-Outcome :
    (c : Cycle) (check : Option Check) (waited : ℕ)
    → c.timeout_recorded ≡ true
    → Outcome c waited (rollout_next c check waited)
rollout_next-Outcome c none waited h = timeout-Outcome c c.timeout_recorded waited h
rollout_next-Outcome c (some router_needed) waited h =
    acceptance-Outcome c c.acceptance waited refl h
rollout_next-Outcome c (some rollout_ready) waited h = over ended_ready
rollout_next-Outcome c (some superseded) waited h = over ended_ready
rollout_next-Outcome c (some replicas_needed) waited h =
    timeout-Outcome c c.timeout_recorded waited h
rollout_next-Outcome c (some (in_progress s)) waited h = rollout_state-Outcome c s waited h

rollout_cycle-IsTimed : IsTimed rollout_cycle
unfolding rollout_cycle
rollout_cycle-IsTimed = record { outcome = λ c waited h. rollout_next-Outcome c c.check waited h }

teardown_state-Outcome :
    (c : Cycle) (s : AppState) (waited : ℕ)
    → c.timeout_recorded ≡ true
    → Outcome c waited (teardown_ending (in_progress s) c.timeout_recorded waited)
teardown_state-Outcome c app_destroyed waited h = over ended_destroyed
teardown_state-Outcome c app_failed waited h = over ended_failed
teardown_state-Outcome c _ waited h = timeout-Outcome c c.timeout_recorded waited h

teardown_next-Outcome :
    (c : Cycle) (check : Option Check) (waited : ℕ)
    → c.timeout_recorded ≡ true
    → Outcome c waited (teardown_next c check waited)
teardown_next-Outcome c (some replicas_needed) waited h =
    acceptance-Outcome c c.acceptance waited refl h
teardown_next-Outcome c (some (in_progress s)) waited h = teardown_state-Outcome c s waited h
teardown_next-Outcome c _ waited h = timeout-Outcome c c.timeout_recorded waited h

teardown_cycle-IsTimed : IsTimed teardown_cycle
unfolding teardown_cycle
teardown_cycle-IsTimed = record { outcome = λ c waited h. teardown_next-Outcome c c.check waited h }

module _ (cycle : Cycle → ℕ → Next) where
  abbrev Ends : ℕ → (ℕ → Cycle) → ℕ → ℕ → Type 0
  Ends fuel cycles n waited = (e : Ending) × (run cycle fuel cycles n waited ≡ some e)

  resumed :
      (fuel n waited : ℕ) (cycles : ℕ → Cycle) (next : Next)
      → Outcome (cycles n) waited next
      → pauses_left waited + settled_count (suc fuel) cycles n < suc fuel
      → ((later : ℕ)
          → pauses_left later + settled_count fuel cycles (suc n) < fuel
          → Ends fuel cycles (suc n) later)
      → (e : Ending) × (elim (step cycle next waited) [
        | none ↦ ending cycle next
        | some later ↦ run cycle fuel cycles (suc n) later
      ]
          ≡ some e)
  unfolding settled_count
  resumed fuel n waited cycles next (over e) b ih = (e, refl)
  resumed fuel n waited cycles next (again s) b ih = ih waited (ground (arith, s))
  resumed fuel n waited cycles next (waits h) b ih =
      ih (waited + pause waited) (ground (arith, pauses_left-pause waited h))

  run-Ends :
      (fuel n waited : ℕ) (cycles : ℕ → Cycle)
      → IsTimed cycle
      → ((m : ℕ) → (cycles m).timeout_recorded ≡ true)
      → pauses_left waited + settled_count fuel cycles n < fuel
      → Ends fuel cycles n waited
  unfolding run
  run-Ends zero n waited cycles t h b = absurd (omega (arith, b))
  run-Ends (suc fuel) n waited cycles t h b =
      resumed fuel n waited cycles _ (t.outcome (cycles n) waited (h n)) b
        λ later c. run-Ends fuel (suc n) later cycles t h c

-- Both loops end. If the timeout's failure can be recorded, then from their start they end within
-- 20761 cycles and one more for each acceptance that went through, whatever else the activities
-- return.
pub workflows_end :
    (fuel : ℕ) (cycles : ℕ → Cycle)
    → ((m : ℕ) → (cycles m).timeout_recorded ≡ true)
    → 20760 + settled_count fuel cycles 0 < fuel
    → ((e : Ending) × (run rollout_cycle fuel cycles 0 0 ≡ some e))
      × ((e : Ending) × (run teardown_cycle fuel cycles 0 0 ≡ some e))
unfolding pauses_left
workflows_end fuel cycles h b = (
  run-Ends rollout_cycle fuel 0 0 cycles rollout_cycle-IsTimed h b,
  run-Ends teardown_cycle fuel 0 0 cycles teardown_cycle-IsTimed h b,
)
