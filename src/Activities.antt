-- ===== src/Activities.antt =====
-- The worker's activities (app/operation_activities.py). Terraform is outside code: what its
-- commands report for one run is an argument, and `raised` is any exception of theirs. The
-- sanitized `diagnostic` texts and the names of withheld outputs are stored and never read, and
-- are left out.
pub mod Checks
pub mod Runs
use forgeapi_homelab.Prelude.{
  ℕ, String, Bool, true, false, Option, none, some, List, [], ◌∷◌, ◌==◌, ◌&&◌, ◌||◌, not,
  opt_str_eq, if◌then◌else◌, any,
}
use forgeapi_homelab.Records.{
  State, planning, planned, applying, succeeded, failed, uncertain, Phase, Operation, Resource,
  Failure, reported,
}
use forgeapi_homelab.Refusals.{Result, ok, err, internal_error, not_found}
use forgeapi_homelab.Tx.{Tx, World, pure, raise, raise_if, gets, when, ◌>>=◌, ◌>>◌}
use forgeapi_homelab.Ledger.Rows.{state_eq, is_check, find_op, find_res, unlink_plan}
use forgeapi_homelab.Ledger.Progress.{Report, claim, finish, interrupted}

-- What `plan` and `show` report: the plan file's digest, the drift, the objects left once the plan
-- is applied, and whether the summary holds an identifier that must not be disclosed.
pub data PlanRun : Type 0 where
  plan_raised : PlanRun
  plan_made : Bool → String → List String → List String → PlanRun

-- How `apply` ends: the three refusals that Terraform makes before any change are told apart.
-- After a success `output` may still raise, or give the outputs that are kept.
pub data ApplyRun : Type 0 where
  stale_plan other_version state_locked apply_raised output_raised : ApplyRun
  applied : String → ApplyRun

-- What a refresh-only plan reports: its drift, whether that holds an identifier that must not be
-- disclosed, and the number of managed resources in the state it loaded.
pub data DriftRun : Type 0 where
  lock_held drift_raised : DriftRun
  drift_found : List String → Bool → ℕ → DriftRun

-- One run of the worker: whether `terraform.prepare` makes the work directory anew, which it does
-- where the directory does not hold the operation's source (and then drops the saved plan with it);
-- the digest of the plan file that is on disk when it starts; and what each command would report.
pub record TerraformRun : Type 0 where
  pub rebuilds : Bool
  pub saved_digest : String
  pub plan_run : PlanRun
  pub apply_run : ApplyRun
  pub drift_run : DriftRun

-- `try: m except Exception: handler`. What `m` committed stays.
abbrev pub handled : {A : Type 0} → Tx A → Result A × World → Result A × World
handled handler (ok a, w) = (ok a, w)
handled handler (err e, w) = handler w

unfoldable pub catch : {A : Type 0} → Tx A → Tx A → Tx A
catch m handler w = handled handler (m w)

abbrev pub no_report : Report
no_report = record {
  plan_digest = none;
  planned_objects = none;
  drift = none;
  outputs = none;
  error = none;
}

abbrev pub failure : String → Report
failure text = record no_report { error = some (reported text) }

abbrev pub still_in : State → Option Operation → Bool
still_in state none = false
still_in state (some stored) = state_eq stored.state state

unfoldable pub owns : Operation → World → Bool
owns op w = still_in op.state (find_op op.id w)

unfoldable pub fail : Operation → String → Tx (Unit {0})
unfolding owns unlink_plan finish
fail op text = do
  owned ← gets (owns op)
  when owned (unlink_plan op)
  finish op failed (failure text)

abbrev pub member : ℕ → List ℕ → Bool
member n ns = any (λ m. m == n) ns

-- `terraform plan -out=tfplan` leaves a plan file.
unfoldable pub write_plan : ℕ → Tx (Unit {0})
unfolding any
write_plan rid w =
    (ok tt, record w { plans = if member rid w.plans then w.plans else rid ∷ w.plans })

abbrev pub plan_report : String → List String → List String → Report
plan_report digest drift objects = record no_report {
  plan_digest = some digest;
  planned_objects = some objects;
  drift = some drift;
}

-- `terraform.prepare`, of which only the plan file in the work directory is modelled. Whether it
-- raises is part of what its caller's run reports.
unfoldable pub prepare : Operation → Bool → Tx (Unit {0})
unfolding when unlink_plan
prepare op rebuilds = when rebuilds (unlink_plan op)

unfoldable pub run_plan : Operation → Bool → PlanRun → Tx (Unit {0})
unfolding prepare write_plan finish
run_plan op rebuilds plan_raised = do prepare op rebuilds; raise internal_error
run_plan op rebuilds (plan_made discloses digest drift objects) = do
  prepare op rebuilds
  write_plan op.resource_id
  raise_if discloses internal_error
  finish op planned (plan_report digest drift objects)

-- `not plan_path(op).is_file() or digest(op) != op["plan_digest"]`.
unfoldable pub is_changed : Operation → String → World → Bool
unfolding any
is_changed op digest w =
    not (member op.resource_id w.plans) || not (opt_str_eq (some digest) op.plan_digest)

unfoldable pub apply_saved : Operation → ApplyRun → Tx (Unit {0})
unfolding fail unlink_plan finish
apply_saved op stale_plan = fail op "saved plan is stale; submit a new intent"
apply_saved op other_version =
    fail op "saved plan was made by a different Terraform version; submit a new intent"
apply_saved op state_locked =
    fail op "Terraform state is locked by another run; an operator must inspect the lock"
apply_saved op apply_raised = raise internal_error
apply_saved op output_raised = unlink_plan op >> raise internal_error
apply_saved op (applied outputs) = do
  unlink_plan op
  finish op succeeded (record no_report { outputs = some outputs })

abbrev pub apply_or_fail : Operation → ApplyRun → Bool → Tx (Unit {0})
apply_or_fail op run true = fail op "saved plan missing or changed; submit a new intent"
apply_or_fail op run false = apply_saved op run

-- No fallback planning: another plan than the approved one is never applied.
unfoldable pub run_apply : Operation → String → ApplyRun → Tx (Unit {0})
unfolding is_changed fail apply_saved
run_apply op digest run = do changed ← gets (is_changed op digest); apply_or_fail op run changed

unfoldable pub give_up : Operation → Tx (Unit {0})
unfolding fail finish
give_up op =
    if state_eq op.state applying
    then finish op uncertain (failure "execution outcome requires operator reconciliation")
    else fail op "Terraform planning failed; inspect command receipts and pattern configuration"

abbrev pub unavailable : String
unavailable =
    "Terraform state is not available on this worker; run the check where the resource was applied, or use remote state"

abbrev pub check_failed : String
check_failed = "Terraform drift check failed; inspect command receipts and pattern configuration"

-- A truthy `managed_objects`.
abbrev pub has_objects : Option (List String) → Bool
has_objects (some (o ∷ os)) = true
has_objects _ = false

abbrev pub is_empty {ℓ} : {A : Type ℓ} → List A → Bool
is_empty [] = true
is_empty (x ∷ xs) = false

-- The state and the report that a check ends with. A resource without a row raises.
abbrev pub drift_verdict : Option Resource → DriftRun → State × Report
drift_verdict row lock_held =
    (failed, failure "Terraform state is locked by another run; try the drift check again later")
drift_verdict row drift_raised = (failed, failure check_failed)
drift_verdict none (drift_found drift discloses state_resources) = (failed, failure check_failed)
drift_verdict (some r) (drift_found drift discloses state_resources) =
    if discloses
    then (failed, failure check_failed)
    else if has_objects r.managed_objects && (is_empty drift && (state_resources == 0))
    then (failed, failure unavailable)
    else (succeeded, record no_report { drift = some drift })

unfoldable pub run_drift_check : Operation → Bool → DriftRun → Tx (Unit {0})
unfolding prepare finish
run_drift_check op rebuilds run = do
  prepare op rebuilds
  row ← gets (find_res op.resource_id)
  finish op (drift_verdict row run).0 (drift_verdict row run).1

abbrev pub run_claimed : TerraformRun → Operation → Tx (Unit {0})
run_claimed run op =
    if is_check op.action
    then run_drift_check op run.rebuilds run.drift_run
    else if state_eq op.state planning
    then catch (run_plan op run.rebuilds run.plan_run) (give_up op)
    else catch (run_apply op run.saved_digest run.apply_run) (give_up op)

abbrev pub run_if_claimed : TerraformRun → Option Operation → Tx Bool
run_if_claimed run none = pure false
run_if_claimed run (some op) = run_claimed run op >> pure true

unfoldable pub run_operation_phase : TerraformRun → ℕ → Phase → Tx Bool
unfolding claim catch run_drift_check run_plan run_apply give_up
run_operation_phase run id phase = do op ← claim id phase; run_if_claimed run op

unfoldable pub mark_operation_uncertain : ℕ → Phase → Tx (Unit {0})
unfolding interrupted
mark_operation_uncertain id phase = interrupted id phase
