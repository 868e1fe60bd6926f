-- ===== src/Drift.antt =====
-- The drift sweep (app/drift.py): system checks of ready resources that were not checked lately.
use Prim.Native.Nat.{◌/◌}
use forgeapi_homelab.Prelude.{
  ℕ, ◌-◌, ◌*◌, String, Bool, true, false, Option, none, some, List, [], ◌∷◌, ◌==◌, ◌||◌, leb,
  length, is_some, min, if◌then◌else◌,
}
use forgeapi_homelab.Records.{drift_check, Operation, Resource, Resolved, missing}
use forgeapi_homelab.Refusals.{Refusal, Result, ok, err, tenancy_error, internal_error}
use forgeapi_homelab.Tenants.{BusinessUnit, environment_named}
use forgeapi_homelab.Config.{Config, TenantsSource, disabled}
use forgeapi_homelab.Tx.{Tx, World, pure, raise, gets, ◌>>=◌, ◌>>◌, refused}
use forgeapi_homelab.Ledger.Acceptance.{Intent, accept}
use forgeapi_homelab.Ledger.Placement.{unit_now}
use forgeapi_homelab.Policy.{loaded}
use forgeapi_homelab.Ledger.Queries.{
  drift_candidates, queued_operations, outstanding_count, stamp_drift_refusal,
}

abbrev pub system_actor : String
system_actor = "system:drift-sweep"

abbrev pub batch : ℕ
batch = 20

abbrev pub backlog_sleep : ℕ
backlog_sleep = 60

-- Outside of the ledger: the canonical JSON text of a check of a resource, and the text of the key
-- `drift-sweep:<id>:<bucket>`.
pub record Texts : Type 0 where
  pub body : ℕ → String
  pub key : ℕ → ℕ → String

abbrev pub intent : Texts → ℕ → Intent
intent texts id = record { action = drift_check; resource_id = some id; body = texts.body id }

-- What the last success ran with; no labels, references or cost.
unfoldable pub resolved : Resource → Resolved
resolved r = record r.resolved {
  previous_operation_id = some r.operation_id;
  labels = [];
  input_refs = [];
  estimated_monthly_cost = missing;
  promoted_from = none;
  team_revision = none;
}

abbrev pub lost_placement : Tx Operation
lost_placement = raise (tenancy_error 403)

abbrev pub is_placed : Option String → Option BusinessUnit → Bool
is_placed environment none = false
is_placed none (some unit) = false
is_placed (some name) (some unit) = is_some (environment_named name unit.spec.environments)

-- Without tenancy every resource is placed.
abbrev pub placeable : TenantsSource → Resource → World → Bool
placeable disabled r w = true
placeable source r w = is_placed r.resolved.environment (loaded w source r.resolved.business_unit)

abbrev pub accept_placed : Config → Texts → Resource → String → Bool → Tx Operation
accept_placed cfg texts r key false = lost_placement
accept_placed cfg texts r key true =
    accept cfg system_actor key (intent texts r.id) (resolved r) none none

unfoldable pub accept_system : Config → Texts → Resource → String → Tx Operation
unfolding resolved unit_now environment_named accept
accept_system cfg texts r key = do
  placed ← gets (placeable cfg.tenants r)
  accept_placed cfg texts r key placed

abbrev pub refusal_text : Refusal → String
refusal_text (tenancy_error status) = "resource's placement is no longer configured"
refusal_text _ = "resource is busy or not placeable"

abbrev pub is_tenancy : Refusal → Bool
is_tenancy (tenancy_error status) = true
is_tenancy _ = false

-- A refusal is stamped on the resource, so that it is not tried again in this interval.
abbrev pub stamp_refusal : ℕ → Refusal → Tx (Unit {0})
stamp_refusal id internal_error = raise internal_error
stamp_refusal id e =
    refused system_actor "drift_check" >> stamp_drift_refusal id (refusal_text e) (is_tenancy e)

abbrev pub stamp_if_refused : ℕ → Result Operation × World → Result (Unit {0}) × World
stamp_if_refused id (ok op, w) = (ok tt, w)
stamp_if_refused id (err e, w) = stamp_refusal id e w

unfoldable pub sweep_one : Config → Texts → ℕ → Resource → Tx (Unit {0})
unfolding accept_system refused stamp_drift_refusal
sweep_one cfg texts bucket r w =
    stamp_if_refused r.id (accept_system cfg texts r (texts.key r.id bucket) w)

unfoldable pub sweep_each : Config → Texts → ℕ → List Resource → Tx (Unit {0})
unfolding sweep_one
sweep_each cfg texts bucket [] = pure tt
sweep_each cfg texts bucket (r ∷ rs) = do
  sweep_one cfg texts bucket r
  sweep_each cfg texts bucket rs

pub record Sweep : Type 0 where
  pub enabled : Bool
  pub operations : List ℕ
  pub sleep_seconds : ℕ

abbrev pub due : ℕ → ℕ → World → List Resource
due interval allowed w =
    if allowed == 0 then [] else drift_candidates (w.clock - interval) allowed w

abbrev pub sleep : ℕ → ℕ → ℕ → ℕ → ℕ
sleep interval outstanding candidates allowed =
    if leb batch outstanding || candidates == allowed then min interval backlog_sleep else interval

-- One cycle, with `bucket = int(time.time() // interval)` in the keys.
unfoldable pub sweep_drift : Config → Texts → ℕ → Tx Sweep
unfolding outstanding_count drift_candidates sweep_each queued_operations
sweep_drift cfg texts minutes =
    if minutes == 0
    then pure (record { enabled = false; operations = []; sleep_seconds = 0 })
    else (do
      let interval = minutes * 60
      outstanding ← gets (outstanding_count system_actor drift_check)
      let allowed = batch - outstanding
      candidates ← gets (due interval allowed)
      now ← gets (λ w. w.clock)
      sweep_each cfg texts (now / interval) candidates
      queued ← gets (queued_operations system_actor drift_check)
      pure (record {
        enabled = true;
        operations = queued;
        sleep_seconds = sleep interval outstanding (length candidates) allowed;
      }))
