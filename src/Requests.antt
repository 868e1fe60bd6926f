-- ===== src/Requests.antt =====
-- What a caller's requests on an operation go through (app/main.py: `execute_operation`,
-- `discard_operation`, `reconcile_operation`; app/drift.py: `accept`). The replies are the stored
-- rows; HTTP and the dispatch to Temporal are outside. A request's reads and its write are separate
-- transactions of the source; here no other call comes between them.
pub mod Approval
pub mod Apps
pub mod Gates
use forgeapi_homelab.Prelude.{ℕ, String, Bool, true, false, Option, none, some, List}
use forgeapi_homelab.Records.{Operation, Resource, Outcome}
use forgeapi_homelab.Tenants.{Caller}
use forgeapi_homelab.Config.{Config}
use forgeapi_homelab.Tx.{Tx, World, pure, raise, lift, gets, ◌>>=◌, ◌>>◌}
use forgeapi_homelab.Refusals.{Result, ok, err, not_found}
use forgeapi_homelab.Ledger.Rows.{find_op, find_res}
use forgeapi_homelab.Ledger.Acceptance.{accept, replay}
use forgeapi_homelab.Ledger.Execution.{execute}
use forgeapi_homelab.Ledger.Release.{discard}
use forgeapi_homelab.Ledger.Progress.{reconcile}
use forgeapi_homelab.Policy.{
  Catalog, Change, held_operation, held_resource, Held, authorize, authorize_reconcile,
  check_guardrails,
}
use forgeapi_homelab.Drift.{Texts, intent, resolved}

abbrev pub held_op : Option Operation → Option Held
held_op none = none
held_op (some op) = some (held_operation op)

abbrev pub held_res : Option Resource → Option Held
held_res none = none
held_res (some r) = some (held_resource r)

-- `changes` is what the plan's summary lists in the row's body; the ledger only copies it.
module _ (cfg : Config) (catalog : Catalog) (changes : Operation → List Change) (caller : Caller)
    (id : ℕ) where
  abbrev pub guard_operation : Option Operation → World → Result (Unit {0})
  guard_operation none w = err not_found
  guard_operation (some op) w = check_guardrails cfg op.resolved op.action (changes op) w

  unfoldable pub execute_operation : String → Tx Operation
  unfolding authorize check_guardrails execute
  execute_operation digest = do
    row ← gets (find_op id)
    authorize cfg catalog caller true (held_op row)
    guarded ← gets (guard_operation row)
    lift guarded
    execute cfg id digest caller.id

  unfoldable pub discard_operation : Tx Operation
  unfolding authorize discard
  discard_operation = do
    row ← gets (find_op id)
    authorize cfg catalog caller true (held_op row)
    discard id caller.id

  unfoldable pub reconcile_operation : Outcome → String → Tx Operation
  unfolding authorize_reconcile reconcile
  reconcile_operation outcome reason = do
    row ← gets (find_op id)
    authorize_reconcile cfg catalog caller (held_op row)
    reconcile id caller.id outcome reason

-- `accept` of app/drift.py: a caller's check of a resource.
module _ (cfg : Config) (catalog : Catalog) (texts : Texts) (caller : Caller) (key : String) where
  abbrev pub check_resource : Option Resource → Tx Operation
  check_resource none = raise not_found
  check_resource (some r) = do
    authorize cfg catalog caller true (some (held_resource r))
    accept cfg caller.id key (intent texts r.id) (resolved r) none none

  abbrev pub check_again : ℕ → Option Operation → Tx Operation
  check_again rid (some op) = do
    authorize cfg catalog caller false (some (held_operation op))
    pure op
  check_again rid none = do row ← gets (find_res rid); check_resource row

  unfoldable pub check_drift : ℕ → Tx Operation
  unfolding replay authorize resolved accept
  check_drift rid = do
    existing ← replay cfg caller.id key (texts.body rid)
    check_again rid existing
