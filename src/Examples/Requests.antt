-- ===== src/Examples/Requests.antt =====
-- Requests on the operation of a small deployment.
use forgeapi_homelab.Prelude.{ℕ, String, ◌≡◌, refl, true, none, some, List, [], ◌∷◌, any, all, All}
use forgeapi_homelab.Refusals.{ok}
use forgeapi_homelab.Records.{Operation, Resolved, planned, apply_queued}
use forgeapi_homelab.Tenants.{Environment, BusinessUnit}
use forgeapi_homelab.Config.{Config, file}
use forgeapi_homelab.Tx.{World, ◌>>=◌}
use forgeapi_homelab.Tables.{find, update}
use forgeapi_homelab.Policy.{Catalog, Change}
use forgeapi_homelab.Ledger.Execution.{queue_apply}
use forgeapi_homelab.Apps.{
  gate, derive_state, derive_rollout_state, current_router, last_unfailed, op_ids,
}
use forgeapi_homelab.Requests.{execute_operation}
use forgeapi_homelab.Requests.Apps.{approve, load_ops, same_ids, named_ids, snapshot, check_each}
use forgeapi_homelab.Requests.Gates.{Checked, approve_safe}
use forgeapi_homelab.Requests.Approval.{Approved, execute_operation_safe}
use forgeapi_homelab.Examples.{settings, network, fresh, row, web_team, test_environment, ada, shop}

abbrev guarded_place : Environment
guarded_place = record test_environment { protected_resource_types = "database" ∷ [] }

abbrev guarded_team : BusinessUnit
guarded_team = record web_team {
  spec = record (web_team.spec) { environments = guarded_place ∷ [] };
}

abbrev tenancy : Config
tenancy = record settings { tenants = file (guarded_team ∷ []) }

abbrev patterns : Catalog
patterns = record { cloud_of = λ n. some none; operators = [] }

abbrev placed : Resolved
placed = record network { business_unit = some "web"; environment = some "test" }

abbrev reviewed_row : Operation
reviewed_row = record (row planned) {
  resolved = placed;
  planned_at = some 100;
  plan_digest = some "d1";
}

abbrev reviewed : World
reviewed = record fresh { db = record (fresh.db) { operations = reviewed_row ∷ [] } }

abbrev adds_network : Operation → List Change
adds_network op =
    record { address = "net"; resource_type = "network"; actions = "create" ∷ [] } ∷ []

abbrev network_op : ℕ
network_op = 1

approved_reply :
    (execute_operation tenancy patterns adds_network ada network_op "d1" reviewed).0
    ≡ ok (record reviewed_row { state = apply_queued })
unfolding execute_operation queue_apply find update any ◌>>=◌
approved_reply = refl

approved : Approved tenancy adds_network ada network_op "d1" reviewed
approved =
    execute_operation_safe tenancy patterns adds_network ada network_op "d1" reviewed
      (record reviewed_row { state = apply_queued }) approved_reply

-- An app of two replicas, both planned.
abbrev replica : ℕ → ℕ → String → Operation
replica id rid digest = record (row planned) {
  id = id;
  resource_id = rid;
  planned_at = some 100;
  plan_digest = some digest;
}

abbrev at_gate : World
at_gate = record fresh {
  db = record (fresh.db) { operations = replica 1 0 "d1" ∷ replica 3 2 "d3" ∷ [] };
}

abbrev both : List (ℕ × String)
both = (3, "d3") ∷ (1, "d1") ∷ []

abbrev queued_both : List Operation
queued_both =
    record (replica 1 0 "d1") { state = apply_queued }
    ∷ record (replica 3 2 "d3") { state = apply_queued }
    ∷ []

shop_reply : (approve settings patterns adds_network ada shop both at_gate).0 ≡ ok queued_both
unfolding approve queue_apply load_ops gate derive_state derive_rollout_state current_router op_ids
    same_ids check_each last_unfailed find update any all ◌>>=◌
shop_reply = refl

shop_checked :
    (wanted : List ℕ) × (gate shop (snapshot at_gate) ≡ ok wanted)
    × (same_ids (named_ids both) wanted ≡ true)
    × All (Checked settings adds_network ada at_gate) wanted
shop_checked =
    approve_safe settings patterns adds_network ada shop both at_gate queued_both shop_reply
