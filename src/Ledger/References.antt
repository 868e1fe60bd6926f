-- ===== src/Ledger/References.antt =====
-- Input references between resources (app/ledger.py, `reference_error` and `_referenced`).
use forgeapi_homelab.Prelude.{
  ℕ, String, Bool, true, false, Option, none, some, List, [], ◌∷◌, ◌==◌, ◌&&◌, not, any,
  if◌then◌else◌,
}
use forgeapi_homelab.Records.{Operation, Resource, ResourceState, ready, Db, InputRef}
use forgeapi_homelab.Refusals.{reference_not_ready}
use forgeapi_homelab.Tables.{find}
use forgeapi_homelab.Tx.{Tx, pure, raise, gets, ◌>>=◌, ◌>>◌}
use forgeapi_homelab.Ledger.Rows.{op_key, res_key, is_active, is_destroy}

abbrev pub is_ready : Option ResourceState → Bool
is_ready (some ready) = true
is_ready _ = false

abbrev pub destroying : Option Operation → Bool
destroying none = false
destroying (some latest) = is_destroy latest.action && is_active latest.state

abbrev pub source_error : Db → Option Resource → Option String
source_error db none = some "referenced resource is not ready"
source_error db (some source) =
    if not (is_ready source.state)
    then some "referenced resource is not ready"
    else if destroying (find op_key source.operation_id db.operations)
    then some "referenced resource is being destroyed"
    else none

unfoldable pub reference_error : Db → ℕ → Option String
reference_error db id = source_error db (find res_key id db.resources)

unfoldable pub refers_to : ℕ → Resource → Bool
unfolding any
refers_to id r =
    not (r.id == id) && is_ready r.state && any (λ ref. ref.resource_id == id) r.resolved.input_refs

unfoldable pub referenced : ℕ → List Resource → Bool
unfolding any refers_to
referenced id resources = any (refers_to id) resources

abbrev pub refuse_reference : Option String → Tx (Unit {0})
refuse_reference none = pure tt
refuse_reference (some problem) = raise (reference_not_ready problem)

-- The loop over `input_refs`: the first reference with a problem refuses.
unfoldable pub check_references : List InputRef → Tx (Unit {0})
unfolding reference_error
check_references [] = pure tt
check_references (ref ∷ refs) = do
  problem ← gets (λ w. reference_error w.db ref.resource_id)
  refuse_reference problem
  check_references refs
