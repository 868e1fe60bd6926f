-- ===== src/Ledger/Rows.antt =====
-- The rows that every method of app/ledger.py reads and writes: lookups by id, `_save`, and the
-- UUIDs it draws.
use forgeapi_homelab.Prelude.{
  ℕ, suc, Bool, true, false, Option, List, [], ◌∷◌, ◌++◌, ◌==◌, if◌then◌else◌,
}
use forgeapi_homelab.Records.{
  State, queued, planning, planned, apply_queued, applying, succeeded, failed, uncertain, Action,
  deploy, destroy, drift_check, Phase, plan, apply, Operation, Resource,
}
use forgeapi_homelab.Refusals.{ok, internal_error}
use forgeapi_homelab.Tables.{find, update, upsert}
use forgeapi_homelab.Config.{Config}
use forgeapi_homelab.Tx.{Tx, World, present}

abbrev pub op_key : Operation → ℕ
op_key o = o.id

abbrev pub res_key : Resource → ℕ
res_key r = r.id

-- `state NOT IN ('succeeded', 'failed')`: the operation holds its resource.
abbrev pub is_active : State → Bool
is_active succeeded = false
is_active failed = false
is_active _ = true

-- `state in {"apply_queued", "applying", "succeeded"}`.
abbrev pub is_executing : State → Bool
is_executing apply_queued = true
is_executing applying = true
is_executing succeeded = true
is_executing _ = false

abbrev pub is_planned : State → Bool
is_planned planned = true
is_planned _ = false

abbrev pub is_uncertain : State → Bool
is_uncertain uncertain = true
is_uncertain _ = false

abbrev pub state_eq : State → State → Bool
state_eq queued queued = true
state_eq planning planning = true
state_eq planned planned = true
state_eq apply_queued apply_queued = true
state_eq applying applying = true
state_eq succeeded succeeded = true
state_eq failed failed = true
state_eq uncertain uncertain = true
state_eq _ _ = false

-- `action not in ("destroy", "drift_check")`.
abbrev pub is_deploy : Action → Bool
is_deploy deploy = true
is_deploy _ = false

abbrev pub is_destroy : Action → Bool
is_destroy destroy = true
is_destroy _ = false

abbrev pub is_check : Action → Bool
is_check drift_check = true
is_check _ = false

abbrev pub phase_states : Phase → State × State
phase_states plan = (queued, planning)
phase_states apply = (apply_queued, applying)

abbrev pub find_op : ℕ → World → Option Operation
find_op id w = find op_key id w.db.operations

abbrev pub find_res : ℕ → World → Option Resource
find_res id w = find res_key id w.db.resources

-- `SELECT body FROM operations WHERE id=?`; a missing row is a `TypeError`.
unfoldable pub load : ℕ → Tx Operation
load id w = (present (find_op id w) internal_error, w)

-- `_save(con, op)` also stamps the operation that the caller holds, so it is returned.
abbrev pub stamped : ℕ → Operation → Operation
stamped now op = record op { updated_at = now }

unfoldable pub save : Operation → Tx Operation
save op w =
    let op' = stamped w.clock op in
    (ok op', record w { db = record w.db { operations = update op_key op' w.db.operations } })

unfoldable pub insert_op : Operation → Tx (Unit {0})
insert_op op w = (ok tt, record w { db = record w.db { operations = w.db.operations ++ op ∷ [] } })

-- `UPDATE resources SET body=? WHERE id=?`.
unfoldable pub write_resource : Resource → Tx (Unit {0})
write_resource r w =
    (ok tt, record w { db = record w.db { resources = update res_key r w.db.resources } })

-- `INSERT OR REPLACE INTO resources`.
unfoldable pub put_resource : Resource → Tx (Unit {0})
put_resource r w =
    (ok tt, record w { db = record w.db { resources = upsert res_key r w.db.resources } })

unfoldable pub without : ℕ → List ℕ → List ℕ
without n [] = []
without n (x ∷ xs) = let rest = without n xs in if x == n then rest else x ∷ rest

-- `_unlink_plan(op)`: the file goes, and a missing one is no error. A rollback does not restore it.
unfoldable pub unlink_plan : Operation → Tx (Unit {0})
unfolding without
unlink_plan op w = (ok tt, record w { plans = without op.resource_id w.plans })

-- `uuid.uuid4().hex`.
unfoldable pub uuid4 : Config → Tx ℕ
uuid4 cfg w = (ok (cfg.uuid w.drawn), record w { drawn = suc w.drawn })
