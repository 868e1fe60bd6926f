-- ===== src/Requests/Gates.antt =====
-- What the approval of an app has passed (app/apps.py, `approve`).
use forgeapi_homelab.Prelude.{
  ℕ, String, true, Option, none, some, List, [], ◌∷◌, ◌≡◌, refl, ◌∙◌, ap, All, not, arith,
}
use forgeapi_homelab.Refusals.{ok}
use forgeapi_homelab.Records.{App, Operation}
use forgeapi_homelab.Tenants.{Caller, Environment}
use forgeapi_homelab.Config.{Config}
use forgeapi_homelab.Tx.{Tx, World, lift, gets, ◌>>=◌, ◌>>◌}
use forgeapi_homelab.Tx.Keeps.{Keeps, keeps_rules}
use forgeapi_homelab.Tx.Replies.{lift-returned, guard-returned, bind-returned, read-returned}
use forgeapi_homelab.Ledger.Rows.{find_op}
use forgeapi_homelab.Apps.{Snapshot, gate, op_ids}
use forgeapi_homelab.Policy.{
  Catalog, Change, held_operation, authorize, check_guardrails, guarded_environment,
}
use forgeapi_homelab.Requests.{held_op, guard_operation}
use forgeapi_homelab.Requests.Approval.{
  Authorized, IsPermitted, authorize-Keeps, authorize_held-Authorized, guard-IsPermitted,
}
use forgeapi_homelab.Requests.Apps.{
  approve, check_each, load_ops, snapshot, same_ids, named_ids, lacks_row,
}

-- One operation at the gate: the caller may change it, and the guardrails let its plan run.
pub record Checked (cfg : Config) (changes : Operation → List Change) (caller : Caller) (w : World)
    (id : ℕ) : Type 0 where
  pub stored : Operation
  pub found : find_op id w ≡ some stored
  pub authorized : Authorized w cfg.tenants caller (held_operation stored)
  pub permitted :
      (env : Environment)
      → guarded_environment cfg.tenants stored.resolved w ≡ some env
      → IsPermitted env stored.action (changes stored)

module _ (cfg : Config) (catalog : Catalog) (changes : Operation → List Change)
    (caller : Caller) where
  check_row :
      (id : ℕ) (row : Option Operation) (rest : Tx (Unit {0})) (w : World) (x : Unit {0})
      → find_op id w ≡ row
      → ((do
        authorize cfg catalog caller true (held_op row)
        guarded ← gets (guard_operation cfg catalog changes caller id row)
        lift guarded
        rest)
          w).0
        ≡ ok x
      → Checked cfg changes caller w id × ((rest w).0 ≡ ok x)
  unfolding ◌>>=◌ authorize check_guardrails
  check_row id none rest w x f e = cc
  check_row id (some stored) rest w x f e =
      let (u, a, g) =
        read-returned (authorize cfg catalog caller true (some (held_operation stored))) _ w x
          (authorize-Keeps cfg catalog caller true (some (held_operation stored))) e in
      let (y, b, h) =
        lift-returned (check_guardrails cfg stored.resolved stored.action (changes stored) w) _ w x
          g in
      (
        record {
          stored = stored;
          found = f;
          authorized =
              authorize_held-Authorized cfg.tenants catalog caller (held_operation stored) w u a;
          permitted = λ env q. guard-IsPermitted _ env stored.action (changes stored) y q b;
        },
        h,
      )

  check_each-Checked :
      (ids : List ℕ) (w : World) (x : Unit {0})
      → (check_each cfg catalog changes caller ids w).0 ≡ ok x
      → All (Checked cfg changes caller w) ids
  unfolding check_each ◌>>=◌
  check_each-Checked [] w x e = tt
  check_each-Checked (id ∷ ids) w x e =
      let (c, r) =
        check_row id (find_op id w) (check_each cfg catalog changes caller ids) w x refl e in
      (c, check_each-Checked ids w x r)

  load_ops-Keeps : {B : Type 0} {view : World → B} (app : App) → Keeps view (load_ops app)
  unfolding load_ops
  load_ops-Keeps app = search keeps_rules depth 6

  load_ops-returned :
      (app : App) (w : World) (ops : Snapshot) → (load_ops app w).0 ≡ ok ops → snapshot w ≡ ops
  unfolding load_ops ◌>>=◌
  load_ops-returned app w ops e =
      let (a, f) = guard-returned (lacks_row (op_ids app) w) _ _ w ops e in cc

  -- An approval of an app that returns named exactly the operations at the app's current gate; each
  -- of them is stored, the caller may change it where it is placed (without tenancy: submitted
  -- it), and the guardrails of its environment let its plan run.
  pub approve_safe :
      (app : App) (digests : List (ℕ × String)) (w : World) (ops : List Operation)
      → (approve cfg catalog changes caller app digests w).0 ≡ ok ops
      → (wanted : List ℕ) × (gate app (snapshot w) ≡ ok wanted)
        × (same_ids (named_ids digests) wanted ≡ true)
        × All (Checked cfg changes caller w) wanted
  unfolding approve ◌>>=◌
  approve_safe app digests w ops e =
      let (ops', l, f) = read-returned (load_ops app) _ w ops (load_ops-Keeps app) e in
      let (wanted, g, h) = lift-returned (gate app ops') _ w ops f in
      let (same, k) = guard-returned (not (same_ids (named_ids digests) wanted)) _ _ w ops h in
      let (x, c, r, v) = bind-returned (check_each cfg catalog changes caller wanted) _ w ops k in
      (
        wanted,
        ap (gate app) (load_ops-returned app w ops' l) ∙ g,
        ground (arith, same),
        check_each-Checked wanted w x c,
      )
