-- ===== src/Requests/Approval.antt =====
-- What an approval has passed (app/main.py, `execute_operation`; app/policy.py).
use forgeapi_homelab.Prelude.{
  ℕ, String, Bool, true, false, Option, none, some, List, [], ◌∷◌, ◌≡◌, refl, All, not, any, eq_iff,
  arith, opt_str_eq, subst,
}
use forgeapi_homelab.Refusals.{ok, internal_error}
use forgeapi_homelab.Records.{Operation, Action}
use forgeapi_homelab.Tenants.{Caller, BusinessUnit, Environment, Placement, place, includes}
use forgeapi_homelab.Tenants.Access.{IsAllowed, place-allows}
use forgeapi_homelab.Config.{Config, TenantsSource, disabled, file, database}
use forgeapi_homelab.Tx.{World, present, transaction, gets, lift, ◌>>=◌, ◌>>◌, when, raise_if}
use forgeapi_homelab.Tx.Keeps.{Keeps, keeps_rules}
use forgeapi_homelab.Tx.Replies.{
  lift-returned, guard-returned, bind-returned, read-returned, transaction-committed,
}
use forgeapi_homelab.Ledger.Execution.{execute, execute_in, execute_found, raise_expired}
use forgeapi_homelab.Ledger.Rows.{find_op, is_destroy, load}
use forgeapi_homelab.Policy.{
  Catalog, Change, Held, held_operation, loaded, seen_by, authorize, authorize_held,
  authorize_change, refuse_new_work, check_guardrails, guard, guarded_environment, removes,
}
use forgeapi_homelab.Requests.{execute_operation, held_op, guard_operation}

-- A change in a configured unit: the caller is a member of the unit and may deploy the record's pattern
-- to its environment.
pub record MayChange (w : World) (source : TenantsSource) (caller : Caller) (r : Held)
    : Type 0 where
  pub unit : BusinessUnit
  pub environment : String
  pub placement : Placement
  pub found : loaded w source r.resolved.business_unit ≡ some unit
  pub member : includes unit caller ≡ true
  pub named : r.resolved.environment ≡ some environment
  pub allowed : IsAllowed caller unit environment r.resolved.pattern true placement

abbrev pub Authorized : World → TenantsSource → Caller → Held → Type 0
Authorized w disabled caller r = r.actor ≡ caller.id
Authorized w source caller r = MayChange w source caller r

placed_somewhere :
    (caller : Caller) (unit : BusinessUnit) (environment : Option String) (pattern : String)
    (p : Placement)
    → place caller unit environment pattern true ≡ ok p
    → (name : String) × (environment ≡ some name) × IsAllowed caller unit name pattern true p
unfolding place
placed_somewhere caller unit none pattern p e = ground (arith, e)
placed_somewhere caller unit (some name) pattern p e =
    (name, refl, place-allows caller unit name pattern true p e)

seen_by-member :
    (caller : Caller) (row : Option BusinessUnit) (unit : BusinessUnit)
    → seen_by caller row ≡ ok unit
    → (row ≡ some unit) × (includes unit caller ≡ true)
seen_by-member caller none unit e = cc
seen_by-member caller (some u) unit e = ground (arith, e)

-- The parts of `authorize` in a configured unit.
authorized_in :
    (source : TenantsSource) (catalog : Catalog) (caller : Caller) (r : Held) (w : World)
    (x : Unit {0})
    → ((do
      row ← gets (λ w. loaded w source r.resolved.business_unit)
      unit ← lift (seen_by caller row)
      when true (authorize_change source catalog caller unit r))
        w).0
      ≡ ok x
    → MayChange w source caller r
unfolding ◌>>=◌ authorize_change
authorized_in source catalog caller r w x e =
    let (unit, s, f) =
      lift-returned (seen_by caller (loaded w source r.resolved.business_unit)) _ w x e in
    let (p, g, h) =
      lift-returned (place caller unit r.resolved.environment r.resolved.pattern true) _ w x f in
    let (found, member) = seen_by-member caller _ unit s in
    let (name, named, allowed) =
      placed_somewhere caller unit r.resolved.environment r.resolved.pattern p g in
    record {
      unit = unit;
      environment = name;
      placement = p;
      found = found;
      member = member;
      named = named;
      allowed = allowed;
    }

pub authorize_held-Authorized :
    (source : TenantsSource) (catalog : Catalog) (caller : Caller) (r : Held) (w : World)
    (x : Unit {0})
    → (authorize_held source catalog caller true r w).0 ≡ ok x
    → Authorized w source caller r
unfolding authorize_held raise_if
authorize_held-Authorized disabled catalog caller r w x e =
    (eq_iff r.actor caller.id).0 (ground (arith, e))
authorize_held-Authorized (file units) catalog caller r w x e =
    authorized_in (file units) catalog caller r w x e
authorize_held-Authorized database catalog caller r w x e =
    authorized_in database catalog caller r w x e

-- What the guardrails of an environment let through.
pub record IsPermitted (env : Environment) (action : Action) (changes : List Change) : Type 0 where
  pub destroys : is_destroy action ≡ true → env.allow_destroy ≡ true
  pub keeps : All (λ c. removes env.protected_resource_types c ≡ false) changes

none_of :
    (protected : List String) (changes : List Change)
    → any (removes protected) changes ≡ false
    → All (λ c. removes protected c ≡ false) changes
unfolding any
none_of protected [] h = tt
none_of protected (c ∷ cs) h = (ground (arith, h), none_of protected cs (ground (arith, h)))

pub guard-IsPermitted :
    (found : Option Environment) (env : Environment) (action : Action) (changes : List Change)
    (x : Unit {0})
    → found ≡ some env
    → guard found action changes ≡ ok x
    → IsPermitted env action changes
guard-IsPermitted none env action changes x f e = cc
guard-IsPermitted (some y) env action changes x f e =
    let same : y ≡ env = cc in
    subst (λ z. IsPermitted z action changes) same
      (record {
        destroys = λ d. ground (arith, d, e);
        keeps = none_of y.protected_resource_types changes (ground (arith, e));
      })

module _ {B : Type 0} {view : World → B} where
  refuse_new_work-Keeps :
      (source : TenantsSource) (unit : BusinessUnit) (r : Held)
      → Keeps view (refuse_new_work source unit r)
  unfolding refuse_new_work
  refuse_new_work-Keeps disabled unit r = search keeps_rules
  refuse_new_work-Keeps (file units) unit r = search keeps_rules
  refuse_new_work-Keeps database unit r = search keeps_rules depth 6

  authorize_change-Keeps :
      (source : TenantsSource) (catalog : Catalog) (caller : Caller) (unit : BusinessUnit)
      (r : Held)
      → Keeps view (authorize_change source catalog caller unit r)
  unfolding authorize_change
  authorize_change-Keeps source catalog caller unit r =
      search (keeps_rules, refuse_new_work-Keeps) depth 9

  authorize_held-Keeps :
      (source : TenantsSource) (catalog : Catalog) (caller : Caller) (change : Bool) (r : Held)
      → Keeps view (authorize_held source catalog caller change r)
  unfolding authorize_held
  authorize_held-Keeps disabled catalog caller change r = search keeps_rules
  authorize_held-Keeps (file units) catalog caller change r =
      search (keeps_rules, authorize_change-Keeps) depth 8
  authorize_held-Keeps database catalog caller change r =
      search (keeps_rules, authorize_change-Keeps) depth 8

  pub authorize-Keeps :
      (cfg : Config) (catalog : Catalog) (caller : Caller) (change : Bool) (row : Option Held)
      → Keeps view (authorize cfg catalog caller change row)
  unfolding authorize
  authorize-Keeps cfg catalog caller change none = search keeps_rules
  authorize-Keeps cfg catalog caller change (some r) =
      authorize_held-Keeps cfg.tenants catalog caller change r

-- What an approval that went through was checked for.
pub record Approved (cfg : Config) (changes : Operation → List Change) (caller : Caller) (id : ℕ)
    (digest : String) (w : World) : Type 0 where
  pub stored : Operation
  pub found : find_op id w ≡ some stored
  pub reviewed : opt_str_eq stored.plan_digest (some digest) ≡ true
  pub authorized : Authorized w cfg.tenants caller (held_operation stored)
  pub permitted :
      (env : Environment)
      → guarded_environment cfg.tenants stored.resolved w ≡ some env
      → IsPermitted env stored.action (changes stored)

-- `_execute` goes on only with the digest of the stored plan.
reviewed_row :
    (cfg : Config) (row : Option Operation) (digest actor : String) (w : World) (stored : Operation)
    (a : Operation × Bool)
    → row ≡ some stored
    → ((lift (present row internal_error) >>= λ op. execute_found cfg digest actor op) w).0 ≡ ok a
    → opt_str_eq stored.plan_digest (some digest) ≡ true
unfolding execute_found ◌>>=◌
reviewed_row cfg none digest actor w stored a f e = cc
reviewed_row cfg (some op) digest actor w stored a f e =
    let (c, g) = guard-returned (not (opt_str_eq op.plan_digest (some digest))) _ _ w a e in
    let same : op ≡ stored = cc in
    subst (λ (o : Operation). opt_str_eq o.plan_digest (some digest) ≡ true) same
      (ground (arith, c))

execute-reviewed :
    (cfg : Config) (id : ℕ) (digest actor : String) (w : World) (stored op : Operation)
    → find_op id w ≡ some stored
    → (execute cfg id digest actor w).0 ≡ ok op
    → opt_str_eq stored.plan_digest (some digest) ≡ true
unfolding execute execute_in load ◌>>=◌
execute-reviewed cfg id digest actor w stored op f e =
    let (a, g, h, v) =
      bind-returned (transaction (execute_in cfg id digest actor)) raise_expired w op e in
    let (b, k) = transaction-committed (execute_in cfg id digest actor) w a g in
    reviewed_row cfg (find_op id w) digest actor w stored a f b

module _ (cfg : Config) (catalog : Catalog) (changes : Operation → List Change) (caller : Caller)
    (id : ℕ) (digest : String) where
  checked_row-Approved :
      (row : Option Operation) (w : World) (op : Operation)
      → find_op id w ≡ row
      → ((do
        authorize cfg catalog caller true (held_op row)
        guarded ← gets (guard_operation cfg catalog changes caller id row)
        lift guarded
        execute cfg id digest caller.id)
          w).0
        ≡ ok op
      → Approved cfg changes caller id digest w
  unfolding ◌>>=◌ authorize check_guardrails
  checked_row-Approved none w op f e = cc
  checked_row-Approved (some stored) w op f e =
      let (x, a, g) =
        read-returned (authorize cfg catalog caller true (some (held_operation stored))) _ w op
          (authorize-Keeps cfg catalog caller true (some (held_operation stored))) e in
      let (y, b, h) =
        lift-returned (check_guardrails cfg stored.resolved stored.action (changes stored) w) _ w op
          g in
      record {
        stored = stored;
        found = f;
        reviewed = execute-reviewed cfg id digest caller.id w stored op f h;
        authorized =
            authorize_held-Authorized cfg.tenants catalog caller (held_operation stored) w x a;
        permitted = λ env q. guard-IsPermitted _ env stored.action (changes stored) y q b;
      }

  -- An approval that returns was of a stored operation and named its digest; the caller is a member of
  -- the operation's unit and may deploy its pattern to its environment (without tenancy: submitted
  -- it), and a configured environment's guardrails let the plan run: a destroy is allowed there and no
  -- object of a protected type is deleted.
  pub execute_operation_safe :
      (w : World) (op : Operation)
      → (execute_operation cfg catalog changes caller id digest w).0 ≡ ok op
      → Approved cfg changes caller id digest w
  unfolding execute_operation ◌>>=◌
  execute_operation_safe w op e = checked_row-Approved (find_op id w) w op refl e
