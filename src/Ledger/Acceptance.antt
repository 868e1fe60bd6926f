-- ===== src/Ledger/Acceptance.antt =====
-- Accepting one intent (app/ledger.py: `_replay`, `replay`, `_accept`, `accept`).
use forgeapi_homelab.Prelude.{
  ℕ, String, Bool, false, Option, none, some, List, [], ◌∷◌, ◌==◌, ◌&&◌, not, str_eq, ltb, max,
  opt_eq, nat_eq, if◌then◌else◌,
}
use forgeapi_homelab.Records.{
  Action, Operation, Resource, Resolved, Money, missing, queued, operation, accepted,
  operation_create,
}
use forgeapi_homelab.Refusals.{
  idempotency_key_reused, resource_busy, resource_changed, resource_not_ready, budget_exceeded,
  resource_referenced, internal_error,
}
use forgeapi_homelab.Config.{Config}
use forgeapi_homelab.Tx.{
  Tx, pure, raise, lift, gets, ◌>>=◌, ◌>>◌, when, raise_if, event, transaction,
}
use forgeapi_homelab.Ledger.Rows.{
  is_active, is_deploy, is_destroy, is_check, find_res, insert_op, put_resource, unlink_plan, uuid4,
}
use forgeapi_homelab.Ledger.Accounting.{accounting_amount, reserved_in, total_with}
use forgeapi_homelab.Ledger.References.{is_ready, referenced, check_references}
use forgeapi_homelab.Ledger.Release.{with_cost, is_expired, expire}
use forgeapi_homelab.Ledger.Placement.{check_placement}

-- A request as the ledger sees it: `body` is its canonical JSON text.
pub record Intent : Type 0 where
  pub action : Action
  pub resource_id : Option ℕ
  pub body : String

pub record Budget : Type 0 where
  pub legacy_committed : Money
  pub limit : ℕ

abbrev pub is_keyed : String → String → Operation → Bool
is_keyed actor key op = str_eq op.actor actor && str_eq op.request_key key

unfoldable pub find_keyed : String → String → List Operation → Option Operation
find_keyed actor key [] = none
find_keyed actor key (o ∷ os) = if is_keyed actor key o then some o else find_keyed actor key os

abbrev pub same_intent : String → Option Operation → Tx (Option Operation)
same_intent digest none = pure none
same_intent digest (some op) =
    if str_eq op.fingerprint digest then pure (some op) else raise idempotency_key_reused

unfoldable pub replay_row : String → String → String → Tx (Option Operation)
unfolding find_keyed
replay_row actor key digest = do
  row ← gets (λ w. find_keyed actor key w.db.operations)
  same_intent digest row

-- `replay(actor, key, body)`: a read-only transaction.
unfoldable pub replay : Config → String → String → String → Tx (Option Operation)
unfolding replay_row transaction
replay cfg actor key body = transaction (replay_row actor key (cfg.fingerprint body))

-- The operation that holds the resource: `WHERE resource_id=? AND state NOT IN (…)`.
abbrev pub holds : ℕ → Operation → Bool
holds rid o = o.resource_id == rid && is_active o.state

unfoldable pub find_busy : ℕ → List Operation → Option Operation
find_busy rid [] = none
find_busy rid (o ∷ os) = if holds rid o then some o else find_busy rid os

abbrev pub clear : Config → String → Option Operation → Tx (Option Operation)
clear cfg actor none = pure none
clear cfg actor (some blocker) = do
  now ← gets (λ w. w.clock)
  raise_if (not (is_expired cfg now blocker)) (resource_busy blocker.id)
  expired ← expire blocker actor false
  pure (some expired)

-- A blocker whose plan expired is failed; any other refuses the request.
unfoldable pub clear_blocker : Config → String → ℕ → Tx (Option Operation)
unfolding find_busy is_expired
clear_blocker cfg actor rid = do
  busy ← gets (λ w. find_busy rid w.db.operations)
  clear cfg actor busy

abbrev pub target_resource : Config → Option ℕ → Tx ℕ
target_resource cfg none = uuid4 cfg
target_resource cfg (some rid) = pure rid

abbrev pub changed : Option Resource → Option ℕ → Bool
changed none expected = false
changed (some r) expected = not (opt_eq nat_eq (some r.operation_id) expected)

abbrev pub checkable : Option Resource → Bool
checkable none = false
checkable (some r) = is_ready r.state

abbrev pub stored_cost : Option Resource → Money
stored_cost none = missing
stored_cost (some r) = r.resolved.estimated_monthly_cost

-- The previous and the requested amount; a destroy and a drift check read neither.
unfoldable pub costs : Action → Option Resource → Resolved → Tx (Option (ℕ × ℕ))
costs action previous resolved =
    if is_deploy action
    then (do
      p ← lift (accounting_amount (stored_cost previous))
      r ← lift (accounting_amount resolved.estimated_monthly_cost)
      pure (some (p, r)))
    else pure none

-- What the deploy adds to what is reserved already: the larger of the two amounts, since the old
-- deployment stands until the new one succeeds.
abbrev pub within_limit : Config → ℕ → Budget → ℕ → ℕ → Tx (Unit {0})
within_limit cfg used b legacy reservation = do
  total ← lift (total_with cfg used legacy reservation)
  raise_if (ltb b.limit total) budget_exceeded

abbrev pub budgeted : Config → Resolved → ℕ → Option Budget → Option (ℕ × ℕ) → Tx (Unit {0})
budgeted cfg resolved rid none amounts = pure tt
budgeted cfg resolved rid (some b) none = raise internal_error
budgeted cfg resolved rid (some b) (some (p, r)) = do
  reserved ←
      gets
        (λ w. reserved_in cfg resolved.business_unit resolved.environment (some rid) w.db.resources)
  used ← lift reserved
  legacy ← lift (accounting_amount b.legacy_committed)
  within_limit cfg used b legacy (max p r)

unfoldable pub check_budget : Config → Resolved → ℕ → Option Budget → Option (ℕ × ℕ) → Tx (Unit {0})
unfolding reserved_in
check_budget cfg resolved rid budget amounts = budgeted cfg resolved rid budget amounts

abbrev pub previous_amount : Option (ℕ × ℕ) → Option ℕ
previous_amount none = none
previous_amount (some (p, r)) = some p

unfoldable pub new_operation :
    String → String → String → Action → ℕ → Resolved → Option (ℕ × ℕ) → ℕ → ℕ → Operation
new_operation actor key digest action rid resolved amounts id now = record {
  id = id;
  resource_id = rid;
  actor = actor;
  request_key = key;
  fingerprint = digest;
  action = action;
  state = queued;
  resolved = resolved;
  created_at = now;
  updated_at = now;
  planned_at = none;
  plan_digest = none;
  previous_estimated_monthly_cost = previous_amount amounts;
  planned_objects = none;
  drift = none;
  outputs = none;
  error = none;
  discarded = false;
  expired = false;
  reconciliation = none;
}

abbrev pub known_resource : Option Resource → Operation → Resource
known_resource (some r) op = r
known_resource none op = record {
  id = op.resource_id;
  actor = op.actor;
  operation_id = op.id;
  state = none;
  resolved = op.resolved;
  resource_created_at = some op.created_at;
  managed_objects = none;
  outputs = none;
  drift_status = none;
  drift_checked_at = none;
  drift = none;
  drift_error = none;
}

abbrev pub reserve : Option (ℕ × ℕ) → Resource → Resource
reserve none r = r
reserve (some (p, q)) r = with_cost (max p q) r

-- The row of the resource after acceptance: the deployed definition is kept, the cost is reserved
-- at once, and the row names the new operation.
unfoldable pub accepted_resource : Option Resource → Option (ℕ × ℕ) → Operation → Resource
accepted_resource previous amounts op = record (reserve amounts (known_resource previous op)) {
  operation_id = op.id;
}

unfoldable pub record_acceptance : Option Resource → Option (ℕ × ℕ) → Operation → Tx (Unit {0})
unfolding event insert_op put_resource accepted_resource
record_acceptance previous amounts op = do
  event (operation op.id) op.actor operation_create accepted
  insert_op op
  when (not (is_check op.action)) (put_resource (accepted_resource previous amounts op))

-- The checks between the placement and the insertion, in the source's order.
unfoldable pub check_request :
    Config → Intent → Resolved → Option Budget → ℕ → Option Resource → Tx (Option (ℕ × ℕ))
unfolding costs check_budget referenced check_references
check_request cfg intent resolved budget rid previous = do
  raise_if (changed previous resolved.previous_operation_id) resource_changed
  raise_if (is_check intent.action && not (checkable previous)) resource_not_ready
  amounts ← costs intent.action previous resolved
  check_budget cfg resolved rid budget amounts
  used ← gets (λ w. referenced rid w.db.resources)
  raise_if (is_destroy intent.action && used) resource_referenced
  check_references resolved.input_refs
  pure amounts

abbrev pub Accepted : Type 0
Accepted = Operation × Option Operation

-- `resolved.pop("_team_revision", None)`.
abbrev pub unstamped : Resolved → Resolved
unstamped resolved = record resolved { team_revision = none }

abbrev pub replayed : Option Operation → Tx Accepted → Tx Accepted
replayed (some op) rest = pure (op, none)
replayed none rest = rest

abbrev pub unlink_expired : Accepted → Tx Operation
unlink_expired (op, none) = pure op
unlink_expired (op, some blocker) = do unlink_plan blocker; pure op

module _ (cfg : Config) (actor key : String) (intent : Intent) (resolved : Resolved) where
  -- The new operation, with its audit event and its resource's row.
  unfoldable pub enter : ℕ → Option Resource → Option (ℕ × ℕ) → Option Operation → Tx Accepted
  unfolding uuid4 new_operation record_acceptance
  enter rid previous amounts expired = do
    now ← gets (λ w. w.clock)
    id ← uuid4 cfg
    let op =
        new_operation actor key (cfg.fingerprint intent.body) intent.action rid (unstamped resolved)
          amounts id now
    record_acceptance previous amounts op
    pure (op, expired)

  -- `_accept` once no operation holds the resource.
  unfoldable pub admit : Option Budget → ℕ → Option Operation → Tx Accepted
  unfolding check_request enter
  admit budget rid expired = do
    previous ← gets (find_res rid)
    amounts ← check_request cfg intent (unstamped resolved) budget rid previous
    enter rid previous amounts expired

  -- `_accept` after the replay.
  unfoldable pub accept_new : Option Budget → Option (List String) → Tx Accepted
  unfolding check_placement uuid4 clear_blocker admit
  accept_new budget groups = do
    teams ← gets (λ w. w.db.teams)
    lift
        (check_placement cfg teams intent.action (unstamped resolved) resolved.team_revision groups)
    rid ← target_resource cfg intent.resource_id
    expired ← clear_blocker cfg actor rid
    admit budget rid expired

  -- `_accept`: the caller's own transaction goes around it.
  unfoldable pub accept_in : Option Budget → Option (List String) → Tx Accepted
  unfolding replay_row accept_new
  accept_in budget groups = do
    existing ← replay_row actor key (cfg.fingerprint intent.body)
    replayed existing (accept_new budget groups)

  -- `accept`: the plan file of a blocker that expired goes after the commit.
  unfoldable pub accept : Option Budget → Option (List String) → Tx Operation
  unfolding accept_in transaction unlink_plan
  accept budget groups = do result ← transaction (accept_in budget groups); unlink_expired result
