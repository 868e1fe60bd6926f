-- ===== src/Ledger/Teardowns.antt =====
-- Tearing an app down (app/ledger.py: `accept_teardown`, `accept_teardown_replicas`,
-- `fail_teardown`).
use forgeapi_homelab.Prelude.{
  ℕ, ◌+◌, String, Bool, Option, none, some, List, [], ◌∷◌, ◌++◌, ◌||◌, is_some, str_eq,
  if◌then◌else◌,
}
use forgeapi_homelab.Records.{
  Operation, App, Teardown, TeardownEntry, app, app_destroy, app_teardown, app_state, accepted,
  refused, reached, failed,
}
use forgeapi_homelab.Refusals.{idempotency_key_reused, internal_error}
use forgeapi_homelab.Config.{Config}
use forgeapi_homelab.Keys.{system_key, app_text, str}
use forgeapi_homelab.Tx.{Tx, pure, raise, when, event, transaction, ◌>>=◌, ◌>>◌}
use forgeapi_homelab.Tenants.{Caller}
use forgeapi_homelab.Ledger.Acceptance.{accept_in}
use forgeapi_homelab.Ledger.Progress.{worker}
use forgeapi_homelab.Ledger.Rollouts.{
  Proposal, Admitted, load_app, save_app, app_for_update, caller_key, unlink_plans,
}
use forgeapi_homelab.Apps.{option_list}

unfoldable pub find_teardown : String → List TeardownEntry → Option TeardownEntry
find_teardown key [] = none
find_teardown key (t ∷ ts) = if str_eq t.key key then some t else find_teardown key ts

abbrev pub entry_of : Teardown → TeardownEntry
entry_of t = record { key = t.key; fingerprint = t.fingerprint; router = t.router }

-- Every teardown request is remembered; the current one comes last.
abbrev pub remembered : App → Option Teardown → List TeardownEntry
remembered row none = row.teardown_history
remembered row (some t) = row.teardown_history ++ entry_of t ∷ []

abbrev pub Torn : Type 0
Torn = App × Option ℕ × List Operation

abbrev pub replayed_teardown : String → App → Option TeardownEntry → Tx Torn → Tx Torn
replayed_teardown digest row none rest = rest
replayed_teardown digest row (some t) rest =
    if str_eq t.fingerprint digest then pure (row, t.router, []) else raise idempotency_key_reused

-- The router's destroy, where there is a router to destroy.
abbrev pub destroy_router :
    Config → String → ℕ → ℕ → Option Proposal → Tx (Option ℕ × List Operation)
destroy_router cfg actor app_id attempt none = pure (none, [])
destroy_router cfg actor app_id attempt (some p) = do
  (op, blocker) ←
      accept_in cfg actor (system_key (app_text app_id ∷ "teardown" ∷ str attempt ∷ "router" ∷ []))
        p.intent p.resolved p.budget none
  pure (some op.id, option_list blocker)

-- The row with the teardown: `groups` is `sorted(caller.groups)`.
abbrev pub torn_down : App → ℕ → String → String → String → List String → Option ℕ → App
torn_down row attempt key digest actor groups router = record row {
  teardowns = attempt;
  teardown = some (record {
    key = key;
    fingerprint = digest;
    actor = actor;
    caller_groups = groups;
    router = router;
    replicas = none;
    error = none;
  });
  teardown_history =
      row.teardown_history ++ record { key = key; fingerprint = digest; router = router } ∷ [];
}

unfoldable pub teardown_new : Config → Caller → ℕ → String → String → Option Proposal → ℕ → Tx Torn
unfolding app_for_update accept_in event save_app
teardown_new cfg caller app_id key digest router updated_at = do
  row ← app_for_update app_id updated_at
  let attempt = row.teardowns + 1
  (router_id, expired) ← destroy_router cfg caller.id app_id attempt router
  event (app app_id) caller.id app_destroy accepted
  row' ←
      save_app
        (torn_down row attempt (caller_key caller.id key) digest caller.id caller.groups router_id)
  pure (row', router_id, expired)

unfoldable pub accept_teardown_in :
    Config → Caller → ℕ → String → String → Option Proposal → ℕ → Tx Torn
unfolding load_app find_teardown teardown_new
accept_teardown_in cfg caller app_id key digest router updated_at = do
  row ← load_app app_id
  replayed_teardown digest row
      (find_teardown (caller_key caller.id key) (remembered row row.teardown))
      (teardown_new cfg caller app_id key digest router updated_at)

unfoldable pub accept_teardown :
    Config → Caller → ℕ → String → String → Option Proposal → ℕ → Tx (App × Option ℕ)
unfolding accept_teardown_in transaction unlink_plans
accept_teardown cfg caller app_id key material router updated_at = do
  (row, router_id, expired) ←
      transaction
        (accept_teardown_in cfg caller app_id key (cfg.fingerprint material) router updated_at)
  unlink_plans expired
  pure (row, router_id)

-- The loop over the replicas' destroys: `(index, intent, resolved, budget)`.
unfoldable pub destroy_replicas :
    Config → String → ℕ → ℕ → List (ℕ × Proposal) → Tx (List ℕ × List Operation)
unfolding accept_in
destroy_replicas cfg actor app_id attempt [] = pure ([], [])
destroy_replicas cfg actor app_id attempt ((index, p) ∷ items) = do
  (op, blocker) ←
      accept_in cfg actor
        (system_key (app_text app_id ∷ "teardown" ∷ str attempt ∷ "replica" ∷ str index ∷ []))
        p.intent p.resolved p.budget none
  (ids, expired) ← destroy_replicas cfg actor app_id attempt items
  pure (op.id ∷ ids, option_list blocker ++ expired)

abbrev pub link_replicas : Config → App → List (ℕ × Proposal) → Option Teardown → Tx Admitted
link_replicas cfg row items none = raise internal_error
link_replicas cfg row items (some t) =
    if is_some t.replicas || is_some t.error then pure (row, []) else do
      (ids, expired) ← destroy_replicas cfg t.actor row.id row.teardowns items
      row' ← save_app (record row { teardown = some (record t { replicas = some ids }) })
      pure (row', expired)

unfoldable pub accept_teardown_replicas_in : Config → ℕ → List (ℕ × Proposal) → Tx Admitted
unfolding load_app destroy_replicas save_app
accept_teardown_replicas_in cfg app_id items = do
  row ← load_app app_id
  link_replicas cfg row items row.teardown

unfoldable pub accept_teardown_replicas : Config → ℕ → List (ℕ × Proposal) → Tx App
unfolding accept_teardown_replicas_in transaction unlink_plans
accept_teardown_replicas cfg app_id items = do
  (row, expired) ← transaction (accept_teardown_replicas_in cfg app_id items)
  unlink_plans expired
  pure row

abbrev pub record_teardown_failure : App → Teardown → String → Bool → Tx App
record_teardown_failure row t reason refusal = do
  row' ← save_app (record row { teardown = some (record t { error = some reason }) })
  when refusal (event (app row.id) worker app_teardown refused)
  event (app row.id) worker app_state (reached failed)
  pure row'

abbrev pub fail_teardown_of : App → String → Bool → Option Teardown → Tx App
fail_teardown_of row reason refusal none = pure row
fail_teardown_of row reason refusal (some t) =
    if is_some t.error then pure row else record_teardown_failure row t reason refusal

unfoldable pub fail_teardown_in : ℕ → String → Bool → Tx App
unfolding load_app save_app event
fail_teardown_in app_id reason refusal = do
  row ← load_app app_id
  fail_teardown_of row reason refusal row.teardown

unfoldable pub fail_teardown : ℕ → String → Bool → Tx App
unfolding fail_teardown_in transaction
fail_teardown app_id reason refusal = transaction (fail_teardown_in app_id reason refusal)
