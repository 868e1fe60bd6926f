-- ===== src/Rollout.antt =====
-- The read-only activities of an app's workflow (app/app_activities.py): what is left to do.
use forgeapi_homelab.Prelude.{
  ℕ, Bool, false, Option, none, some, List, [], ◌∷◌, is_some, if◌then◌else◌,
}
use forgeapi_homelab.Records.{App, Teardown}
use forgeapi_homelab.Refusals.{Result, ok, err, internal_error}
use forgeapi_homelab.Ledger.Progress.{is_succeeded}
use forgeapi_homelab.Apps.{
  AppState, planning_router, planning_replica_destroy, Snapshot, router_ops, queued_ids,
  derive_state,
}

-- What `check_app` and `check_teardown` return: a derived state, or a word of their own.
pub data Check : Type 0 where
  superseded rollout_ready router_needed replicas_needed : Check
  in_progress : AppState → Check

abbrev pub first_succeeded : Snapshot → List ℕ → Bool
first_succeeded ops [] = false
first_succeeded ops (i ∷ is) = is_succeeded (ops i)

abbrev pub router_next : Option ℕ → AppState → Check
router_next none planning_router = router_needed
router_next router state = in_progress state

abbrev pub rollout_check : Option ℕ → Result AppState → Result Check
rollout_check router (err e) = err e
rollout_check router (ok state) = ok (router_next router state)

unfoldable pub check_app : App → Snapshot → Result Check
unfolding derive_state
check_app app ops =
    if is_some app.teardown
    then ok superseded
    else if first_succeeded ops (router_ops app)
    then ok rollout_ready
    else rollout_check app.router_operation_id (derive_state app ops)

unfoldable pub queued_app_operations : App → Snapshot → List ℕ
unfolding queued_ids
queued_app_operations app ops = queued_ids app ops

-- `app["teardown"]["replicas"] is None`; without a teardown a `TypeError`.
abbrev pub replicas_missing : Option Teardown → Result Check
replicas_missing none = err internal_error
replicas_missing (some t) =
    ok (if is_some t.replicas then in_progress planning_replica_destroy else replicas_needed)

abbrev pub teardown_check : Option Teardown → Result AppState → Result Check
teardown_check t (err e) = err e
teardown_check t (ok planning_replica_destroy) = replicas_missing t
teardown_check t (ok state) = ok (in_progress state)

unfoldable pub check_teardown : App → Snapshot → Result Check
unfolding derive_state
check_teardown app ops = teardown_check app.teardown (derive_state app ops)
