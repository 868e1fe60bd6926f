-- ===== src/Apps/States.antt =====
-- An app's derived state beside the states of its member operations (app/apps.py).
use forgeapi_homelab.Prelude.{
  ℕ, ◌≡◌, ◌≢◌, ◌↔◌, ◌⊎◌, refl, sym, ap, subst, ◌∙◌, Bool, true, false, Option, none, some, List, [],
  ◌∷◌, ◌++◌, map, arith, ◌||◌, any, all, is_some, All, if◌then◌else◌, inl, inr,
}
use forgeapi_homelab.Records.{
  State, queued, planning, planned, apply_queued, applying, succeeded, failed, uncertain, App,
  Teardown,
}
use forgeapi_homelab.Refusals.{Result, ok}
use forgeapi_homelab.Ledger.Rows.{is_planned, is_uncertain}
use forgeapi_homelab.Ledger.Progress.{is_failed}
use forgeapi_homelab.Apps.{
  AppState, app_uncertain, app_failed, awaiting_replica_approval, awaiting_router_approval,
  awaiting_router_destroy_approval, awaiting_replica_destroy_approval, Snapshot, option_list,
  map_state, derive_rollout_state, derive_teardown_state, derive_state, rollout_states,
  teardown_states, current_router, gate, member_ids, replica_states, router_state,
  router_destroy_progress, replica_progress, replica_destroy_state, map_states, option_items,
  one_id, teardown_router, teardown_replicas, replicas_gate, gate_at, gate_of, rollout_progress,
  destroy_progress, derive_by,
}

-- Which operations an app's state is derived from: the destroys once there is a teardown.
abbrev pub deciding_states : App → Snapshot → Option Teardown → List State
deciding_states app ops none = rollout_states app ops
deciding_states app ops (some t) = teardown_states t ops

abbrev pub recorded_error : App → Option Teardown → Bool
recorded_error app none = is_some app.error
recorded_error app (some t) = is_some t.error

any-append : (p : State → Bool) (xs ys : List State) → any p (xs ++ ys) ≡ (any p xs || any p ys)
unfolding any
any-append p [] ys = refl
any-append p (x ∷ xs) ys = ground (arith, any-append p xs ys)

-- No table of the source lacks a state that can reach it, and none answers `uncertain` or `failed`.
abbrev IsProgress : Result AppState → Type 0
IsProgress r = (a : AppState) × (r ≡ ok a) × (a ≢ app_uncertain) × (a ≢ app_failed)

router_state-IsProgress :
    (s : State) → is_uncertain s ≡ false → is_failed s ≡ false → IsProgress (router_state s)
router_state-IsProgress queued u f = (_, refl, (λ e. cc), (λ e. cc))
router_state-IsProgress planning u f = (_, refl, (λ e. cc), (λ e. cc))
router_state-IsProgress planned u f = (_, refl, (λ e. cc), (λ e. cc))
router_state-IsProgress apply_queued u f = (_, refl, (λ e. cc), (λ e. cc))
router_state-IsProgress applying u f = (_, refl, (λ e. cc), (λ e. cc))
router_state-IsProgress succeeded u f = (_, refl, (λ e. cc), (λ e. cc))
router_state-IsProgress failed u f = cc
router_state-IsProgress uncertain u f = cc

replica_progress-IsProgress : (l : List State) → IsProgress (ok (replica_progress l))
replica_progress-IsProgress l = (replica_progress l, refl, ground arith, ground arith)

replica_destroy_state-IsProgress : (l : List State) → IsProgress (ok (replica_destroy_state l))
replica_destroy_state-IsProgress l = (replica_destroy_state l, refl, ground arith, ground arith)

router_destroy_progress-IsProgress :
    (s : State)
    → is_uncertain s ≡ false
    → is_failed s ≡ false
    → IsProgress (router_destroy_progress (some s))
router_destroy_progress-IsProgress queued u f = (_, refl, (λ e. cc), (λ e. cc))
router_destroy_progress-IsProgress planning u f = (_, refl, (λ e. cc), (λ e. cc))
router_destroy_progress-IsProgress planned u f = (_, refl, (λ e. cc), (λ e. cc))
router_destroy_progress-IsProgress apply_queued u f = (_, refl, (λ e. cc), (λ e. cc))
router_destroy_progress-IsProgress applying u f = (_, refl, (λ e. cc), (λ e. cc))
router_destroy_progress-IsProgress succeeded u f = (_, refl, (λ e. cc), (λ e. cc))
router_destroy_progress-IsProgress failed u f = cc
router_destroy_progress-IsProgress uncertain u f = cc

rollout_progress-IsProgress :
    (replicas : List State) (router : Option State)
    → any is_uncertain (replicas ++ option_list router) ≡ false
    → any is_failed (replicas ++ option_list router) ≡ false
    → IsProgress (rollout_progress replicas router)
unfolding any
rollout_progress-IsProgress replicas none u f = replica_progress-IsProgress replicas
rollout_progress-IsProgress replicas (some s) u f =
    router_state-IsProgress s (ground (arith, any-append is_uncertain replicas (s ∷ [])))
      (ground (arith, any-append is_failed replicas (s ∷ [])))

destroy_progress-IsProgress :
    (router : Option State) (replicas : Option (List State))
    → any is_uncertain (option_list router ++ option_items replicas) ≡ false
    → any is_failed (option_list router ++ option_items replicas) ≡ false
    → IsProgress (destroy_progress router replicas)
unfolding any
destroy_progress-IsProgress router (some replicas) u f = replica_destroy_state-IsProgress replicas
destroy_progress-IsProgress none none u f = (_, refl, (λ e. cc), (λ e. cc))
destroy_progress-IsProgress (some s) none u f =
    router_destroy_progress-IsProgress s (ground arith) (ground arith)

-- The state of an app by three tests on the operations that decide it.
abbrev pub Tested : Bool → Bool → Result AppState → Type 0
Tested doubt broken r =
    ((r ≡ ok app_uncertain) ↔ (doubt ≡ true))
    × ((r ≡ ok app_failed) ↔ ((doubt ≡ false) × (broken ≡ true)))
    × ((a : AppState) × (r ≡ ok a))

tested :
    (doubt failing error : Bool) (r : Result AppState)
    → (doubt ≡ false → failing ≡ false → IsProgress r)
    → Tested doubt
        (failing || error)
        (if doubt then ok app_uncertain else if failing || error then ok app_failed else r)
tested true failing error r k =
    (((λ _. refl), (λ _. refl)), ((λ e. cc), (λ h. cc (h.0))), (app_uncertain, refl))
tested false true error r k =
    (((λ e. cc), (λ e. cc)), ((λ _. (refl, refl)), (λ _. refl)), (app_failed, refl))
tested false false true r k =
    (((λ e. cc), (λ e. cc)), ((λ _. (refl, refl)), (λ _. refl)), (app_failed, refl))
tested false false false r k =
    let (a, e, nu, nf) = k refl refl in
    (
      ((λ x. absurd (nu (cc (e, x)))), (λ x. cc)),
      ((λ x. absurd (nf (cc (e, x)))), (λ h. cc (h.1))),
      (a, e),
    )

rollout-Tested :
    (app : App) (ops : Snapshot)
    → Tested
        (any is_uncertain (rollout_states app ops))
        (any is_failed (rollout_states app ops) || is_some app.error)
        (derive_rollout_state app ops)
unfolding derive_rollout_state
rollout-Tested app ops =
    tested (any is_uncertain (rollout_states app ops)) (any is_failed (rollout_states app ops))
      (is_some app.error) _
      (rollout_progress-IsProgress (replica_states app ops)
        (map_state ops (current_router app ops)))

teardown-Tested :
    (t : Teardown) (ops : Snapshot)
    → Tested
        (any is_uncertain (teardown_states t ops))
        (any is_failed (teardown_states t ops) || is_some t.error)
        (derive_teardown_state t ops)
unfolding derive_teardown_state
teardown-Tested t ops =
    tested (any is_uncertain (teardown_states t ops)) (any is_failed (teardown_states t ops))
      (is_some t.error) _
      (destroy_progress-IsProgress (map_state ops t.router) (map_states ops t.replicas))

derive_by-Tested :
    (app : App) (ops : Snapshot) (t : Option Teardown)
    → Tested
        (any is_uncertain (deciding_states app ops t))
        (any is_failed (deciding_states app ops t) || recorded_error app t)
        (derive_by app ops t)
derive_by-Tested app ops none = rollout-Tested app ops
derive_by-Tested app ops (some t) = teardown-Tested t ops

-- Deriving an app's state never raises. The app is uncertain exactly when an operation that
-- decides its state is, and failed exactly when none is uncertain but one failed or an error is
-- recorded. Once there is a teardown, only its operations and its error decide.
pub derive_state_priority :
    (app : App) (ops : Snapshot)
    → Tested
        (any is_uncertain (deciding_states app ops app.teardown))
        (any is_failed (deciding_states app ops app.teardown) || recorded_error app app.teardown)
        (derive_state app ops)
unfolding derive_state
derive_state_priority app ops = derive_by-Tested app ops app.teardown

abbrev pub is_awaiting : AppState → Bool
is_awaiting awaiting_replica_approval = true
is_awaiting awaiting_router_approval = true
is_awaiting awaiting_router_destroy_approval = true
is_awaiting awaiting_replica_destroy_approval = true
is_awaiting _ = false

all_planned :
    (ops : Snapshot) (ids : List ℕ)
    → all is_planned (map ops ids) ≡ true
    → All (λ i. ops i ≡ planned) ids
unfolding all
all_planned ops [] h = tt
all_planned ops (i ∷ ids) h = (ground arith, all_planned ops ids (ground arith))

-- Which progress an awaiting state comes from.
rollout_awaiting :
    (replicas : List State) (router : Option State) (a : AppState)
    → rollout_progress replicas router ≡ ok a
    → is_awaiting a ≡ true
    → ((a ≡ awaiting_replica_approval) × (all is_planned replicas ≡ true))
      ⊎ ((a ≡ awaiting_router_approval) × (router ≡ some planned))
rollout_awaiting replicas none a e w = inl (ground arith, ground arith)
rollout_awaiting replicas (some planned) a e w = inr (ground arith, refl)
rollout_awaiting replicas (some s) a e w = ground arith

destroy_awaiting :
    (router : Option State) (replicas : Option (List State)) (a : AppState)
    → destroy_progress router replicas ≡ ok a
    → is_awaiting a ≡ true
    → ((a ≡ awaiting_replica_destroy_approval) × (all is_planned (option_items replicas) ≡ true))
      ⊎ ((a ≡ awaiting_router_destroy_approval) × (router ≡ some planned))
destroy_awaiting router (some replicas) a e w = inl (ground arith, ground arith)
destroy_awaiting none none a e w = ground arith
destroy_awaiting (some planned) none a e w = inr (ground arith, refl)
destroy_awaiting (some s) none a e w = ground arith

skip_tests :
    (doubt broken : Bool) (r : Result AppState) (a : AppState)
    → (if doubt then ok app_uncertain else if broken then ok app_failed else r) ≡ ok a
    → is_awaiting a ≡ true
    → r ≡ ok a
skip_tests true broken r a e w = ground arith
skip_tests false true r a e w = ground arith
skip_tests false false r a e w = e

ok-injective : {x y : List ℕ} → ok x ≡ ok y → x ≡ y
ok-injective e = cc

rollout_untested :
    (app : App) (ops : Snapshot) (a : AppState)
    → derive_rollout_state app ops ≡ ok a
    → is_awaiting a ≡ true
    → rollout_progress (replica_states app ops) (map_state ops (current_router app ops)) ≡ ok a
unfolding derive_rollout_state
rollout_untested app ops a e w =
    skip_tests (any is_uncertain (rollout_states app ops))
      (any is_failed (rollout_states app ops) || is_some app.error) _ a e w

one_planned :
    (ops : Snapshot) (router : Option ℕ) (ids : List ℕ)
    → map_state ops router ≡ some planned
    → one_id router ≡ ok ids
    → All (λ i. ops i ≡ planned) ids
one_planned ops none ids m o = cc
one_planned ops (some i) ids m o = subst (All (λ i. ops i ≡ planned)) (ok-injective o) (cc, tt)

rollout_gate :
    (app : App) (ops : Snapshot) (a : AppState) (ids : List ℕ)
    → derive_rollout_state app ops ≡ ok a
    → is_awaiting a ≡ true
    → gate_at app ops a ≡ ok ids
    → All (λ i. ops i ≡ planned) ids
rollout_gate app ops a ids e w g =
    elim (rollout_awaiting (replica_states app ops) (map_state ops (current_router app ops)) a
      (rollout_untested app ops a e w) w) [
        | inl (s, p) ↦
            subst (All (λ i. ops i ≡ planned)) (ok-injective (sym (ap (gate_at app ops) s) ∙ g))
              (all_planned ops (member_ids app) p)
        | inr (s, p) ↦
            one_planned ops (current_router app ops) ids p (sym (ap (gate_at app ops) s) ∙ g)
      ]

teardown_untested :
    (t : Teardown) (ops : Snapshot) (a : AppState)
    → derive_teardown_state t ops ≡ ok a
    → is_awaiting a ≡ true
    → destroy_progress (map_state ops t.router) (map_states ops t.replicas) ≡ ok a
unfolding derive_teardown_state
teardown_untested t ops a e w =
    skip_tests (any is_uncertain (teardown_states t ops))
      (any is_failed (teardown_states t ops) || is_some t.error) _ a e w

replicas_planned :
    (ops : Snapshot) (replicas : Option (List ℕ)) (ids : List ℕ)
    → all is_planned (option_items (map_states ops replicas)) ≡ true
    → replicas_gate replicas ≡ ok ids
    → All (λ i. ops i ≡ planned) ids
replicas_planned ops none ids m o = cc
replicas_planned ops (some is) ids m o =
    subst (All (λ i. ops i ≡ planned)) (ok-injective o) (all_planned ops is m)

teardown_gate :
    (app : App) (t : Teardown) (ops : Snapshot) (a : AppState) (ids : List ℕ)
    → app.teardown ≡ some t
    → derive_teardown_state t ops ≡ ok a
    → is_awaiting a ≡ true
    → gate_at app ops a ≡ ok ids
    → All (λ i. ops i ≡ planned) ids
teardown_gate app t ops a ids x e w g =
    elim (destroy_awaiting (map_state ops t.router) (map_states ops t.replicas) a
      (teardown_untested t ops a e w) w) [
        | inl (s, p) ↦
            replicas_planned ops t.replicas ids p
              (sym (ap teardown_replicas x) ∙ sym (ap (gate_at app ops) s) ∙ g)
        | inr (s, p) ↦
            one_planned ops t.router ids p
              (sym (ap (λ u. one_id (teardown_router u)) x) ∙ sym (ap (gate_at app ops) s) ∙ g)
      ]

gate_by :
    (app : App) (ops : Snapshot) (t : Option Teardown) (a : AppState) (ids : List ℕ)
    → app.teardown ≡ t
    → derive_by app ops t ≡ ok a
    → is_awaiting a ≡ true
    → gate_at app ops a ≡ ok ids
    → All (λ i. ops i ≡ planned) ids
gate_by app ops none a ids x e w g = rollout_gate app ops a ids e w g
gate_by app ops (some t) a ids x e w g = teardown_gate app t ops a ids x e w g

-- While an app waits for an approval, every operation that the approval has to name is planned.
pub gate-planned :
    (app : App) (ops : Snapshot) (a : AppState) (ids : List ℕ)
    → derive_state app ops ≡ ok a
    → is_awaiting a ≡ true
    → gate app ops ≡ ok ids
    → All (λ i. ops i ≡ planned) ids
unfolding derive_state gate
gate-planned app ops a ids e w g =
    gate_by app ops app.teardown a ids refl e w (sym (ap (gate_of app ops) e) ∙ g)
