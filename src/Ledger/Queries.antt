-- ===== src/Ledger/Queries.antt =====
-- Read-only listings (app/ledger.py: `list_resources`, `list_operations`, `drift_candidates`,
-- `queued_operations`, `outstanding_count`, `stamp_drift_refusal`, `list_apps`).
use forgeapi_homelab.Prelude.{
  ℕ, String, Bool, true, false, Option, none, some, List, [], ◌∷◌, ◌==◌, ◌&&◌, ◌||◌, not, any,
  select, count, take, str_mem, str_eq, opt_str_eq, ltb, leb, map, if◌then◌else◌,
}
use forgeapi_homelab.Records.{
  Operation, Resource, ResourceState, ready, destroyed, DriftStatus, in_sync, drifted, unknown,
  Action, drift_check, State, queued, planning, App,
}
use forgeapi_homelab.Refusals.{not_found}
use forgeapi_homelab.Tx.{Tx, World, pure, raise, gets, transaction, ◌>>=◌}
use forgeapi_homelab.Ledger.Rows.{find_res, is_check, state_eq, write_resource}
use forgeapi_homelab.Ledger.References.{is_ready}
use forgeapi_homelab.Ledger.Acceptance.{holds}

-- `actor=?`, or the business unit is one of the given ones.
abbrev pub in_units : List String → Option String → Bool
in_units units none = false
in_units units (some u) = str_mem u units

abbrev pub is_visible : String → Option (List String) → String → Option String → Bool
is_visible actor none owner unit = str_eq owner actor
is_visible actor (some units) owner unit = in_units units unit

-- A filter that is not given lets every row through.
abbrev pub wanted {ℓ} : {A : Type ℓ} → Option A → (A → Bool) → Bool
wanted none test = true
wanted (some a) test = test a

-- The states a listing may ask for: a resource with no state yet is `pending`.
pub data ListedState : Type 0 where
  listed_pending listed_ready listed_destroyed : ListedState

abbrev pub has_listed_state : Option ResourceState → ListedState → Bool
has_listed_state none listed_pending = true
has_listed_state (some ready) listed_ready = true
has_listed_state (some destroyed) listed_destroyed = true
has_listed_state _ _ = false

abbrev pub has_drift_status : Option DriftStatus → DriftStatus → Bool
has_drift_status (some in_sync) in_sync = true
has_drift_status (some drifted) drifted = true
has_drift_status (some unknown) unknown = true
has_drift_status _ _ = false

pub record ResourceFilter : Type 0 where
  pub pattern : Option String
  pub environment : Option String
  pub state : Option ListedState
  pub label : Option (String × String)
  pub drift_status : Option DriftStatus

abbrev pub has_label : Resource → String × String → Bool
has_label r (k, v) = any (λ e. str_eq e.0 k && str_eq e.1 v) r.resolved.labels

unfoldable pub resource_matches : String → Option (List String) → ResourceFilter → Resource → Bool
unfolding any str_mem
resource_matches actor units f r =
    is_visible actor units r.actor r.resolved.business_unit
    && wanted f.pattern (λ p. str_eq r.resolved.pattern p)
    && wanted f.environment (λ e. opt_str_eq r.resolved.environment (some e))
    && wanted f.state (has_listed_state r.state)
    && wanted f.drift_status (has_drift_status r.drift_status)
    && wanted f.label (has_label r)

-- `ORDER BY id`.
module _ {A : Type 0} (key : A → ℕ) where
  unfoldable pub insert_by : A → List A → List A
  insert_by x [] = x ∷ []
  insert_by x (y ∷ ys) =
      let rest = insert_by x ys in if leb (key x) (key y) then x ∷ y ∷ ys else y ∷ rest

  unfoldable pub sort_by : List A → List A
  unfolding insert_by
  sort_by [] = []
  sort_by (x ∷ xs) = insert_by x (sort_by xs)

  -- A page after a cursor: `id>? ORDER BY id LIMIT ?`.
  unfoldable pub page : (A → Bool) → Option ℕ → ℕ → List A → List A
  unfolding take select sort_by
  page test after limit rows =
      take limit (sort_by (select (λ x. test x && wanted after (λ a. ltb a (key x))) rows))

abbrev pub resource_id_of : Resource → ℕ
resource_id_of r = r.id

unfoldable pub list_resources :
    String → Option (List String) → Option ℕ → ℕ → ResourceFilter → World → List Resource
unfolding resource_matches page
list_resources actor units after limit f w =
    page resource_id_of (resource_matches actor units f) after limit w.db.resources

abbrev pub app_id_of : App → ℕ
app_id_of a = a.id

unfoldable pub list_apps : String → Option (List String) → Option ℕ → ℕ → World → List App
unfolding page str_mem
list_apps actor units after limit w =
    page app_id_of (λ a. is_visible actor units a.actor a.base.business_unit) after limit w.db.apps

abbrev pub action_eq : Action → Action → Bool
action_eq Action.deploy Action.deploy = true
action_eq Action.destroy Action.destroy = true
action_eq drift_check drift_check = true
action_eq _ _ = false

pub record OperationFilter : Type 0 where
  pub resource_id : Option ℕ
  pub state : Option State
  pub action : Option Action
  pub include_checks : Bool

-- Drift checks are listed only where they are asked for.
abbrev pub action_wanted : Option Action → Bool → Action → Bool
action_wanted (some a) checks b = action_eq b a
action_wanted none checks b = checks || not (is_check b)

unfoldable pub operation_matches :
    String → Option (List String) → OperationFilter → Operation → Bool
unfolding str_mem
operation_matches actor units f o =
    is_visible actor units o.actor o.resolved.business_unit
    && wanted f.resource_id (λ r. o.resource_id == r)
    && wanted f.state (λ s. state_eq o.state s)
    && action_wanted f.action f.include_checks o.action

unfoldable pub drop : ℕ → List Operation → List Operation
drop n [] = []
drop ℕ.zero (o ∷ os) = o ∷ os
drop (ℕ.suc n) (o ∷ os) = drop n os

-- `ORDER BY rowid DESC`, and `rowid<?`: the rows before an anchor.
unfoldable pub newest_first : List Operation → List Operation → List Operation
newest_first acc [] = acc
newest_first acc (o ∷ os) = newest_first (o ∷ acc) os

unfoldable pub rows_before : ℕ → List Operation → Option (List Operation)
rows_before id [] = none
rows_before id (o ∷ os) =
    let rest = rows_before id os in
    if o.id == id then some [] else elim rest [ none ↦ none | some l ↦ some (o ∷ l) ]

abbrev pub anchored : Option ℕ → List Operation → Option (List Operation)
anchored none rows = some rows
anchored (some id) rows = rows_before id rows

abbrev pub operations_page : ℕ → ℕ → Option (List Operation) → Tx (List Operation)
operations_page offset limit none = raise not_found
operations_page offset limit (some rows) = pure (take limit (drop offset (newest_first [] rows)))

-- The anchor must itself pass the filter.
unfoldable pub list_operations :
    String → Option (List String) → ℕ → ℕ → Option ℕ → OperationFilter → Tx (List Operation)
unfolding operation_matches rows_before newest_first drop take select transaction
list_operations actor units offset limit before f = transaction (do
  rows ← gets (λ w. select (operation_matches actor units f) w.db.operations)
  operations_page offset limit (anchored before rows))

-- A ready resource that nothing holds and that was last checked before `cutoff`, or never.
unfoldable pub is_due : ℕ → List Operation → Resource → Bool
unfolding any
is_due cutoff operations r =
    is_ready r.state
    && elim r.drift_checked_at [ none ↦ true | some t ↦ ltb t cutoff ]
    && not (any (holds r.id) operations)

-- `ORDER BY COALESCE(drift_checked_at, ''), id`: never checked first.
abbrev pub checked_key : Resource → ℕ
checked_key r = elim r.drift_checked_at [ none ↦ 0 | some t ↦ ℕ.suc t ]

unfoldable pub drift_candidates : ℕ → ℕ → World → List Resource
unfolding is_due sort_by select take
drift_candidates cutoff limit w = take limit (
    sort_by checked_key
      (sort_by resource_id_of (select (is_due cutoff w.db.operations) w.db.resources)))

abbrev pub is_queued_of : String → Action → Operation → Bool
is_queued_of actor action o =
    str_eq o.actor actor && state_eq o.state queued && action_eq o.action action

unfoldable pub queued_operations : String → Action → World → List ℕ
unfolding select
queued_operations actor action w =
    map (λ o. o.id) (select (is_queued_of actor action) w.db.operations)

abbrev pub is_outstanding : String → Action → Operation → Bool
is_outstanding actor action o =
    str_eq o.actor actor
    && (state_eq o.state queued || state_eq o.state planning)
    && action_eq o.action action

unfoldable pub outstanding_count : String → Action → World → ℕ
unfolding count
outstanding_count actor action w = count (is_outstanding actor action) w.db.operations

-- A sweep's refusal on the resource's row.
abbrev pub refused_check : String → Bool → ℕ → Resource → Resource
refused_check reason lost now r =
    if lost
    then record r {
      drift_status = some unknown;
      drift = none;
      drift_checked_at = some now;
      drift_error = some reason;
    }
    else record r { drift_checked_at = some now; drift_error = some reason }

abbrev pub stamp_found : String → Bool → Option Resource → Tx (Unit {0})
stamp_found reason lost none = pure tt
stamp_found reason lost (some r) = do
  now ← gets (λ w. w.clock)
  write_resource (refused_check reason lost now r)

unfoldable pub stamp_drift_refusal : ℕ → String → Bool → Tx (Unit {0})
unfolding write_resource transaction
stamp_drift_refusal id reason lost =
    transaction (do row ← gets (find_res id); stamp_found reason lost row)
