-- ===== src/TeamAdmin.antt =====
-- The operators' administration of teams (app/team_admin.py). A document is a `UnitSpec`, so that
-- `schema` findings do not arise; the diff of two documents is stored and never read, and is left
-- out. The views of the rows that the methods return are the rows.
pub mod Access
pub mod Revisions
pub mod Import
pub mod Imported
pub mod History
use forgeapi_homelab.Prelude.{
  ℕ, String, Bool, true, false, Option, none, some, List, [], ◌∷◌, ◌++◌, map, ◌==◌, ◌&&◌, ◌||◌, not,
  any, all, select, length, str_mem, str_eq, opt_str_eq, opt_eq, nat_eq, is_some, if◌then◌else◌,
}
use forgeapi_homelab.Refusals.{
  Result, ok, err, not_found, tenants_source_file, if_match_required, revision_stale, team_exists,
  team_unchanged, team_invalid, warnings_not_acknowledged, already_archived, not_archived,
  team_has_resources,
}
use forgeapi_homelab.Records.{Team, TeamRevision, TeamState, active, archived, Resource}
use forgeapi_homelab.Tenants.{UnitSpec, Environment, TargetConfig, environment_named}
use forgeapi_homelab.Config.{TenantsSource, disabled, file, database}
use forgeapi_homelab.Tx.{Tx, World, pure, lift, gets, ◌>>=◌, ◌>>◌, transaction}
use forgeapi_homelab.Ledger.Placement.{is_archived}
use forgeapi_homelab.Teams.{get_team, revision, resources, write}
use forgeapi_homelab.TeamCheck.{
  Finding, is_error, is_warning, Catalog, check_team, config_eq, value_of, target_of, agree,
}

unfoldable pub require_db : TenantsSource → Result (Unit {0})
require_db database = ok tt
require_db _ = err tenants_source_file

-- Whether every warning's code is acknowledged.
unfoldable pub acknowledged : List String → List Finding → Bool
unfolding str_mem
acknowledged codes [] = true
acknowledged codes (f ∷ fs) = (not (is_warning f) || str_mem f.code codes) && acknowledged codes fs

unfoldable pub check_findings : List Finding → List String → Result (Unit {0})
unfolding any acknowledged
check_findings findings codes =
    if any is_error findings
    then err team_invalid
    else if acknowledged codes findings
    then ok tt
    else err warnings_not_acknowledged

unfoldable pub check_errors_only : List Finding → Result (Unit {0})
unfolding select check_findings
check_errors_only findings = check_findings (select (λ f. not (is_warning f)) findings) []

-- The number in `If-Match`, `none` for a text that is no number. The header's text is not
-- modelled; a missing header is refused before the transaction.
abbrev pub Precondition : Type 0
Precondition = Option (Option ℕ)

unfoldable pub given_revision : Precondition → Result (Option ℕ)
given_revision none = err if_match_required
given_revision (some number) = ok number

unfoldable pub stored_team : Option ℕ → Option Team → Result Team
stored_team number none = err not_found
stored_team number (some t) =
    if opt_eq nat_eq number (some t.revision) then ok t else err (revision_stale t.revision)

-- The other teams' documents.
unfoldable pub others : String → List Team → List (String × UnitSpec)
others name [] = []
others name (t ∷ ts) =
    let rest = others name ts in if str_eq t.name name then rest else (t.name, t.doc) ∷ rest

abbrev pub previous_doc : Option Team → Option UnitSpec
previous_doc none = none
previous_doc (some t) = some t.doc

unfoldable pub review : Catalog → String → UnitSpec → Option Team → World → List Finding
unfolding check_team others resources
review catalog name doc stored w =
    check_team catalog name doc (previous_doc stored) (others name w.db.teams) (resources name w)

abbrev pub list_eq : List String → List String → Bool
list_eq [] [] = true
list_eq (x ∷ xs) (y ∷ ys) = str_eq x y && list_eq xs ys
list_eq _ _ = false

-- `==` on two mappings of targets: the same clouds with equal targets, in whatever order.
abbrev pub targets_agree : List (String × TargetConfig) → List (String × TargetConfig) → Bool
targets_agree xs ys = all (λ e. opt_eq config_eq (target_of e.0 xs) (target_of e.0 ys)) xs

abbrev pub targets_eq : List (String × TargetConfig) → List (String × TargetConfig) → Bool
targets_eq xs ys = targets_agree xs ys && targets_agree ys xs

abbrev pub bool_eq : Bool → Bool → Bool
bool_eq true b = b
bool_eq false b = not b

unfoldable pub environment_eq : Environment → Environment → Bool
unfolding all value_of target_of
environment_eq d e =
    str_eq d.name e.name
    && opt_str_eq d.subscription_id e.subscription_id
    && list_eq d.groups e.groups
    && str_eq d.network e.network
    && opt_eq nat_eq d.budget_monthly e.budget_monthly
    && targets_eq d.targets e.targets
    && list_eq d.protected_resource_types e.protected_resource_types
    && bool_eq d.allow_destroy e.allow_destroy

-- The same for the environments, by their names.
abbrev pub environments_agree : List Environment → List Environment → Bool
environments_agree ds es =
    all (λ d. opt_eq environment_eq (environment_named d.name ds) (environment_named d.name es)) ds

unfoldable pub environments_eq : List Environment → List Environment → Bool
unfolding environment_eq environment_named all
environments_eq ds es = environments_agree ds es && environments_agree es ds

-- `stored["doc"] == doc`.
unfoldable pub doc_eq : UnitSpec → UnitSpec → Bool
unfolding environments_eq
doc_eq a b =
    list_eq a.groups b.groups
    && str_eq a.inject b.inject
    && list_eq a.patterns b.patterns
    && list_eq a.regions_allowed b.regions_allowed
    && opt_str_eq a.region_default b.region_default
    && environments_eq a.environments b.environments

unfoldable pub require_change : Team → UnitSpec → Result (Unit {0})
unfolding doc_eq
require_change stored doc = if doc_eq stored.doc doc then err team_unchanged else ok tt

abbrev pub absent : Option Team → Result (Unit {0})
absent none = ok tt
absent (some t) = err team_exists

abbrev pub known_revision : Option TeamRevision → Result UnitSpec
known_revision none = err not_found
known_revision (some r) = ok r.doc

abbrev pub archivable : Team → Bool → List Resource → Result (Unit {0})
archivable stored force [] = if is_archived stored.state then err already_archived else ok tt
archivable stored force (r ∷ rs) =
    if is_archived stored.state
    then err already_archived
    else if force
    then ok tt
    else err (team_has_resources (length (r ∷ rs)))

abbrev pub require_archived : Team → Result (Unit {0})
require_archived stored = if is_archived stored.state then ok tt else err not_archived

module _ (source : TenantsSource) (catalog : Catalog) (actor name : String) where
  unfoldable pub create_in : UnitSpec → String → Tx (Option Team)
  unfolding get_team review check_errors_only write
  create_in doc reason = do
    row ← gets (get_team name)
    lift (absent row)
    findings ← gets (review catalog name doc none)
    lift (check_errors_only findings)
    write actor name doc active reason "create" none

  unfoldable pub create : UnitSpec → String → Tx (Option Team)
  unfolding require_db transaction create_in
  create doc reason = lift (require_db source) >> transaction (create_in doc reason)

  -- A new document over the stored one: `replace` and `revert`.
  unfoldable pub change_in : UnitSpec → String → List String → String → Team → Tx (Option Team)
  unfolding review check_findings require_change write
  change_in doc reason codes action stored = do
    findings ← gets (review catalog name doc (some stored))
    lift (check_findings findings codes)
    lift (require_change stored doc)
    write actor name doc stored.state reason action (some stored)

  unfoldable pub replace_in : UnitSpec → String → List String → Option ℕ → Tx (Option Team)
  unfolding get_team stored_team change_in
  replace_in doc reason codes number = do
    row ← gets (get_team name)
    stored ← lift (stored_team number row)
    change_in doc reason codes "update" stored

  -- Every write but `create` asks for the database, then for the precondition.
  unfoldable pub guarded : Precondition → (Option ℕ → Tx (Option Team)) → Tx (Option Team)
  unfolding require_db given_revision transaction
  guarded if_match body = do
    lift (require_db source)
    number ← lift (given_revision if_match)
    transaction (body number)

  unfoldable pub replace : UnitSpec → String → List String → Precondition → Tx (Option Team)
  unfolding guarded replace_in
  replace doc reason codes if_match = guarded if_match (replace_in doc reason codes)

  unfoldable pub revert_in : ℕ → String → List String → Option ℕ → Tx (Option Team)
  unfolding get_team stored_team revision change_in
  revert_in target reason codes number = do
    row ← gets (get_team name)
    stored ← lift (stored_team number row)
    past ← gets (revision name target)
    doc ← lift (known_revision past)
    change_in doc reason codes "revert" stored

  unfoldable pub revert : ℕ → String → List String → Precondition → Tx (Option Team)
  unfolding guarded revert_in
  revert target reason codes if_match = guarded if_match (revert_in target reason codes)

  unfoldable pub archive_in : String → Bool → Option ℕ → Tx (Option Team)
  unfolding get_team stored_team resources write
  archive_in reason force number = do
    row ← gets (get_team name)
    stored ← lift (stored_team number row)
    live ← gets (resources name)
    lift (archivable stored force live)
    write actor name stored.doc archived reason "archive" (some stored)

  unfoldable pub archive : String → Bool → Precondition → Tx (Option Team)
  unfolding guarded archive_in
  archive reason force if_match = guarded if_match (archive_in reason force)

  unfoldable pub unarchive_in : String → Option ℕ → Tx (Option Team)
  unfolding get_team stored_team review check_errors_only write
  unarchive_in reason number = do
    row ← gets (get_team name)
    stored ← lift (stored_team number row)
    lift (require_archived stored)
    findings ← gets (review catalog name stored.doc (some stored))
    lift (check_errors_only findings)
    write actor name stored.doc active reason "unarchive" (some stored)

  unfoldable pub unarchive : String → Precondition → Tx (Option Team)
  unfolding guarded unarchive_in
  unarchive reason if_match = guarded if_match (unarchive_in reason)
