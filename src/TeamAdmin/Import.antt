-- ===== src/TeamAdmin/Import.antt =====
-- The import of a tenants file (app/team_admin.py: `_plan_import`, `_check_expected`,
-- `import_teams`). The parsed file is an argument: its teams, each name once, and what the parser
-- found. The report is a view of the plan and is left out.
use forgeapi_homelab.Prelude.{
  ℕ, String, Bool, true, Option, none, some, List, [], ◌∷◌, ◌++◌, map, not, str_eq, opt_eq, nat_eq,
  or_else, is_some, if◌then◌else◌,
}
use forgeapi_homelab.Refusals.{
  Result, ok, err, revision_stale, expected_revisions_required, reason_required,
}
use forgeapi_homelab.Records.{Team, TeamState, active}
use forgeapi_homelab.Tenants.{UnitSpec}
use forgeapi_homelab.CloudTargets.{is_blank}
use forgeapi_homelab.Config.{TenantsSource}
use forgeapi_homelab.Tx.{Tx, World, pure, lift, gets, raise_if, ◌>>=◌, ◌>>◌, transaction}
use forgeapi_homelab.Ledger.Placement.{team_named}
use forgeapi_homelab.Teams.{get_team, resources, write}
use forgeapi_homelab.TeamCheck.{Finding, Catalog, check_team}
use forgeapi_homelab.TeamAdmin.{require_db, previous_doc, doc_eq, check_findings}

-- A parsed file's team.
abbrev pub Parsed : Type 0
Parsed = String × UnitSpec

pub record Entry : Type 0 where
  pub name : String
  pub doc : UnitSpec
  pub stored : Option Team
  pub findings : List Finding

unfoldable pub doc_in : String → List Parsed → Option UnitSpec
doc_in name [] = none
doc_in name ((n, doc) ∷ units) = if str_eq n name then some doc else doc_in name units

-- The documents as they would be after the import.
unfoldable pub stored_docs : List Parsed → List Team → List Parsed
unfolding doc_in
stored_docs units [] = []
stored_docs units (t ∷ ts) = (t.name, or_else (doc_in t.name units) t.doc) ∷ stored_docs units ts

unfoldable pub new_docs : List Parsed → List Team → List Parsed
unfolding team_named
new_docs [] teams = []
new_docs ((n, doc) ∷ units) teams =
    let rest = new_docs units teams in
    if is_some (team_named n teams) then rest else (n, doc) ∷ rest

abbrev pub entry_for : Catalog → List Parsed → World → Parsed → Entry
entry_for catalog final w (name, doc) = record {
  name = name;
  doc = doc;
  stored = get_team name w;
  findings = check_team catalog name doc (previous_doc (get_team name w)) final (resources name w);
}

abbrev pub final_docs : List Parsed → List Team → List Parsed
final_docs units teams = stored_docs units teams ++ new_docs units teams

unfoldable pub plan_import : Catalog → List Parsed → World → List Entry
unfolding stored_docs new_docs get_team check_team resources
plan_import catalog units w = map (entry_for catalog (final_docs units w.db.teams) w) units

-- `action != "unchanged"`.
abbrev pub changes_row : Option Team → UnitSpec → Bool
changes_row none doc = true
changes_row (some t) doc = not (doc_eq t.doc doc)

abbrev pub is_changing : Entry → Bool
is_changing e = changes_row e.stored e.doc

abbrev pub Expected : Type 0
Expected = List (String × Option ℕ)

unfoldable pub expected_of : String → Expected → Option (Option ℕ)
expected_of name [] = none
expected_of name ((n, number) ∷ rest) = if str_eq n name then some number else expected_of name rest

abbrev pub expect : Bool → Option Team → Option (Option ℕ) → Result (Unit {0})
expect changing none number = ok tt
expect changing (some t) none = if changing then err expected_revisions_required else ok tt
expect changing (some t) (some number) =
    if opt_eq nat_eq number (some t.revision) then ok tt else err (revision_stale t.revision)

abbrev pub first_error : Result (Unit {0}) → Result (Unit {0}) → Result (Unit {0})
first_error (ok u) rest = rest
first_error (err e) rest = err e

unfoldable pub check_expected : Expected → List Entry → Result (Unit {0})
unfolding expected_of doc_eq
check_expected expected [] = ok tt
check_expected expected (e ∷ es) =
    first_error (expect (is_changing e) e.stored (expected_of e.name expected))
      (check_expected expected es)

-- The findings on the teams that change; an unchanged team's never block.
unfoldable pub changing_findings : List Entry → List Finding
unfolding doc_eq
changing_findings [] = []
changing_findings (e ∷ es) =
    let rest = changing_findings es in if is_changing e then e.findings ++ rest else rest

abbrev pub state_after : Option Team → TeamState
state_after none = active
state_after (some t) = t.state

module _ (actor reason : String) where
  abbrev pub write_entry : Entry → Tx (Unit {0})
  write_entry e =
      if is_changing e
      then write actor e.name e.doc (state_after e.stored) reason "import" e.stored >> pure tt
      else pure tt

  unfoldable pub write_each : List Entry → Tx (Unit {0})
  unfolding doc_eq write
  write_each [] = pure tt
  write_each (e ∷ es) = do write_entry e; write_each es

module _ (source : TenantsSource) (catalog : Catalog) (actor reason : String) where
  unfoldable pub import_in : List Parsed → List Finding → Expected → List String → Tx (Unit {0})
  unfolding plan_import check_expected changing_findings check_findings write_each
  import_in units file_findings expected codes = do
    plan ← gets (plan_import catalog units)
    lift (check_expected expected plan)
    lift (check_findings (changing_findings plan ++ file_findings) codes)
    write_each actor reason plan

  -- `import_teams` with `apply`; without it nothing is written.
  unfoldable pub import_teams : List Parsed → List Finding → Expected → List String → Tx (Unit {0})
  unfolding require_db is_blank transaction import_in
  import_teams units file_findings expected codes = do
    lift (require_db source)
    raise_if (is_blank reason) reason_required
    transaction (import_in units file_findings expected codes)
