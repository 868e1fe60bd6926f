-- ===== src/Teams.antt =====
-- The rows of teams and their revisions (app/team_store.py).
use Prim.Native.String.{◌++◌ as str_append}
use forgeapi_homelab.Prelude.{
  ℕ, ◌+◌, String, Bool, Option, none, some, List, [], ◌∷◌, ◌++◌, ◌==◌, ◌&&◌, not, select, str_eq,
  opt_str_eq, is_some, min, max, ltb, if◌then◌else◌,
}
use forgeapi_homelab.Records.{Team, TeamRevision, TeamState, Resource, Subject, accepted, named}
use forgeapi_homelab.Refusals.{internal_error, ok, err}
use forgeapi_homelab.Tenants.{UnitSpec}
use forgeapi_homelab.Tx.{Tx, World, gets, raise_if, event, ◌>>=◌, ◌>>◌}
use forgeapi_homelab.Keys.{str}
use forgeapi_homelab.Ledger.Placement.{team_named, is_archived}
use forgeapi_homelab.Ledger.Accounting.{is_destroyed}

unfoldable pub get_team : String → World → Option Team
unfolding team_named
get_team name w = team_named name w.db.teams

abbrev pub is_revision : String → ℕ → TeamRevision → Bool
is_revision name number r = str_eq r.name name && r.revision == number

unfoldable pub find_revision : String → ℕ → List TeamRevision → Option TeamRevision
find_revision name number [] = none
find_revision name number (r ∷ rs) =
    if is_revision name number r then some r else find_revision name number rs

unfoldable pub revision : String → ℕ → World → Option TeamRevision
unfolding find_revision
revision name number w = find_revision name number w.db.team_revisions

unfoldable pub all_resources : World → List Resource
unfolding select
all_resources w = select (λ r. not (is_destroyed r.state)) w.db.resources

unfoldable pub resources : String → World → List Resource
unfolding all_resources select
resources name w = select (λ r. opt_str_eq r.resolved.business_unit (some name)) (all_resources w)

abbrev pub next_number : Option Team → ℕ
next_number none = 1
next_number (some t) = t.revision + 1

-- `team.<action> <name> r<number>`.
unfoldable pub write_text : String → String → ℕ → String
unfolding str
write_text action name number =
    str_append "team."
      (str_append action (str_append " " (str_append name (str_append " r" (str number)))))

unfoldable pub update_team : ℕ → TeamState → UnitSpec → ℕ → String → String → List Team → List Team
update_team number state doc at actor name [] = []
update_team number state doc at actor name (t ∷ ts) =
    let rest = update_team number state doc at actor name ts in
    (if str_eq t.name name
      then record t {
        revision = number;
        state = state;
        doc = doc;
        updated_at = at;
        updated_by = actor;
      }
      else t)
    ∷ rest

abbrev pub new_team : String → ℕ → TeamState → UnitSpec → ℕ → String → Team
new_team name number state doc at actor = record {
  name = name;
  revision = number;
  state = state;
  doc = doc;
  created_at = at;
  created_by = actor;
  updated_at = at;
  updated_by = actor;
}

unfoldable pub set_teams : List Team → Tx (Unit {0})
set_teams teams w = (ok tt, record w { db = record w.db { teams = teams } })

-- `INSERT INTO team_revisions`; its primary key is the name and the number.
unfoldable pub insert_revision : TeamRevision → Tx (Unit {0})
unfolding find_revision
insert_revision r w =
    if is_some (find_revision r.name r.revision w.db.team_revisions)
    then (err internal_error, w)
    else (ok tt, record w { db = record w.db { team_revisions = w.db.team_revisions ++ r ∷ [] } })

-- The team's row: `UPDATE` where there was one, else `INSERT`, whose primary key is the name.
abbrev pub write_row : Option Team → ℕ → TeamState → UnitSpec → ℕ → String → String → Tx (Unit {0})
write_row (some previous) number state doc at actor name = do
  teams ← gets (λ w. w.db.teams)
  set_teams (update_team number state doc at actor name teams)
write_row none number state doc at actor name = do
  teams ← gets (λ w. w.db.teams)
  raise_if (is_some (team_named name teams)) internal_error
  set_teams (teams ++ new_team name number state doc at actor ∷ [])

-- `write`, inside the caller's transaction; `action` is `summary["action"]`.
unfoldable pub write :
    String → String → UnitSpec → TeamState → String → String → Option Team → Tx (Option Team)
unfolding write_text event update_team set_teams team_named insert_revision get_team
write actor name doc state reason action previous = do
  event Subject.no_subject actor (named (write_text action name (next_number previous))) accepted
  at ← gets (λ w. w.clock)
  write_row previous (next_number previous) state doc at actor name
  insert_revision (record {
    name = name;
    revision = next_number previous;
    actor = actor;
    at = at;
    reason = reason;
    state = state;
    doc = doc;
    summary_action = action;
  })
  gets (get_team name)

-- `archived_since`: when the team's current archived run began, the first revision after the last
-- one that was not archived.
unfoldable pub last_active : String → List TeamRevision → ℕ
last_active name [] = 0
last_active name (r ∷ rs) =
    let rest = last_active name rs in
    if str_eq r.name name && not (is_archived r.state) then max r.revision rest else rest

abbrev pub earlier : ℕ → Option ℕ → Option ℕ
earlier at none = some at
earlier at (some b) = some (min at b)

unfoldable pub first_after : String → ℕ → List TeamRevision → Option ℕ
first_after name number [] = none
first_after name number (r ∷ rs) =
    let rest = first_after name number rs in
    if str_eq r.name name && ltb number r.revision then earlier r.at rest else rest

abbrev pub archived_run : Option Team → List TeamRevision → Option ℕ
archived_run none rs = none
archived_run (some t) rs =
    if is_archived t.state then first_after t.name (last_active t.name rs) rs else none

unfoldable pub archived_since : String → World → Option ℕ
unfolding get_team last_active first_after
archived_since name w = archived_run (get_team name w) w.db.team_revisions
