-- ===== src/Examples/Teams.antt =====
-- An operator's team, on small inputs.
use forgeapi_homelab.Prelude.{◌≡◌, refl, true, none, some, Option, [], ◌∷◌, any, select}
use forgeapi_homelab.Refusals.{ok}
use forgeapi_homelab.Records.{Resource, Team, active}
use forgeapi_homelab.Tenants.{UnitSpec, Environment, environment_named}
use forgeapi_homelab.Config.{TenantsSource, database}
use forgeapi_homelab.Tx.{World, ◌>>=◌}
use forgeapi_homelab.Teams.{get_team, resources, find_revision}
use forgeapi_homelab.Ledger.Placement.{team_named}
use forgeapi_homelab.TeamCheck.{Catalog, same_placement}
use forgeapi_homelab.TeamAdmin.{create, replace}
use forgeapi_homelab.TeamAdmin.Access.{replace_safe}
use forgeapi_homelab.TeamAdmin.Imported.{InOrder}
use forgeapi_homelab.TeamAdmin.History.{
  no_call, then_call, call_create, call_replace, Administered-InOrder,
}
use forgeapi_homelab.Examples.{network, fresh, web_team, test_environment, reserved}

abbrev operators : TenantsSource
operators = database

abbrev quiet : Catalog
quiet = record { findings = λ name doc others. []; float_sum = λ amounts. some 0 }

abbrev wider : UnitSpec
wider = record (web_team.spec) { patterns = "network" ∷ "site" ∷ [] }

abbrev staffed : World
staffed = (create operators quiet "op" "web" web_team.spec "new team" fresh).1

-- A resource of the team in its environment.
abbrev settled_resource : Resource
settled_resource = record reserved {
  resolved = record network { business_unit = some "web"; environment = some "test" };
}

abbrev occupied : World
occupied = record staffed { db = record (staffed.db) { resources = settled_resource ∷ [] } }

abbrev web_row : Team
web_row = record {
  name = "web";
  revision = 1;
  state = active;
  doc = web_team.spec;
  created_at = 100;
  created_by = "op";
  updated_at = 100;
  updated_by = "op";
}

web-stored : get_team "web" occupied ≡ some web_row
unfolding get_team create ◌>>=◌
web-stored = refl

abbrev widened : Option Team
widened = some (record web_row { revision = 2; doc = wider })

wider-reply :
    (replace operators quiet "op" "web" wider "more" [] (some (some 1)) occupied).0 ≡ ok widened
unfolding replace create get_team ◌>>=◌
wider-reply = refl

fresh-InOrder : InOrder fresh
unfolding team_named find_revision
fresh-InOrder = record {
  current = λ n t f. cc;
  gapless = λ n t k f. cc;
  latest = λ n t k f. cc;
  unnamed = λ n k f. refl;
}

kept_place :
    (some (some 1) ≡ some (some web_row.revision))
    × (e : Environment) × (environment_named "test" wider.environments ≡ some e)
    × (same_placement none test_environment e ≡ true)
unfolding any environment_named resources select
kept_place =
    replace_safe operators quiet "op" "web" wider "more" [] (some (some 1)) occupied web_row widened
      "test" none test_environment web-stored refl refl wider-reply

two_writes : InOrder (replace operators quiet "op" "web" wider "more" [] (some (some 1)) staffed).1
two_writes = Administered-InOrder operators quiet fresh-InOrder (
    then_call (then_call no_call (call_create "op" "web" web_team.spec "new team"))
      (call_replace "op" "web" wider "more" [] (some (some 1))))
