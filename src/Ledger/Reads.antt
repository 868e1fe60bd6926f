-- ===== src/Ledger/Reads.antt =====
-- Reads of apps and of the audit trail (app/ledger.py: `replay_app`, `app_for_resource`,
-- `record_app_event`, `events`; app/contracts.py: `_change_summary`).
use forgeapi_homelab.Prelude.{
  ℕ, suc, String, Bool, false, Option, none, some, List, [], ◌∷◌, ◌==◌, ◌&&◌, ◌||◌, not, any,
  opt_eq, nat_eq, ltb, take, str_mem, if◌then◌else◌,
}
use forgeapi_homelab.Records.{App, Event, EventAction, EventOutcome, Subject}
use forgeapi_homelab.Config.{Config}
use forgeapi_homelab.Tx.{Tx, World, event, transaction}
use forgeapi_homelab.Ledger.Rollouts.{replay_app_row}

unfoldable pub replay_app : Config → String → String → String → Tx (Option App)
unfolding replay_app_row transaction
replay_app cfg actor key body = transaction (replay_app_row actor key (cfg.fingerprint body))

abbrev pub owns_resource : ℕ → App → Bool
owns_resource rid a =
    opt_eq nat_eq a.router_resource_id (some rid) || any (λ m. m.resource_id == rid) a.members

unfoldable pub first_owner : ℕ → List App → Option App
unfolding any
first_owner rid [] = none
first_owner rid (a ∷ apps) = if owns_resource rid a then some a else first_owner rid apps

unfoldable pub app_for_resource : ℕ → World → Option App
unfolding first_owner
app_for_resource rid w = first_owner rid w.db.apps

unfoldable pub record_app_event : ℕ → String → EventAction → EventOutcome → Tx (Unit {0})
unfolding event transaction
record_app_event app_id actor action outcome =
    transaction (event (Subject.app app_id) actor action outcome)

-- `operation_id=?`, with the id of an operation or of an app.
abbrev pub is_about : Subject → Subject → Bool
is_about (Subject.operation m) (Subject.operation n) = n == m
is_about (Subject.app m) (Subject.app n) = n == m
is_about _ _ = false

-- The rows after `after`; `seq` is the number of the first row that is left.
unfoldable pub events_from : Subject → ℕ → ℕ → List Event → List Event
events_from id after seq [] = []
events_from id after seq (e ∷ es) =
    let rest = events_from id after (suc seq) es in
    if is_about id e.subject && ltb after seq then e ∷ rest else rest

unfoldable pub events : Subject → ℕ → ℕ → World → List Event
unfolding events_from take
events id after limit w = take limit (events_from id after 1 w.db.events)

pub record Counts : Type 0 where
  pub create : ℕ
  pub update : ℕ
  pub delete : ℕ
  pub replace : ℕ

-- One entry's actions.
abbrev pub counted : List String → Counts → Counts
counted actions c =
    if str_mem "create" actions && str_mem "delete" actions
    then record c { replace = suc c.replace }
    else if str_mem "create" actions
    then record c { create = suc c.create }
    else if str_mem "delete" actions
    then record c { delete = suc c.delete }
    else if str_mem "update" actions
    then record c { update = suc c.update }
    else c

unfoldable pub count_changes : List (List String) → Counts → Counts
unfolding str_mem
count_changes [] c = c
count_changes (actions ∷ changes) c = count_changes changes (counted actions c)

abbrev pub no_changes : Counts
no_changes = record { create = 0; update = 0; delete = 0; replace = 0 }

-- The counts, and whether a change destroys an object.
unfoldable pub change_summary : Option (List (List String)) → Option (Counts × Bool)
unfolding count_changes
change_summary none = none
change_summary (some changes) =
    let c = count_changes changes no_changes in
    some (c, not (c.delete == 0) || not (c.replace == 0))
