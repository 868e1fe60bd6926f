-- ===== src/Lib.antt =====
-- The operation ledger of ForgeAPI and the parts of the platform that decide through it.
--
-- ForgeAPI deploys Terraform patterns. A request is accepted as an operation on a resource, a worker
-- plans it, a person approves the plan by its digest, a worker applies it. The ledger
-- (app/ledger.py, SQLite) is where callers, workers, operators, app workflows and the drift sweep
-- meet: each calls a method of it, and each method is one transaction.
--
-- The model and the code:
--   Records, Tables, Tx, Ledger/Rows: the tables of app/ledger.py as lists of records, its
--     transactions (`connect`) as functions from a world to a reply and a world. A raise rolls the
--     tables back and keeps what was done to the plan files.
--   Ledger/Acceptance, Accounting, References, Placement: `accept` with its replay, its placement
--     check, the busy rule, the budget and the references between resources.
--   Ledger/Execution, Release, Progress: `execute`, `execute_many`, `discard`, `claim`, `finish`,
--     `interrupted`, `reconcile`.
--   Ledger/Rollouts, Teardowns: apps, their routers, failovers and teardowns.
--   Ledger/Queries, Reads: the listings, the audit trail, the counts of a plan's changes.
--   Ledger/Lifecycle: the diagram of an operation's states, the relation `Step` on the table
--     `operations`, and `Call`, one call of a client; `Reach` is any sequence of them.
--   Keys: the idempotency keys that the platform derives (`system_key`).
--   Apps, Rollout: the derived state of an app (app/apps.py), and what its workflow asks
--     (app/app_activities.py).
--   Activities: the worker's run of one phase (app/operation_activities.py).
--   Drift: the sweep of app/drift.py.
--   Tenants, CloudTargets: who may deploy where (app/tenants.py, app/cloud_targets.py).
--   Teams: the rows of teams and their revisions (app/team_store.py).
--   Ledger/Audit: the audit trail next to the tables that it tells of; Ledger/Budgets: the limit
--     of an accepted deploy; Ledger/Checks, Entries, Reservations: what
--     acceptance has checked, what it stores of the amount before it, and what a discard gives back.
--   Policy: `authorize`, `authorize_reconcile`, `check_guardrails` (app/policy.py). Requests: approving,
--     discarding and reconciling an operation through its route (app/main.py), and a caller's drift
--     check (app/drift.py); approving and discarding an app (app/apps.py).
--   TeamCheck, TeamAdmin: the checks of a new team document against the resources that exist
--     (app/team_check.py), and the operators' writes and imports with their preconditions
--     (app/team_admin.py).
--   Placements: what a caller may set and what the platform injects (app/placement.py).
--   Promotions: the intent that a promotion submits (app/promotion.py).
--   Costs: a resource's reserved estimate, rebuilt from its operations (app/cost_history.py), against
--     what the ledger writes.
--   Workflows: the loops that wait for an app, and the workflow of one phase
--     (app/operation_workflow.py).
--   Examples: the operations on a small deployment.
--
-- Bounds and fuel: the loops over lists are structural recursion. The printing of a number as text
-- (Keys) runs on fuel: one step for each digit of a UUID, and one more than the number itself for a
-- decimal. The loops of Workflows run on fuel, one unit for each cycle. A week of waiting is 720
-- pauses of 5 seconds and 20040 of 30 seconds; one cycle is left for the end, and a cycle whose
-- acceptance went through does not pause.
--
-- Parameters: SHA-256 of a request, the UUIDs drawn and the settings are fields of Config; UUIDs that
-- are drawn are taken to be distinct where a theorem says so. An amount of money is a finite
-- float that is not negative, kept as a multiple of 2^-1074, so that the order of amounts is exact;
-- Python's `+` and `sum` on amounts, which round, are fields of Config (and `sum` of
-- TeamCheck.Catalog), and the subtraction of Costs is a parameter. A whole number that no float
-- holds has no counterpart. Terraform's commands are arguments of the worker's run; of
-- `terraform.prepare` the removal of the saved plan is modelled. Of the catalog of
-- patterns, Policy.Catalog gives a pattern's cloud and TeamCheck.Catalog the findings on a team's
-- document alone; what Temporal's activities return is an argument of the workflow loops.
--
-- Not modelled: HTTP and its schemas, authentication, the validation of an intent and what needs it
-- (the acceptance of promotions and of apps), the catalog of patterns, the Terraform runner,
-- Temporal, the parsing of a tenants file, and the legacy API. A request's reads and its write are
-- transactions of their own in the source; Requests lets no other call come between them.
mod Prelude
pub mod Refusals
pub mod Tenants
pub mod CloudTargets
pub mod Records
pub mod Tx
pub mod Tables
pub mod Config
pub mod Keys
pub mod Ledger
pub mod Apps
pub mod Activities
pub mod Drift
pub mod Rollout
mod Examples
pub mod Teams
pub mod Costs
pub mod Workflows
pub mod TeamCheck
pub mod TeamAdmin
pub mod Policy
pub mod Placements
pub mod Promotions
pub mod Requests
