-- ===== src/Records.antt =====
-- The rows of the operation ledger (app/ledger.py, SCHEMA) as records.
-- The JSON body of a row is a record of the keys that the ledger reads or writes; `other` is the
-- rest of the body, which it only copies. An identifier (`op_`, `res_`, `app_` and the hex digits
-- of a UUID) is the UUID's number; a timestamp is a number of seconds.
use forgeapi_homelab.Prelude.{ℕ, String, Bool, Option, List}
use forgeapi_homelab.Tenants.{UnitSpec}

pub data Action : Type 0 where
  deploy destroy drift_check : Action

pub data State : Type 0 where
  queued planning planned apply_queued applying succeeded failed uncertain : State

pub data Phase : Type 0 where
  plan apply : Phase

-- A stored amount: absent, valid, or anything that `accounting_amount` refuses (a Boolean, a
-- text, a negative or non-finite number). A valid amount is a finite float that is not negative, and
-- each of these is a multiple of 2^-1074: `amount n` is n times that, so 12.5 has an exact value, and
-- the order of amounts is that of the naturals. Their additions are the rounding ones of Config.
pub data Money : Type 0 where
  missing : Money
  amount : ℕ → Money
  corrupt : Money

-- One entry of `input_refs`: the input's name, and the resource and output it is taken from.
pub record InputRef : Type 0 where
  pub name : String
  pub resource_id : ℕ
  pub output : String

-- What validation resolved: the keys of `resolved` that acceptance spreads into the rows.
pub record Resolved : Type 0 where
  pub business_unit : Option String
  pub environment : Option String
  pub pattern : String
  pub estimated_monthly_cost : Money
  pub input_refs : List InputRef
  pub labels : List (String × String)
  pub cloud : Option String
  pub cloud_target : Option (List (String × String))
  pub subscription_id : Option String
  pub previous_operation_id : Option ℕ
  pub promoted_from : Option ℕ
  pub team_revision : Option ℕ
  pub other : String

-- Texts that the ledger writes into `error`.
pub data Failure : Type 0 where
  plan_expired plan_discarded drift_interrupted activity_interrupted : Failure
  reconciled_as_failed : Failure
  reported : String → Failure

pub data Outcome : Type 0 where
  outcome_succeeded outcome_failed : Outcome

pub record Reconciliation : Type 0 where
  pub outcome : Outcome
  pub actor : String
  pub reason : String
  pub at : ℕ

-- A row of `operations`: its columns and the body. The column `state` and the body's `state` are
-- written together by every statement, so one field stands for both.
pub record Operation : Type 0 where
  pub id : ℕ
  pub resource_id : ℕ
  pub actor : String
  pub request_key : String
  pub fingerprint : String
  pub action : Action
  pub state : State
  pub resolved : Resolved
  pub created_at : ℕ
  pub updated_at : ℕ
  pub planned_at : Option ℕ
  pub plan_digest : Option String
  pub previous_estimated_monthly_cost : Option ℕ
  pub planned_objects : Option (List String)
  pub drift : Option (List String)
  pub outputs : Option String
  pub error : Option Failure
  pub discarded : Bool
  pub expired : Bool
  pub reconciliation : Option Reconciliation

pub data ResourceState : Type 0 where
  ready destroyed : ResourceState

pub data DriftStatus : Type 0 where
  in_sync drifted unknown : DriftStatus

-- A row of `resources`. `state` is absent until a first success.
pub record Resource : Type 0 where
  pub id : ℕ
  pub actor : String
  pub operation_id : ℕ
  pub state : Option ResourceState
  pub resolved : Resolved
  pub resource_created_at : Option ℕ
  pub managed_objects : Option (List String)
  pub outputs : Option String
  pub drift_status : Option DriftStatus
  pub drift_checked_at : Option ℕ
  pub drift : Option (List String)
  pub drift_error : Option String

-- The column `operation_id` of `events` names an operation, an app or nothing.
pub data Subject : Type 0 where
  no_subject : Subject
  operation app : ℕ → Subject

-- The columns `action` and `outcome`: fixed texts, and the state that an operation reached.
pub data EventAction : Type 0 where
  operation_create operation_execute operation_expire operation_discard : EventAction
  operation_reconcile operation_state : EventAction
  app_create app_approve app_failover app_destroy app_router app_teardown app_state : EventAction
  named : String → EventAction

pub data EventOutcome : Type 0 where
  accepted refused : EventOutcome
  reached : State → EventOutcome

-- A row of `events`. `seq` is the row's place in the table.
pub record Event : Type 0 where
  pub subject : Subject
  pub actor : String
  pub action : EventAction
  pub outcome : EventOutcome
  pub timestamp : ℕ

pub record Member : Type 0 where
  pub index : ℕ
  pub operation_id : ℕ
  pub resource_id : ℕ

pub record Failover : Type 0 where
  pub operation_id : ℕ
  pub primary : ℕ
  pub key : String
  pub fingerprint : String

pub record Teardown : Type 0 where
  pub key : String
  pub fingerprint : String
  pub actor : String
  pub caller_groups : List String
  pub router : Option ℕ
  pub replicas : Option (List ℕ)
  pub error : Option String

pub record TeardownEntry : Type 0 where
  pub key : String
  pub fingerprint : String
  pub router : Option ℕ

-- What the request fixes of an app (`base`). `initial_primary` is the replica behind the router's
-- `primary_*` reference.
pub record AppBase : Type 0 where
  pub name : String
  pub business_unit : Option String
  pub environment : Option String
  pub caller_groups : List String
  pub initial_primary : ℕ
  pub other : String

-- A row of `apps`. A list that a row stored before its feature existed lacks is empty.
pub record App : Type 0 where
  pub id : ℕ
  pub actor : String
  pub request_key : String
  pub fingerprint : String
  pub base : AppBase
  pub members : List Member
  pub router_operation_id : Option ℕ
  pub router_resource_id : Option ℕ
  pub router_operations : List ℕ
  pub primary : ℕ
  pub failovers : List Failover
  pub teardowns : ℕ
  pub teardown : Option Teardown
  pub teardown_history : List TeardownEntry
  pub error : Option String
  pub created_at : ℕ
  pub updated_at : ℕ

pub data TeamState : Type 0 where
  active archived : TeamState

-- A row of `teams`, and one of `team_revisions`; `summary_action` is `summary["action"]`.
pub record Team : Type 0 where
  pub name : String
  pub revision : ℕ
  pub state : TeamState
  pub doc : UnitSpec
  pub created_at : ℕ
  pub created_by : String
  pub updated_at : ℕ
  pub updated_by : String

pub record TeamRevision : Type 0 where
  pub name : String
  pub revision : ℕ
  pub actor : String
  pub at : ℕ
  pub reason : String
  pub state : TeamState
  pub doc : UnitSpec
  pub summary_action : String

-- The tables of the ledger, in the order of their rows.
pub record Db : Type 0 where
  pub teams : List Team
  pub team_revisions : List TeamRevision
  pub operations : List Operation
  pub resources : List Resource
  pub apps : List App
  pub events : List Event
