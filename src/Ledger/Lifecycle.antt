-- ===== src/Ledger/Lifecycle.antt =====
-- The life of an operation, described apart from the methods of app/ledger.py: which state may
-- follow which, and the two ways in which a method may change the table `operations`.
pub mod Table
pub mod Evolution
pub mod Release
pub mod Execution
pub mod Progress
pub mod Acceptance
pub mod History
pub mod Claims
pub mod Fence
pub mod Locks
use forgeapi_homelab.Prelude.{
  ℕ, ◌<◌, String, ◌≡◌, Bool, true, false, none, some, List, [], ◌∷◌, ◌++◌, arith,
}
use forgeapi_homelab.Records.{
  State, queued, planning, planned, apply_queued, applying, succeeded, failed, uncertain, Operation,
}
use forgeapi_homelab.Tables.{find, update}
use forgeapi_homelab.Ledger.Rows.{op_key, is_active}
use forgeapi_homelab.Ledger.Acceptance.{find_busy}

-- The transition diagram.
abbrev pub follows : State → State → Bool
follows queued planning = true
follows queued failed = true
follows queued uncertain = true
follows planning planned = true
follows planning succeeded = true
follows planning failed = true
follows planning uncertain = true
follows planned apply_queued = true
follows planned failed = true
follows apply_queued applying = true
follows apply_queued failed = true
follows apply_queued uncertain = true
follows applying succeeded = true
follows applying failed = true
follows applying uncertain = true
follows uncertain succeeded = true
follows uncertain failed = true
follows _ _ = false

-- How far an operation has come.
abbrev pub rank : State → ℕ
rank queued = 0
rank planning = 1
rank planned = 2
rank apply_queued = 3
rank applying = 4
rank uncertain = 5
rank succeeded = 6
rank failed = 6

pub follows-rank : (s t : State) → follows s t ≡ true → rank s < rank t
follows-rank queued _ h = ground arith
follows-rank planning _ h = ground arith
follows-rank planned _ h = ground arith
follows-rank apply_queued _ h = ground arith
follows-rank applying _ h = ground arith
follows-rank uncertain _ h = ground arith
follows-rank succeeded _ h = ground arith
follows-rank failed _ h = ground arith

pub follows-is_active : (s t : State) → follows s t ≡ true → is_active s ≡ true
follows-is_active succeeded t h = ground arith
follows-is_active failed t h = ground arith
follows-is_active _ t h = ground arith

-- What acceptance fixes for good.
pub record SameRequest (o p : Operation) : Type 0 where
  pub id : p.id ≡ o.id
  pub resource_id : p.resource_id ≡ o.resource_id
  pub actor : p.actor ≡ o.actor
  pub request_key : p.request_key ≡ o.request_key
  pub fingerprint : p.fingerprint ≡ o.fingerprint
  pub action : p.action ≡ o.action
  pub resolved : p.resolved ≡ o.resolved
  pub created_at : p.created_at ≡ o.created_at
  pub previous_estimated_monthly_cost :
      p.previous_estimated_monthly_cost ≡ o.previous_estimated_monthly_cost

pub data Step (ops : List Operation) : List Operation → Type 0 where
  admitted :
      (op : Operation)
      → op.state ≡ queued
      → find op_key op.id ops ≡ none
      → find_busy op.resource_id ops ≡ none
      → Step ops (ops ++ op ∷ [])
  moved :
      (o p : Operation)
      → find op_key o.id ops ≡ some o
      → SameRequest o p
      → follows o.state p.state ≡ true
      → Step ops (update op_key p ops)

pub data Steps (a : List Operation) : List Operation → Type 0 where
  here : Steps a a
  next : {b c : List Operation} → Steps a b → Step b c → Steps a c

pub Steps-trans : {a b c : List Operation} → Steps a b → Steps b c → Steps a c
Steps-trans s here = s
Steps-trans s (next t u) = next (Steps-trans s t) u
