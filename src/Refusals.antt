-- ===== src/Refusals.antt =====
-- What a request is refused with: the exceptions of app/contracts.py and app/tenants.py as values.
-- A comment names the HTTP status.
use forgeapi_homelab.Prelude.{ℕ, String}

pub data Refusal : Type 0 where
  idempotency_key_reused : Refusal  -- 409
  placement_stale : Refusal  -- 409
  resource_busy : ℕ → Refusal  -- 409, with the blocking operation
  resource_changed : Refusal  -- 409
  resource_not_ready : Refusal  -- 409
  budget_exceeded : Refusal  -- 403
  resource_referenced : Refusal  -- 409
  reference_not_ready : String → Refusal  -- 409, with what is wrong
  invalid_accounting : Refusal  -- 503
  plan_digest_mismatch : Refusal  -- 409
  operation_not_planned : Refusal  -- 409
  plan_expired : ℕ → Refusal  -- 409, with the expired operation
  already_reconciled : Refusal  -- 409
  operation_not_uncertain : Refusal  -- 409
  never_executed : Refusal  -- 409
  cloud_not_available : Refusal  -- 422
  placement_changed : Refusal  -- 409
  tenancy_error : ℕ → Refusal  -- a `TenancyError`, with its status
  app_gate_mismatch : Refusal  -- 409
  app_discard_unavailable : Refusal  -- 409
  app_member : Refusal  -- 409
  not_found : Refusal  -- 404
  tenants_source_file : Refusal  -- 409
  if_match_required : Refusal  -- 428
  revision_stale : ℕ → Refusal  -- 412, with the current revision
  team_exists : Refusal  -- 409
  team_unchanged : Refusal  -- 409
  team_invalid : Refusal  -- 422
  warnings_not_acknowledged : Refusal  -- 409
  already_archived : Refusal  -- 409
  not_archived : Refusal  -- 409
  team_has_resources : ℕ → Refusal  -- 409, with how many
  expected_revisions_required : Refusal  -- 428
  reason_required : Refusal  -- 422
  promotion_needs_refs : Refusal  -- 422
  too_many_labels : Refusal  -- 422
  policy_denied : Refusal  -- 403
  team_archived : Refusal  -- 409
  operator_required : Refusal  -- 403
  catalog_unavailable : Refusal  -- a `CatalogError`
  internal_error : Refusal  -- an exception that the source does not handle

pub data Result (A : Type 0) : Type 0 where
  ok : A → Result A
  err : Refusal → Result A
