-- ===== src/Ledger/Checks.antt =====
-- What a request that acceptance let through has passed (app/ledger.py, `_accept`).
use mathlib.Core.Bool.{false≢true}
use forgeapi_homelab.Prelude.{
  ℕ, ◌≤◌, Bool, true, false, ◌≡◌, refl, sym, subst, ◌∙◌, Option, some, ◌&&◌, max, arith, ltb,
}
use forgeapi_homelab.Refusals.{Refusal, ok, budget_exceeded, resource_referenced}
use forgeapi_homelab.Records.{Resource, Resolved, Action, deploy, destroy, drift_check}
use forgeapi_homelab.Config.{Config}
use forgeapi_homelab.Tx.{World, gets, pure, ◌>>=◌, ◌>>◌, raise_if}
use forgeapi_homelab.Tx.Replies.{lift-returned, guard-returned, read-returned}
use forgeapi_homelab.Ledger.Rows.{is_deploy, is_destroy}
use forgeapi_homelab.Ledger.Accounting.{accounting_amount, reserved_in, total_with}
use forgeapi_homelab.Ledger.Acceptance.{
  Intent, Budget, check_budget, costs, check_request, stored_cost,
}
use forgeapi_homelab.Ledger.Frames.{costs-Keeps, check_budget-Keeps, check_references-Keeps}
use forgeapi_homelab.Ledger.References.{referenced, check_references}

raise_if-returned :
    (c : Bool) (e : Refusal) (w : World) (x : Unit {0}) → (raise_if c e w).0 ≡ ok x → c ≡ false
unfolding raise_if
raise_if-returned true e w x h = cc
raise_if-returned false e w x h = refl

-- What a budget check that returned has checked.
pub record Checked (cfg : Config) (resolved : Resolved) (rid : ℕ) (b : Budget) (reserved : ℕ)
    (w : World) : Type 0 where
  pub used : ℕ
  pub legacy : ℕ
  pub total : ℕ
  pub besides :
      reserved_in cfg resolved.business_unit resolved.environment (some rid) w.db.resources
      ≡ ok used
  pub committed : accounting_amount b.legacy_committed ≡ ok legacy
  pub added : total_with cfg used legacy reserved ≡ ok total
  pub bounded : total ≤ b.limit

check_budget-returned :
    (cfg : Config) (resolved : Resolved) (rid : ℕ) (b : Budget) (p r : ℕ) (w : World) (x : Unit {0})
    → (check_budget cfg resolved rid (some b) (some (p, r)) w).0 ≡ ok x
    → Checked cfg resolved rid b (max p r) w
unfolding check_budget ◌>>=◌
check_budget-returned cfg resolved rid b p r w x e =
    let (used, u, f) =
      lift-returned
        (reserved_in cfg resolved.business_unit resolved.environment (some rid) w.db.resources) _ w
        x e in
    let (legacy, l, g) = lift-returned (accounting_amount b.legacy_committed) _ w x f in
    let (total, t, h) = lift-returned (total_with cfg used legacy (max p r)) _ w x g in
    let passed = raise_if-returned (ltb b.limit total) budget_exceeded w x h in
    record {
      used = used;
      legacy = legacy;
      total = total;
      besides = u;
      committed = l;
      added = t;
      bounded = ground (arith, passed);
    }

costs-deploy :
    (a : Action) (previous : Option Resource) (resolved : Resolved) (w : World)
    (amounts : Option (ℕ × ℕ))
    → is_deploy a ≡ true
    → (costs a previous resolved w).0 ≡ ok amounts
    → (p : ℕ) × (r : ℕ) × (amounts ≡ some (p, r))
      × (accounting_amount resolved.estimated_monthly_cost ≡ ok r)
      × (accounting_amount (stored_cost previous) ≡ ok p)
unfolding costs ◌>>=◌
costs-deploy deploy previous resolved w amounts d e =
    let (p, f, g) = lift-returned (accounting_amount (stored_cost previous)) _ w amounts e in
    let (r, h, k) =
      lift-returned (accounting_amount resolved.estimated_monthly_cost) _ w amounts g in
    (p, r, sym (cc), h, f)
costs-deploy destroy previous resolved w amounts d e = absurd (false≢true d)
costs-deploy drift_check previous resolved w amounts d e = absurd (false≢true d)

returned_amounts :
    (intent : Intent) (resolved : Resolved) (rid : ℕ) (am : Option (ℕ × ℕ)) (w : World)
    (amounts : Option (ℕ × ℕ))
    → ((do
      used ← gets (λ w. referenced rid w.db.resources)
      raise_if (is_destroy intent.action && used) resource_referenced
      check_references resolved.input_refs
      pure am)
        w).0
      ≡ ok amounts
    → am ≡ amounts
unfolding ◌>>=◌
returned_amounts intent resolved rid am w amounts e =
    let (c, f) =
      guard-returned (is_destroy intent.action && referenced rid w.db.resources) _ _ w amounts e in
    let (x, g, h) =
      read-returned (check_references resolved.input_refs) _ w amounts
        (check_references-Keeps resolved.input_refs) f in
    cc

pub check_request-Checked :
    (cfg : Config) (intent : Intent) (resolved : Resolved) (b : Budget) (rid : ℕ)
    (previous : Option Resource) (w : World) (amounts : Option (ℕ × ℕ))
    → is_deploy intent.action ≡ true
    → (check_request cfg intent resolved (some b) rid previous w).0 ≡ ok amounts
    → (p : ℕ) × (r : ℕ) × (amounts ≡ some (p, r))
      × (accounting_amount resolved.estimated_monthly_cost ≡ ok r)
      × Checked cfg resolved rid b (max p r) w
unfolding check_request
check_request-Checked cfg intent resolved b rid previous w amounts d e =
    let (c1, e1) = guard-returned _ _ _ w amounts e in
    let (c2, e2) = guard-returned _ _ _ w amounts e1 in
    let (am, e3, e4) =
      read-returned (costs intent.action previous resolved) _ w amounts
        (costs-Keeps intent.action previous resolved) e2 in
    let (p, r, shape, asked, before) = costs-deploy intent.action previous resolved w am d e3 in
    let (x, e5, e6) =
      read-returned (check_budget cfg resolved rid (some b) am) _ w amounts
        (check_budget-Keeps cfg resolved rid (some b) am) e4 in
    let checked =
      check_budget-returned cfg resolved rid b p r w x
        (subst (λ y. (check_budget cfg resolved rid (some b) y w).0 ≡ ok x) shape e5) in
    (p, r, sym (returned_amounts intent resolved rid am w amounts e6) ∙ shape, asked, checked)

-- The amounts of a request that was let through.
pub check_request-amounts :
    (cfg : Config) (intent : Intent) (resolved : Resolved) (budget : Option Budget) (rid : ℕ)
    (previous : Option Resource) (w : World) (amounts : Option (ℕ × ℕ))
    → is_deploy intent.action ≡ true
    → (check_request cfg intent resolved budget rid previous w).0 ≡ ok amounts
    → (p : ℕ) × (r : ℕ) × (amounts ≡ some (p, r))
      × (accounting_amount (stored_cost previous) ≡ ok p)
unfolding check_request
check_request-amounts cfg intent resolved budget rid previous w amounts d e =
    let (c1, e1) = guard-returned _ _ _ w amounts e in
    let (c2, e2) = guard-returned _ _ _ w amounts e1 in
    let (am, e3, e4) =
      read-returned (costs intent.action previous resolved) _ w amounts
        (costs-Keeps intent.action previous resolved) e2 in
    let (p, r, shape, asked, before) = costs-deploy intent.action previous resolved w am d e3 in
    let (x, e5, e6) =
      read-returned (check_budget cfg resolved rid budget am) _ w amounts
        (check_budget-Keeps cfg resolved rid budget am) e4 in
    (p, r, sym (returned_amounts intent resolved rid am w amounts e6) ∙ shape, before)
