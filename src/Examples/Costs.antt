-- ===== src/Examples/Costs.antt =====
-- Costs and the loops of the app workflows, on small inputs.
use forgeapi_homelab.Prelude.{ℕ, ◌+◌, ◌<◌, ◌≡◌, refl, true, none, some, List, [], ◌∷◌, arith}
use forgeapi_homelab.Refusals.{ok}
use forgeapi_homelab.Records.{amount, succeeded, failed, queued, Operation, Resource, in_sync}
use forgeapi_homelab.Tx.{◌>>=◌}
use forgeapi_homelab.Tables.{find}
use forgeapi_homelab.Ledger.Acceptance.{Budget, accept, accepted_resource, find_keyed}
use forgeapi_homelab.Ledger.Budgets.{IsWithin, accept-IsWithin}
use forgeapi_homelab.Rollout.{replicas_needed}
use forgeapi_homelab.Costs.History.{History, row_after}
use forgeapi_homelab.Workflows.{Cycle, Ending, rollout_cycle, teardown_cycle, run}
use forgeapi_homelab.Workflows.Ends.{workflows_end, settled_count, settled_count-none}
use forgeapi_homelab.Examples.{settings, network, request, fresh, row}

-- A deploy of 12 that succeeded, and one of 30 over it that failed.
abbrev first_deploy : Operation
first_deploy = row succeeded

abbrev larger_deploy : Operation
larger_deploy = record (row failed) {
  id = 2;
  resolved = record network { estimated_monthly_cost = amount 30 };
  previous_estimated_monthly_cost = some 12;
}

abbrev both_deploys : List Operation
both_deploys = first_deploy ∷ larger_deploy ∷ []

abbrev deployed : Resource
deployed = row_after first_deploy 0 in_sync 100 (accepted_resource none (some (0, 12)) first_deploy)

abbrev redeployed : Resource
redeployed =
    row_after larger_deploy 12 in_sync 200
      (accepted_resource (some deployed) (some (12, 30)) larger_deploy)

abbrev twenty : Budget
twenty = record { legacy_committed = amount 5; limit = 20 }

abbrev reserving : Operation
reserving = record (row queued) { previous_estimated_monthly_cost = some 0 }

fits : (accept settings "ada" "k1" request network (some twenty) none fresh).0 ≡ ok reserving
unfolding accept find_keyed find ◌>>=◌
fits = refl

twenty-IsWithin :
    IsWithin settings twenty network 0
      (accept settings "ada" "k1" request network (some twenty) none fresh).1.db.resources
unfolding find_keyed
twenty-IsWithin =
    accept-IsWithin settings "ada" "k1" request network twenty refl none fresh reserving refl fits

-- A rollout that waits for its replicas and is given up.
abbrev waiting : ℕ → Cycle
waiting n = record {
  check = some replicas_needed;
  acceptance = none;
  refusal_recorded = true;
  timeout_recorded = true;
}

abbrev cycles : ℕ
cycles = 20761

enough : 20760 + settled_count cycles waiting 0 < cycles
enough = let none_settled = settled_count-none cycles waiting 0 (λ m. refl) in ground arith

given_up :
    ((e : Ending) × (run rollout_cycle cycles waiting 0 0 ≡ some e))
    × ((e : Ending) × (run teardown_cycle cycles waiting 0 0 ≡ some e))
given_up = workflows_end cycles waiting (λ m. refl) enough
