-- ===== src/Ledger/Replays.antt =====
-- A request that is sent again (app/ledger.py, `accept`).
use forgeapi_homelab.Prelude.{String, ◌≡◌, Option, some, List, arith, str_eq, if◌then◌else◌}
use forgeapi_homelab.Refusals.{ok, err, idempotency_key_reused}
use forgeapi_homelab.Records.{Operation, Resolved}
use forgeapi_homelab.Config.{Config}
use forgeapi_homelab.Tx.{World, ◌>>=◌, transaction}
use forgeapi_homelab.Ledger.Acceptance.{Intent, Budget, accept, accept_in, find_keyed, replay_row}

-- Accepting under a key that the caller has used before returns the stored operation if the request
-- is the same, and refuses it with `idempotency_key_reused` if it is another. Either way nothing
-- changes, whatever the state of the resource, of its placement and of the budget.
pub accept-replays :
    (cfg : Config) (actor key : String) (intent : Intent) (resolved : Resolved)
    (budget : Option Budget) (groups : Option (List String)) (row : Operation) (w : World)
    → find_keyed actor key w.db.operations ≡ some row
    → accept cfg actor key intent resolved budget groups w ≡ (
      if str_eq row.fingerprint (cfg.fingerprint intent.body)
          then ok row
          else err idempotency_key_reused,
      w,
    )
unfolding accept accept_in replay_row transaction ◌>>=◌
accept-replays cfg actor key intent resolved budget groups row w f = ground (arith, f)
