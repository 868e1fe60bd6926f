-- ===== src/Ledger/Lifecycle/Fence.antt =====
-- A worker's late result (app/ledger.py, `finish`).
use forgeapi_homelab.Prelude.{ℕ, ◌<◌, ◌≡◌, true, false, arith, some}
use forgeapi_homelab.Records.{
  State, queued, planning, planned, apply_queued, applying, succeeded, failed, uncertain, Operation,
}
use forgeapi_homelab.Refusals.{ok}
use forgeapi_homelab.Config.{Config}
use forgeapi_homelab.Tx.{World, ◌>>=◌}
use forgeapi_homelab.Ledger.Rows.{find_op, state_eq}
use forgeapi_homelab.Ledger.Progress.{finish, Report}
use forgeapi_homelab.Ledger.Lifecycle.{rank}
use forgeapi_homelab.Ledger.Lifecycle.Evolution.{IsSound}
use forgeapi_homelab.Ledger.Lifecycle.History.{Reach, Reach-Later}

state_eq-rank : (s t : State) → state_eq s t ≡ true → rank s ≡ rank t
state_eq-rank queued t e = ground arith
state_eq-rank planning t e = ground arith
state_eq-rank planned t e = ground arith
state_eq-rank apply_queued t e = ground arith
state_eq-rank applying t e = ground arith
state_eq-rank succeeded t e = ground arith
state_eq-rank failed t e = ground arith
state_eq-rank uncertain t e = ground arith

moved_on : (s t : State) → rank t < rank s → state_eq s t ≡ false
moved_on s t h = ground (arith, state_eq-rank s t)

finish-stale :
    (op row : Operation) (s : State) (report : Report) (w : World)
    → find_op op.id w ≡ some row
    → rank op.state < rank row.state
    → finish op s report w ≡ (ok tt, w)
unfolding finish ◌>>=◌
finish-stale op row s report w f h = ground (arith, f, moved_on row.state op.state h)

module _ (cfg : Config) (distinct : (m n : ℕ) → cfg.uuid m ≡ cfg.uuid n → m ≡ n) where
  -- Once the row of a worker's operation has moved past the state of the worker's copy, a result
  -- that arrives later changes nothing, no table, no audit event and no plan file, and the call does
  -- not raise. This holds from a sound ledger, if the UUIDs drawn are distinct, whatever calls of
  -- `Call` are made in between.
  pub late_finish :
      (op row : Operation) (s : State) (report : Report) (v w : World)
      → IsSound cfg v
      → Reach cfg v w
      → find_op op.id v ≡ some row
      → rank op.state < rank row.state
      → finish op s report w ≡ (ok tt, w)
  late_finish op row s report v w h r f moved =
      let (p, g, l) = Reach-Later cfg distinct op.id row h r f in
      let no_return = l.no_return in finish-stale op p s report w g (omega arith)
