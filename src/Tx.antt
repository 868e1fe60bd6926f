-- ===== src/Tx.antt =====
-- Transactions (app/ledger.py, `connect`): a method reads and writes the tables and may raise.
-- The tables are rolled back on a raise; what the method did to the disk is not.
pub mod Keeps
pub mod Replies
use forgeapi_homelab.Prelude.{ℕ, String, Bool, true, false, Option, none, some, List, ◌++◌, [], ◌∷◌}
use forgeapi_homelab.Refusals.{Refusal, Result, ok, err}
use forgeapi_homelab.Records.{Db, Subject, EventAction, EventOutcome}

-- What a method runs on. `plans` holds the resources with a saved plan file on disk, `clock` is
-- the time (it stands still within a transaction), and `drawn` counts the UUIDs drawn so far.
pub record World : Type 0 where
  pub db : Db
  pub plans : List ℕ
  pub clock : ℕ
  pub drawn : ℕ

abbrev pub Tx : Type 0 → Type 0
Tx A = World → Result A × World

module _ {A : Type 0} where
  unfoldable pub pure : A → Tx A
  pure a w = (ok a, w)

  unfoldable pub raise : Refusal → Tx A
  raise e w = (err e, w)

  -- A computation that does not touch the world, and may raise.
  unfoldable pub lift : Result A → Tx A
  lift r w = (r, w)

  unfoldable pub gets : (World → A) → Tx A
  gets f w = (ok (f w), w)

  abbrev pub present : Option A → Refusal → Result A
  present none e = err e
  present (some a) e = ok a

  -- `con.commit()` when the block ends, `con.rollback()` when it raises.
  abbrev commit_or_rollback : World → Result A × World → Result A × World
  commit_or_rollback w (ok a, w') = (ok a, w')
  commit_or_rollback w (err e, w') = (err e, record w' { db = w.db })

  unfoldable pub transaction : Tx A → Tx A
  transaction m w = commit_or_rollback w (m w)

  -- The world after a call, and what it returned or raised.
  abbrev pub after : Tx A → World → World
  after m w = (m w).1

  abbrev pub reply : Tx A → World → Result A
  reply m w = (m w).0

unfoldable pub raise_if : Bool → Refusal → Tx (Unit {0})
raise_if true e w = (err e, w)
raise_if false e w = (ok tt, w)

unfoldable pub when : Bool → Tx (Unit {0}) → Tx (Unit {0})
when true m w = m w
when false m w = (ok tt, w)

module _ {A B : Type 0} where
  infixl 5 ◌>>=◌ ◌>>◌
  abbrev continue : Result A → (A → Tx B) → Tx B
  continue (ok a) f w = f a w
  continue (err e) f w = (err e, w)

  -- Opening this opens the actions above too.
  unfoldable pub ◌>>=◌ : Tx A → (A → Tx B) → Tx B
  unfolding pure raise lift gets raise_if when
  ◌>>=◌ m f w = let (r, w') = m w in continue r f w'

  abbrev pub ◌>>◌ : Tx A → Tx B → Tx B
  m >> k = m >>= λ _. k

-- `event(con, operation_id, actor, action, outcome)`: one more row at the end of `events`.
unfoldable pub event : Subject → String → EventAction → EventOutcome → Tx (Unit {0})
event subject actor action outcome w = (
  ok tt,
  record w {
    db = record w.db {
      events =
          w.db.events
          ++ record {
            subject = subject;
            actor = actor;
            action = action;
            outcome = outcome;
            timestamp = w.clock;
          }
            ∷ [];
    };
  },
)

-- `refused(actor, action)`: an audit event of its own, outside the request's transaction.
unfoldable pub refused : String → String → Tx (Unit {0})
unfolding event transaction
refused actor action =
    transaction (event Subject.no_subject actor (EventAction.named action) EventOutcome.refused)
