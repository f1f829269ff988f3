-- ===== src/World/Queue.antt =====
-- Calls that leave the queue, or the tables, alone.
use crypto_auto_trader.Base.{refl, List, ℕ, arith}
use crypto_auto_trader.Text.{Text}
use crypto_auto_trader.Store.{Db}
use crypto_auto_trader.Host.{Request, Host}
use crypto_auto_trader.World.{World, Exec, commit, send}
use crypto_auto_trader.World.Leaves.{Leaves, leaves_rules}

abbrev pub queue_of : World → List (ℕ × Text)
queue_of w = w.queue

abbrev pub db_of : World → Db
db_of w = w.db

abbrev pub LeavesQueue : {A : Type 0} → Exec A → Type 0
LeavesQueue m = Leaves queue_of m

abbrev pub LeavesDb : {A : Type 0} → Exec A → Type 0
LeavesDb m = Leaves db_of m

module _ (host : Host) where
  pub LeavesQueue-commit : (f : Db → Db) → LeavesQueue (commit host f)
  unfolding commit
  LeavesQueue-commit f = record { same = λ w. ground arith }

  pub LeavesQueue-send : (r : Request) → LeavesQueue (send host r)
  unfolding send
  LeavesQueue-send r = record { same = λ w. refl }

  pub LeavesDb-send : (r : Request) → LeavesDb (send host r)
  unfolding send
  LeavesDb-send r = record { same = λ w. refl }

pub ruleset queue_rules = (leaves_rules, LeavesQueue-commit, LeavesQueue-send)

pub ruleset db_rules = (leaves_rules, LeavesDb-send)
