-- ===== src/World.antt =====
-- The state of the process and its surroundings, and the calls that run on it. An exception leaves
-- what was written before it.
pub mod Places
pub mod Runs
pub mod Leaves
pub mod Queue
pub mod Gives
pub mod Agrees
pub mod Fails
use crypto_auto_trader.Base.{ℕ, ◌+◌, Bool, true, false, Option, List, [], ◌∷◌, ◌++◌, if◌then◌else◌}
use crypto_auto_trader.Text.{Text}
use crypto_auto_trader.Errors.{Exc, Result, ok, err}
use crypto_auto_trader.Store.{Db}
use crypto_auto_trader.Host.{Host, Request, Transport}

-- `db` is what is committed, `owner` the module variable `_owner_user_id`, `queue` the executor's
-- queue, `requests` every HTTP request so far, the oldest first, `commits` their number.
pub record World : Type 0 where
  pub db : Db
  pub owner : Option ℕ
  pub queue : List (ℕ × Text)
  pub requests : List Request
  pub commits : ℕ
  pub clock : ℕ
  pub request_id : Text

abbrev pub Exec : Type 0 → Type 0
Exec A = World → Result A × World

module _ {A : Type 0} where
  unfoldable pub pure : A → Exec A
  pure a w = (ok a, w)

  unfoldable pub raise : Exc → Exec A
  raise e w = (err e, w)

  unfoldable pub lift : Result A → Exec A
  lift r w = (r, w)

  unfoldable pub gets : (World → A) → Exec A
  gets f w = (ok (f w), w)

  -- `try`: the error as a value
  unfoldable pub attempt : Exec A → Exec (Result A)
  attempt m w = let (r, w') = m w in (ok r, w')

unfoldable pub modify : (World → World) → Exec (Unit {0})
modify f w = (ok tt, f w)

infixl 5 ◌>>=◌ ◌>>◌
-- Whoever opens this opens the calls above too.
unfoldable pub ◌>>=◌ : {A B : Type 0} → Exec A → (A → Exec B) → Exec B
unfolding pure raise lift gets attempt modify
◌>>=◌ m f w = let (r, w') = m w in elim r [ ok a ↦ f a w' | err e ↦ (err e, w') ]

abbrev pub ◌>>◌ : {A B : Type 0} → Exec A → Exec B → Exec B
m >> k = m >>= λ _. k

module _ (host : Host) where
  -- One HTTP call: the request is sent, and its answer depends on those before it.
  unfoldable pub send : Request → Exec Transport
  send r w = (ok (host.reply w.requests r), record w { requests = w.requests ++ r ∷ [] })

  -- A commit that breaks no constraint: the pending writes `f` become the state, or none does.
  unfoldable pub commit : (Db → Db) → Exec (Unit {0})
  commit f w =
      if host.commit_fails w.commits
      then (err Exc.sqlalchemy_error, record w { commits = w.commits + 1 })
      else (ok tt, record w { db = f w.db; commits = w.commits + 1 })

  abbrev pub inserted : {A : Type 0} → World → Option (A × Db) → Result A × World
  inserted w Option.none = (err Exc.integrity_error, record w { commits = w.commits + 1 })
  inserted w (Option.some (a, db)) = (ok a, record w { db = db; commits = w.commits + 1 })

  -- A commit of an INSERT, which the constraints may refuse.
  unfoldable pub commit_insert : {A : Type 0} → (Db → Option (A × Db)) → Exec A
  commit_insert f w =
      if host.commit_fails w.commits
      then (err Exc.sqlalchemy_error, record w { commits = w.commits + 1 })
      else inserted w (f w.db)
