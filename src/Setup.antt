-- ===== src/Setup.antt =====
-- scripts/check_setup.py: the check of a machine before the service is started on it. What it prints
-- is left out.
pub mod Verdict
use crypto_auto_trader.Base.{
  ℕ, ◌+◌, Bool, true, false, not, ◌||◌, ◌&&◌, Option, none, some, List, [], ◌∷◌, ◌==◌,
  if◌then◌else◌, is_some, is_none, select,
}
use crypto_auto_trader.Text.{Text, text, text_eq, text_in}
use crypto_auto_trader.Models.{User}
use crypto_auto_trader.Errors.{Exc, Result, ok, err}
use crypto_auto_trader.Host.{Host}
use crypto_auto_trader.Store.{find}
use crypto_auto_trader.World.{World, Exec, pure, raise, lift, gets, attempt, ◌>>=◌, ◌>>◌}
use crypto_auto_trader.BinanceClient.{Client, make_client, ping, get_server_time}

-- What the script finds: whether the settings load, whether the n-th connection to the database
-- succeeds, and the names of the tables there.
pub record Machine : Type 0 where
  pub configuration_loads : Bool
  pub connects : ℕ → Bool
  pub table_names : List Text

-- `{"users", "trades"} - tables`
unfoldable pub missing : List Text → List Text
missing tables = select (λ name. not (text_in name tables)) (text "trades" ∷ text "users" ∷ [])

abbrev pub owner_of : Host → World → Option User
owner_of host w =
    find (λ (u : User). text_eq u.email host.settings.webhook_trade_owner_email) w.db.users

module _ (host : Host) (machine : Machine) where
  abbrev pub answered : Client → Bool → Exec (Unit {0})
  answered client true = get_server_time host client >> pure tt
  answered client false = raise Exc.runtime_error

  -- The sixth check, whose errors are only printed.
  abbrev pub reach_binance : Exec (Unit {0})
  reach_binance = do
    client ← lift (make_client host none none none none none)
    up ← ping host client
    answered client up

  abbrev pub finish : ℕ → Exec ℕ
  finish failures = do attempt reach_binance; pure (if failures == 0 then 0 else 1)

  -- The fifth check.
  abbrev pub check_owner : Exec ℕ
  check_owner =
      if machine.connects 2
      then (do owner ← gets (owner_of host); finish (if is_none owner then 1 else 0))
      else raise Exc.sqlalchemy_error

  abbrev pub check_tables : List Text → Exec ℕ
  check_tables [] = check_owner
  check_tables (name ∷ names) = finish 1

  -- `run`: its exit code.
  unfoldable pub check_setup : Exec ℕ
  check_setup =
      if not machine.configuration_loads
      then pure 1
      else if not (machine.connects 0)
      then pure 1
      else if machine.connects 1
      then check_tables (missing machine.table_names)
      else raise Exc.sqlalchemy_error
