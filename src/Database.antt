-- ===== src/Database.antt =====
-- app/db/database.py: the options of the engine and the readiness probe. SQLAlchemy's reading of a
-- URL is a parameter; the engine and the sessions themselves are the library's.
use crypto_auto_trader.Base.{ℕ, Bool, true, false, Option, none, some, if◌then◌else◌}
use crypto_auto_trader.Text.{Text, text, text_eq}
use crypto_auto_trader.Errors.{Result, ok, err}
use crypto_auto_trader.Host.{Settings}

-- `CONNECT_TIMEOUT_SECONDS`
abbrev pub connect_timeout_seconds : ℕ
connect_timeout_seconds = 5

-- The keyword arguments of the engine; `connect_timeout` is the "timeout" of `connect_args`.
pub record EngineKwargs : Type 0 where
  pub pool_size : ℕ
  pub max_overflow : ℕ
  pub pool_timeout : ℕ
  pub pool_pre_ping : Bool
  pub connect_timeout : ℕ

-- `is_postgres`; `backend_name` is `make_url(...).get_backend_name()`.
unfoldable pub is_postgres : (Text → Text) → Text → Bool
is_postgres backend_name database_url = text_eq (backend_name database_url) (text "postgresql")

-- `build_engine_kwargs`; `none` is the empty dictionary.
unfoldable pub build_engine_kwargs : (Text → Text) → Settings → Text → Option EngineKwargs
unfolding is_postgres
build_engine_kwargs backend_name settings database_url =
    if is_postgres backend_name database_url
    then some (record {
      pool_size = settings.db_pool_size;
      max_overflow = settings.db_max_overflow;
      pool_timeout = settings.db_pool_timeout_seconds;
      pool_pre_ping = true;
      connect_timeout = connect_timeout_seconds;
    })
    else none

-- `check_database_connection`, by how the connection and then the `SELECT 1` on it end.
unfoldable pub check_database_connection : Result (Unit {0}) → Result (Unit {0}) → Bool
check_database_connection (ok _) (ok _) = true
check_database_connection (ok _) (err _) = false
check_database_connection (err _) select_one = false
