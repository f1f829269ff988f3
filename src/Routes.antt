-- ===== src/Routes.antt =====
-- api/routes/auth.py and the listing of api/routes/trades.py, with the models of app/schemas that
-- they take and answer. Pydantic's check of an address is taken as done.
pub mod SignUp
use crypto_auto_trader.Base.{
  ℕ, Bool, Option, none, some, leb, if◌then◌else◌, length, ◌&&◌, List, [], ◌∷◌,
}
use crypto_auto_trader.Text.{Text}
use crypto_auto_trader.Models.{User, Trade, TradeStatus}
use crypto_auto_trader.Errors.{Exc}
use crypto_auto_trader.Host.{Host}
use crypto_auto_trader.World.{Exec, pure, raise, lift, gets, ◌>>=◌}
use crypto_auto_trader.Queries.{list_trades_for_user}
use crypto_auto_trader.Webhook.{TradeRead, trade_read}
use crypto_auto_trader.Security.{Crypto}
use crypto_auto_trader.Auth.{
  normalise_email, validate_user_create, register_user, authenticate_user, issue_access_token,
  TokenResponse, Credentials, get_current_user,
}

-- `UserRead`
pub record UserRead : Type 0 where
  pub id : ℕ
  pub email : Text
  pub is_active : Bool
  pub created_at : ℕ

-- `UserRead.model_validate`
abbrev pub user_read : User → UserRead
user_read user = record {
  id = user.id;
  email = user.email;
  is_active = user.is_active;
  created_at = user.created_at;
}

-- The validators of `LoginRequest`.
unfoldable pub validate_login : Host → Text → Text → Option (Text × Text)
validate_login host email password =
    if leb 1 (length password) then some (normalise_email host email, password) else none

-- `TradeListResponse`
pub record TradeListResponse : Type 0 where
  pub items : List TradeRead
  pub total : ℕ
  pub limit : ℕ
  pub offset : ℕ

unfoldable pub read_all : List Trade → Exec (List TradeRead)
read_all [] = pure []
read_all (trade ∷ trades) = do
  item ← lift (trade_read trade)
  items ← read_all trades
  pure (item ∷ items)

-- `list_trades`; FastAPI refuses a negative number as it does a limit out of its range.
unfoldable pub list_trades : User → ℕ → ℕ → Option TradeStatus → Exec TradeListResponse
unfolding read_all
list_trades current_user limit offset status_filter =
    if leb 1 limit && leb limit 200
    then (do
      page ← gets (λ w. list_trades_for_user current_user limit offset status_filter w.db)
      items ← read_all page.0
      pure (record { items = items; total = page.1; limit = limit; offset = offset }))
    else raise Exc.request_validation

module _ (host : Host) (crypto : Crypto) where
  abbrev pub register_valid : Option (Text × Text) → Exec UserRead
  register_valid none = raise Exc.request_validation
  register_valid (some (email, password)) = do
    user ← register_user host crypto email password
    pure (user_read user)

  -- `register`
  unfoldable pub register : Text → Text → Exec UserRead
  register email password = register_valid (validate_user_create host email password)

  abbrev pub login_valid : Option (Text × Text) → Exec TokenResponse
  login_valid none = raise Exc.request_validation
  login_valid (some (email, password)) = do
    user ← authenticate_user host crypto email password
    issue_access_token host crypto user

  -- `login`
  unfoldable pub login : Text → Text → Exec TokenResponse
  login email password = login_valid (validate_login host email password)

  -- `read_current_user`, behind its dependency
  unfoldable pub read_current_user : Option Credentials → Exec UserRead
  read_current_user given = do
    current_user ← get_current_user host crypto given
    pure (user_read current_user)
