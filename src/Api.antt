-- ===== src/Api.antt =====
-- The HTTP interface of app/main.py: the route table of app/api/router.py and app/api/routes, and
-- what a request comes to once it has reached its route. FastAPI's matching of a path, and its
-- parsing of bodies and parameters, are taken as done; the bearer token is read before the parameters
-- are refused, as FastAPI solves dependencies first.
pub mod Guard
pub mod Faults
pub mod Intake
pub mod Reading
pub mod Accounts
pub mod Privacy
pub mod Statuses
use crypto_auto_trader.Base.{
  ℕ, Bool, true, false, Option, none, some, List, [], ◌∷◌, ◌++◌, leb, if◌then◌else◌,
}
use crypto_auto_trader.Text.{Text, text}
use crypto_auto_trader.Models.{User, Trade, TradeStatus, status_value}
use crypto_auto_trader.Errors.{Exc, Result, ok, err}
use crypto_auto_trader.Errors.Envelope.{FieldError, ErrorBody, ErrorResponse, error_response}
use crypto_auto_trader.Health
use crypto_auto_trader.Health.{LivenessResponse, ReadinessResponse}
use crypto_auto_trader.Database.{check_database_connection}
use crypto_auto_trader.Host.{Method, http_get, http_post, Host}
use crypto_auto_trader.World.{World, Exec, pure, raise, lift, ◌>>=◌, ◌>>◌}
use crypto_auto_trader.Payload.{RawPayload}
use crypto_auto_trader.Security.{Crypto}
use crypto_auto_trader.Auth.{TokenResponse, Credentials, get_current_user}
use crypto_auto_trader.BinanceClient.{Client}
use crypto_auto_trader.Queries
use crypto_auto_trader.Routes
use crypto_auto_trader.Routes.{UserRead, user_read, TradeListResponse}
use crypto_auto_trader.Webhook
use crypto_auto_trader.Webhook.{TradeRead, trade_read}

-- The handlers of app/api/routes.
pub data Handler : Type 0 where
  health readiness register login read_current_user : Handler
  list_trades get_trade reconcile tradingview_webhook : Handler

-- A route as a decorator declares it.
pub record Route : Type 0 where
  pub method : Method
  pub path : Text
  pub handler : Handler
  pub status_code : ℕ

abbrev get_route : Text → Handler → Route
get_route path handler = record {
  method = http_get;
  path = path;
  handler = handler;
  status_code = 200;
}

abbrev post_route : Text → Handler → ℕ → Route
post_route path handler status_code = record {
  method = http_post;
  path = path;
  handler = handler;
  status_code = status_code;
}

-- `include_router`, with the prefix of the router.
unfoldable pub include_router : Text → List Route → List Route
include_router prefix [] = []
include_router prefix (r ∷ routes) =
    record r { path = prefix ++ r.path } ∷ include_router prefix routes

abbrev pub health_routes : List Route
health_routes =
    get_route (text "/health") Handler.health
    ∷ get_route (text "/health/ready") Handler.readiness
    ∷ []

abbrev pub auth_routes : List Route
auth_routes =
    post_route (text "/register") Handler.register 201
    ∷ post_route (text "/login") Handler.login 200
    ∷ get_route (text "/me") Handler.read_current_user
    ∷ []

abbrev pub trade_routes : List Route
trade_routes =
    get_route [] Handler.list_trades
    ∷ get_route (text "/{trade_id}") Handler.get_trade
    ∷ post_route (text "/{trade_id}/reconcile") Handler.reconcile 200
    ∷ []

abbrev pub webhook_routes : List Route
webhook_routes = post_route (text "/tradingview") Handler.tradingview_webhook 202 ∷ []

-- `api_router`
unfoldable pub api_router : List Route
unfolding include_router
api_router =
    include_router [] health_routes
    ++ (include_router (text "/auth") auth_routes
        ++ (include_router (text "/trades") trade_routes
            ++ include_router (text "/webhook") webhook_routes))

-- A request that has reached its route, with what FastAPI has read from it. Of a readiness probe,
-- how the connection to the database and the query on it end.
pub data Inbound : Type 0 where
  health : Inbound
  readiness : Result (Unit {0}) → Result (Unit {0}) → Inbound
  register login : Text → Text → Inbound
  read_current_user : Option Credentials → Inbound
  list_trades : Option Credentials → ℕ → ℕ → Option TradeStatus → Inbound
  get_trade reconcile : Option Credentials → ℕ → Inbound
  tradingview_webhook : RawPayload → Option Text → Inbound

-- The body of an answer that is no error; `accepted` is `WebhookAcceptedResponse`.
pub data Body : Type 0 where
  liveness : LivenessResponse → Body
  ready : ReadinessResponse → Body
  user : UserRead → Body
  token : TokenResponse → Body
  trades : TradeListResponse → Body
  trade : TradeRead → Body
  accepted : Text → TradeRead → Body

pub data Answer : Type 0 where
  success : ℕ → Body → Answer
  failure : ErrorResponse → Answer

-- `f"Signal accepted; trade is {trade.status.value}."`
abbrev accepted_detail : TradeStatus → Text
accepted_detail status = text "Signal accepted; trade is " ++ (status_value status ++ text ".")

abbrev probed : ℕ × ReadinessResponse → ℕ × Body
probed (status_code, body) = (status_code, Body.ready body)

-- `Path(ge=1)`
abbrev pub valid_id : ℕ → Result (Unit {0})
valid_id trade_id = if leb 1 trade_id then ok tt else err Exc.request_validation

-- The route `GET /trades/{trade_id}`, behind the id that it accepts.
unfoldable pub read_trade : User → ℕ → Exec TradeRead
read_trade current_user trade_id = do
  lift (valid_id trade_id)
  found ← Queries.get_trade current_user trade_id
  lift (trade_read found)

-- The route `POST /trades/{trade_id}/reconcile`, in the same way.
unfoldable pub reconcile_and_read : Host → Client → User → ℕ → Exec TradeRead
reconcile_and_read host client current_user trade_id = do
  lift (valid_id trade_id)
  found ← Queries.reconcile host client current_user trade_id
  lift (trade_read found)

module _ (host : Host) (crypto : Crypto) (client : Client) where
  -- A handler behind `CurrentUser`.
  abbrev pub authorised : {A : Type 0} → Option Credentials → (User → Exec A) → Exec A
  authorised given handler = get_current_user host crypto given >>= handler

  -- Each route with its status code.
  unfoldable pub handle : Inbound → Exec (ℕ × Body)
  unfolding read_trade reconcile_and_read
  handle Inbound.health = pure (200, Body.liveness (Health.health host.settings))
  handle (Inbound.readiness connected selected) =
      pure (probed (Health.readiness host (check_database_connection connected selected)))
  handle (Inbound.register email password) = do
    created ← Routes.register host crypto email password
    pure (201, Body.user created)
  handle (Inbound.login email password) = do
    issued ← Routes.login host crypto email password
    pure (200, Body.token issued)
  handle (Inbound.read_current_user given) = do
    found ← Routes.read_current_user host crypto given
    pure (200, Body.user found)
  handle (Inbound.list_trades given limit offset status) = do
    page ← authorised given (λ user. Routes.list_trades user limit offset status)
    pure (200, Body.trades page)
  handle (Inbound.get_trade given trade_id) = do
    found ← authorised given (λ user. read_trade user trade_id)
    pure (200, Body.trade found)
  handle (Inbound.reconcile given trade_id) = do
    found ← authorised given (λ user. reconcile_and_read host client user trade_id)
    pure (200, Body.trade found)
  handle (Inbound.tradingview_webhook raw secret) = do
    made ← Webhook.tradingview_webhook host client raw secret
    pure (202, Body.accepted (accepted_detail made.status) made)

  abbrev pub answered : List FieldError → Text → Result (ℕ × Body) → Answer
  answered errors request_id (ok (status_code, body)) = Answer.success status_code body
  answered errors request_id (err e) = Answer.failure (error_response request_id errors e)

  -- A request and its answer: an exception goes to the handler of its class.
  unfoldable pub respond : List FieldError → Inbound → World → Answer × World
  unfolding handle
  respond errors request w = let (r, w') = handle request w in (answered errors w'.request_id r, w')
