-- ===== src/Api/Reading.antt =====
-- The errors of the routes that read trades, beside the faults.
use crypto_auto_trader.Base.{
  ℕ, ◌≡◌, refl, true, Option, none, some, List, [], ◌∷◌, leb, Bool-cases, inl, inr,
}
use crypto_auto_trader.Text.{Text}
use crypto_auto_trader.Models.{User, Trade, TradeStatus}
use crypto_auto_trader.Errors.{AppErrorClass, Exc, Result, ok, err}
use crypto_auto_trader.Host.{Host}
use crypto_auto_trader.World.{World}
use crypto_auto_trader.World.Fails.{OrValue, Fails, Fails-pure, Fails-bind, Fails-lift, fails_rules}
use crypto_auto_trader.BinanceClient.{Client}
use crypto_auto_trader.Security.{Crypto}
use crypto_auto_trader.Auth.{Credentials, get_current_user}
use crypto_auto_trader.Auth.Sessions.{session_result, run-get_current_user}
use crypto_auto_trader.Queries
use crypto_auto_trader.Queries.{trade_or_404}
use crypto_auto_trader.Routes
use crypto_auto_trader.Routes.{register_valid, login_valid}
use crypto_auto_trader.Api.{valid_id, read_trade, reconcile_and_read}
use crypto_auto_trader.Api.Guard.{session_result-err}
use crypto_auto_trader.Api.Faults.{is_fault, Fails-reconcile_trade}
use crypto_auto_trader.Api.Intake.{OrValue-trade_read}

-- A kind of errors with those of a reader of trades in it.
pub record HasReading (P : Exc → Type 0) : Type 0 where
  pub fault : (e : Exc) → is_fault e ≡ true → P e
  pub invalid : P Exc.request_validation
  pub session : (m : Text) → P (Exc.app AppErrorClass.authentication m)

-- The token of a request.
module _ (P : Exc → Type 0) (session : (m : Text) → P (Exc.app AppErrorClass.authentication m))
    (host : Host) (crypto : Crypto) where
  OrValue-session :
      (given : Option Credentials) (w : World) → OrValue P (session_result host crypto given w)
  OrValue-session given w = go (session_result host crypto given w) refl
    where
      go : (r : Result User) → session_result host crypto given w ≡ r → OrValue P r
      go (ok user) h = tt
      go (err e) h =
          let (reason, named) = session_result-err host crypto given w e h in
          rw named (session reason)

  pub Fails-get_current_user :
      (given : Option Credentials) → Fails P (get_current_user host crypto given)
  Fails-get_current_user given = record {
    holds = λ w. rw (run-get_current_user host crypto given w) (OrValue-session given w);
  }

module _ (P : Exc → Type 0) (kind : HasReading P) (host : Host) (client : Client) where
  OrValue-valid_id : (trade_id : ℕ) → OrValue P (valid_id trade_id)
  OrValue-valid_id trade_id = elim (Bool-cases (leb 1 trade_id)) [
    | inl e ↦ rw e tt
    | inr e ↦ rw e kind.invalid
  ]

  Fails-read_all : (trades : List Trade) → Fails P (Routes.read_all trades)
  unfolding Routes.read_all
  Fails-read_all [] = Fails-pure P []
  Fails-read_all (t ∷ trades) =
      Fails-bind P _ _ (Fails-lift P _ (OrValue-trade_read P kind.fault t))
        (λ item. Fails-bind P _ _ (Fails-read_all trades) (λ items. Fails-pure P (item ∷ items)))

  pub Fails-list_trades :
      (user : User) (limit offset : ℕ) (status : Option TradeStatus)
      → Fails P (Routes.list_trades user limit offset status)
  unfolding Routes.list_trades
  Fails-list_trades user limit offset status = search (fails_rules, kind.invalid, Fails-read_all)

  module _ (missing : (m : Text) → P (Exc.app AppErrorClass.resource_not_found m)) where
    Fails-trade_or_404 : (trade_id : ℕ) (o : Option Trade) → Fails P (trade_or_404 trade_id o)
    Fails-trade_or_404 trade_id none = search (fails_rules, missing)
    Fails-trade_or_404 trade_id (some t) = search fails_rules

    pub Fails-read_trade : (user : User) (trade_id : ℕ) → Fails P (read_trade user trade_id)
    unfolding read_trade Queries.get_trade
    Fails-read_trade user trade_id = search (
      fails_rules,
      Fails-lift,
      OrValue-valid_id,
      Fails-trade_or_404,
      OrValue-trade_read P kind.fault,
    )

    pub Fails-reconcile_and_read :
        (user : User) (trade_id : ℕ) → Fails P (reconcile_and_read host client user trade_id)
    unfolding reconcile_and_read Queries.reconcile
    Fails-reconcile_and_read user trade_id = search (
      fails_rules,
      Fails-lift,
      OrValue-valid_id,
      Fails-trade_or_404,
      Fails-reconcile_trade P kind.fault host client,
      OrValue-trade_read P kind.fault,
    )
