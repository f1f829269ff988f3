-- ===== src/Trading.antt =====
-- app/services/trading_service.py: a signal in, a trade's row out. The session and the client are
-- those of one request or one worker.
pub mod Validation
pub mod Claim
pub mod Returned
pub mod Signal
pub mod Accepted
pub mod Submission
use crypto_auto_trader.Base.{
  ℕ, ◌+◌, Bool, true, false, not, ◌&&◌, Option, none, some, List, [], ◌∷◌, ◌++◌, ltb, ◌==◌,
  if◌then◌else◌, is_none, length, take,
}
use mathlib.Core.Option
use crypto_auto_trader.Text.{Text, text, text_eq, text_in}
use crypto_auto_trader.Numbers.{Decimal, decimal_lt}
use crypto_auto_trader.Json.{Json}
use crypto_auto_trader.Models.{OrderSide, side_value, TradeStatus, status_eq, User, Trade}
use crypto_auto_trader.Errors.{BinanceErrorClass, BinanceError, AppErrorClass, Exc, Result, ok, err}
use crypto_auto_trader.Errors.Envelope.{app_message}
use crypto_auto_trader.Store.{order_by, Db, find, count_where, has_id, update_where, insert_trade}
use crypto_auto_trader.Config.{allowed_symbols}
use crypto_auto_trader.Payload.{Payload}
use crypto_auto_trader.Host.{Settings, Host}
use crypto_auto_trader.World.{
  World, Exec, pure, raise, lift, gets, attempt, modify, commit, commit_insert, ◌>>=◌, ◌>>◌,
}
use crypto_auto_trader.Binance.{BinanceOrderResult, str_of}
use crypto_auto_trader.BinanceClient.{Client, place_market_order}
use crypto_auto_trader.Outcomes.{
  success_changes, failure_changes, code_or, uncertain_changes, claim_changes,
}
use crypto_auto_trader.Reconciliation.{save, reconcile_trade}

-- The condition of the claim's UPDATE.
abbrev pub claimable : ℕ → Trade → Bool
claimable k t = has_id k t && status_eq t.status TradeStatus.pending && is_none t.submitted_at

abbrev pub size_error : Option Bool → Text → Result (Unit {0}) → Result (Unit {0})
size_error none message rest = err Exc.decimal_error
size_error (some true) message rest = err (Exc.app AppErrorClass.business_validation message)
size_error (some false) message rest = rest

-- The UPDATE of `claim_for_submission`.
unfoldable pub claim_update : ℕ → ℕ → Db → Db
claim_update k now db = record db {
  trades = update_where (claimable k) (claim_changes now) db.trades;
}

-- `SELECT id ... WHERE signal_id = s`
abbrev pub winner_of : Text → World → Option ℕ
winner_of signal_id w =
    Option.map (λ (t : Trade). t.id)
      (find (λ (t : Trade). text_eq t.signal_id signal_id) w.db.trades)

-- `a < b` on strings, by code points
abbrev text_lt : Text → Text → Bool
text_lt a [] = false
text_lt [] (d ∷ b) = true
text_lt (c ∷ a) (d ∷ b) =
    let rest = text_lt a b in if ltb c d then true else if c == d then rest else false

-- `sorted(frozenset(names))`
abbrev distinct : List Text → List Text
distinct [] = []
distinct (s ∷ ss) = let rest = distinct ss in if text_in s rest then rest else s ∷ rest

abbrev comma_separated : List Text → Text
comma_separated [] = []
comma_separated (s ∷ []) = s
comma_separated (s ∷ t ∷ ss) = s ++ text ", " ++ comma_separated (t ∷ ss)

module _ (host : Host) where
  -- The messages of `validate_signal`.
  pub symbol_message : Text → List Text → Text
  symbol_message symbol allowed =
      text "Symbol "
      ++ symbol
      ++ text " is not enabled for trading. Allowed symbols: "
      ++ comma_separated (order_by text_lt (distinct allowed))
      ++ text "."

  pub minimum_message : Decimal → Decimal → Text
  minimum_message quantity minimum =
      text "Quantity "
      ++ host.str_of_decimal quantity
      ++ text " is below the minimum order size of "
      ++ host.str_of_decimal minimum
      ++ text "."

  pub maximum_message : Decimal → Decimal → Text
  maximum_message quantity maximum =
      text "Quantity "
      ++ host.str_of_decimal quantity
      ++ text " exceeds the maximum order size of "
      ++ host.str_of_decimal maximum
      ++ text ". This is a safety limit, not a Binance limit."

  -- `build_client_order_id`
  unfoldable pub build_client_order_id : Text → Text
  build_client_order_id signal_id = text "cat-" ++ take 28 (host.sha256_hex signal_id)

  -- `validate_signal`
  unfoldable pub validate_signal : Payload → Result (Unit {0})
  validate_signal payload =
      let allowed = allowed_symbols host.upper_char host.settings.allowed_symbols in
      let minimum = host.settings.min_order_quantity in
      let maximum = host.settings.max_order_quantity in
      if text_in payload.symbol allowed
      then size_error (decimal_lt payload.quantity minimum)
          (minimum_message payload.quantity minimum)
          (size_error (decimal_lt maximum payload.quantity)
            (maximum_message payload.quantity maximum) (ok tt))
      else err (Exc.app AppErrorClass.business_validation (symbol_message payload.symbol allowed))

  abbrev pub owner_found : Option User → Exec ℕ
  owner_found none = raise (
      Exc.app AppErrorClass.configuration
        (text "Webhook trade owner account is not registered on this server."))
  owner_found (some user) = do modify (λ w. record w { owner = some user.id }); pure user.id

  abbrev pub owner_cached : Option ℕ → Exec ℕ
  owner_cached (some k) = pure k
  owner_cached none = do
    user ← gets (λ w.
        find (λ (u : User). text_eq u.email host.settings.webhook_trade_owner_email) w.db.users)
    owner_found user

  -- `_resolve_trade_owner_id`
  unfoldable pub resolve_trade_owner_id : Exec ℕ
  resolve_trade_owner_id = do cached ← gets (λ w. w.owner); owner_cached cached

  -- The `Trade(...)` of `_create_pending_trade`; the id comes with the INSERT.
  unfoldable pub pending_trade : Payload → ℕ → ℕ → Trade
  pending_trade payload owner_id now = record {
    id = 0;
    user_id = owner_id;
    signal_id = payload.signal_id;
    client_order_id = build_client_order_id payload.signal_id;
    symbol = payload.symbol;
    side = payload.action;
    order_type = text "MARKET";
    quantity = payload.quantity;
    status = TradeStatus.pending;
    binance_order_id = none;
    binance_status = none;
    executed_quantity = none;
    cumulative_quote_quantity = none;
    error_code = none;
    error_message = none;
    submitted_at = none;
    reconciled_at = none;
    created_at = now;
    updated_at = now;
  }

  abbrev pub created : Payload → Result Trade → Exec Trade
  created payload (ok trade) = pure trade
  created payload (err Exc.integrity_error) = do
    winner ← gets (winner_of payload.signal_id)
    raise (
        Exc.app (AppErrorClass.duplicate_signal winner)
          (app_message (AppErrorClass.duplicate_signal winner)))
  created payload (err e) = raise e

  -- `_create_pending_trade`
  unfoldable pub create_pending_trade : Payload → ℕ → Exec Trade
  create_pending_trade payload owner_id = do
    now ← gets (λ w. w.clock)
    r ← attempt (commit_insert host (insert_trade (pending_trade payload owner_id now)))
    created payload r

  -- `claim_for_submission`: the rows that the UPDATE changes are counted in the same statement.
  unfoldable pub claim_for_submission : ℕ → Exec (Option Trade)
  unfolding claim_update
  claim_for_submission k = do
    now ← gets (λ w. w.clock)
    rowcount ← gets (λ w. count_where (claimable k) w.db.trades)
    commit host (claim_update k now)
    gets (λ w. if rowcount == 1 then find (has_id k) w.db.trades else none)

  -- `_handle_uncertain_outcome`: a failure of the reconciliation leaves the trade UNKNOWN.
  abbrev pub keep_trade : Trade → Result Trade → Exec Trade
  keep_trade trade (ok reconciled) = pure reconciled
  keep_trade trade (err _) = pure trade

  unfoldable pub handle_uncertain_outcome : Client → Trade → BinanceError → Exec Trade
  handle_uncertain_outcome client trade e = do
    now ← gets (λ w. w.clock)
    unknown ← save host trade (uncertain_changes host e now)
    r ← attempt (reconcile_trade host client unknown)
    keep_trade unknown r

  -- `_finalise_success`
  unfoldable pub finalise_success : Trade → BinanceOrderResult → Exec Trade
  finalise_success trade result = do
    now ← gets (λ w. w.clock)
    save host trade (success_changes result now)

  -- `_finalise_failure`
  unfoldable pub finalise_failure : Trade → TradeStatus → Text → Text → Exec Trade
  finalise_failure trade status error_code error_message = do
    now ← gets (λ w. w.clock)
    save host trade (failure_changes status error_code error_message now)

  abbrev pub failure_of : BinanceErrorClass → Client → Trade → BinanceError → Exec Trade
  failure_of BinanceErrorClass.rate_limit client trade e =
      finalise_failure trade TradeStatus.rejected (text "rate_limit:" ++ str_of host e.code)
        e.message
  failure_of BinanceErrorClass.rejected client trade e =
      finalise_failure trade TradeStatus.rejected (code_or host e.code (text "rejected")) e.message
  failure_of BinanceErrorClass.auth client trade e =
      finalise_failure trade TradeStatus.rejected (code_or host e.code (text "rejected")) e.message
  failure_of BinanceErrorClass.unavailable client trade e =
      finalise_failure trade TradeStatus.failed (code_or host e.code (text "unavailable")) e.message
  failure_of BinanceErrorClass.uncertain client trade e = handle_uncertain_outcome client trade e

  -- The `except` clauses of `submit_to_binance`, and its last line.
  unfoldable pub record_outcome : Client → Trade → Result BinanceOrderResult → Exec Trade
  unfolding finalise_success finalise_failure handle_uncertain_outcome
  record_outcome client trade (ok result) = finalise_success trade result
  record_outcome client trade (err (Exc.binance e)) = failure_of e.class client trade e
  record_outcome client trade (err e) = raise e

  -- The call of the exchange in `submit_to_binance`.
  unfoldable pub place_order : Client → Trade → Exec BinanceOrderResult
  place_order client trade =
      place_market_order host client trade.symbol (side_value trade.side) trade.quantity
        trade.client_order_id

  -- `submit_to_binance`
  unfoldable pub submit_to_binance : Client → Trade → Exec Trade
  submit_to_binance client trade = do
    r ← attempt (place_order client trade)
    record_outcome client trade r

  -- `TradeExecutor.submit`: `put_nowait` on the bounded queue.
  unfoldable pub submit : ℕ → Exec Bool
  submit k w =
      if ltb (length w.queue) host.settings.executor_queue_size
      then (ok true, record w { queue = w.queue ++ (k, w.request_id) ∷ [] })
      else (ok false, w)

  abbrev pub submit_claimed : Client → Trade → Option Trade → Exec Trade
  submit_claimed client trade none = pure trade
  submit_claimed client trade (some claimed) = submit_to_binance client claimed

  -- `process_signal`
  unfoldable pub process_signal : Client → Payload → Exec Trade
  process_signal client payload = do
    lift (validate_signal payload)
    owner_id ← resolve_trade_owner_id
    trade ← create_pending_trade payload owner_id
    if host.settings.webhook_async_execution
        then (do submit trade.id; pure trade)
        else (do claimed ← claim_for_submission trade.id; submit_claimed client trade claimed)
