-- ===== src/Trading/Submission.antt =====
-- How many orders the trading service places, call by call.
use crypto_auto_trader.Base.{
  ℕ, ◌+◌, ◌≤◌, ◌≡◌, refl, Bool, true, false, Option, none, some, arith, if◌then◌else◌,
}
use crypto_auto_trader.Text.{Text}
use crypto_auto_trader.Models.{TradeStatus, User, Trade}
use crypto_auto_trader.Errors.{BinanceErrorClass, BinanceError, Exc, Result, ok, err}
use crypto_auto_trader.Payload.{Payload}
use crypto_auto_trader.Host.{Host}
use crypto_auto_trader.World.{World, Exec, pure}
use crypto_auto_trader.World.Places.{
  Places, post_count, places_rules, Places-then, Places-modify, Places-pure, Places-weaken,
}
use crypto_auto_trader.Binance.{BinanceOrderResult}
use crypto_auto_trader.BinanceClient.{Client}
use crypto_auto_trader.BinanceClient.Calls.{Places-place_market_order}
use crypto_auto_trader.Reconciliation.ReadOnly.{Places-save, Places-reconcile_trade}
use crypto_auto_trader.Trading.{
  owner_found, owner_cached, resolve_trade_owner_id, created, create_pending_trade,
  claim_for_submission, keep_trade, handle_uncertain_outcome, finalise_success, finalise_failure,
  failure_of, record_outcome, place_order, submit_to_binance, submit, submit_claimed,
  process_signal,
}

module _ (host : Host) where
  Places-keep_trade : (trade : Trade) (r : Result Trade) → Places 0 (keep_trade host trade r)
  Places-keep_trade trade (ok t) = search places_rules
  Places-keep_trade trade (err e) = search places_rules

  Places-handle_uncertain_outcome :
      (client : Client) (trade : Trade) (e : BinanceError)
      → Places 0 (handle_uncertain_outcome host client trade e)
  unfolding handle_uncertain_outcome
  Places-handle_uncertain_outcome client trade e =
      search (places_rules, Places-save, Places-reconcile_trade, Places-keep_trade)

  Places-finalise_success :
      (trade : Trade) (r : BinanceOrderResult) → Places 0 (finalise_success host trade r)
  unfolding finalise_success
  Places-finalise_success trade r = search (places_rules, Places-save)

  Places-finalise_failure :
      (trade : Trade) (s : TradeStatus) (code message : Text)
      → Places 0 (finalise_failure host trade s code message)
  unfolding finalise_failure
  Places-finalise_failure trade s code message = search (places_rules, Places-save)

  Places-failure_of :
      (c : BinanceErrorClass) (client : Client) (trade : Trade) (e : BinanceError)
      → Places 0 (failure_of host c client trade e)
  Places-failure_of BinanceErrorClass.uncertain client trade e =
      search (Places-handle_uncertain_outcome)
  Places-failure_of _ client trade e = search (Places-finalise_failure)

  pub Places-record_outcome :
      (client : Client) (trade : Trade) (r : Result BinanceOrderResult)
      → Places 0 (record_outcome host client trade r)
  unfolding record_outcome
  Places-record_outcome client trade (ok r) = search (Places-finalise_success)
  Places-record_outcome client trade (err (Exc.binance e)) = search (Places-failure_of)
  Places-record_outcome client trade (err e) = search places_rules

  pub Places-submit_to_binance :
      (client : Client) (trade : Trade) → Places 1 (submit_to_binance host client trade)
  unfolding submit_to_binance place_order
  Places-submit_to_binance client trade =
      search (places_rules, Places-then, Places-place_market_order, Places-record_outcome)

  Places-owner_found : (u : Option User) → Places 0 (owner_found host u)
  Places-owner_found none = search places_rules
  Places-owner_found (some u) =
      search (places_rules, Places-modify (λ w. record w { owner = some u.id }) (λ w. refl))

  Places-owner_cached : (o : Option ℕ) → Places 0 (owner_cached host o)
  Places-owner_cached none = search (places_rules, Places-owner_found)
  Places-owner_cached (some k) = search places_rules

  Places-created : (payload : Payload) (r : Result Trade) → Places 0 (created host payload r)
  Places-created payload (ok t) = search places_rules
  Places-created payload (err Exc.integrity_error) = search places_rules
  Places-created payload (err e) = search places_rules

  Places-create_pending_trade :
      (payload : Payload) (k : ℕ) → Places 0 (create_pending_trade host payload k)
  unfolding create_pending_trade
  Places-create_pending_trade payload k = search (places_rules, Places-created)

  pub Places-claim_for_submission : (k : ℕ) → Places 0 (claim_for_submission host k)
  unfolding claim_for_submission
  Places-claim_for_submission k = search places_rules

  requests-submit : (k : ℕ) (w : World) → (submit host k w).1.requests ≡ w.requests
  unfolding submit
  requests-submit k w = ground arith

  pub Places-submit : (k : ℕ) → Places 0 (submit host k)
  Places-submit k = record {
    least = λ w. rw requests-submit (omega arith);
    most = λ w. rw requests-submit (omega arith);
  }

  Places-submit_claimed :
      (client : Client) (trade : Trade) (o : Option Trade)
      → Places 1 (submit_claimed host client trade o)
  Places-submit_claimed client trade none =
      Places-weaken 0 1 (pure trade) (omega arith) (Places-pure trade)
  Places-submit_claimed client trade (some t) = search (Places-submit_to_binance)

  Places-resolve_trade_owner_id : Places 0 (resolve_trade_owner_id host)
  unfolding resolve_trade_owner_id
  Places-resolve_trade_owner_id = search (places_rules, Places-owner_cached)

  Places-branch :
      {A : Type 0} (b : Bool) (m k : Exec A)
      → Places 0 m
      → Places 1 k
      → Places (if b then 0 else 1) (if b then m else k)
  Places-branch true m k pm pk = pm
  Places-branch false m k pm pk = pk

  Places-process_signal :
      (client : Client) (payload : Payload)
      → Places
          (if host.settings.webhook_async_execution then 0 else 1)
          (process_signal host client payload)
  unfolding process_signal
  Places-process_signal client payload =
      search
        (
          places_rules, Places-then, Places-branch, Places-resolve_trade_owner_id,
          Places-create_pending_trade, Places-claim_for_submission, Places-submit,
          Places-submit_claimed,
        )
        depth 7

-- One signal places at most one order, and none at all within the request when the executor does
-- it: at most so many POST requests are sent, on every path, errors included.
pub process_signal_places_at_most_one :
    (host : Host) (client : Client) (payload : Payload) (w : World)
    → post_count (process_signal host client payload w).1.requests
      ≤ post_count w.requests + (if host.settings.webhook_async_execution then 0 else 1)
process_signal_places_at_most_one host client payload w =
    (Places-process_signal host client payload).most w

-- Whatever the exchange answers to an order, an answer that never came or an error of the server
-- included, the handling of the answer places no order: nothing is sent again.
pub record_outcome_never_resends :
    (host : Host) (client : Client) (trade : Trade) (r : Result BinanceOrderResult) (w : World)
    → post_count (record_outcome host client trade r w).1.requests ≡ post_count w.requests
record_outcome_never_resends host client trade r w =
    let p = Places-record_outcome host client trade r in omega (arith, p.least w, p.most w)
