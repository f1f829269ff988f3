-- ===== src/Api/Faults.antt =====
-- The exceptions of the services below the routes: faults of the exchange, of the database and of
-- conversions, and the few errors that the services raise on purpose.
use crypto_auto_trader.Base.{
  ℕ, ◌≡◌, refl, Bool, true, false, Option, none, some, List, arith, if◌then◌else◌,
}
use crypto_auto_trader.Text.{Text}
use crypto_auto_trader.Json.{Json, Fields}
use crypto_auto_trader.Models.{Trade}
use crypto_auto_trader.Errors.{BinanceErrorClass, BinanceError, Exc, Result, ok, err}
use crypto_auto_trader.Host.{Method, Transport, Host}
use crypto_auto_trader.Store.{Db}
use crypto_auto_trader.World.{lift, commit}
use crypto_auto_trader.World.Fails.{
  OrValue, Fails, Fails-lift, Fails-try, Fails-commit, fails_rules,
}
use crypto_auto_trader.Binance.{
  BinanceOrderResult, or_value_error, some_result, handle_response, handle_transport, int_of,
  from_payload,
}
use crypto_auto_trader.BinanceClient.{
  Client, request, assert_testnet, place_market_order, found_order, get_order,
}
use crypto_auto_trader.Reconciliation.{save, record_answer, reconcile_trade}
use crypto_auto_trader.Trading.{
  keep_trade, handle_uncertain_outcome, finalise_success, finalise_failure, failure_of,
  record_outcome, place_order, submit_to_binance, claim_for_submission, submit_claimed,
}

-- No error of the program's own: the handlers answer it with 500 or 503.
abbrev pub is_fault : Exc → Bool
is_fault (Exc.app _ _) = false
is_fault Exc.request_validation = false
is_fault (Exc.http_exception _ _ _) = false
is_fault _ = true

abbrev pub only_faults {ℓ} : {A : Type ℓ} → Result A → Bool
only_faults (ok a) = true
only_faults (err e) = is_fault e

faults-or_value_error : {A : Type 0} (o : Option A) → only_faults (or_value_error o) ≡ true
faults-or_value_error none = refl
faults-or_value_error (some a) = refl

faults-some_result :
    {A : Type 0} (r : Result A) → only_faults r ≡ true → only_faults (some_result r) ≡ true
faults-some_result (ok a) h = refl
faults-some_result (err e) h = h

module _ (host : Host) (client : Client) where
  faults-assert_testnet : only_faults (assert_testnet host client) ≡ true
  unfolding assert_testnet
  faults-assert_testnet = ground arith

  faults-handle_transport : (t : Transport) → only_faults (handle_transport host t) ≡ true
  unfolding handle_transport handle_response
  faults-handle_transport t = ground arith

  faults-from_payload : (fields : Fields) → only_faults (from_payload host fields) ≡ true
  unfolding from_payload int_of
  faults-from_payload fields = ground arith

-- Of a kind of errors that has every fault in it.
module _ (P : Exc → Type 0) (fault : (e : Exc) → is_fault e ≡ true → P e) {A : Type 0} where
  pub or_fault : (r : Result A) → only_faults r ≡ true → OrValue P r
  or_fault (ok a) h = tt
  or_fault (err e) h = fault e h

  pub Fails-fault : (r : Result A) → only_faults r ≡ true → Fails P (lift r)
  Fails-fault r h = Fails-lift P r (or_fault r h)

module _ (P : Exc → Type 0) (fault : (e : Exc) → is_fault e ≡ true → P e) (host : Host)
    (client : Client) where
  Fails-write : (f : Db → Db) → Fails P (commit host f)
  Fails-write f = Fails-commit P host (fault Exc.sqlalchemy_error refl) f

  Fails-request :
      (method : Method) (path : Text) (params : List (Text × Json)) (signed : Bool)
      → Fails P (request host client method path params signed)
  unfolding request
  Fails-request method path params signed =
      search (fails_rules, Fails-fault P fault, faults-handle_transport host client)

  faults-order :
      (b : Bool) (r : BinanceOrderResult) (payload : Fields)
      → only_faults (if b then ok r else from_payload host payload) ≡ true
  faults-order true r payload = refl
  faults-order false r payload = faults-from_payload host client payload

  Fails-place_order : (t : Trade) → Fails P (place_order host client t)
  unfolding place_order place_market_order
  Fails-place_order t =
      search
        (
          fails_rules,
          Fails-fault P fault,
          faults-assert_testnet host client,
          faults-or_value_error,
          Fails-request,
          faults-order,
        )
        depth 8

  fails-found_order : (r : Result Fields) → OrValue P r → OrValue P (found_order host r)
  unfolding found_order
  fails-found_order (ok payload) h =
      or_fault P fault _
        (faults-some_result (from_payload host payload) (faults-from_payload host client payload))
  fails-found_order (err (Exc.binance e)) h = or_fault P fault _ (ground arith)
  fails-found_order (err e) h = h

  Fails-get_order : (symbol id : Text) → Fails P (get_order host client symbol id)
  unfolding get_order
  Fails-get_order symbol id =
      Fails-try P _ _ (Fails-request _ _ _ _) (λ r h. Fails-lift P _ (fails-found_order r h))

  Fails-save : (t : Trade) (f : Trade → Trade) → Fails P (save host t f)
  unfolding save
  Fails-save t f = search (fails_rules, Fails-write)

  Fails-record_answer :
      (t : Trade) (r : Result (Option BinanceOrderResult))
      → OrValue P r
      → Fails P (record_answer host t r)
  unfolding record_answer
  Fails-record_answer t (ok none) h = search (fails_rules, Fails-save)
  Fails-record_answer t (ok (some result)) h = search (fails_rules, Fails-save)
  Fails-record_answer t (err (Exc.binance e)) h = search fails_rules
  Fails-record_answer t (err e) h = search (fails_rules, h)

  pub Fails-reconcile_trade : (t : Trade) → Fails P (reconcile_trade host client t)
  unfolding reconcile_trade
  Fails-reconcile_trade t = search (fails_rules, Fails-try, Fails-get_order, Fails-record_answer)

  Fails-keep_trade : (t : Trade) (r : Result Trade) → Fails P (keep_trade host t r)
  Fails-keep_trade t (ok u) = search fails_rules
  Fails-keep_trade t (err e) = search fails_rules

  Fails-handle_uncertain_outcome :
      (t : Trade) (e : BinanceError) → Fails P (handle_uncertain_outcome host client t e)
  unfolding handle_uncertain_outcome
  Fails-handle_uncertain_outcome t e = search (fails_rules, Fails-save, Fails-keep_trade)

  Fails-failure_of :
      (c : BinanceErrorClass) (t : Trade) (e : BinanceError)
      → Fails P (failure_of host c client t e)
  unfolding finalise_failure
  Fails-failure_of BinanceErrorClass.uncertain t e = search (Fails-handle_uncertain_outcome)
  Fails-failure_of _ t e = search (fails_rules, Fails-save)

  Fails-record_outcome :
      (t : Trade) (r : Result BinanceOrderResult)
      → OrValue P r
      → Fails P (record_outcome host client t r)
  unfolding record_outcome finalise_success
  Fails-record_outcome t (ok result) h = search (fails_rules, Fails-save)
  Fails-record_outcome t (err (Exc.binance e)) h = search (Fails-failure_of)
  Fails-record_outcome t (err e) h = search (fails_rules, h)

  pub Fails-submit_claimed :
      (t : Trade) (o : Option Trade) → Fails P (submit_claimed host client t o)
  unfolding submit_to_binance
  Fails-submit_claimed t none = search fails_rules
  Fails-submit_claimed t (some u) = search (Fails-try, Fails-place_order, Fails-record_outcome)

  pub Fails-claim_for_submission : (k : ℕ) → Fails P (claim_for_submission host k)
  unfolding claim_for_submission
  Fails-claim_for_submission k = search (fails_rules, Fails-write) depth 7
