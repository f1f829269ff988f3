-- ===== src/Api/Intake.antt =====
-- The errors that the webhook raises on purpose, beside the faults.
use crypto_auto_trader.Base.{
  ℕ, ◌≡◌, refl, Bool, true, false, Option, none, some, arith, if◌then◌else◌, ltb, length,
  Bool-cases, inl, inr,
}
use crypto_auto_trader.Text.{Text}
use crypto_auto_trader.Models.{User, Trade}
use crypto_auto_trader.Errors.{AppErrorClass, Exc, Result, ok, err}
use crypto_auto_trader.Host.{Host}
use crypto_auto_trader.World.Fails.{
  OrValue, Fails, Fails-lift, Fails-try, Fails-commit_insert, fails_rules,
}
use crypto_auto_trader.Payload.{RawPayload, Payload}
use crypto_auto_trader.BinanceClient.{Client}
use crypto_auto_trader.Trading.{
  size_error, validate_signal, owner_found, owner_cached, resolve_trade_owner_id, created,
  create_pending_trade, submit, process_signal,
}
use crypto_auto_trader.Webhook.{
  serialise_decimal, trade_read, authenticate_webhook, payload_or_422, tradingview_webhook,
}
use crypto_auto_trader.Api.Faults.{
  is_fault, only_faults, or_fault, Fails-submit_claimed, Fails-claim_for_submission,
}

-- A kind of errors with those of the intake in it.
pub record HasIntake (P : Exc → Type 0) : Type 0 where
  pub fault : (e : Exc) → is_fault e ≡ true → P e
  pub invalid : P Exc.request_validation
  pub secret : (m : Text) → P (Exc.app AppErrorClass.authentication m)
  pub rule : (m : Text) → P (Exc.app AppErrorClass.business_validation m)
  pub duplicate : (k : Option ℕ) (m : Text) → P (Exc.app (AppErrorClass.duplicate_signal k) m)
  pub configuration : (m : Text) → P (Exc.app AppErrorClass.configuration m)

faults-trade_read : (t : Trade) → only_faults (trade_read t) ≡ true
unfolding trade_read serialise_decimal
faults-trade_read t = ground arith

pub OrValue-trade_read :
    (P : Exc → Type 0)
    → ((e : Exc) → is_fault e ≡ true → P e)
    → (t : Trade) → OrValue P (trade_read t)
OrValue-trade_read P fault t = or_fault P fault _ (faults-trade_read t)

module _ (P : Exc → Type 0) (kind : HasIntake P) (host : Host) where
  OrValue-if :
      {A : Type 0} (b : Bool) (r r' : Result A)
      → OrValue P r
      → OrValue P r'
      → OrValue P (if b then r else r')
  OrValue-if true r r' h h' = h
  OrValue-if false r r' h h' = h'

  OrValue-size_error :
      (o : Option Bool) (m : Text) (rest : Result (Unit {0}))
      → OrValue P rest
      → OrValue P (size_error o m rest)
  OrValue-size_error none m rest h = kind.fault Exc.decimal_error refl
  OrValue-size_error (some true) m rest h = kind.rule m
  OrValue-size_error (some false) m rest h = h

  OrValue-validate_signal : (payload : Payload) → OrValue P (validate_signal host payload)
  unfolding validate_signal
  OrValue-validate_signal payload = search (OrValue-if, OrValue-size_error, kind.rule)

  OrValue-authenticate_webhook :
      (header_secret body_secret : Option Text)
      → OrValue P (authenticate_webhook host header_secret body_secret)
  unfolding authenticate_webhook
  OrValue-authenticate_webhook header_secret body_secret = search (OrValue-if, kind.secret)

  OrValue-payload_or_422 : (o : Option Payload) → OrValue P (payload_or_422 host o)
  OrValue-payload_or_422 none = kind.invalid
  OrValue-payload_or_422 (some payload) = tt

  Fails-owner_found : (o : Option User) → Fails P (owner_found host o)
  Fails-owner_found none = search (fails_rules, kind.configuration)
  Fails-owner_found (some user) = search fails_rules

  Fails-owner_cached : (o : Option ℕ) → Fails P (owner_cached host o)
  Fails-owner_cached none = search (fails_rules, Fails-owner_found)
  Fails-owner_cached (some k) = search fails_rules

  Fails-resolve_trade_owner_id : Fails P (resolve_trade_owner_id host)
  unfolding resolve_trade_owner_id
  Fails-resolve_trade_owner_id = search (fails_rules, Fails-owner_cached)

  Fails-created :
      (payload : Payload) (r : Result Trade) → OrValue P r → Fails P (created host payload r)
  Fails-created payload (ok t) h = search fails_rules
  Fails-created payload (err Exc.integrity_error) h = search (fails_rules, kind.duplicate)
  Fails-created payload (err e) h = search (fails_rules, h)

  Fails-create_pending_trade :
      (payload : Payload) (owner_id : ℕ) → Fails P (create_pending_trade host payload owner_id)
  unfolding create_pending_trade
  Fails-create_pending_trade payload owner_id = search (
    fails_rules,
    Fails-try,
    Fails-created,
    Fails-commit_insert P host _ (kind.fault Exc.sqlalchemy_error refl)
        (kind.fault Exc.integrity_error refl),
  )

  Fails-submit : (k : ℕ) → Fails P (submit host k)
  unfolding submit
  Fails-submit k = record {
    holds = λ w. elim (Bool-cases (ltb (length w.queue) host.settings.executor_queue_size)) [
      | inl e ↦ rw e tt
      | inr e ↦ rw e tt
    ];
  }

  Fails-process_signal :
      (client : Client) (payload : Payload) → Fails P (process_signal host client payload)
  unfolding process_signal
  Fails-process_signal client payload =
      search
        (
          fails_rules,
          Fails-lift,
          OrValue-validate_signal,
          Fails-resolve_trade_owner_id,
          Fails-create_pending_trade,
          Fails-submit,
          Fails-claim_for_submission P kind.fault host client,
          Fails-submit_claimed P kind.fault host client,
        )
        depth 8

  pub Fails-tradingview_webhook :
      (client : Client) (raw : RawPayload) (secret : Option Text)
      → Fails P (tradingview_webhook host client raw secret)
  unfolding tradingview_webhook
  Fails-tradingview_webhook client raw secret =
      search
        (
          fails_rules,
          Fails-lift,
          OrValue-payload_or_422,
          OrValue-authenticate_webhook,
          Fails-process_signal,
          OrValue-trade_read P kind.fault,
        )
        depth 8
