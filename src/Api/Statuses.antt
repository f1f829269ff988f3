-- ===== src/Api/Statuses.antt =====
-- The status codes of the interface.
use crypto_auto_trader.Base.{
  ℕ, ◌≡◌, refl, ap, ◌∙◌, Bool, true, Option, List, [], ◌∷◌, arith, any, ◌==◌,
}
use crypto_auto_trader.Text.{Text}
use crypto_auto_trader.Errors.{AppErrorClass, Exc, Result, ok, err}
use crypto_auto_trader.Errors.Envelope.{FieldError, make_response, error_response}
use crypto_auto_trader.Host.{Host}
use crypto_auto_trader.World.{World, Exec, pure, ◌>>=◌}
use crypto_auto_trader.World.Runs.{continue, bind_lem}
use crypto_auto_trader.World.Fails.{OrValue, Fails, fails_rules}
use crypto_auto_trader.BinanceClient.{Client}
use crypto_auto_trader.Database.{check_database_connection}
use crypto_auto_trader.Health.{readiness}
use crypto_auto_trader.Security.{Crypto}
use crypto_auto_trader.Auth.{Credentials, get_current_user}
use crypto_auto_trader.Routes
use crypto_auto_trader.Routes.{register_valid, login_valid}
use crypto_auto_trader.Api.{Inbound, Answer, Body, answered, handle, respond}
use crypto_auto_trader.Api.Reading.{
  HasReading, Fails-get_current_user, Fails-list_trades, Fails-read_trade, Fails-reconcile_and_read,
}
use crypto_auto_trader.Api.Accounts.{HasAccounts, Fails-register_valid, Fails-login_valid}
use crypto_auto_trader.Api.Intake.{HasIntake, Fails-tradingview_webhook}

-- The status code that an exception is answered with.
abbrev code_of : Exc → ℕ
code_of e = (error_response [] [] e).status_code

-- `n in codes`
abbrev pub listed : ℕ → List ℕ → Bool
listed n codes = any (λ c. c == n) codes

abbrev Within : List ℕ → Exc → Type 0
Within codes e = listed (code_of e) codes ≡ true

-- The codes of a webhook's refusals and failures.
abbrev intake_codes : List ℕ
intake_codes = 401 ∷ 409 ∷ 422 ∷ 500 ∷ 503 ∷ []

HasIntake-webhook : HasIntake (Within intake_codes)
unfolding error_response make_response
HasIntake-webhook = record {
  fault = λ e h. ground (arith, h);
  invalid = refl;
  secret = λ m. refl;
  rule = λ m. refl;
  duplicate = λ k m. refl;
  configuration = λ m. refl;
}

HasReading-within :
    (codes : List ℕ)
    → listed 401 codes ≡ true
    → listed 422 codes ≡ true
    → listed 500 codes ≡ true
    → listed 503 codes ≡ true
    → HasReading (Within codes)
unfolding error_response make_response
HasReading-within codes unauthorised invalid failed down = record {
  fault = λ e h. ground (arith, h, failed, down);
  invalid = invalid;
  session = λ m. unauthorised;
}

HasAccounts-within :
    (codes : List ℕ)
    → listed 401 codes ≡ true
    → listed 409 codes ≡ true
    → listed 422 codes ≡ true
    → listed 500 codes ≡ true
    → listed 503 codes ≡ true
    → HasAccounts (Within codes)
unfolding error_response make_response
HasAccounts-within codes unauthorised conflict invalid failed down = record {
  fault = λ e h. ground (arith, h, failed, down);
  invalid = invalid;
  session = λ m. unauthorised;
  taken = λ m. conflict;
}

abbrev account_codes : List ℕ
account_codes = 401 ∷ 409 ∷ 422 ∷ 500 ∷ 503 ∷ []

abbrev session_codes : List ℕ
session_codes = 401 ∷ 500 ∷ 503 ∷ []

abbrev page_codes : List ℕ
page_codes = 401 ∷ 422 ∷ 500 ∷ 503 ∷ []

abbrev trade_codes : List ℕ
trade_codes = 401 ∷ 404 ∷ 422 ∷ 500 ∷ 503 ∷ []

missing : (m : Text) → Within trade_codes (Exc.app AppErrorClass.resource_not_found m)
unfolding error_response make_response
missing m = refl

-- The codes that a request may be answered with; the first is that of success.
abbrev pub possible_codes : Inbound → List ℕ
possible_codes Inbound.health = 200 ∷ []
possible_codes (Inbound.readiness connected selected) = 200 ∷ 503 ∷ []
possible_codes (Inbound.register email password) = 201 ∷ account_codes
possible_codes (Inbound.login email password) = 200 ∷ account_codes
possible_codes (Inbound.read_current_user given) = 200 ∷ session_codes
possible_codes (Inbound.list_trades given limit offset status) = 200 ∷ page_codes
possible_codes (Inbound.get_trade given trade_id) = 200 ∷ trade_codes
possible_codes (Inbound.reconcile given trade_id) = 200 ∷ trade_codes
possible_codes (Inbound.tradingview_webhook raw secret) = 202 ∷ intake_codes

abbrev pub status_of : Answer → ℕ
status_of (Answer.success status_code body) = status_code
status_of (Answer.failure r) = r.status_code

later : (n k : ℕ) (codes : List ℕ) → listed k codes ≡ true → listed k (n ∷ codes) ≡ true
later n k codes h = ground (arith, h)

code-error_response :
    (request_id : Text) (errors : List FieldError) (e : Exc)
    → (error_response request_id errors e).status_code ≡ code_of e
unfolding error_response make_response
code-error_response request_id errors (Exc.app c m) = refl
code-error_response request_id errors Exc.request_validation = refl
code-error_response request_id errors (Exc.http_exception n m headers) = refl
code-error_response request_id errors _ = refl

module _ (host : Host) (crypto : Crypto) (client : Client) (errors : List FieldError) where
  abbrev answer_of : Result (ℕ × Body) × World → Answer
  answer_of x = answered host crypto client errors x.1.request_id x.0

  -- A handler whose errors are within the codes, and the code of its success.
  within :
      {A : Type 0} (codes : List ℕ) (n : ℕ) (m : Exec A) (f : A → Body) (w : World)
      → Fails (Within codes) m
      → listed (status_of (answer_of ((m >>= λ a. pure (n, f a)) w))) (n ∷ codes) ≡ true
  unfolding pure
  within {A} codes n m f w fails =
      ap (λ x. listed (status_of (answer_of x)) (n ∷ codes)) (bind_lem m _ w)
      ∙ go (m w) (fails.holds w)
    where
      go :
          (x : Result A × World)
          → OrValue (Within codes) x.0
          → listed (status_of (answer_of (continue (λ a. pure (n, f a)) x))) (n ∷ codes) ≡ true
      go (ok a, v) h = ground arith
      go (err e, v) h =
          later n _ codes (ap (λ k. listed k codes) (code-error_response v.request_id errors e) ∙ h)

  Fails-session :
      (codes : List ℕ)
      → listed 401 codes ≡ true
      → (given : Option Credentials) → Fails (Within codes) (get_current_user host crypto given)
  unfolding error_response make_response
  Fails-session codes h given = Fails-get_current_user (Within codes) (λ m. h) host crypto given

  ready :
      (connected selected : Result (Unit {0})) (w : World)
      → listed
          (status_of
            (answer_of (handle host crypto client (Inbound.readiness connected selected) w)))
          (200 ∷ 503 ∷ [])
        ≡ true
  unfolding handle pure readiness check_database_connection
  ready (ok a) (ok b) w = refl
  ready (ok a) (err e) w = refl
  ready (err e) selected w = refl

  listed_code :
      (request : Inbound) (w : World)
      → listed
          (status_of (answer_of (handle host crypto client request w)))
          (possible_codes request)
        ≡ true
  unfolding handle pure Routes.register Routes.login Routes.read_current_user
  listed_code Inbound.health w = refl
  listed_code (Inbound.readiness connected selected) w = ready connected selected w
  listed_code (Inbound.register email password) w = within account_codes 201 _ _ w (
      Fails-register_valid (Within account_codes)
        (HasAccounts-within account_codes refl refl refl refl refl) host crypto _)
  listed_code (Inbound.login email password) w = within account_codes 200 _ _ w (
      Fails-login_valid (Within account_codes)
        (HasAccounts-within account_codes refl refl refl refl refl) host crypto _)
  listed_code (Inbound.read_current_user given) w =
      within session_codes 200 _ _ w (search (fails_rules, Fails-session session_codes refl))
  listed_code (Inbound.list_trades given limit offset status) w = within page_codes 200 _ _ w (
      search (
        fails_rules,
        Fails-session page_codes refl,
        Fails-list_trades (Within page_codes) (HasReading-within page_codes refl refl refl refl)
            host client,
      ))
  listed_code (Inbound.get_trade given trade_id) w = within trade_codes 200 _ _ w (
      search (
        fails_rules,
        Fails-session trade_codes refl,
        Fails-read_trade (Within trade_codes) (HasReading-within trade_codes refl refl refl refl)
            host client missing,
      ))
  listed_code (Inbound.reconcile given trade_id) w = within trade_codes 200 _ _ w (
      search (
        fails_rules,
        Fails-session trade_codes refl,
        Fails-reconcile_and_read (Within trade_codes)
            (HasReading-within trade_codes refl refl refl refl) host client missing,
      ))
  listed_code (Inbound.tradingview_webhook raw secret) w =
      within intake_codes 202 _ _ w
        (Fails-tradingview_webhook (Within intake_codes) HasIntake-webhook host client raw secret)

-- Whatever a request is and whatever becomes of it, it is answered with one of the status codes of
-- its route: that of success, 401 for a missing or wrong credential, 404 for a trade that the caller
-- does not have, 409 for a duplicate, 422 for input that is refused, 500 and 503 for faults. Only
-- the routes with an id answer 404, only the webhook and the account routes 409; liveness is always
-- 200, and readiness 200 or 503.
pub status_codes_of_routes :
    (host : Host) (crypto : Crypto) (client : Client) (errors : List FieldError) (request : Inbound)
    (w : World)
    → listed (status_of (respond host crypto client errors request w).0) (possible_codes request)
      ≡ true
unfolding respond
status_codes_of_routes host crypto client errors request w =
    listed_code host crypto client errors request w
