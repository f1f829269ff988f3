-- ===== src/Api/Guard.antt =====
-- The routes behind a bearer token: who gets past it, and what others learn.
use crypto_auto_trader.Base.{
  ◌≡◌, refl, inl, inr, Bool, true, false, Option, none, some, List, [], ◌∷◌, arith, if◌then◌else◌,
  Bool-cases,
}
use crypto_auto_trader.Base.Int.{ℤ}
use crypto_auto_trader.Text.{Text, text, text_eq}
use crypto_auto_trader.Models.{User}
use crypto_auto_trader.Errors.{Exc, Result, ok, err}
use crypto_auto_trader.Errors.Envelope.{FieldError, ErrorResponse, make_response, error_response}
use crypto_auto_trader.Store.{find}
use crypto_auto_trader.Host.{Host}
use crypto_auto_trader.World.{World, Exec, ◌>>=◌}
use crypto_auto_trader.World.Runs.{bind_err}
use crypto_auto_trader.BinanceClient.{Client}
use crypto_auto_trader.Security.{
  Crypto, Decoded, subject_or_error, checked_claims, decode_access_token,
}
use crypto_auto_trader.Auth.{Credentials, has_user_id, unauthenticated, get_current_user}
use crypto_auto_trader.Auth.Sessions.{
  token_result, subject_result, session_result, run-get_current_user,
}
use crypto_auto_trader.Routes
use crypto_auto_trader.Api.{Inbound, Answer, authorised, handle, respond}

-- The credentials of a request whose route has the dependency `CurrentUser`.
abbrev pub credentials_of : Inbound → Option (Option Credentials)
credentials_of (Inbound.read_current_user given) = some given
credentials_of (Inbound.list_trades given limit offset status) = some given
credentials_of (Inbound.get_trade given trade_id) = some given
credentials_of (Inbound.reconcile given trade_id) = some given
credentials_of _ = none

-- The response to a request without a valid session.
abbrev pub unauthenticated_response : Text → Text → ErrorResponse
unauthenticated_response request_id reason =
    make_response request_id 401 (text "authentication_failed") reason none
      ((text "WWW-Authenticate", text "Bearer") ∷ [])

abbrev pub IsUnauthenticated : Exc → Type 0
IsUnauthenticated e = (reason : Text) × (e ≡ unauthenticated reason)

-- Of a result: no error but those of a token.
abbrev IsTokenError : Exc → Type 0
IsTokenError e = (reason : Text) × (e ≡ Exc.token_error reason)

abbrev OrError : (Exc → Type 0) → Result ℤ → Type 0
OrError P (ok n) = Unit
OrError P (err e) = P e

err_inv : {e x : Exc} (r : Result User) → r ≡ err x → r ≡ err e → e ≡ x
err_inv r k h = cc

token_result-err : (o : Option User) (e : Exc) → token_result o ≡ err e → IsUnauthenticated e
token_result-err none e h = (text "Invalid authentication token.", cc)
token_result-err (some user) e h = (text "This account is deactivated.", ground (arith, h))

module _ (host : Host) (crypto : Crypto) where
  token_errors_only : (r : Result ℤ) → OrError IsTokenError (subject_or_error crypto r)
  token_errors_only (ok n) = tt
  token_errors_only (err e) = (text "Invalid authentication token", refl)

  checked :
      (b : Bool) (r : Result ℤ) (reason : Text)
      → OrError IsTokenError (if b then subject_or_error crypto r else err (Exc.token_error reason))
  checked true r reason = token_errors_only r
  checked false r reason = (reason, refl)

  decode-IsTokenError : (d : Decoded) → OrError IsTokenError (checked_claims crypto host d)
  decode-IsTokenError Decoded.expired = (text "Token has expired", refl)
  decode-IsTokenError Decoded.invalid = (text "Invalid authentication token", refl)
  decode-IsTokenError (Decoded.claims payload) = checked _ _ _

  subject-err :
      (users : List User) (r : Result ℤ) (e : Exc)
      → OrError IsTokenError r
      → subject_result users r ≡ err e
      → IsUnauthenticated e
  subject-err users (ok k) e p h = token_result-err (find (has_user_id k) users) e h
  subject-err users (err x) e (reason, q) h =
      (reason, err_inv (subject_result users (err x)) (rw q refl) h)

  pub session_result-err :
      (o : Option Credentials) (w : World) (e : Exc)
      → session_result host crypto o w ≡ err e
      → IsUnauthenticated e
  unfolding decode_access_token
  session_result-err none w e h = (text "Missing bearer token.", cc)
  session_result-err (some c) w e h = elim (Bool-cases (text_eq c.credentials [])) [
    | inl e0 ↦ (
      text "Missing bearer token.",
      err_inv (session_result host crypto (some c) w) (rw e0 refl) h,
    )
    | inr e0 ↦ elim (Bool-cases (text_eq (host.lower c.scheme) (text "bearer"))) [
      | inl bearer ↦ subject-err w.db.users _ e (decode-IsTokenError _) (rw (e0, bearer) at h)
      | inr other ↦ (
        text "Authorization scheme must be Bearer.",
        err_inv (session_result host crypto (some c) w) (rw (e0, other) refl) h,
      )
    ]
  ]

pub some_inv : (o given : Option Credentials) → some o ≡ some given → o ≡ given
some_inv o given c = cc

-- The state after a call that ends with an error at once.
module _ (host : Host) (crypto : Crypto) (client : Client) (w : World) where
  run-authorised :
      {A B : Type 0} (given : Option Credentials) (k : User → Exec A) (f : A → Exec B) (e : Exc)
      → session_result host crypto given w ≡ err e
      → (authorised host crypto client given k >>= f) w ≡ (err e, w)
  run-authorised given k f e h = bind_err (authorised host crypto client given k) f w w e (
      bind_err (get_current_user host crypto given) k w w e
        (rw (run-get_current_user host crypto given w, h) refl))

  handle_refused :
      (request : Inbound) (given : Option Credentials) (e : Exc)
      → credentials_of request ≡ some given
      → session_result host crypto given w ≡ err e
      → handle host crypto client request w ≡ (err e, w)
  unfolding handle Routes.read_current_user
  handle_refused (Inbound.read_current_user o) given e c h =
      run-authorised o _ _ e (rw (some_inv o given c) h)
  handle_refused (Inbound.list_trades o limit offset status) given e c h =
      run-authorised o _ _ e (rw (some_inv o given c) h)
  handle_refused (Inbound.get_trade o trade_id) given e c h =
      run-authorised o _ _ e (rw (some_inv o given c) h)
  handle_refused (Inbound.reconcile o trade_id) given e c h =
      run-authorised o _ _ e (rw (some_inv o given c) h)
  handle_refused _ given e c h = cc

-- A request to a route of the trades, or to the caller's own account, without a valid session is
-- answered 401 in the envelope, under the request id of the context and with the header that asks
-- for a bearer token, and the state stays as it was, whatever else the request asks for.
pub protected_without_session :
    (host : Host) (crypto : Crypto) (client : Client) (errors : List FieldError) (request : Inbound)
    (given : Option Credentials) (e : Exc) (w : World)
    → credentials_of request ≡ some given
    → (get_current_user host crypto given w).0 ≡ err e
    → (reason : Text) × (respond host crypto client errors request w
        ≡ (Answer.failure (unauthenticated_response w.request_id reason), w))
unfolding respond error_response
protected_without_session host crypto client errors request given e w c h =
    let refused : session_result host crypto given w ≡ err e =
      rw (run-get_current_user host crypto given w) at h in
    let (reason, named) = session_result-err host crypto given w e refused in
    (reason, rw (handle_refused host crypto client w request given e c refused, named) refl)
