-- ===== src/Binance/Outcomes.antt =====
-- The error taxonomy: which answers of the transport leave an order's fate unknown, which prove
-- that there is none, and which are an answer.
use crypto_auto_trader.Base.{
  ◌≤◌, ◌<◌, ◌≡◌, ◌↔◌, ◌⊎◌, inl, inr, refl, Bool, false, not, ◌&&◌, Option, none, some, arith, leb,
}
use crypto_auto_trader.Json.{Fields}
use crypto_auto_trader.Errors.{BinanceErrorClass, is_rejected, Exc, Result, ok, err}
use crypto_auto_trader.Host.{Response, Transport, Host}
use crypto_auto_trader.Binance.{handle_response, handle_transport}

-- The request may have been acted on, and no readable answer says so.
pub data IsLost : Transport → Type 0 where
  timed_out : IsLost Transport.timeout
  broken : IsLost Transport.http_error
  server_error : (r : Response) → 500 ≤ r.status_code → IsLost (Transport.response r)
  unreadable : (r : Response) → r.status_code < 400 → r.json ≡ none → IsLost (Transport.response r)

-- The class of the error that a call raises, if it raises one of the client's.
abbrev pub class_of : Result Fields → Option BinanceErrorClass
class_of (ok _) = none
class_of (err (Exc.binance e)) = some e.class
class_of (err _) = none

module _ (host : Host) where
  uncertain_of_lost :
      (t : Transport)
      → IsLost t
      → class_of (handle_transport host t) ≡ some BinanceErrorClass.uncertain
  unfolding handle_transport handle_response
  uncertain_of_lost t timed_out = refl
  uncertain_of_lost t broken = refl
  uncertain_of_lost t (server_error r h) = ground arith
  uncertain_of_lost t (unreadable r h e) = ground arith

  lost_response :
      (r : Response)
      → class_of (handle_response host r) ≡ some BinanceErrorClass.uncertain
      → (500 ≤ r.status_code) ⊎ ((r.status_code < 400) × (r.json ≡ none))
  unfolding handle_response
  lost_response r h = ground arith

-- The client raises its "uncertain" error exactly when the request may have been acted on and no
-- readable answer says so: a timeout after the connection, a broken transport, a status from 500
-- on, or a status below 400 whose body is no JSON.
pub uncertain_iff_IsLost :
    (host : Host) (t : Transport)
    → (class_of (handle_transport host t) ≡ some BinanceErrorClass.uncertain) ↔ IsLost t
unfolding handle_transport
uncertain_iff_IsLost host Transport.connect_error = (λ h. cc, λ h. elim h [ ])
uncertain_iff_IsLost host Transport.timeout = (λ h. timed_out, uncertain_of_lost host _)
uncertain_iff_IsLost host Transport.http_error = (λ h. broken, uncertain_of_lost host _)
uncertain_iff_IsLost host (Transport.response r) = (
  λ h. elim (lost_response host r h) [
    | inl up ↦ server_error r up
    | inr (low, bad) ↦ unreadable r low bad
  ],
  uncertain_of_lost host (Transport.response r),
)

-- A refusal: an answer with a status from 400 to 499.
abbrev pub is_refusal : Transport → Bool
is_refusal (Transport.response r) = leb 400 r.status_code && not (leb 500 r.status_code)
is_refusal _ = false

abbrev pub raises_rejected : Result Fields → Bool
raises_rejected (err (Exc.binance e)) = is_rejected e.class
raises_rejected _ = false

-- The client raises an error that counts as a rejection exactly when the exchange answered with a
-- status from 400 to 499.
pub rejected_iff_refusal :
    (host : Host) (t : Transport) → raises_rejected (handle_transport host t) ≡ is_refusal t
unfolding handle_transport handle_response
rejected_iff_refusal host Transport.connect_error = refl
rejected_iff_refusal host Transport.timeout = refl
rejected_iff_refusal host Transport.http_error = refl
rejected_iff_refusal host (Transport.response r) = ground arith
