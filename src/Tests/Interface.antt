-- ===== src/Tests/Interface.antt =====
-- Runs of the HTTP interface.
use crypto_auto_trader.Base.{◌≡◌, refl, true, none, some, [], ◌∷◌}
use crypto_auto_trader.Text.{Text, text, text_eq}
use crypto_auto_trader.Json.{Json, Fields}
use crypto_auto_trader.Base.Int.{pos}
use crypto_auto_trader.Models.{Trade}
use crypto_auto_trader.Errors.{Exc, ok, err}
use crypto_auto_trader.Errors.Envelope.{LocPart, FieldError, joined, error_response}
use crypto_auto_trader.Errors.Envelope.Details.{inputs_are_kept_back}
use crypto_auto_trader.World.{World, pure, raise, ◌>>=◌}
use crypto_auto_trader.Binance.{int_of}
use crypto_auto_trader.Auth.{Credentials, unauthenticated, get_current_user}
use crypto_auto_trader.Security.{Crypto, Decoded, decode_access_token}
use crypto_auto_trader.Api.{Inbound, Answer, respond}
use crypto_auto_trader.Api.Guard.{unauthenticated_response, protected_without_session}
use crypto_auto_trader.Api.Privacy.{SameView, other_trades_leave_no_trace}
use crypto_auto_trader.Api.Statuses.{listed, status_of, possible_codes, status_codes_of_routes}
use crypto_auto_trader.Tests.Data.{host, client, crypto, world, world_of, pending, alice, raw}

-- A body with a password that is too short, and one with another.
abbrev short_password : Text → FieldError
short_password password = record {
  loc = LocPart.name (text "body") ∷ LocPart.name (text "password") ∷ [];
  msg = some (text "too short");
  type = some (text "string_too_short");
  input = Json.str password;
}

inputs_are_kept_back_example :
    (error_response (text "r1") (short_password (text "abc") ∷ []) Exc.request_validation
      ≡ error_response (text "r1") (short_password (text "xyz") ∷ []) Exc.request_validation)
    × ((error_response
          (text "r1")
          (short_password (text "abc") ∷ [])
          Exc.request_validation).status_code
        ≡ 422)
    × ((error_response
          (text "r1")
          (short_password (text "abc") ∷ [])
          Exc.request_validation).body.details
        ≡ some (
            record {
              field = text "body.password";
              message = text "too short";
              type = text "string_too_short";
            }
            ∷ []))
unfolding joined
inputs_are_kept_back_example =
    inputs_are_kept_back (text "r1") (short_password (text "abc") ∷ [])
      (short_password (text "xyz") ∷ []) Exc.request_validation refl

missing_token :
    (get_current_user host crypto none world).0
    ≡ err (unauthenticated (text "Missing bearer token."))
unfolding get_current_user raise
missing_token = refl

protected_without_session_example :
    (reason : Text) × (respond host crypto client [] (Inbound.get_trade none 1) world
      ≡ (Answer.failure (unauthenticated_response (text "r1") reason), world))
protected_without_session_example =
    protected_without_session host crypto client [] (Inbound.get_trade none 1) none
      (unauthenticated (text "Missing bearer token.")) world refl missing_token

-- Alice's token, and a trade of somebody else.
abbrev open_door : Crypto
open_door = record crypto {
  decode = λ token secret now. Decoded.claims (
      Fields.field (text "type") (Json.str (text "access"))
        (Fields.field (text "sub") (Json.int (pos 1)) Fields.end));
}

abbrev bearer : Credentials
bearer = record { scheme = text "bearer"; credentials = text "t" }

abbrev foreign : Trade
foreign = record pending { id = 5; user_id = 2; signal_id = text "s5" }

abbrev shared : World
shared = world_of (alice ∷ []) (pending ∷ foreign ∷ [])

as_alice : (get_current_user host open_door (some bearer) world).0 ≡ ok alice
unfolding get_current_user pure text_eq ◌>>=◌ decode_access_token int_of
as_alice = refl

world-SameView : SameView 1 world shared
world-SameView = record { own = refl; users = refl; clock = refl; request_id = refl }

other_trades_leave_no_trace_example :
    (respond host open_door client [] (Inbound.get_trade (some bearer) 5) world).0
    ≡ (respond host open_door client [] (Inbound.get_trade (some bearer) 5) shared).0
other_trades_leave_no_trace_example =
    other_trades_leave_no_trace host open_door client [] (Inbound.get_trade (some bearer) 5)
      (some bearer) alice world shared refl as_alice world-SameView

status_codes_of_routes_example :
    let request = Inbound.tradingview_webhook raw (some (text "hook")) in
    listed (status_of (respond host crypto client [] request world).0) (possible_codes request)
    ≡ true
status_codes_of_routes_example =
    status_codes_of_routes host crypto client []
      (Inbound.tradingview_webhook raw (some (text "hook"))) world
