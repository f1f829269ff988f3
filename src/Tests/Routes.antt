-- ===== src/Tests/Routes.antt =====
-- A second account, from its registration to a request an hour less a second later, and a request
-- that brings its own id.
use crypto_auto_trader.Base.{
  ◌+◌, ◌≡◌, ◌≢◌, refl, true, false, none, some, any, [], ◌∷◌, ◌++◌, arith, map, All, if◌then◌else◌,
  leb, ◌&&◌,
}
use crypto_auto_trader.Text.{Text, text, text_eq, strip}
use crypto_auto_trader.Errors.{ok}
use crypto_auto_trader.Host.{Host}
use crypto_auto_trader.Store.{insert_user}
use crypto_auto_trader.World.{World, ◌>>=◌, commit_insert}
use crypto_auto_trader.Security.{Claims, hash_password, password_within_bcrypt_limit, utf8_length}
use crypto_auto_trader.Auth.{TokenResponse, validate_user_create, register_user, get_user_by_email}
use crypto_auto_trader.Routes.{UserRead, register, login, read_current_user}
use crypto_auto_trader.Routes.SignUp.{with_token, registered_account_gets_in}
use crypto_auto_trader.Middleware.{Headers, Scope, Message, App, Line, header_name, call}
use crypto_auto_trader.Middleware.Trace.{Carries, stripped, callers_id_comes_back}
use crypto_auto_trader.Tests.Data.{world}
use crypto_auto_trader.Tests.Access.{
  plain_token, plain_crypto, digit_host, open_token-plain_token, digit_host-digits,
}

-- ASCII letters only
abbrev lower_case : Text → Text
lower_case = map λ c. if leb 65 c && leb c 90 then c + 32 else c

abbrev web_host : Host
web_host = record digit_host { lower = lower_case }

abbrev after : World
after = (register web_host plain_crypto (text "C@d ") (text "password") world).1

abbrev later : World
later = record after { clock = after.clock + 3599000 }

abbrev bob : UserRead
bob = record { id = 2; email = text "c@d"; is_active = true; created_at = 90000 }

registered : register web_host plain_crypto (text "C@d ") (text "password") world ≡ (ok bob, after)
unfolding register validate_user_create register_user get_user_by_email ◌>>=◌ text_eq strip
    hash_password password_within_bcrypt_limit utf8_length commit_insert insert_user
registered = refl

token_given : (c : Claims) (secret : Text) → plain_token c secret ≢ []
token_given c secret h = cc

registered_account_gets_in_example :
    (token : TokenResponse) × (login web_host plain_crypto (text "C@d ") (text "password") after
      ≡ (ok token, after))
    × (read_current_user web_host plain_crypto (some (with_token token.access_token)) later
        ≡ (ok bob, later))
unfolding text_eq
registered_account_gets_in_example =
    registered_account_gets_in web_host plain_crypto (text "C@d ") (text "password") bob world after
      after later refl open_token-plain_token token_given digit_host-digits refl (omega arith, tt)
      registered refl refl (omega arith) (omega arith)

-- An application that accepts and sends a body.
abbrev accepting : App
accepting request_id scope = record {
  sent =
      Message.response_start 202 ((text "content-type", text "application/json") ∷ [])
      ∷ Message.other (text "http.response.body")
      ∷ [];
  raised = none;
}

abbrev other_headers : Headers
other_headers = (text "host", text "h") ∷ []

abbrev scope : Scope
scope = record {
  type = text "http";
  method = text "POST";
  path = text "/";
  headers = other_headers ++ (header_name, text "abc") ∷ [];
}

not_first : any (λ (h : Text × Text). text_eq h.0 header_name) other_headers ≡ false
unfolding text_eq
not_first = refl

abc_given : text "abc" ≢ []
abc_given h = cc

callers_id_comes_back_example :
    let handled = call accepting (text "-") (text "f") scope in
    (handled.request_id ≡ text "abc")
    × All (Carries (text "abc")) handled.sent
    × (map stripped handled.sent ≡ (accepting (text "abc") scope).sent)
    × (handled.raised ≡ none)
    × (handled.log
        ≡ Line.arrived (text "POST") (text "/") ∷ Line.answered (text "POST") (text "/") 202 ∷ [])
callers_id_comes_back_example =
    callers_id_comes_back accepting (text "-") (text "f") (text "abc") scope other_headers [] refl
      refl not_first abc_given (omega arith)
