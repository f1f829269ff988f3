-- ===== src/Security/Tokens.antt =====
-- Access tokens, issued and read back.
use crypto_auto_trader.Base.{ℕ, ◌+◌, ◌*◌, ◌≤◌, ◌<◌, ◌≡◌, some}
use crypto_auto_trader.Base.Int.{pos}
use crypto_auto_trader.Text.{Text, text, text_eq}
use crypto_auto_trader.Numbers.{digits}
use crypto_auto_trader.Json.{Json, Fields}
use crypto_auto_trader.Errors.{ok}
use crypto_auto_trader.Host.{Host}
use crypto_auto_trader.Binance.{int_of}
use crypto_auto_trader.Security.{
  issued_claims, Claims, Decoded, Crypto, create_access_token, decode_access_token,
}

-- The claims as the JSON object that `jwt.decode` gives back.
abbrev pub claim_fields : Claims → Fields
claim_fields c = Fields.field (text "sub") (Json.str c.sub) (
    Fields.field (text "type") (Json.str c.type) (
      Fields.field (text "iat") (Json.int (pos c.iat)) (
        Fields.field (text "exp") (Json.int (pos c.exp))
          (Fields.field (text "jti") (Json.str c.jti) Fields.end))))

-- A token issued at one time is read back as the same user id at that and any later time before its
-- lifetime is over. PyJWT gives back the claims that it encoded under the same secret from the time
-- of their issue until they expire, and Python's `int` reads decimal digits.
pub decode-create_access_token :
    (crypto : Crypto) (host : Host) (now later user_id : ℕ)
    → ((c : Claims) (secret : Text) (t : ℕ)
        → c.iat ≤ t
        → t < c.exp
        → crypto.decode (crypto.encode c secret) secret t ≡ Decoded.claims (claim_fields c))
    → ((n : ℕ) → host.int_of_str (digits n) ≡ some (pos n))
    → now ≤ later
    → later < now + host.settings.access_token_expire_minutes * 60
    → decode_access_token crypto host later (create_access_token crypto host now user_id).0
      ≡ ok (pos user_id)
unfolding decode_access_token create_access_token int_of text_eq
decode-create_access_token crypto host now later user_id reads ints issued fresh = rw (
  reads (issued_claims crypto host now user_id) host.settings.jwt_secret later issued fresh,
  ints user_id,
)
