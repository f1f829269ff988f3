-- ===== src/Security.antt =====
-- app/core/security.py: passwords, access tokens and the shared secret. bcrypt and PyJWT are not in
-- this repository: they are the functions of `Crypto`.
pub mod Tokens
use crypto_auto_trader.Base.{
  ℕ, ◌+◌, ◌*◌, Bool, true, false, Option, none, some, List, [], ◌∷◌, ltb, leb, if◌then◌else◌,
}
use crypto_auto_trader.Base.Int.{ℤ}
use crypto_auto_trader.Text.{Text, text, text_eq}
use crypto_auto_trader.Numbers.{digits}
use crypto_auto_trader.Json.{Json, Fields, get_field}
use crypto_auto_trader.Errors.{Exc, Result, ok, err}
use crypto_auto_trader.Host.{Host}
use crypto_auto_trader.Binance.{int_of}

-- The claims that `create_access_token` signs; times are seconds.
pub record Claims : Type 0 where
  pub sub : Text
  pub type : Text
  pub iat : ℕ
  pub exp : ℕ
  pub jti : Text

-- How `jwt.decode` ends: the claims, an expired token, or any other refusal.
pub data Decoded : Type 0 where
  claims : Fields → Decoded
  expired invalid : Decoded

pub record Crypto : Type 0 where
  -- `bcrypt.hashpw` under a fresh salt; `bcrypt.checkpw`, where `none` is its `ValueError`
  pub hashpw : Text → Text
  pub checkpw : Text → Text → Option Bool
  -- `jwt.encode` and `jwt.decode` under a secret; decoding looks at the time
  pub encode : Claims → Text → Text
  pub decode : Text → Text → ℕ → Decoded
  -- `uuid.uuid4().hex`
  pub fresh_hex : Text

-- The bytes of a code point in UTF-8, and of a text.
abbrev utf8_bytes : ℕ → ℕ
utf8_bytes c = if ltb c 0x80 then 1 else if ltb c 0x800 then 2 else if ltb c 0x10000 then 3 else 4

unfoldable pub utf8_length : Text → ℕ
utf8_length [] = 0
utf8_length (c ∷ t) = utf8_bytes c + utf8_length t

abbrev pub bcrypt_max_password_bytes : ℕ
bcrypt_max_password_bytes = 72

unfoldable pub password_within_bcrypt_limit : Text → Bool
password_within_bcrypt_limit password = leb (utf8_length password) bcrypt_max_password_bytes

abbrev true_or_false : Option Bool → Bool
true_or_false (some b) = b
true_or_false none = false

abbrev pub token_type_access : Text
token_type_access = text "access"

-- `secrets_match`
unfoldable pub secrets_match : Option Text → Text → Bool
secrets_match none expected = false
secrets_match (some []) expected = false
secrets_match (some (c ∷ s)) expected = text_eq (c ∷ s) expected

abbrev token_error : Text → Exc
token_error reason = Exc.token_error reason

module _ (crypto : Crypto) where
  unfoldable pub hash_password : Text → Result Text
  hash_password password =
      if password_within_bcrypt_limit password
      then ok (crypto.hashpw password)
      else err Exc.value_error

  unfoldable pub verify_password : Text → Text → Bool
  verify_password plain_password password_hash =
      if password_within_bcrypt_limit plain_password
      then true_or_false (crypto.checkpw plain_password password_hash)
      else false

  -- The claims of a new token.
  abbrev pub issued_claims : Host → ℕ → ℕ → Claims
  issued_claims host now user_id = record {
    sub = digits user_id;
    type = token_type_access;
    iat = now;
    exp = now + host.settings.access_token_expire_minutes * 60;
    jti = crypto.fresh_hex;
  }

  -- `create_access_token`, for the configured lifetime: the token and its lifetime in seconds.
  unfoldable pub create_access_token : Host → ℕ → ℕ → Text × ℕ
  create_access_token host now user_id =
      let lifetime = host.settings.access_token_expire_minutes * 60 in
      (crypto.encode (issued_claims host now user_id) host.settings.jwt_secret, lifetime)

  abbrev is_access : Json → Bool
  is_access (Json.str t) = text_eq t token_type_access
  is_access _ = false

  abbrev pub subject_or_error : Result ℤ → Result ℤ
  subject_or_error (ok n) = ok n
  subject_or_error (err _) = err (token_error (text "Invalid authentication token"))

  abbrev pub checked_claims : Host → Decoded → Result ℤ
  checked_claims host Decoded.expired = err (token_error (text "Token has expired"))
  checked_claims host Decoded.invalid = err (token_error (text "Invalid authentication token"))
  checked_claims host (Decoded.claims payload) =
      if is_access (get_field (text "type") payload)
      then subject_or_error (int_of host (get_field (text "sub") payload))
      else err (token_error (text "Invalid authentication token"))

  -- `decode_access_token`
  unfoldable pub decode_access_token : Host → ℕ → Text → Result ℤ
  decode_access_token host now token =
      checked_claims host (crypto.decode token host.settings.jwt_secret now)
