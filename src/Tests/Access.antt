-- ===== src/Tests/Access.antt =====
-- Runs of the gates: the webhook's secret, accounts, tokens, pages, and the configured host.
use crypto_auto_trader.Base.{
  ℕ, ◌≤◌, ◌<◌, ◌≡◌, ◌≢◌, ◌⊎◌, ◌↔◌, inl, refl, true, false, Option, none, some, [], ◌∷◌, ◌++◌, arith,
  length, take, drop, ap, ltb, if◌then◌else◌,
}
use crypto_auto_trader.Base.Int.{ℤ, pos}
use crypto_auto_trader.Text.{Text, text, text_eq, text_eq_refl, text_in, rstrip, strip}
use crypto_auto_trader.Numbers.{digits}
use crypto_auto_trader.Numbers.Digits.{value_from, value_from-digits}
use crypto_auto_trader.Errors.{ok, err}
use crypto_auto_trader.Host.{Host}
use crypto_auto_trader.Config.{
  ParsedUrl, allowed_binance_hosts, known_production_binance_hosts, enforce_testnet_only,
  binance_host,
}
use crypto_auto_trader.Config.Testnet.{accepted_url_is_testnet}
use crypto_auto_trader.Webhook.{authenticate_webhook}
use crypto_auto_trader.Webhook.Gate.{authenticate_webhook_iff}
use crypto_auto_trader.Security.{
  Claims, Decoded, Crypto, verify_password, create_access_token, decode_access_token,
}
use crypto_auto_trader.Security.Tokens.{claim_fields, decode-create_access_token}
use crypto_auto_trader.World.{◌>>=◌}
use crypto_auto_trader.Store.{find}
use crypto_auto_trader.Binance.{int_of}
use crypto_auto_trader.Auth.Sessions.{get_current_user_sound}
use crypto_auto_trader.Auth.{
  Credentials, has_user_id, get_user_by_id, get_current_user, unauthenticated, authenticate_user,
}
use crypto_auto_trader.Auth.Accounts.{account, authenticate_user_iff, login_hides_accounts}
use crypto_auto_trader.Tests.Data.{host, world, alice, crypto}

secret_given : text "hook" ≢ []
secret_given h = cc

abbrev no_header : Option Text
no_header = none

abbrev in_body : Option Text
in_body = some (text "hook")

authenticate_webhook_iff_example :
    (authenticate_webhook host no_header in_body ≡ ok tt)
    ↔ ((no_header ≡ some (text "hook")) ⊎ (in_body ≡ some (text "hook")))
authenticate_webhook_iff_example = authenticate_webhook_iff host no_header in_body secret_given

-- A URL is read as a host over https.
abbrev parse_as_host : Text → ParsedUrl
parse_as_host url = record { scheme = text "https"; hostname = some url }

accepted :
    enforce_testnet_only parse_as_host (λ s. s) (text "testnet.binance.vision/")
    ≡ some (text "testnet.binance.vision")
unfolding enforce_testnet_only text_eq known_production_binance_hosts rstrip strip
    allowed_binance_hosts
accepted = refl

accepted_url_is_testnet_example :
    let host = binance_host parse_as_host (λ s. s) (text "testnet.binance.vision") in
    (text_in host allowed_binance_hosts ≡ true)
    × (text_in host known_production_binance_hosts ≡ false)
    × (text_in (text "https") (text "http" ∷ text "https" ∷ []) ≡ true)
accepted_url_is_testnet_example =
    accepted_url_is_testnet parse_as_host (λ s. s) (text "testnet.binance.vision/")
      (text "testnet.binance.vision") accepted

authenticate_user_iff_example :
    (authenticate_user host crypto (text "a@b") (text "pw") world ≡ (ok alice, world)) ↔ (
      (account host (text "a@b") world ≡ some alice)
      × (verify_password crypto (text "pw") (text "pw") ≡ true)
      × (true ≡ true))
authenticate_user_iff_example =
    authenticate_user_iff host crypto (text "a@b") (text "pw") alice world

nobody : account host (text "x@y") world ≡ none
unfolding text_eq strip
nobody = refl

login_hides_accounts_example :
    authenticate_user host crypto (text "x@y") (text "pw") world
    ≡ (err (unauthenticated (text "Incorrect email or password.")), world)
login_hides_accounts_example =
    login_hides_accounts host crypto (text "x@y") (text "pw") world (inl nobody)

-- Tokens that hold their claims and secret in plain text, each part behind its length.
abbrev framed : Text → Text → Text
framed part rest = length part ∷ part ++ rest

abbrev pub plain_token : Claims → Text → Text
plain_token c secret =
    c.iat ∷ c.exp ∷ framed secret (framed c.sub (framed c.type (framed c.jti [])))

abbrev unframe : Text → Text × Text
unframe [] = ([], [])
unframe (n ∷ rest) = (take n rest, drop n rest)

abbrev pub open_token : Text → Text → ℕ → Decoded
open_token (iat ∷ exp ∷ token) secret now =
    let (key, t1) = unframe token in
    let (sub, t2) = unframe t1 in
    let (type, t3) = unframe t2 in
    let (jti, t4) = unframe t3 in
    if text_eq key secret
    then if ltb now iat
      then Decoded.invalid
      else if ltb now exp
      then Decoded.claims
          (claim_fields (record { sub = sub; type = type; iat = iat; exp = exp; jti = jti }))
      else Decoded.expired
    else Decoded.invalid
open_token _ secret now = Decoded.invalid

abbrev pub plain_crypto : Crypto
plain_crypto = record crypto { encode = plain_token; decode = open_token }

abbrev pub digit_host : Host
digit_host = record host { int_of_str = λ s. some (pos (value_from 0 s)) }

take-length : (xs ys : Text) → take (length xs) (xs ++ ys) ≡ xs
take-length [] ys = refl
take-length (x ∷ xs) ys = ap (λ t. x ∷ t) (take-length xs ys)

drop-length : (xs ys : Text) → drop (length xs) (xs ++ ys) ≡ ys
drop-length [] ys = refl
drop-length (x ∷ xs) ys = drop-length xs ys

ltb_of : (a b : ℕ) → a < b → ltb a b ≡ true
ltb_of a b h = ground arith

not_ltb : (a b : ℕ) → b ≤ a → ltb a b ≡ false
not_ltb a b h = ground arith

pub open_token-plain_token :
    (c : Claims) (secret : Text) (now : ℕ)
    → c.iat ≤ now
    → now < c.exp
    → open_token (plain_token c secret) secret now ≡ Decoded.claims (claim_fields c)
open_token-plain_token c secret now issued fresh =
    simp (not_ltb now c.iat issued, take-length, drop-length, text_eq_refl, ltb_of now c.exp fresh)

pub digit_host-digits : (n : ℕ) → digit_host.int_of_str (digits n) ≡ some (pos n)
digit_host-digits n = rw value_from-digits

decode-create_access_token_example :
    decode_access_token plain_crypto digit_host 3600
      (create_access_token plain_crypto digit_host 100 17).0
    ≡ ok (pos 17)
decode-create_access_token_example =
    decode-create_access_token plain_crypto digit_host 100 3600 17 open_token-plain_token
      digit_host-digits (omega arith) (omega arith)

-- Tokens that are the subject itself, never expired.
abbrev subject_crypto : Crypto
subject_crypto = record crypto {
  decode = λ token secret now. Decoded.claims (
      claim_fields
        (record { sub = token; type = text "access"; iat = 0; exp = 9; jti = text "j" }));
}

abbrev bearer : Credentials
bearer = record { scheme = text "bearer"; credentials = text "1" }

session : get_current_user digit_host subject_crypto (some bearer) world ≡ (ok alice, world)
unfolding get_current_user get_user_by_id decode_access_token ◌>>=◌ text_eq int_of
session = refl

get_current_user_sound_example :
    (world ≡ world)
    × (alice.is_active ≡ true)
    × ((c : Credentials) × (k : ℤ) × (some bearer ≡ some c)
        × (c.scheme ≡ text "bearer")
        × (decode_access_token subject_crypto digit_host 90 c.credentials ≡ ok k)
        × (find (has_user_id k) world.db.users ≡ some alice))
get_current_user_sound_example =
    get_current_user_sound digit_host subject_crypto (some bearer) alice world world session
