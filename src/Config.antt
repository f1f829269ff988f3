-- ===== src/Config.antt =====
-- app/core/config.py: the hosts and secrets that configuration accepts or refuses, and the
-- validators of the settings.
pub mod Testnet
pub mod Query
use crypto_auto_trader.Base.{
  ℕ, ◌≡◌, Bool, true, false, not, ◌&&◌, ◌||◌, Option, none, some, List, [], ◌∷◌, ◌++◌, leb, ◌==◌,
  if◌then◌else◌, any, select, map, length, drop,
}
use crypto_auto_trader.Text.{
  Text, text, text_eq, text_in, rstrip, strip, starts_with, split, upper, get,
}

unfoldable pub allowed_binance_hosts : List Text
allowed_binance_hosts = text "testnet.binance.vision" ∷ text "testnet.binancefuture.com" ∷ []

unfoldable pub known_production_binance_hosts : List Text
known_production_binance_hosts =
    text "api.binance.com"
    ∷ text "api1.binance.com"
    ∷ text "api2.binance.com"
    ∷ text "api3.binance.com"
    ∷ text "api4.binance.com"
    ∷ text "api-gcp.binance.com"
    ∷ text "fapi.binance.com"
    ∷ text "dapi.binance.com"
    ∷ text "api.binance.us"
    ∷ []

unfoldable pub placeholder_secrets : List Text
placeholder_secrets =
    text "replace_with_a_long_random_string_at_least_32_chars"
    ∷ text "replace_with_a_random_string_at_least_16_chars"
    ∷ text "change-me"
    ∷ text "changeme"
    ∷ text "replace-me"
    ∷ text "your-secret-here"
    ∷ text "string"
    ∷ []

-- `Settings.allowed_symbols`
unfoldable pub allowed_symbols : (ℕ → Text) → Text → List Text
allowed_symbols table setting =
    map (λ part. upper table (strip part))
      (select (λ part. not (text_eq (strip part) [])) (split b',' setting))

-- `_reject_placeholder_secrets`; `none` is the `ValueError`.
unfoldable pub reject_placeholder_secrets : (Text → Text) → Text → Option Text
reject_placeholder_secrets lower value =
    if text_in (lower (strip value)) placeholder_secrets then none else some value

-- `urlparse(value)`, as far as the program reads it
pub record ParsedUrl : Type 0 where
  pub scheme : Text
  pub hostname : Option Text

abbrev host_or_empty : Option Text → Text
host_or_empty none = []
host_or_empty (some h) = h

-- `_enforce_testnet_only`
unfoldable pub enforce_testnet_only : (Text → ParsedUrl) → (Text → Text) → Text → Option Text
enforce_testnet_only urlparse lower value =
    let stripped = rstrip b'/' (strip value) in
    let parsed = urlparse stripped in
    let host = lower (host_or_empty parsed.hostname) in
    if not (text_in parsed.scheme (text "http" ∷ text "https" ∷ []))
    then none
    else if text_in host known_production_binance_hosts
    then none
    else if not (text_in host allowed_binance_hosts)
    then none
    else some stripped

-- `binance_host`
unfoldable pub binance_host : (Text → ParsedUrl) → (Text → Text) → Text → Text
binance_host urlparse lower base_url = lower (host_or_empty (urlparse base_url).hostname)

-- `_normalise_owner_email`
unfoldable pub normalise_owner_email : (Text → Text) → Text → Option Text
normalise_owner_email lower value =
    let v = lower (strip value) in if any (λ c. c == b'@') v then some v else none

abbrev pub rename_or : Text → Option Text → Text
rename_or key none = key
rename_or key (some renamed) = renamed

unfoldable pub libpq_ssl_param_renames : List (Text × Text)
libpq_ssl_param_renames = (text "sslmode", text "ssl") ∷ []

unfoldable pub libpq_params_asyncpg_ignores : List Text
libpq_params_asyncpg_ignores = text "channel_binding" ∷ []

-- The loop of `normalise_postgres_query_params` over the parsed query.
unfoldable pub normalise_query : (Text → Text) → List (Text × Text) → List (Text × Text)
normalise_query lower [] = []
normalise_query lower ((key, value) ∷ rest) =
    let kept = normalise_query lower rest in
    if text_in (lower key) libpq_params_asyncpg_ignores
    then kept
    else (rename_or key (get (lower key) libpq_ssl_param_renames), value) ∷ kept

-- `urlsplit` cuts a URL at its query; `urlunsplit` puts the pieces together again.
pub record UrlParts : Type 0 where
  pub scheme : Text
  pub netloc : Text
  pub path : Text
  pub query : Text
  pub fragment : Text

-- `urllib.parse`, as the program uses it
pub record UrlLib : Type 0 where
  pub urlsplit : Text → UrlParts
  pub urlunsplit : UrlParts → Text
  pub parse_qsl : Text → List (Text × Text)
  pub urlencode : List (Text × Text) → Text

-- `normalise_postgres_query_params`
unfoldable pub normalise_postgres_query_params : UrlLib → (Text → Text) → Text → Text
normalise_postgres_query_params url lower value =
    let parts = url.urlsplit value in
    if any (λ c. c == b'?') value
    then url.urlunsplit
        (record parts { query = url.urlencode (normalise_query lower (url.parse_qsl parts.query)) })
    else value

abbrev asyncpg_prefix : Text
asyncpg_prefix = text "postgresql+asyncpg://"

-- The rewriting of the dialect: the first prefix that fits is replaced.
unfoldable pub with_asyncpg : Text → Text
with_asyncpg value =
    if starts_with (text "postgresql+psycopg2://") value
    then asyncpg_prefix ++ drop 22 value
    else if starts_with (text "postgresql+psycopg://") value
    then asyncpg_prefix ++ drop 21 value
    else if starts_with (text "postgresql://") value
    then asyncpg_prefix ++ drop 13 value
    else if starts_with (text "postgres://") value
    then asyncpg_prefix ++ drop 11 value
    else value

-- `_normalise_database_url`
unfoldable pub normalise_database_url : UrlLib → (Text → Text) → Text → Option Text
normalise_database_url url lower value =
    let stripped = strip value in
    let rewritten = with_asyncpg stripped in
    if text_eq stripped []
    then none
    else if starts_with asyncpg_prefix rewritten
    then some (normalise_postgres_query_params url lower rewritten)
    else some rewritten
