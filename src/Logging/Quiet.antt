-- ===== src/Logging/Quiet.antt =====
-- What reaches the log once it is configured.
use crypto_auto_trader.Base.{
  ℕ, ◌≡◌, ◌≤◌, ◌⊎◌, true, false, none, some, List, [], ◌∷◌, ◌++◌, All, if◌then◌else◌,
}
use crypto_auto_trader.Text.{Text, text, text_in, upper, get}
use crypto_auto_trader.Host.{Host}
use crypto_auto_trader.Logging.{Loggers, level_names, http_names, uvicorn_names, lineage}

-- The loggers that are given a level of their own.
abbrev levelled : List Text
levelled = text "sqlalchemy.engine" ∷ http_names

-- A logger that had no level before, and is given none.
abbrev IsUnset : Loggers → Text → Type 0
IsUnset before n = (text_in n levelled ≡ false) × ((before.named n).level ≡ 0)

-- A logger with nothing but the root's handler: one of uvicorn's, or one that had no handlers of its
-- own and passes its records on.
abbrev IsPlain : Loggers → Text → Type 0
IsPlain before n =
    (text_in n uvicorn_names ≡ true)
    ⊎ (((before.named n).handlers ≡ []) × ((before.named n).propagate ≡ true))

-- The level from which on a logger's records are let through: that of an HTTP library, of the
-- database's engine or of another logger with a level, whichever is the first on the way to the
-- root, and otherwise the level that the settings name, or INFO.
pub data HasThreshold (host : Host) (before : Loggers) (name : Text) : ℕ → Type 0 where
  http :
      (inner : List Text) (library : Text) (outer : List Text)
      → lineage name ≡ inner ++ library ∷ outer
      → text_in library http_names ≡ true
      → All (IsUnset before) inner
      → HasThreshold host before name 30
  engine :
      (inner outer : List Text)
      → lineage name ≡ inner ++ text "sqlalchemy.engine" ∷ outer
      → All (IsUnset before) inner
      → HasThreshold host before name (if host.settings.db_echo then 20 else 30)
  own_level :
      (inner : List Text) (n : Text) (outer : List Text) (level : ℕ)
      → lineage name ≡ inner ++ n ∷ outer
      → text_in n levelled ≡ false
      → (before.named n).level ≡ level
      → 1 ≤ level
      → All (IsUnset before) inner
      → HasThreshold host before name level
  named_level :
      (level : ℕ)
      → get (upper host.upper_char host.settings.log_level) level_names ≡ some level
      → All (IsUnset before) (lineage name)
      → HasThreshold host before name level
  no_level :
      get (upper host.upper_char host.settings.log_level) level_names ≡ none
      → All (IsUnset before) (lineage name)
      → HasThreshold host before name 20
