-- ===== src/Logging.antt =====
-- app/core/logging_config.py: `configure_logging` on the tree of loggers of Python's logging module,
-- and how a logger of that tree hands a record to its handlers. The texts of the lines are left out,
-- and so is a LOG_LEVEL that names an attribute of the module that is no level.
pub mod Quiet
use crypto_auto_trader.Base.{
  ℕ, Bool, true, false, not, Option, none, some, List, [], ◌∷◌, ◌++◌, ◌==◌, any, leb, if◌then◌else◌,
}
use crypto_auto_trader.Text.{Text, text, text_eq, text_in, upper, get}
use crypto_auto_trader.Host.{Host}

pub data Filter : Type 0 where
  request_id_filter : Filter
  other_filter : ℕ → Filter

pub record Handler : Type 0 where
  pub stream : Text
  pub format : Text
  pub filters : List Filter
  pub level : ℕ

-- A level of 0 is `NOTSET`.
pub record Logger : Type 0 where
  pub level : ℕ
  pub handlers : List Handler
  pub propagate : Bool

-- The root logger, and what `logging.getLogger(name)` gives for every other name.
pub record Loggers : Type 0 where
  pub root : Logger
  pub named : Text → Logger

abbrev pub debug : ℕ
debug = 10

abbrev pub info : ℕ
info = 20

abbrev pub warning : ℕ
warning = 30

abbrev pub level_names : List (Text × ℕ)
level_names =
    (text "CRITICAL", 50)
    ∷ (text "FATAL", 50)
    ∷ (text "ERROR", 40)
    ∷ (text "WARNING", warning)
    ∷ (text "WARN", warning)
    ∷ (text "INFO", info)
    ∷ (text "DEBUG", debug)
    ∷ (text "NOTSET", 0)
    ∷ []

-- `getattr(logging, settings.LOG_LEVEL.upper(), logging.INFO)`
abbrev pub or_info : Option ℕ → ℕ
or_info none = info
or_info (some level) = level

unfoldable pub level_of : Host → ℕ
level_of host = or_info (get (upper host.upper_char host.settings.log_level) level_names)

abbrev pub log_format : Text
log_format = text "%(asctime)s %(levelname)-8s [%(request_id)s] %(name)s: %(message)s"

abbrev pub console : Handler
console = record {
  stream = text "stdout";
  format = log_format;
  filters = Filter.request_id_filter ∷ [];
  level = 0;
}

abbrev pub uvicorn_names : List Text
uvicorn_names = text "uvicorn" ∷ text "uvicorn.error" ∷ text "uvicorn.access" ∷ []

abbrev pub http_names : List Text
http_names = text "httpx2" ∷ text "httpcore2" ∷ text "httpx" ∷ text "httpcore" ∷ []

-- A change of the logger of one name, and of several in turn.
abbrev pub change : (Logger → Logger) → Text → Loggers → Loggers
change f name loggers = record loggers {
  named = λ n. if text_eq n name then f (loggers.named n) else loggers.named n;
}

abbrev pub change_all : (Logger → Logger) → List Text → Loggers → Loggers
change_all f [] loggers = loggers
change_all f (name ∷ names) loggers = change_all f names (change f name loggers)

abbrev pub set_level : ℕ → Logger → Logger
set_level level logger = record logger { level = level }

abbrev pub through_root : Logger → Logger
through_root logger = record logger { handlers = []; propagate = true }

unfoldable pub configure_logging : Host → Loggers → Loggers
configure_logging host loggers =
    let rooted = record loggers {
      root = record loggers.root { handlers = console ∷ []; level = level_of host };
    } in
    change_all (set_level warning) http_names (
      change (set_level (if host.settings.db_echo then info else warning))
        (text "sqlalchemy.engine") (change_all through_root uvicorn_names rooted))

-- A logger's name and those of its parents below the root, the nearest first: `a.b.c`, `a.b`, `a`.
-- The name read so far, what is left of it, and the parents found.
abbrev pub lineage_from : Text → Text → List Text → List Text
lineage_from seen [] found = seen ∷ found
lineage_from seen (c ∷ rest) found =
    lineage_from (seen ++ c ∷ []) rest (if c == 46 then seen ∷ found else found)

abbrev pub lineage : Text → List Text
lineage name = lineage_from [] name []

-- `Logger.getEffectiveLevel`
abbrev pub effective_level : Loggers → List Text → ℕ
effective_level loggers [] = loggers.root.level
effective_level loggers (n ∷ ns) =
    let above = effective_level loggers ns in
    let level = (loggers.named n).level in if level == 0 then above else level

-- The handlers that `Logger.callHandlers` comes to.
abbrev pub reached : Loggers → List Text → List Handler
reached loggers [] = loggers.root.handlers
reached loggers (n ∷ ns) =
    let above = reached loggers ns in
    let logger = loggers.named n in logger.handlers ++ (if logger.propagate then above else [])

-- `RequestIdFilter.filter`, with the value of the context variable: what the record has for
-- `request_id` once a handler's filters have run.
abbrev pub is_request_id_filter : Filter → Bool
is_request_id_filter Filter.request_id_filter = true
is_request_id_filter (Filter.other_filter _) = false

abbrev pub attached : Text → Handler → Option Text
attached request_id handler =
    if any is_request_id_filter handler.filters then some request_id else none

-- A line of the log: the handler that wrote it, and the request id of its record.
abbrev pub Line : Type 0
Line = Handler × Option Text

abbrev pub handle : ℕ → Text → List Handler → List Line
handle level request_id [] = []
handle level request_id (h ∷ hs) =
    let rest = handle level request_id hs in
    if leb h.level level then (h, attached request_id h) ∷ rest else rest

-- `logging.lastResort`, for a record that came to no handler.
abbrev pub last_resort : Handler
last_resort = record {
  stream = text "stderr";
  format = text "%(message)s";
  filters = [];
  level = warning;
}

abbrev pub or_last_resort : List Handler → List Handler
or_last_resort [] = last_resort ∷ []
or_last_resort (h ∷ hs) = h ∷ hs

-- `logging.getLogger(name).log(level, ...)` in a task with this request id.
abbrev pub log : Loggers → Text → Text → ℕ → List Line
log loggers request_id name level =
    if leb (effective_level loggers (lineage name)) level
    then handle level request_id (or_last_resort (reached loggers (lineage name)))
    else []
