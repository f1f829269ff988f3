-- ===== src/Tests/Logs.antt =====
-- Records of a library and of the server.
use crypto_auto_trader.Base.{◌≡◌, refl, true, some, [], ◌∷◌}
use crypto_auto_trader.Text.{text, text_eq, upper}
use crypto_auto_trader.Logging.{Loggers, Handler, console, configure_logging, level_of, log}
use crypto_auto_trader.Tests.Data.{host}

-- The tree as the server leaves it: its own handlers on each logger.
abbrev plain : Handler
plain = record { stream = text "stderr"; format = text "%(message)s"; filters = []; level = 0 }

abbrev server : Loggers
server = record {
  root = record { level = 30; handlers = []; propagate = true };
  named = λ name. record { level = 0; handlers = plain ∷ []; propagate = true };
}

uvicorn_line :
    log (configure_logging host server) (text "r1") (text "uvicorn.access") 20
    ≡ (console, some (text "r1")) ∷ []
unfolding configure_logging level_of text_eq upper
uvicorn_line = refl
