-- ===== src/Logger/Sinks.antt =====
-- The two loggers of go/pkg/logger, slog_logger.go and noop_logger.go, and the constructors of
-- factory.go.
use concevoir_une_api_pagine.Prelude.{
  List, [], ◌∷◌, ◌++◌, Bool, false, not, Bytes, codes, text_eq, if◌then◌else◌, ltb_ℤ,
}
use concevoir_une_api_pagine.Logger.{
  LoggingConfig, Level, level_debug, level_info, level_warn, level_error, SlogLevel, slog_debug,
  slog_info, slog_warn, slog_error, slog_number, parse_level, slog_level, Attribute,
}

abbrev pub Fields : Type 0
Fields = List (Bytes × Attribute)

-- The handlers of slog that are installed.
pub data Format : Type 0 where
  json_format text_format : Format

-- `SlogLogger`: the handler of its `slog.Logger`, with the level of its options, and the attributes
-- that `With` gave it.
pub record SlogLogger : Type 0 where
  pub format : Format
  pub threshold : SlogLevel
  pub fields : Fields

-- A `Logger`.
pub data Logger : Type 0 where
  slog_logger : SlogLogger → Logger
  no_op_logger : Logger

abbrev pub format_of : Bytes → Format
format_of format = if text_eq format (codes "json") then json_format else text_format

-- `NewSlogLogger`
unfoldable pub new_slog_logger : LoggingConfig → SlogLogger
new_slog_logger config = record {
  format = format_of config.format;
  threshold = parse_level config.level;
  fields = [];
}

-- `New`
unfoldable pub new : LoggingConfig → Logger
unfolding new_slog_logger
new config = slog_logger (new_slog_logger config)

-- `NewDefault`
unfoldable pub new_default : Logger
unfolding new
new_default = new (record { level = codes "info"; format = codes "text" })

-- `With`
unfoldable pub with_fields : Logger → Fields → Logger
with_fields (slog_logger l) args =
    slog_logger (record { format = l.format; threshold = l.threshold; fields = l.fields ++ args })
with_fields no_op_logger args = no_op_logger

-- A level is at least a handler's.
abbrev pub is_at_least : SlogLevel → SlogLevel → Bool
is_at_least threshold level = not (ltb_ℤ (slog_number level) (slog_number threshold))

-- `Enabled`
unfoldable pub enabled : Logger → Level → Bool
enabled (slog_logger l) level = is_at_least l.threshold (slog_level level)
enabled no_op_logger level = false

-- A record that a handler writes.
pub record Line : Type 0 where
  pub format : Format
  pub level : SlogLevel
  pub message : Bytes
  pub attributes : Fields

-- The level of the method of slog that each method calls.
unfoldable pub method_level : Level → SlogLevel
method_level level_debug = slog_debug
method_level level_info = slog_info
method_level level_warn = slog_warn
method_level level_error = slog_error

-- The methods of `NoOpLogger` write nothing.
abbrev pub log_no_op : Level → Bytes → Fields → List Line
log_no_op _ _ _ = []

-- What `Debug`, `Info`, `Warn` and `Error` write, and their like with a context: slog drops a record
-- below the level of the handler.
unfoldable pub log : Logger → Level → Bytes → Fields → List Line
log (slog_logger l) level message args =
    if is_at_least l.threshold (method_level level)
    then record {
      format = l.format;
      level = method_level level;
      message = message;
      attributes = l.fields ++ args;
    }
      ∷ []
    else []
log no_op_logger level message args = log_no_op level message args
