-- ===== src/Logger/Emission.antt =====
-- The contract of the interface `Logger`: what `Enabled` and `With` say of the records written.
use concevoir_une_api_pagine.Prelude.{
  List, [], ◌∷◌, ◌++◌, Bytes, if◌then◌else◌, ◌≡◌, refl, append_assoc, append-nil,
}
use concevoir_une_api_pagine.Logger.{
  LoggingConfig, Level, level_debug, level_info, level_warn, level_error, slog_level, is_enabled,
}
use concevoir_une_api_pagine.Logger.Sinks.{
  Fields, Logger, slog_logger, SlogLogger, format_of, new_slog_logger, new, with_fields, enabled,
  method_level, log,
}

-- A logger derived by calls of `With`, one after the other.
unfoldable pub derived : Logger → List Fields → Logger
derived l [] = l
derived l (args ∷ rest) = derived (with_fields l args) rest

abbrev pub all_fields : List Fields → Fields
all_fields [] = []
all_fields (args ∷ rest) = args ++ all_fields rest

method_level-slog_level : (level : Level) → method_level level ≡ slog_level level
unfolding method_level slog_level
method_level-slog_level level_debug = refl
method_level-slog_level level_info = refl
method_level-slog_level level_warn = refl
method_level-slog_level level_error = refl

derived-slog_logger :
    (l : SlogLogger) (rest : List Fields)
    → derived (slog_logger l) rest
      ≡ slog_logger (record {
        format = l.format;
        threshold = l.threshold;
        fields = l.fields ++ all_fields rest;
      })
unfolding derived with_fields
derived-slog_logger l [] = rw (append-nil l.fields) refl
derived-slog_logger l (args ∷ rest) =
    rw
      (
        derived-slog_logger
            (record { format = l.format; threshold = l.threshold; fields = l.fields ++ args }) rest,
        append_assoc l.fields args (all_fields rest),
      )
      refl

-- A logger that `New` makes and `With` derives writes a record exactly where `Enabled` says so, and
-- that is where the configured level lets it through: in the configured format, with the attributes
-- of each `With` in their order and those of the call behind them.
pub log-derived :
    (config : LoggingConfig) (withs : List Fields) (level : Level) (message : Bytes) (args : Fields)
    → let l = derived (new config) withs in
      (enabled l level ≡ is_enabled config level)
      × (log l level message args ≡ (
          if is_enabled config level
          then record {
            format = format_of config.format;
            level = slog_level level;
            message = message;
            attributes = all_fields withs ++ args;
          }
            ∷ []
          else []))
unfolding new enabled log is_enabled
log-derived config withs level message args =
    rw (derived-slog_logger (new_slog_logger config) withs, method_level-slog_level level)
      (unfold new_slog_logger in (refl, refl))
