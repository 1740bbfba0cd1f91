-- ===== src/Logger/Thresholds.antt =====
-- Which records a configured level lets through.
use concevoir_une_api_pagine.Prelude.{
  ℕ, [], ◌∷◌, Bytes, codes, text_eq, if◌then◌else◌, leb, ◌≡◌, refl, ◌∙◌,
}
use concevoir_une_api_pagine.Logger.{
  LoggingConfig, Level, level_debug, level_info, level_warn, level_error, parse_level, slog_level,
  slog_number, is_enabled,
}
use concevoir_une_api_pagine.Logger.Sinks.{Fields, text_format, new, enabled, log}
use concevoir_une_api_pagine.Logger.Emission.{derived, log-derived}

-- From the most verbose to the most severe.
abbrev pub severity : Level → ℕ
severity level_debug = 0
severity level_info = 1
severity level_warn = 2
severity level_error = 3

abbrev pub level_name : Level → Bytes
level_name level_debug = codes "debug"
level_name level_info = codes "info"
level_name level_warn = codes "warn"
level_name level_error = codes "error"

abbrev pub configured : Bytes → LoggingConfig
configured name = record { level = name; format = codes "text" }

is_enabled-level_name :
    (threshold level : Level)
    → is_enabled (configured (level_name threshold)) level
      ≡ leb (severity threshold) (severity level)
unfolding is_enabled parse_level slog_level slog_number text_eq
is_enabled-level_name level_debug level_debug = refl
is_enabled-level_name level_debug level_info = refl
is_enabled-level_name level_debug level_warn = refl
is_enabled-level_name level_debug level_error = refl
is_enabled-level_name level_info level_debug = refl
is_enabled-level_name level_info level_info = refl
is_enabled-level_name level_info level_warn = refl
is_enabled-level_name level_info level_error = refl
is_enabled-level_name level_warn level_debug = refl
is_enabled-level_name level_warn level_info = refl
is_enabled-level_name level_warn level_warn = refl
is_enabled-level_name level_warn level_error = refl
is_enabled-level_name level_error level_debug = refl
is_enabled-level_name level_error level_info = refl
is_enabled-level_name level_error level_warn = refl
is_enabled-level_name level_error level_error = refl

-- A logger that `New` makes of the name of a level in the configuration reports as enabled the levels
-- that are at least as severe, and no others; and a call of it writes one record of such a level, with
-- the message and the attributes of the call, and nothing of any other.
pub log-level_name :
    (threshold level : Level) (message : Bytes) (args : Fields)
    → let l = new (configured (level_name threshold)) in
      (enabled l level ≡ leb (severity threshold) (severity level))
      × (log l level message args ≡ (
          if leb (severity threshold) (severity level)
          then record {
            format = text_format;
            level = slog_level level;
            message = message;
            attributes = args;
          }
            ∷ []
          else []))
unfolding derived
log-level_name threshold level message args =
    let (reports, writes) = log-derived (configured (level_name threshold)) [] level message args in
    let lets_through = is_enabled-level_name threshold level in
    (reports ∙ lets_through, writes ∙ rw lets_through (unfold text_eq in refl))
