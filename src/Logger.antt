-- ===== src/Logger.antt =====
-- The levels of go/pkg/logger: logger.go, slog_logger.go and noop_logger.go; and the records that a
-- call of a `Logger` emits.
pub mod Thresholds
pub mod Sinks
pub mod Emission
use concevoir_une_api_pagine.Prelude.{
  List, [], ◌∷◌, Bool, false, Bytes, codes, text_eq, if◌then◌else◌, ℤ, pos, negsuc, ltb_ℤ, not,
}
use concevoir_une_api_pagine.Errors.{Error}

pub record LoggingConfig : Type 0 where
  pub level : Bytes
  pub format : Bytes

pub data Level : Type 0 where
  level_debug level_info level_warn level_error : Level

-- `slog.LevelDebug` and the three levels above it.
pub data SlogLevel : Type 0 where
  slog_debug slog_info slog_warn slog_error : SlogLevel

unfoldable pub slog_number : SlogLevel → ℤ
slog_number slog_debug = negsuc 3
slog_number slog_info = pos 0
slog_number slog_warn = pos 4
slog_number slog_error = pos 8

unfoldable pub parse_level : Bytes → SlogLevel
parse_level level =
    if text_eq level (codes "debug")
    then slog_debug
    else if text_eq level (codes "warn")
    then slog_warn
    else if text_eq level (codes "error")
    then slog_error
    else slog_info

unfoldable pub slog_level : Level → SlogLevel
slog_level level_debug = slog_debug
slog_level level_warn = slog_warn
slog_level level_error = slog_error
slog_level level_info = slog_info

-- What a configured level lets through: the levels that are not below it.
unfoldable pub is_enabled : LoggingConfig → Level → Bool
is_enabled config level =
    not (ltb_ℤ (slog_number (slog_level level)) (slog_number (parse_level config.level)))

-- `NoOpLogger.Enabled`
abbrev pub is_enabled_no_op : Level → Bool
is_enabled_no_op _ = false

-- A value that a record carries.
pub data Attribute : Type 0 where
  error_value : Error → Attribute
  number_value : ℤ → Attribute
  text_value : Bytes → Attribute
  duration_value : ℤ → Attribute
  nil_value : Attribute

pub record LogRecord : Type 0 where
  pub level : Level
  pub message : Bytes
  pub attributes : List (Bytes × Attribute)
