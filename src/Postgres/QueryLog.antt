-- ===== src/Postgres/QueryLog.antt =====
-- The query log of go/internal/postgres/query_log.go: a trace record of pgx as a record of the logger.
use concevoir_une_api_pagine.Prelude.{
  List, [], ◌∷◌, map, Bool, true, false, ◌||◌, ◌&&◌, Bytes, text_eq, ltb, ◌==◌, if◌then◌else◌, sort,
}
use concevoir_une_api_pagine.Logger.{
  Attribute, nil_value, LogRecord, Level, level_debug, level_warn, level_error,
}

-- `tracelog.LogLevel`
pub data TraceLevel : Type 0 where
  trace_none trace_error trace_warn trace_info trace_debug trace_trace : TraceLevel

-- The entries of a map, in any order.
abbrev pub TraceData : Type 0
TraceData = List (Bytes × Attribute)

-- The order of strings: byte by byte.
unfoldable pub bytes_less : Bytes → Bytes → Bool
bytes_less _ [] = false
bytes_less [] (_ ∷ _) = true
bytes_less (a ∷ s) (b ∷ t) = ltb a b || a == b && bytes_less s t

-- `maps.Keys`
abbrev pub keys : TraceData → List Bytes
keys data_entries = map (λ e. e.0) data_entries

-- `data[key]`: nil where the key is missing.
unfoldable pub value_at : TraceData → Bytes → Attribute
value_at [] key = nil_value
value_at (e ∷ es) key = if text_eq e.0 key then e.1 else value_at es key

abbrev pub trace_level : TraceLevel → Level
trace_level trace_error = level_error
trace_level trace_warn = level_warn
trace_level _ = level_debug

-- `queryLogger.Log`
unfoldable pub log_query : TraceLevel → Bytes → TraceData → LogRecord
log_query level message data_entries = record {
  level = trace_level level;
  message = message;
  attributes = map (λ key. (key, value_at data_entries key)) (sort bytes_less (keys data_entries));
}
