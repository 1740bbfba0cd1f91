-- ===== src/Postgres/Pool.antt =====
-- `NewPool` of go/internal/postgres/pool.go, with what it leaves open.
use concevoir_une_api_pagine.Prelude.{
  List, [], ◌∷◌, Option, none, some, Bytes, codes, if◌then◌else◌, ℤ, ◌⊎◌, inl, inr,
}
use concevoir_une_api_pagine.Errors.{Error, wrapped}
use concevoir_une_api_pagine.Config.{PostgresSettings, dsn}
use concevoir_une_api_pagine.Logger.{LoggingConfig, level_debug}
use concevoir_une_api_pagine.Logger.Sinks.{new, enabled}
use concevoir_une_api_pagine.Postgres.QueryLog.{TraceLevel, trace_debug}
use concevoir_une_api_pagine.Postgres.Database.{Database}

-- The tracer that `newQueryTracer` makes: the `Log` of the query log with a logger, its level, and
-- the key of a duration.
pub record TraceLog : Type 0 where
  pub log : LoggingConfig
  pub log_level : TraceLevel
  pub time_key : Bytes

unfoldable pub new_query_tracer : LoggingConfig → TraceLog
new_query_tracer log = record { log = log; log_level = trace_debug; time_key = codes "duration" }

-- `pgxpool.Config`, as far as it is set here; `connection` is what the text of the DSN gave.
pub record PoolConfig : Type 0 where
  pub connection : Bytes
  pub min_conns : ℤ
  pub max_conns : ℤ
  pub tracer : Option TraceLog

pub record Pool : Type 0 where
  pub config : PoolConfig
  pub database : Database

-- The calls of pgxpool, which return a value or an error.
pub record Pgxpool : Type 0 where
  pub parse_config : Bytes → Error ⊎ PoolConfig
  pub new_with_config : PoolConfig → Error ⊎ Pool

pub data PoolEvent : Type 0 where
  pool_opened pool_closed : PoolEvent

abbrev pub with_conns : PostgresSettings → PoolConfig → PoolConfig
with_conns cfg c = record c { min_conns = cfg.min_conns; max_conns = cfg.max_conns }

abbrev pub with_tracer : LoggingConfig → PoolConfig → PoolConfig
with_tracer log c =
    if enabled (new log) level_debug then record c { tracer = some (new_query_tracer log) } else c

-- A pool that does not answer is closed.
abbrev pub pinged : Pool → Option Error → List PoolEvent × (Error ⊎ Pool)
pinged pool none = (pool_opened ∷ [], inr pool)
pinged pool (some e) = (pool_opened ∷ pool_closed ∷ [], inl (wrapped (codes "pinging database") e))

abbrev pub connected : Error ⊎ Pool → List PoolEvent × (Error ⊎ Pool)
connected (inl e) = ([], inl (wrapped (codes "connecting to database") e))
connected (inr pool) = pinged pool pool.database.ping

abbrev pub configured :
    Pgxpool
    → PostgresSettings
    → LoggingConfig
    → Error ⊎ PoolConfig
    → List PoolEvent × (Error ⊎ Pool)
configured pgx cfg log (inl e) = ([], inl (wrapped (codes "parsing database DSN") e))
configured pgx cfg log (inr c) =
    connected (pgx.new_with_config (with_tracer log (with_conns cfg c)))

-- `NewPool`: what it opened and closed, and what it returns.
unfoldable pub new_pool :
    Pgxpool → PostgresSettings → LoggingConfig → List PoolEvent × (Error ⊎ Pool)
new_pool pgx cfg log = configured pgx cfg log (pgx.parse_config (dsn cfg))
