-- ===== src/Postgres/PoolLifetime.antt =====
-- What `NewPool` leaves open, and how the pool that it returns is set up.
use concevoir_une_api_pagine.Prelude.{
  ℕ, zero, suc, List, [], ◌∷◌, Option, none, some, Bytes, if◌then◌else◌, ◌⊎◌, inl, inr, ◌≡◌, refl,
  Bool-cases,
}
use concevoir_une_api_pagine.Errors.{Error}
use concevoir_une_api_pagine.Config.{PostgresSettings, dsn}
use concevoir_une_api_pagine.Logger.{LoggingConfig, level_debug}
use concevoir_une_api_pagine.Logger.Sinks.{new, enabled}
use concevoir_une_api_pagine.Postgres.Pool.{
  Pgxpool, Pool, PoolConfig, TraceLog, PoolEvent, pool_opened, pool_closed, new_query_tracer,
  new_pool, with_conns, with_tracer, connected, configured, pinged,
}

-- How many pools are open after some events, or `none` if one is closed that is not open.
abbrev pub open_pools : ℕ → List PoolEvent → Option ℕ
open_pools n [] = some n
open_pools n (pool_opened ∷ es) = open_pools (suc n) es
open_pools zero (pool_closed ∷ es) = none
open_pools (suc n) (pool_closed ∷ es) = open_pools n es

-- As documented: a DSN sets no tracer, and a pool keeps the configuration it is made with.
pub record IsPgxpool (pgx : Pgxpool) : Type 0 where
  pub untraced : (d : Bytes) (c : PoolConfig) → pgx.parse_config d ≡ inr c → c.tracer ≡ none
  pub keeps : (c : PoolConfig) (p : Pool) → pgx.new_with_config c ≡ inr p → p.config ≡ c

abbrev pub tracer_for : LoggingConfig → Option TraceLog
tracer_for log = if enabled (new log) level_debug then some (new_query_tracer log) else none

-- One open pool that has answered, with the configured bounds, and a tracer exactly where debug
-- records are emitted; or an error, and nothing left open.
abbrev pub IsOwned : PostgresSettings → LoggingConfig → List PoolEvent → Error ⊎ Pool → Type 0
IsOwned cfg log es (inl e) = open_pools 0 es ≡ some 0
IsOwned cfg log es (inr pool) =
    (open_pools 0 es ≡ some 1)
    × (pool.database.ping ≡ none)
    × (pool.config.min_conns ≡ cfg.min_conns)
    × (pool.config.max_conns ≡ cfg.max_conns)
    × (pool.config.tracer ≡ tracer_for log)

module _ (cfg : PostgresSettings) (log : LoggingConfig) where
  with_tracer-fields :
      (c : PoolConfig)
      → c.tracer ≡ none
      → let c' = with_tracer log (with_conns cfg c) in
        (c'.min_conns ≡ cfg.min_conns)
        × (c'.max_conns ≡ cfg.max_conns)
        × (c'.tracer ≡ tracer_for log)
  with_tracer-fields c h = elim (Bool-cases (enabled (new log) level_debug)) [
    | inl on ↦ rw on (refl, refl, refl)
    | inr off ↦ rw off (refl, refl, h)
  ]

  connected-IsOwned :
      (c : PoolConfig) (r : Error ⊎ Pool)
      → c.min_conns ≡ cfg.min_conns
      → c.max_conns ≡ cfg.max_conns
      → c.tracer ≡ tracer_for log
      → ((p : Pool) → r ≡ inr p → p.config ≡ c)
      → IsOwned cfg log (connected r).0 (connected r).1
  connected-IsOwned c (inl e) lo hi t k = refl
  connected-IsOwned c (inr pool) lo hi t k = answered pool.database.ping refl
    where
      answered :
          (o : Option Error)
          → pool.database.ping ≡ o
          → IsOwned cfg log (pinged pool o).0 (pinged pool o).1
      answered none p = rw (k pool refl) (refl, p, lo, hi, t)
      answered (some e) p = refl

-- Over pgxpool as documented, `NewPool` returns one open pool that has answered a ping, with the
-- configured numbers of connections and a tracer exactly where debug records are emitted; or it
-- returns an error, and every pool it has opened is closed.
pub new_pool-IsOwned :
    (pgx : Pgxpool)
    → IsPgxpool pgx
    → (cfg : PostgresSettings) (log : LoggingConfig)
    → let made = new_pool pgx cfg log in IsOwned cfg log made.0 made.1
unfolding new_pool
new_pool-IsOwned pgx h cfg log = set_up (pgx.parse_config (dsn cfg)) refl
  where
    set_up :
        (r : Error ⊎ PoolConfig)
        → pgx.parse_config (dsn cfg) ≡ r
        → IsOwned cfg log (configured pgx cfg log r).0 (configured pgx cfg log r).1
    set_up (inl e) p = refl
    set_up (inr c) p =
        let c' = with_tracer log (with_conns cfg c) in
        let fields = with_tracer-fields cfg log c (h.untraced (dsn cfg) c p) in
        connected-IsOwned cfg log c' (pgx.new_with_config c') fields.0 fields.1 fields.2
          (h.keeps c')
