-- ===== src/Program.antt =====
-- `run` and `main` of go/main.go, as what they open, run, log and close, in their order.
pub mod Lifetime
use concevoir_une_api_pagine.Prelude.{
  ℕ, List, [], ◌∷◌, ◌++◌, map, Option, none, some, Bytes, codes, ◌⊎◌, inl, inr,
}
use concevoir_une_api_pagine.Errors.{Error, Result, ok, err, panicked}
use concevoir_une_api_pagine.Logger.{level_info, level_error, text_value, error_value}
use concevoir_une_api_pagine.Logger.Sinks.{Line, new, new_default, log}
use concevoir_une_api_pagine.Config.{Application}
use concevoir_une_api_pagine.Config.Load.{Koanf, load}
use concevoir_une_api_pagine.Postgres.Pool.{Pgxpool, Pool, PoolEvent, pool_closed, new_pool}
use concevoir_une_api_pagine.Handler.Routing.{HttpServer}
use concevoir_une_api_pagine.Handler.Served.{server_over}

-- The libraries that the program is run over, and what `Run` of a server returns.
pub record Environment : Type 1 where
  pub koanf : Koanf
  pub pgxpool : Pgxpool
  pub serve : HttpServer → Option Error

pub data ProgramEvent : Type 0 where
  signals_notified signals_stopped : ProgramEvent
  pool_event : PoolEvent → ProgramEvent
  served : HttpServer → ProgramEvent
  logged : Line → ProgramEvent

abbrev pub returned : Option Error → Result (Unit {0})
returned none = ok tt
returned (some e) = err e

-- The record of a connection.
abbrev pub connected_lines : Application → List Line
connected_lines a =
    log (new a.logging) level_info (codes "connected to database")
      ((codes "database", text_value a.postgres.database) ∷ [])

-- Behind `NewPool`. The deferred calls come last, the latest first.
unfoldable pub with_pool :
    Environment
    → Application
    → List PoolEvent
    → Error ⊎ Pool
    → List ProgramEvent × Result (Unit {0})
with_pool env a events (inl e) = (map pool_event events ++ signals_stopped ∷ [], err e)
with_pool env a events (inr pool) =
    let server = server_over a pool.database in
    (
      map pool_event events
          ++ (map logged (connected_lines a)
              ++ (served server ∷ pool_event pool_closed ∷ signals_stopped ∷ [])),
      returned (env.serve server),
    )

-- Behind `Load`.
unfoldable pub with_config :
    Environment → Result Application → List ProgramEvent × Result (Unit {0})
unfolding with_pool
with_config env (err e) = ([], err e)
with_config env panicked = ([], panicked)
with_config env (ok a) =
    let made = new_pool env.pgxpool a.postgres a.logging in
    let rest = with_pool env a made.0 made.1 in (signals_notified ∷ rest.0, rest.1)

-- `run`, with the directory that the flag gives.
unfoldable pub run : Environment → Bytes → List ProgramEvent × Result (Unit {0})
unfolding with_config
run env dir = with_config env (load env.koanf dir)

-- The record of an exit with an error.
abbrev pub exit_lines : Error → List Line
exit_lines e =
    log new_default level_error (codes "server exited with an error")
      ((codes "error", error_value e) ∷ [])

-- The exit code; a panic that nothing recovers ends a Go program with 2.
abbrev pub exit_with : List ProgramEvent → Result (Unit {0}) → List ProgramEvent × ℕ
exit_with events (ok _) = (events, 0)
exit_with events (err e) = (events ++ map logged (exit_lines e), 1)
exit_with events panicked = (events, 2)

-- `main`
unfoldable pub main : Environment → Bytes → List ProgramEvent × ℕ
unfolding run
main env dir = let done = run env dir in exit_with done.0 done.1
