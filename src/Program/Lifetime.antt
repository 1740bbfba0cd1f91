-- ===== src/Program/Lifetime.antt =====
-- What the program holds while it runs, and when it exits.
use concevoir_une_api_pagine.Prelude.{
  ℕ, List, [], ◌∷◌, ◌++◌, map, Option, none, some, Bytes, Bool, true, false, ◌⊎◌, inl, inr, ◌≡◌,
  refl, text_eq, codes, if◌then◌else◌,
}
use mathlib.Core.List.{Memᴰ}
use mathlib.Core.List.Memᴰ
use concevoir_une_api_pagine.Errors.{Error, Result, ok, err, panicked}
use concevoir_une_api_pagine.Logger.{Level, slog_error, error_value, slog_number, parse_level}
use concevoir_une_api_pagine.Logger.Sinks.{
  Fields, Logger, slog_logger, no_op_logger, Line, text_format, method_level, is_at_least, new,
  new_slog_logger, new_default, log,
}
use concevoir_une_api_pagine.Config.{Application, dsn}
use concevoir_une_api_pagine.Config.Load.{load}
use concevoir_une_api_pagine.Postgres.Pool.{
  Pool, PoolConfig, PoolEvent, pool_opened, pool_closed, new_pool, configured, connected, pinged,
  with_conns, with_tracer,
}
use concevoir_une_api_pagine.Handler.Routing.{HttpServer}
use concevoir_une_api_pagine.Handler.Served.{server_over}
use concevoir_une_api_pagine.Program.{
  Environment, ProgramEvent, signals_notified, signals_stopped, pool_event, served, logged,
  returned, connected_lines, with_pool, with_config, run, exit_with, main,
}

pub data Resource : Type 0 where
  signals connections : Resource

-- What is held after an event, the latest first, or `none` if the event gives back what was not
-- acquired last, or serves without both.
abbrev pub held_after : List Resource → ProgramEvent → Option (List Resource)
held_after s signals_notified = some (signals ∷ s)
held_after s (pool_event pool_opened) = some (connections ∷ s)
held_after s (logged _) = some s
held_after (connections ∷ s) (pool_event pool_closed) = some s
held_after (signals ∷ s) signals_stopped = some s
held_after (connections ∷ signals ∷ []) (served _) = some (connections ∷ signals ∷ [])
held_after _ _ = none

abbrev pub held : List Resource → List ProgramEvent → Option (List Resource)
held s [] = some s
held s (e ∷ es) = elim (held_after s e) [ none ↦ none | some s' ↦ held s' es ]

-- What `NewPool` has done when it returns an error or a pool.
abbrev IsMade : List PoolEvent → Error ⊎ Pool → Type 0
IsMade es (inl e) = (es ≡ []) ⊎ (es ≡ pool_opened ∷ pool_closed ∷ [])
IsMade es (inr pool) = es ≡ pool_opened ∷ []

pinged-IsMade : (pool : Pool) (o : Option Error) → IsMade (pinged pool o).0 (pinged pool o).1
pinged-IsMade pool none = refl
pinged-IsMade pool (some e) = inr refl

connected-IsMade : (r : Error ⊎ Pool) → IsMade (connected r).0 (connected r).1
connected-IsMade (inl e) = inl refl
connected-IsMade (inr pool) = pinged-IsMade pool pool.database.ping

new_pool-IsMade :
    (env : Environment) (a : Application)
    → let made = new_pool env.pgxpool a.postgres a.logging in IsMade made.0 made.1
unfolding new_pool
new_pool-IsMade env a = parsed (env.pgxpool.parse_config (dsn a.postgres))
  where
    parsed :
        (r : Error ⊎ PoolConfig)
        → IsMade
            (configured env.pgxpool a.postgres a.logging r).0
            (configured env.pgxpool a.postgres a.logging r).1
    parsed (inl e) = inl refl
    parsed (inr c) =
        connected-IsMade
          (env.pgxpool.new_with_config (with_tracer a.logging (with_conns a.postgres c)))

-- A run that has given back all that it held, whose nil result is that of a server, and which panics
-- only if the loading of the configuration does.
abbrev IsDone : Environment → Result Application → List ProgramEvent → Result (Unit {0}) → Type 0
IsDone env loaded es (ok _) =
    (held [] es ≡ some []) × ((s : HttpServer) × Memᴰ (served s) es × (env.serve s ≡ none))
IsDone env loaded es (err e) = held [] es ≡ some []
IsDone env loaded es panicked = (held [] es ≡ some []) × (loaded ≡ panicked)

if-cases :
    (b : Bool) (r : Line)
    → ((if b then r ∷ [] else []) ≡ []) ⊎ ((r' : Line) × ((if b then r ∷ [] else []) ≡ r' ∷ []))
if-cases true r = inr (r, refl)
if-cases false r = inl refl

-- A call of a logger writes one record at most.
log-cases :
    (l : Logger) (level : Level) (message : Bytes) (args : Fields)
    → (log l level message args ≡ []) ⊎ ((r : Line) × (log l level message args ≡ r ∷ []))
unfolding log
log-cases (slog_logger l) level message args =
    if-cases (is_at_least l.threshold (method_level level)) _
log-cases no_op_logger level message args = inl refl

with_server-IsDone :
    (env : Environment) (loaded : Result Application) (records : List Line) (s : HttpServer)
    → (records ≡ []) ⊎ ((r : Line) × (records ≡ r ∷ []))
    → (o : Option Error) → env.serve s ≡ o
    → IsDone env loaded
        (signals_notified
          ∷ pool_event pool_opened
          ∷ (map logged records ++ (served s ∷ pool_event pool_closed ∷ signals_stopped ∷ [])))
        (returned o)
with_server-IsDone env loaded records s (inl none_) none h =
    rw none_ (refl, (s, Memᴰ.tail (Memᴰ.tail (Memᴰ.head refl)), h))
with_server-IsDone env loaded records s (inr (_, one)) none h =
    rw one (refl, (s, Memᴰ.tail (Memᴰ.tail (Memᴰ.tail (Memᴰ.head refl))), h))
with_server-IsDone env loaded records s (inl none_) (some e) h = rw none_ refl
with_server-IsDone env loaded records s (inr (_, one)) (some e) h = rw one refl

with_pool-IsDone :
    (env : Environment) (loaded : Result Application) (a : Application) (es : List PoolEvent)
    (r : Error ⊎ Pool)
    → IsMade es r
    → let rest = with_pool env a es r in IsDone env loaded (signals_notified ∷ rest.0) rest.1
unfolding with_pool
with_pool-IsDone env loaded a es (inl e) (inl h) = rw h refl
with_pool-IsDone env loaded a es (inl e) (inr h) = rw h refl
with_pool-IsDone env loaded a es (inr pool) h =
    let s = server_over a pool.database in
    rw h (
      with_server-IsDone env loaded (connected_lines a) s (log-cases (new a.logging) _ _ _)
        (env.serve s) refl)

with_config-IsDone :
    (env : Environment) (r : Result Application)
    → let done = with_config env r in IsDone env r done.0 done.1
unfolding with_config
with_config-IsDone env (err e) = refl
with_config-IsDone env panicked = (refl, refl)
with_config-IsDone env (ok a) =
    let made = new_pool env.pgxpool a.postgres a.logging in
    with_pool-IsDone env (ok a) a made.0 made.1 (new_pool-IsMade env a)

-- The record of an error, as the default logger writes it.
abbrev pub exit_line : Error → Line
exit_line e = record {
  format = text_format;
  level = slog_error;
  message = codes "server exited with an error";
  attributes = (codes "error", error_value e) ∷ [];
}

-- Exit code 0 where a server has run and `Run` has returned nil; 1 with the error in a record; 2 only
-- where the configuration's loading has panicked.
abbrev pub IsExit : Environment → Result Application → List ProgramEvent → ℕ → Type 0
IsExit env loaded es code =
    ((code ≡ 0) × ((s : HttpServer) × Memᴰ (served s) es × (env.serve s ≡ none)))
    ⊎ ((code ≡ 1) × ((e : Error) × Memᴰ (logged (exit_line e)) es))
    ⊎ ((code ≡ 2) × (loaded ≡ panicked))

held-logged :
    (s s' : List Resource) (es : List ProgramEvent) (r : Line)
    → held s es ≡ some s'
    → held s (es ++ logged r ∷ []) ≡ some s'
held-logged s s' [] r h = h
held-logged s s' (e ∷ es) r h = further (held_after s e) h (λ t g. held-logged t s' es r g)
  where
    further :
        (o : Option (List Resource))
        → elim o [ none ↦ none | some t ↦ held t es ] ≡ some s'
        → ((t : List Resource) → held t es ≡ some s' → held t (es ++ logged r ∷ []) ≡ some s')
        → elim o [ none ↦ none | some t ↦ held t (es ++ logged r ∷ []) ] ≡ some s'
    further none h k = cc
    further (some t) h k = k t h

exit_with-IsExit :
    (env : Environment) (loaded : Result Application) (es : List ProgramEvent)
    (r : Result (Unit {0}))
    → IsDone env loaded es r
    → let exit = exit_with es r in (held [] exit.0 ≡ some []) × IsExit env loaded exit.0 exit.1
unfolding log new_default new new_slog_logger method_level slog_number parse_level text_eq
exit_with-IsExit env loaded es (ok _) (h, (s, m, e)) = (h, inl (refl, (s, m, e)))
exit_with-IsExit env loaded es (err e) h = (
  held-logged [] [] es (exit_line e) h,
  inr (inl (refl, (e, Memᴰ.append_right es (Memᴰ.head refl)))),
)
exit_with-IsExit env loaded es panicked (h, p) = (h, inr (inr (refl, p)))

-- Whatever the configuration, the pool and the server return, the program gives back what it has
-- acquired, the latest first, and serves only while it is notified of signals and its pool is open;
-- and it exits with 0 where a server has run and returned nil, with 1 where the default logger has
-- written the error, or with 2 where the loading of the configuration has panicked.
pub main-IsExit :
    (env : Environment) (dir : Bytes)
    → let done = main env dir in
      (held [] done.0 ≡ some []) × IsExit env (load env.koanf dir) done.0 done.1
unfolding main run
main-IsExit env dir =
    let loaded = load env.koanf dir in
    let done = with_config env loaded in
    exit_with-IsExit env loaded done.0 done.1 (with_config-IsDone env loaded)
