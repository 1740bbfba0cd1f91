-- ===== src/Testutil/Containers.antt =====
-- `start`, `RunWithPostgres` and `Shared` of go/internal/testutil/postgres.go, as what they start,
-- run and end.
use concevoir_une_api_pagine.Prelude.{
  List, [], ◌∷◌, ◌++◌, Bool, Option, none, some, Bytes, codes, if◌then◌else◌, ℤ, pos, ◌⊎◌, inl, inr,
}
use concevoir_une_api_pagine.Errors.{Error, wrapped}
use concevoir_une_api_pagine.Config.{PostgresSettings, dsn}
use concevoir_une_api_pagine.Postgres.Pool.{
  Pgxpool, Pool, PoolEvent, pool_opened, pool_closed, with_conns,
}
use concevoir_une_api_pagine.Testutil.Root.{Files, read_shared_schema}

-- `Postgres`
pub record TestPostgres : Type 0 where
  pub config : PostgresSettings
  pub pool : Pool

-- What `Run` of testcontainers' postgres module returns: a container; or an error, alone or with a
-- container that has started, such as one that the wait strategies give up on.
pub data RunResult : Type 0 where
  run_returned : RunResult
  run_failed run_failed_started : Error → RunResult

-- The calls of testcontainers; `terminate` returns nil or an error.
pub record Docker : Type 0 where
  pub run : RunResult
  pub host : Error ⊎ Bytes
  pub mapped_port : Error ⊎ ℤ
  pub terminate : Option Error

-- What the test binary runs over: `exec` is `Exec` of the pool with the schema, and `run_tests` is
-- `m.Run()` with what `shared` then points to.
pub record TestBinary : Type 0 where
  pub files : Files
  pub docker : Docker
  pub pgxpool : Pgxpool
  pub exec : Bytes → Option Error
  pub short : Bool
  pub run_tests : Option TestPostgres → ℤ

pub data TestEvent : Type 0 where
  container_started container_terminated tests_run : TestEvent
  pool_event : PoolEvent → TestEvent
  printed : Error → TestEvent

-- Calls with what they have started, up to the first error.
abbrev pub M : Type 0 → Type 0
M A = List TestEvent × (Error ⊎ A)

abbrev pub behind : {A B : Type 0} → List TestEvent → Error ⊎ A → (A → M B) → M B
behind es (inl e) f = (es, inl e)
behind es (inr a) f = let rest = f a in (es ++ rest.0, rest.1)

infixl 5 ◌>>=◌ ◌>>◌
abbrev pub ◌>>=◌ : {A B : Type 0} → M A → (A → M B) → M B
m >>= f = behind m.0 m.1 f

abbrev pub ◌>>◌ : {B : Type 0} → M (Unit {0}) → M B → M B
m >> k = m >>= λ _. k

abbrev pub call : {A : Type 0} → Error ⊎ A → M A
call r = ([], r)

abbrev pub check : Option Error → M (Unit {0})
check none = ([], inr tt)
check (some e) = ([], inl e)

-- Either error is returned, and the container that may come with it is not looked at.
abbrev pub container : RunResult → M (Unit {0})
container run_returned = (container_started ∷ [], inr tt)
container (run_failed e) = ([], inl e)
container (run_failed_started e) = (container_started ∷ [], inl e)

abbrev pub opened : Error ⊎ Pool → M Pool
opened (inl e) = ([], inl e)
opened (inr pool) = (pool_event pool_opened ∷ [], inr pool)

abbrev pub applied : Option Error → Option Error
applied none = none
applied (some e) = some (wrapped (codes "applying sql/01-schema.sql") e)

abbrev pub container_settings : Bytes → ℤ → PostgresSettings
container_settings host port = record {
  host = host;
  port = port;
  database = codes "pagination_test";
  user = codes "postgres";
  password = codes "postgres";
  ssl_mode = codes "disable";
  min_conns = pos 2;
  max_conns = pos 10;
}

-- `start` behind the container's start.
unfoldable pub connect : TestBinary → Bytes → M TestPostgres
connect b schema = do
  host ← call b.docker.host
  port ← call b.docker.mapped_port
  pool_config ← call (b.pgxpool.parse_config (dsn (container_settings host port)))
  pool ← opened (b.pgxpool.new_with_config (with_conns (container_settings host port) pool_config))
  check pool.database.ping
  check (applied (b.exec schema))
  call (inr (record { config = container_settings host port; pool = pool }))

-- `start`; what ends it is in `with_started`.
unfoldable pub start_container : TestBinary → M TestPostgres
unfolding connect
start_container b = do
  schema ← call (read_shared_schema b.files)
  container b.docker.run
  connect b schema

abbrev pub terminated : Option Error → List TestEvent
terminated none = container_terminated ∷ []
terminated (some e) = printed (wrapped (codes "terminating postgres container") e) ∷ []

abbrev pub with_started : TestBinary → List TestEvent → Error ⊎ TestPostgres → List TestEvent × ℤ
with_started b es (inl e) =
    (es ++ printed (wrapped (codes "starting postgres container") e) ∷ [], pos 1)
with_started b es (inr pg) = (
  es ++ (tests_run ∷ pool_event pool_closed ∷ terminated b.docker.terminate),
  b.run_tests (some pg),
)

-- `RunWithPostgres`
unfoldable pub run_with_postgres : TestBinary → List TestEvent × ℤ
unfolding start_container
run_with_postgres b =
    if b.short
    then (tests_run ∷ [], b.run_tests none)
    else with_started b (start_container b).0 (start_container b).1

-- `Shared`: a skipped test, a failed one, or the container.
pub data SharedResult : Type 0 where
  skipped failed : SharedResult
  found : TestPostgres → SharedResult

abbrev pub shared_or_failed : Option TestPostgres → SharedResult
shared_or_failed none = failed
shared_or_failed (some pg) = found pg

abbrev pub shared : Bool → Option TestPostgres → SharedResult
shared short current = if short then skipped else shared_or_failed current
