-- ===== src/Tests/Utilities.antt =====
-- The test utilities over a working directory, a server and a container.
use concevoir_une_api_pagine.Prelude.{
  ℕ, ◌≤◌, List, [], ◌∷◌, ◌++◌, map, length, Bool, false, none, some, codes, text_eq, pos, All, ◌≡◌,
  refl, inr, arith,
}
use concevoir_une_api_pagine.Errors.{other}
use concevoir_une_api_pagine.Domain.{Transaction}
use concevoir_une_api_pagine.Service.Walk.{IsTable}
use concevoir_une_api_pagine.Testutil.Root.{
  Directory, Files, climb, IsNearest, repository_root, repository_root-IsNearest,
  read_shared_schema,
}
use concevoir_une_api_pagine.Testutil.Seed.{
  series_to, spread_row, identical_row, truncate, vacuum_analyze, insert_spread, insert_identical,
  Exec, seed_transactions,
}
use concevoir_une_api_pagine.Testutil.SeedTables.{IsSeedServer, seed_transactions-IsTable}
use concevoir_une_api_pagine.Testutil.Containers.{
  run_returned, Docker, TestBinary, connect, start_container, run_with_postgres,
}
use concevoir_une_api_pagine.Testutil.Released.{
  a_container, a_pool, in_use, IsEnded, run_with_postgres-IsEnded,
}
use concevoir_une_api_pagine.Postgres.Snapshot.{snapshot}
use concevoir_une_api_pagine.Tests.Programs.{pgxpool}

-- `/repo/go/internal`, below the module in `/repo/go`.
abbrev here : Directory
here = codes "internal" ∷ codes "go" ∷ codes "repo" ∷ []

abbrev is_module : Directory → Bool
is_module [] = false
is_module (name ∷ dir) = text_eq name (codes "go")

abbrev files : Files
files = record {
  getwd = inr here;
  stat = λ dir name. is_module dir;
  read_file = λ dir name. inr (codes "CREATE TABLE transactions ();");
}

repository_root-IsNearest_example : IsNearest is_module here (repository_root files)
repository_root-IsNearest_example = repository_root-IsNearest files here refl

root_of_files : repository_root files ≡ inr (codes "repo" ∷ [])
unfolding repository_root climb text_eq
root_of_files = refl

abbrev exec : Exec
exec truncate table = inr []
exec vacuum_analyze table = inr table
exec (insert_spread rows accounts) table = inr (table ++ map (spread_row accounts) (series_to rows))
exec (insert_identical rows) table = inr (table ++ map identical_row (series_to rows))

exec-IsSeedServer : IsSeedServer exec
exec-IsSeedServer = record {
  truncates = λ t t' e. cc;
  spreads = λ rows accounts t' e. cc;
  repeats = λ rows t' e. cc;
  analyses = λ t t' e. cc;
}

abbrev six_rows : List Transaction
six_rows = map (spread_row (pos 2)) (series_to (pos 6))

seed_transactions-IsTable_example :
    IsTable six_rows
    × (length six_rows ≡ 6)
    × All (λ t. (n : ℕ) × (t.account_id ≡ pos n) × (1 ≤ n) × (n ≤ 2)) six_rows
seed_transactions-IsTable_example =
    seed_transactions-IsTable exec exec-IsSeedServer 6 2 [] six_rows (omega arith) (omega arith)
      (unfold seed_transactions in refl)

-- A container whose schema is refused.
abbrev docker : Docker
docker = record {
  run = run_returned;
  host = inr (codes "localhost");
  mapped_port = inr (pos 49153);
  terminate = none;
}

abbrev refusing : TestBinary
refusing = record {
  files = files;
  docker = docker;
  pgxpool = pgxpool;
  exec = λ schema. some (other (codes "syntax error"));
  short = false;
  run_tests = λ pg. pos 0;
}

run_with_postgres-IsEnded_example :
    IsEnded refusing (run_with_postgres refusing) (start_container refusing).1
run_with_postgres-IsEnded_example = run_with_postgres-IsEnded refusing refl refl

-- The container and the pool are in use when the binary exits.
still_running : in_use [] (run_with_postgres refusing).0 ≡ some (a_pool ∷ a_container ∷ [])
unfolding run_with_postgres read_shared_schema repository_root climb text_eq connect snapshot
still_running = refl
