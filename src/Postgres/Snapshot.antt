-- ===== src/Postgres/Snapshot.antt =====
-- A database that answers every statement from one table: the assumptions on a database can be met.
use concevoir_une_api_pagine.Prelude.{
  List, [], ◌∷◌, map, All, Option, none, some, refl, codes, pos, length,
}
use concevoir_une_api_pagine.Errors.Outcomes.{Holds, IsForeign}
use concevoir_une_api_pagine.Postgres.Failures.{Any, AreForeign, IsDriver}
use concevoir_une_api_pagine.Errors.{Result, ok, err, other, is_error}
use concevoir_une_api_pagine.Domain.{Transaction}
use concevoir_une_api_pagine.Postgres.Database.{Rows, Database, Serves, evaluate, complete}

abbrev answer : Option (List Transaction) → Result Rows
answer none = err (other (codes "invalid statement"))
answer (some rows) = ok (complete rows)

unfoldable pub snapshot : List Transaction → Database
snapshot table = record {
  select = λ q args. answer (evaluate q args table);
  scalar = λ s. ok (pos (length table));
  ping = none;
}

pub snapshot-Serves : (table : List Transaction) → Serves (snapshot table) table
unfolding snapshot
snapshot-Serves table = record {
  answers = λ q args rows e. rw e;
  refuses = λ q args e. (other (codes "invalid statement"), rw e);
  counts = refl;
}

scans : (rows : List Transaction) → All (Holds Any IsForeign) (map ok rows)
scans [] = tt
scans (t ∷ ts) = (tt, scans ts)

pub snapshot-IsDriver : (table : List Transaction) → IsDriver (snapshot table)
unfolding snapshot is_error
snapshot-IsDriver table = record {
  selects = λ q args. answered (evaluate q args table);
  scalars = λ q. tt;
}
  where
    answered : (o : Option (List Transaction)) → Holds AreForeign IsForeign (answer o)
    answered none = λ s. refl
    answered (some rows) = (scans rows, tt)
