-- ===== src/Postgres/Database.antt =====
-- PostgreSQL and its driver, which are not code of the repository: a parameter of the model. What a
-- statement means follows PostgreSQL's documentation of SELECT, and `Serves` says that a database
-- answers from one snapshot of the table.
use concevoir_une_api_pagine.Prelude.{
  ℕ, zero, suc, List, Bool, true, ◌&&◌, ◌||◌, Option, none, some, ℤ, pos, negsuc, ltb_ℤ, eqb_ℤ,
  get_elem?, take, drop, filter, sort, ◌≡◌, length, map,
}
use concevoir_une_api_pagine.Prelude.Options.{◌>>=◌}
use concevoir_une_api_pagine.Errors.{Error, Result, ok, err}
use concevoir_une_api_pagine.Domain.{Transaction}
use concevoir_une_api_pagine.Postgres.Statements.{
  Select, Scalar, count_query, Comparison, less, greater, TupleBound, Direction, ascending,
  descending,
}

-- Every argument that the program passes is a number or an instant, both an integer here.
abbrev pub Arguments : Type 0
Arguments = List ℤ

-- `pgx.Rows`: the rows that `Next` reaches, each scanned or not, and the error of `Err`.
pub record Rows : Type 0 where
  pub scanned : List (Result Transaction)
  pub failure : Option Error

pub record Database : Type 0 where
  pub select : Select → Arguments → Result Rows
  pub scalar : Scalar → Result ℤ
  pub ping : Option Error

-- `$n`, counted from 1.
abbrev pub argument : ℕ → Arguments → Option ℤ
argument zero args = none
argument (suc n) args = get_elem? args n

-- The row comparison of SQL: by the first column, and by the second where the first is equal.
abbrev pub tuple_less : Transaction → ℤ → ℤ → Bool
tuple_less t created_at id =
    ltb_ℤ t.created_at created_at || eqb_ℤ t.created_at created_at && ltb_ℤ t.id id

abbrev pub tuple_greater : Transaction → ℤ → ℤ → Bool
tuple_greater t created_at id =
    ltb_ℤ created_at t.created_at || eqb_ℤ created_at t.created_at && ltb_ℤ id t.id

abbrev pub compares : Comparison → Transaction → ℤ → ℤ → Bool
compares less = tuple_less
compares greater = tuple_greater

-- The test of each half of WHERE, where its arguments are there.
abbrev pub account_test : Option ℕ → Arguments → Option (Transaction → Bool)
account_test none args = some (λ t. true)
account_test (some n) args = do a ← argument n args; some (λ t. eqb_ℤ t.account_id a)

abbrev pub tuple_test : Option TupleBound → Arguments → Option (Transaction → Bool)
tuple_test none args = some (λ t. true)
tuple_test (some b) args = do
  created_at ← argument b.created_at args
  id ← argument b.id args
  some (λ t. compares b.comparison t created_at id)

-- LIMIT and OFFSET: a negative number is an error.
abbrev pub row_count : ℤ → Option ℕ
row_count (pos n) = some n
row_count (negsuc n) = none

abbrev pub rows_skipped : Option ℕ → Arguments → Option ℕ
rows_skipped none args = some 0
rows_skipped (some n) args = do k ← argument n args; row_count k

abbrev column_before : Direction → ℤ → ℤ → Bool
column_before ascending x y = ltb_ℤ x y
column_before descending x y = ltb_ℤ y x

-- ORDER BY: by the first column, and by the second where the first is equal.
abbrev pub row_before : Direction → Direction → Transaction → Transaction → Bool
row_before first second x y =
    column_before first x.created_at y.created_at
    || eqb_ℤ x.created_at y.created_at && column_before second x.id y.id

-- The rows of a SELECT over a snapshot of the table; `none` is an error.
unfoldable pub evaluate : Select → Arguments → List Transaction → Option (List Transaction)
evaluate q args table = do
  in_account ← account_test q.where_account args
  in_bound ← tuple_test q.where_tuple args
  most ← argument q.limit args
  n ← row_count most
  k ← rows_skipped q.offset args
  let chosen = filter in_bound (filter in_account table)
  some (take n (drop k (sort (row_before q.order_created_at q.order_id) chosen)))

abbrev pub complete : List Transaction → Rows
complete rows = record { scanned = map ok rows; failure = none }

-- The database answers from one snapshot, and no call of the driver fails.
pub record Serves (db : Database) (table : List Transaction) : Type 0 where
  pub answers :
      (q : Select) (args : Arguments) (rows : List Transaction)
      → evaluate q args table ≡ some rows
      → db.select q args ≡ ok (complete rows)
  pub refuses :
      (q : Select) (args : Arguments)
      → evaluate q args table ≡ none
      → (e : Error) × (db.select q args ≡ err e)
  pub counts : db.scalar count_query ≡ ok (pos (length table))
