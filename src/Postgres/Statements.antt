-- ===== src/Postgres/Statements.antt =====
-- The statements of go/internal/postgres/queries.go. A statement is its clauses; `$n` is the number
-- of an argument. The columns are those of `transactionColumns`, in the order that a row is scanned.
use concevoir_une_api_pagine.Prelude.{ℕ, if◌then◌else◌, Option, none, some}
use concevoir_une_api_pagine.Domain.{Sort, is_descending}

-- `(created_at, id) < ($m, $n)` or `>`.
pub data Comparison : Type 0 where
  less greater : Comparison

pub record TupleBound : Type 0 where
  pub comparison : Comparison
  pub created_at : ℕ
  pub id : ℕ

-- `ORDER BY created_at …, id …`, each column with its own direction.
pub data Direction : Type 0 where
  ascending descending : Direction

pub record Select : Type 0 where
  pub where_account : Option ℕ
  pub where_tuple : Option TupleBound
  pub order_created_at : Direction
  pub order_id : Direction
  pub limit : ℕ
  pub offset : Option ℕ

-- The two statements that return one number.
pub data Scalar : Type 0 where
  count_query count_estimate : Scalar

pub record KeysetQueries : Type 0 where
  pub first_page : Select
  pub next_page : Select
  pub first_page_by_account : Select
  pub next_page_by_account : Select

abbrev pub descending_queries : KeysetQueries
descending_queries = record {
  first_page = record {
    where_account = none;
    where_tuple = none;
    order_created_at = descending;
    order_id = descending;
    limit = 1;
    offset = none;
  };
  next_page = record {
    where_account = none;
    where_tuple = some (record { comparison = less; created_at = 1; id = 2 });
    order_created_at = descending;
    order_id = descending;
    limit = 3;
    offset = none;
  };
  first_page_by_account = record {
    where_account = some 1;
    where_tuple = none;
    order_created_at = descending;
    order_id = descending;
    limit = 2;
    offset = none;
  };
  next_page_by_account = record {
    where_account = some 1;
    where_tuple = some (record { comparison = less; created_at = 2; id = 3 });
    order_created_at = descending;
    order_id = descending;
    limit = 4;
    offset = none;
  };
}

abbrev pub ascending_queries : KeysetQueries
ascending_queries = record {
  first_page = record {
    where_account = none;
    where_tuple = none;
    order_created_at = ascending;
    order_id = ascending;
    limit = 1;
    offset = none;
  };
  next_page = record {
    where_account = none;
    where_tuple = some (record { comparison = greater; created_at = 1; id = 2 });
    order_created_at = ascending;
    order_id = ascending;
    limit = 3;
    offset = none;
  };
  first_page_by_account = record {
    where_account = some 1;
    where_tuple = none;
    order_created_at = ascending;
    order_id = ascending;
    limit = 2;
    offset = none;
  };
  next_page_by_account = record {
    where_account = some 1;
    where_tuple = some (record { comparison = greater; created_at = 2; id = 3 });
    order_created_at = ascending;
    order_id = ascending;
    limit = 4;
    offset = none;
  };
}

unfoldable pub queries_for : Sort → KeysetQueries
queries_for sort = if is_descending sort then descending_queries else ascending_queries

abbrev pub offset_page : Select
offset_page = record {
  where_account = none;
  where_tuple = none;
  order_created_at = descending;
  order_id = descending;
  limit = 1;
  offset = some 2;
}

abbrev pub offset_page_by_account : Select
offset_page_by_account = record {
  where_account = some 1;
  where_tuple = none;
  order_created_at = descending;
  order_id = descending;
  limit = 2;
  offset = some 3;
}
