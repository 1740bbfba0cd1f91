-- ===== src/Postgres/Repository.antt =====
-- The methods of go/internal/postgres/transactions.go. Every limit is passed on as it is.
use concevoir_une_api_pagine.Prelude.{
  List, [], ◌∷◌, ◌++◌, Option, none, some, codes, if◌then◌else◌, ℤ, pos, ltb_ℤ,
}
use concevoir_une_api_pagine.Errors.{Error, wrap, wrapped, Result, ok, err, ◌>>=◌}
use concevoir_une_api_pagine.Domain.{Transaction, ListQuery, Bound}
use concevoir_une_api_pagine.Postgres.Statements.{
  Select, count_query, count_estimate, queries_for, offset_page, offset_page_by_account,
}
use concevoir_une_api_pagine.Postgres.Database.{Arguments, Database}

-- The loop of `query` over `rows.Next`; the second argument is the slice so far.
unfoldable pub collect : List (Result Transaction) → List Transaction → Result (List Transaction)
collect [] transactions = ok transactions
collect (row ∷ rows) transactions = do
  transaction ← wrap row "scanning transaction"
  collect rows (transactions ++ transaction ∷ [])

-- The value, unless `rows.Err` reports a failure.
abbrev pub unless_failed {ℓ} : {A : Type ℓ} → Option Error → A → Result A
unless_failed none a = ok a
unless_failed (some e) a = err (wrapped (codes "iterating transactions") e)

unfoldable pub query : Database → Select → Arguments → Result (List Transaction)
unfolding collect
query db sql args = do
  rows ← wrap (db.select sql args) "selecting transactions"
  transactions ← collect rows.scanned []
  unless_failed rows.failure transactions

-- What the service asks of a repository: the interface of go/internal/service/ports.go.
pub record TransactionRepository : Type 0 where
  pub first_page : ListQuery → ℤ → Result (List Transaction)
  pub next_page : ListQuery → Bound → ℤ → Result (List Transaction)
  pub offset_page : ℤ → ℤ → ℤ → Result (List Transaction)
  pub count_estimate : Result ℤ
  pub count : Result ℤ

unfoldable pub first_page : Database → ListQuery → ℤ → Result (List Transaction)
first_page db q limit =
    let queries = queries_for q.sort in
    if ltb_ℤ (pos 0) q.account_id
    then query db queries.first_page_by_account (q.account_id ∷ limit ∷ [])
    else query db queries.first_page (limit ∷ [])

unfoldable pub next_page : Database → ListQuery → Bound → ℤ → Result (List Transaction)
next_page db q after limit =
    let queries = queries_for q.sort in
    if ltb_ℤ (pos 0) q.account_id
    then query db queries.next_page_by_account
        (q.account_id ∷ after.created_at ∷ after.id ∷ limit ∷ [])
    else query db queries.next_page (after.created_at ∷ after.id ∷ limit ∷ [])

unfoldable pub page_by_offset : Database → ℤ → ℤ → ℤ → Result (List Transaction)
page_by_offset db account_id offset limit =
    if ltb_ℤ (pos 0) account_id
    then query db offset_page_by_account (account_id ∷ limit ∷ offset ∷ [])
    else query db offset_page (limit ∷ offset ∷ [])

-- `Count`
unfoldable pub count_rows : Database → Result ℤ
count_rows db = wrap (db.scalar count_query) "counting rows"

-- `CountEstimate`: a negative estimate is reported as 0.
unfoldable pub estimate_rows : Database → Result ℤ
estimate_rows db = do
  estimate ← wrap (db.scalar count_estimate) "estimating row count"
  if ltb_ℤ estimate (pos 0) then ok (pos 0) else ok estimate

-- `Ping`
abbrev pub ping : Database → Option Error
ping db = db.ping

-- `NewTransactionRepository`
abbrev pub new_transaction_repository : Database → TransactionRepository
new_transaction_repository db = record {
  first_page = first_page db;
  next_page = next_page db;
  offset_page = page_by_offset db;
  count_estimate = estimate_rows db;
  count = count_rows db;
}
