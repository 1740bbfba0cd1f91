-- ===== src/Service/Client.antt =====
-- A client that follows `page.next`, as spec/contract.md asks and as the tests of
-- go/internal/postgres/walk_test.go do: the specification of a walk, request by request.
use concevoir_une_api_pagine.Prelude.{
  List, [], ◌∷◌, ◌++◌, Option, none, some, Bytes, if◌then◌else◌, ℕ, pos,
}
use concevoir_une_api_pagine.Errors.{Result, ok, ◌>>=◌}
use concevoir_une_api_pagine.Go.Time.{Duration}
use concevoir_une_api_pagine.Domain.{Transaction, ListQuery, ListParams}
use concevoir_une_api_pagine.Postgres.Database.{Database}
use concevoir_une_api_pagine.Postgres.Repository.{new_transaction_repository}
use concevoir_une_api_pagine.Service.{Transactions, Readings, list}

-- What one request meets: the database as it is then, and the clock.
pub record Visit : Type 0 where
  pub database : Database
  pub clock : Readings

pub record Walker : Type 0 where
  pub key : Bytes
  pub ttl : Duration
  pub query : ListQuery
  pub limit : ℕ

-- `NewTransactions` over `NewTransactionRepository`.
abbrev pub service_at : Walker → Visit → Transactions
service_at w v = record {
  repository = new_transaction_repository v.database;
  cursor_key = w.key;
  cursor_ttl = w.ttl;
}

abbrev pub params_at : Walker → Bytes → ListParams
params_at w token = record { query = w.query; limit = pos w.limit; cursor = token }

abbrev pub behind : List Transaction → Option (List Transaction) → Option (List Transaction)
behind rows none = none
behind rows (some more) = some (rows ++ more)

-- All rows of a walk from a token, or `none` if it has not ended with the last visit.
unfoldable pub walk : Walker → List Visit → Bytes → Result (Option (List Transaction))
walk w [] token = ok none
walk w (v ∷ vs) token = do
  page ← list (service_at w v) v.clock (params_at w token)
  if page.has_more
      then (do more ← walk w vs page.next; ok (behind page.transactions more))
      else ok (some page.transactions)
