-- ===== src/Service.antt =====
-- The listing service of go/internal/service/transactions.go.
pub mod Client
pub mod Paging
pub mod Walk
pub mod Pages
pub mod Fetched
pub mod Mismatch
pub mod Offsets
pub mod Changes
pub mod ChangingWalk
pub mod Ending
pub mod Drift
use concevoir_une_api_pagine.Prelude.{
  List, [], ◌∷◌, Bool, true, false, not, Bytes, text_eq, if◌then◌else◌, ℤ, pos, negsuc, ltb_ℤ, ◌+ℤ◌,
  ◌-ℤ◌, ◌*ℤ◌, wrap64, length, take, Option, none, some,
}
use concevoir_une_api_pagine.Errors.{
  Result, ok, err, panicked, ◌>>=◌, ◌>>◌, ensure, filter_mismatch,
}
use concevoir_une_api_pagine.Go.Time.{Time, Duration}
use concevoir_une_api_pagine.Domain.{
  Transaction, is_descending, ListQuery, ListParams, OffsetParams, Bound, KeysetPage, OffsetPage,
}
use concevoir_une_api_pagine.Cursor.{fingerprint, decode_at, encode}
use concevoir_une_api_pagine.Cursor.Payload.{Cursor}
use concevoir_une_api_pagine.Postgres.Repository.{TransactionRepository}

-- The fields of `Transactions` but its logger, which it never calls, and its clock.
pub record Transactions : Type 0 where
  pub repository : TransactionRepository
  pub cursor_key : Bytes
  pub cursor_ttl : Duration

-- The two readings that a call of `List` takes of its clock.
pub record Readings : Type 0 where
  pub at_decode : Time
  pub at_issue : Time

-- `rows[:n]` where n is below the length: a negative n panics.
abbrev pub slice_to : List Transaction → ℤ → Result (List Transaction)
slice_to rows (pos n) = ok (take n rows)
slice_to rows (negsuc n) = panicked

-- `rows[len(rows)-1]`
abbrev pub last_row : List Transaction → Result Transaction
last_row [] = panicked
last_row (t ∷ []) = ok t
last_row (_ ∷ t ∷ ts) = last_row (t ∷ ts)

unfoldable pub trim : List Transaction → ℤ → Result (List Transaction × Bool)
trim rows limit =
    if ltb_ℤ limit (pos (length rows))
    then (do kept ← slice_to rows limit; ok (kept, true))
    else ok (rows, false)

abbrev pub query_fingerprint : ListQuery → Bytes
query_fingerprint q =
    fingerprint (record { account_id = q.account_id; status = q.status; sort = q.sort })

-- `==` on booleans.
abbrev pub same_direction : Bool → Bool → Bool
same_direction true b = b
same_direction false b = not b

-- The branch of `List` that resumes from a token.
unfoldable pub resume : Transactions → Time → ListParams → ℤ → Result (List Transaction)
resume s now params fetch = do
  let q = params.query
  position ← decode_at params.cursor s.cursor_key s.cursor_ttl now
  ensure (text_eq position.fingerprint (query_fingerprint q)) filter_mismatch
  ensure (same_direction position.descending (is_descending q.sort)) filter_mismatch
  s.repository.next_page q (record { created_at = position.created_at; id = position.id }) fetch

abbrev pub fetch_of : ℤ → ℤ
fetch_of limit = wrap64 (limit +ℤ pos 1)

-- The cursor that resumes behind a row.
abbrev pub cursor_after : ListQuery → Transaction → Time → Cursor
cursor_after q last now = record {
  created_at = last.created_at;
  id = last.id;
  descending = is_descending q.sort;
  fingerprint = query_fingerprint q;
  issued_at = now;
}

-- The page of a slice of rows: its token is there if more rows are.
unfoldable pub page_of : Transactions → Time → ListParams → List Transaction → Result KeysetPage
page_of s now params fetched = do
  (rows, has_more) ← trim fetched params.limit
  if has_more
      then (do
        last ← last_row rows
        ok (record {
          transactions = rows;
          next = encode (cursor_after params.query last now) s.cursor_key;
          has_more = true;
        }))
      else ok (record { transactions = rows; next = []; has_more = false })

unfoldable pub list : Transactions → Readings → ListParams → Result KeysetPage
unfolding page_of
list s clock params = do
  let fetch = fetch_of params.limit
  rows ←
      (if text_eq params.cursor []
        then s.repository.first_page params.query fetch
        else resume s clock.at_decode params fetch)
  page_of s clock.at_issue params rows

unfoldable pub list_by_offset : Transactions → OffsetParams → Result OffsetPage
list_by_offset s params = do
  let offset = wrap64 (wrap64 (params.page -ℤ pos 1) *ℤ params.size)
  fetched ← s.repository.offset_page params.account_id offset (fetch_of params.size)
  (rows, has_more) ← trim fetched params.size
  ok (record { transactions = rows; page = params.page; size = params.size; has_more = has_more })

unfoldable pub total : Transactions → Bool → Result ℤ
total s exact = if exact then s.repository.count else s.repository.count_estimate
