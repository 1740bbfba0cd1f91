-- ===== src/Tests/Pages.antt =====
-- The theorems on single pages at a small table.
use concevoir_une_api_pagine.Prelude.{
  [], ◌∷◌, codes, refl, sort, insert_sorted, text_eq, ◌≡◌, ◌≢◌, ◌⊎◌, inl, inr, pos, arith, ltb,
  length, take, drop, ◌+ℤ◌, ◌-ℤ◌, ap,
}
use concevoir_une_api_pagine.Errors.{ok, err, sentinel, filter_mismatch}
use concevoir_une_api_pagine.Errors.Outcomes.{Holds}
use concevoir_une_api_pagine.Go.Time.{sub}
use concevoir_une_api_pagine.Domain.{
  ListQuery, OffsetPage, sort_created_at_asc, sort_created_at_desc,
}
use concevoir_une_api_pagine.Cursor.{Filters, filter_text, encode}
use concevoir_une_api_pagine.Cursor.FilterText.{filter_text-injective}
use concevoir_une_api_pagine.Postgres.Order.{bound_of, shown_before, is_newest_first}
use concevoir_une_api_pagine.Postgres.Repository.{next_page}
use concevoir_une_api_pagine.Postgres.Snapshot.{snapshot, snapshot-Serves, snapshot-IsDriver}
use concevoir_une_api_pagine.Postgres.Listing.{
  belongs, listing, listing_after, offset_query, next_page-listing,
}
use concevoir_une_api_pagine.Service.{list, list_by_offset, cursor_after}
use concevoir_une_api_pagine.Service.Pages.{service_over, IsListError}
use concevoir_une_api_pagine.Service.Fetched.{IsPageOf, list-IsPageOf}
use concevoir_une_api_pagine.Service.Offsets.{
  page_params, list_by_offset-wrapped, list_by_offset-listing,
}
use concevoir_une_api_pagine.Service.Drift.{list_by_offset-drift}
use concevoir_une_api_pagine.Service.Mismatch.{Collide, list-other_query}
use concevoir_une_api_pagine.Tests.Data.{
  row_at, four_rows, three_rows, three_rows-IsTable, tenant_query, test_key, three_days, visit_at,
  noon,
}

next_page-listing_example :
    next_page (snapshot three_rows) tenant_query (bound_of (row_at 3 40)) (pos 2)
    ≡ ok (take 2 (listing_after tenant_query (bound_of (row_at 3 40)) three_rows))
next_page-listing_example =
    next_page-listing (snapshot three_rows) three_rows (snapshot-Serves three_rows) tenant_query
      (bound_of (row_at 3 40)) 2 three_rows-IsTable.unique

list-IsPageOf_example :
    Holds
      (IsPageOf
        (snapshot three_rows)
        test_key
        three_days
        tenant_query
        2
        (visit_at three_rows 0).clock
        [])
      IsListError
      (list
        (service_over (snapshot three_rows) test_key three_days)
        (visit_at three_rows 0).clock
        (record { query = tenant_query; limit = pos 2; cursor = [] }))
list-IsPageOf_example =
    list-IsPageOf (snapshot three_rows) test_key three_days tenant_query 2
      (snapshot-IsDriver three_rows) (visit_at three_rows 0).clock [] (omega arith) (omega arith)

list_by_offset-listing_example :
    list_by_offset
      (service_over (snapshot three_rows) test_key three_days)
      (page_params (pos 42) 2 2)
    ≡ ok (record {
      transactions = take 2 (drop 2 (listing (offset_query (pos 42)) three_rows));
      page = pos 2;
      size = pos 2;
      has_more = ltb 2 (length (drop 2 (listing (offset_query (pos 42)) three_rows)));
    })
list_by_offset-listing_example =
    list_by_offset-listing (snapshot three_rows) three_rows (snapshot-Serves three_rows) test_key
      three_days (pos 42) 1 2 (omega arith) (omega arith) (omega arith)

-- Page 2^58 + 1 of 64 rows is the first page.
list_by_offset-wrapped_example :
    list_by_offset
      (service_over (snapshot three_rows) test_key three_days)
      (page_params (pos 42) 288230376151711745 64)
    ≡ ok (record {
      transactions = take 64 (listing (offset_query (pos 42)) three_rows);
      page = pos 288230376151711745;
      size = pos 64;
      has_more = ltb 64 (length (listing (offset_query (pos 42)) three_rows));
    })
list_by_offset-wrapped_example =
    list_by_offset-wrapped (snapshot three_rows) three_rows (snapshot-Serves three_rows) test_key
      three_days (pos 42) 288230376151711744 64 (omega arith) (omega arith) (omega arith)

abbrev settled : Filters
settled = record { account_id = pos 42; status = codes "SET|TLED"; sort = sort_created_at_asc }

filter_text-injective_example : settled ≡ settled
filter_text-injective_example =
    filter_text-injective settled settled (omega arith) (omega arith) (inr refl) (inr refl) refl

abbrev other_query : ListQuery
other_query = record { account_id = pos 42; status = []; sort = sort_created_at_asc }

queries_differ : tenant_query ≢ other_query
queries_differ e = absurd (omega (arith, ap (λ q. length q.sort) e))

list-other_query_example :
    (list
        (service_over (snapshot three_rows) test_key three_days)
        (visit_at three_rows 60).clock
        (record {
          query = other_query;
          limit = pos 2;
          cursor = encode (cursor_after tenant_query (row_at 2 40) (pos noon)) test_key;
        })
      ≡ err (sentinel filter_mismatch))
    ⊎ Collide
        (filter_text (record { account_id = pos 42; status = []; sort = sort_created_at_desc }))
        (filter_text (record { account_id = pos 42; status = []; sort = sort_created_at_asc }))
unfolding sub ◌-ℤ◌ ◌+ℤ◌
list-other_query_example =
    list-other_query (service_over (snapshot three_rows) test_key three_days) tenant_query
      other_query 2 (row_at 2 40) (pos noon) (visit_at three_rows 60).clock
      three_rows-IsTable.rows.1.0 (omega arith) refl
      (record { account = omega arith; order = inl refl })
      (record { account = omega arith; order = inr refl }) queries_differ

-- Row 4 is inserted between the first page of two rows and the second.
list_by_offset-drift_example :
    (first second : OffsetPage) × (list_by_offset
        (service_over (snapshot three_rows) test_key three_days)
        (page_params (pos 42) 1 2)
      ≡ ok first)
    × (list_by_offset
          (service_over (snapshot four_rows) test_key three_days)
          (page_params (pos 42) 2 2)
        ≡ ok second)
    × (take 1 second.transactions ≡ drop 1 first.transactions)
unfolding shown_before is_newest_first text_eq
list_by_offset-drift_example =
    list_by_offset-drift test_key three_days (snapshot three_rows) (snapshot four_rows)
      (row_at 4 60 ∷ []) three_rows (snapshot-Serves three_rows) (snapshot-Serves four_rows)
      (pos 42) 0 2 1 (omega arith) (omega arith) (omega arith) ((refl, (refl, (refl, tt))), tt)
      (unfold listing belongs sort insert_sorted in refl) (omega arith)
