-- ===== src/Service/Drift.antt =====
-- What paging by rank shows when rows are inserted between two requests, as the test
-- TestOffsetWalk_Drifts of go/internal/postgres/walk_test.go observes it.
use concevoir_une_api_pagine.Prelude.{
  ℕ, suc, ◌+◌, ◌-◌, ◌*◌, ◌≤◌, ◌<◌, ◌^◌, List, ◌++◌, true, ℤ, pos, length, take, drop, take-take_le,
  drop-append, drop-drop, drop-take, filter, filter-append, sort, sort-append, All, All-map,
  All-filter, All-sort, ltb, ◌≡◌, refl, sym, ap, ◌∙◌, arith, Bytes,
}
use concevoir_une_api_pagine.Errors.{ok}
use concevoir_une_api_pagine.Go.Time.{Duration}
use concevoir_une_api_pagine.Domain.{Transaction, ListQuery, OffsetPage}
use concevoir_une_api_pagine.Postgres.Database.{Database, Serves}
use concevoir_une_api_pagine.Postgres.Order.{shown_before}
use concevoir_une_api_pagine.Postgres.Listing.{belongs, listing, offset_query}
use concevoir_une_api_pagine.Service.{list_by_offset}
use concevoir_une_api_pagine.Service.Offsets.{page_params, list_by_offset-listing}
use concevoir_une_api_pagine.Service.Pages.{service_over}

-- Each of some rows is shown before each row of a table.
abbrev pub AreNewer : ListQuery → List Transaction → List Transaction → Type 0
AreNewer q new table = All (λ x. All (λ y. shown_before q.sort x y ≡ true) table) new

listing-append :
    (q : ListQuery) (new table : List Transaction)
    → AreNewer q new table
    → listing q (new ++ table) ≡ listing q new ++ listing q table
unfolding listing
listing-append q new table h =
    let mine = belongs q.account_id in
    let before = shown_before q.sort in
    ap (sort before) (filter-append mine new table)
    ∙ sort-append before (filter mine new) (filter mine table) (
        All-filter (λ x. All (λ y. before x y ≡ true) (sort before (filter mine table))) mine new
          (All-map new
            (λ x b.
              All-sort (λ y. before x y ≡ true) before (filter mine table)
                (All-filter (λ y. before x y ≡ true) mine table b))
            h))

-- With k rows in front, the page that follows begins with the last k rows of the page before.
repeated_rows :
    (k m n : ℕ) (front rows : List Transaction)
    → length front ≡ k
    → k ≤ n
    → take k (take n (drop (m + n) (front ++ rows))) ≡ drop (n - k) (take n (drop m rows))
repeated_rows k m n front rows h le =
    take-take_le k n (drop (m + n) (front ++ rows)) le
    ∙ ap (take k) (drop-append (m + n) (m + (n - k)) front rows (omega arith))
    ∙ sym (
        drop-take (n - k) k n (drop m rows) (omega arith)
        ∙ ap (take k) (drop-drop (n - k) m (m + (n - k)) rows refl))

module _ (key : Bytes) (ttl : Duration) (before after : Database)
    (new table : List Transaction) where
  -- Over a database that answers from a table, and from that table with new rows when the following
  -- page is asked for, each of which is shown before every row of the table: if k of the new rows
  -- are of the account, and k is at most the page size n, both pages are returned, as long as the
  -- pages, n + 1 and the ranks fit an int, and the first k rows of the following page repeat the
  -- page before it from its row n - k on, which are its last k rows where it is full.
  pub list_by_offset-drift :
      Serves before table
      → Serves after (new ++ table)
      → (account_id : ℤ) (p n k : ℕ) → suc (suc p) < 2 ^ 63
      → n + 1 < 2 ^ 63
      → suc p * n < 2 ^ 63
      → AreNewer (offset_query account_id) new table
      → length (listing (offset_query account_id) new) ≡ k
      → k ≤ n
      → (first second : OffsetPage) × (list_by_offset
            (service_over before key ttl)
            (page_params account_id (suc p) n)
          ≡ ok first)
        × (list_by_offset (service_over after key ttl) (page_params account_id (suc (suc p)) n)
            ≡ ok second)
        × (take k second.transactions ≡ drop (n - k) first.transactions)
  list_by_offset-drift v v' account_id p n k h l r newer counted le =
      let q = offset_query account_id in
      let rows = listing q table in
      let rows' = listing q (new ++ table) in
      let rank : suc p * n ≡ p * n + n = grind arith in
      (
        record {
          transactions = take n (drop (p * n) rows);
          page = pos (suc p);
          size = pos n;
          has_more = ltb n (length (drop (p * n) rows));
        },
        record {
          transactions = take n (drop (suc p * n) rows');
          page = pos (suc (suc p));
          size = pos n;
          has_more = ltb n (length (drop (suc p * n) rows'));
        },
        list_by_offset-listing before table v key ttl account_id p n (omega arith) l (omega arith),
        list_by_offset-listing after (new ++ table) v' key ttl account_id (suc p) n h l r,
        rw (rank, listing-append q new table newer)
            (repeated_rows k (p * n) n (listing q new) rows counted le),
      )
