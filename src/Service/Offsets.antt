-- ===== src/Service/Offsets.antt =====
-- The page by rank that `ListByOffset` returns, and what it returns where its rank leaves 64 bits.
use concevoir_une_api_pagine.Prelude.{
  ℕ, suc, ◌+◌, ◌*◌, ◌%◌, ◌<◌, ◌^◌, List, true, false, ℤ, pos, ◌-ℤ◌, ◌*ℤ◌, wrap64, ltb, ltb_ℤ,
  wrap64_of_InInt64, length, length-take, take, drop, take-take_le, take_of_length_le, Bool-cases,
  ◌≡◌, arith, inl, inr, ◌∙◌,
}
use concevoir_une_api_pagine.Errors.{ok}
use concevoir_une_api_pagine.Domain.{Transaction, OffsetParams}
use concevoir_une_api_pagine.Postgres.Database.{Database, Serves}
use concevoir_une_api_pagine.Postgres.Listing.{listing, offset_query, page_by_offset-listing}
use concevoir_une_api_pagine.Go.Time.{Duration}
use concevoir_une_api_pagine.Prelude.{Bytes}
use concevoir_une_api_pagine.Service.{trim, list_by_offset}
use concevoir_une_api_pagine.Service.Paging.{fetch_one_more}
use concevoir_une_api_pagine.Service.Pages.{service_over}

page_before : (p : ℕ) → pos (suc p) -ℤ pos 1 ≡ pos p
unfolding ◌-ℤ◌
page_before p = ground arith

product : (p n : ℕ) → pos p *ℤ pos n ≡ pos (p * n)
unfolding ◌*ℤ◌
product p n = ground arith

low_rank : (m : ℕ) → m % 2 ^ 64 < 2 ^ 63 → wrap64 (pos m) ≡ pos (m % 2 ^ 64)
unfolding wrap64
low_rank m h = ground arith

trim-take :
    (n : ℕ) (ys : List Transaction)
    → trim (take (n + 1) ys) (pos n) ≡ ok (take n ys, ltb n (length ys))
unfolding trim
trim-take n ys = elim (Bool-cases (ltb n (length ys))) [
  | inl more ↦
      let many : ltb_ℤ (pos n) (pos (length (take (n + 1) ys))) ≡ true =
        ground (arith, length-take (n + 1) ys) in
      rw (many, more, take-take_le n (n + 1) ys (omega arith))
  | inr few ↦
      let none_over : ltb_ℤ (pos n) (pos (length (take (n + 1) ys))) ≡ false =
        ground (arith, length-take (n + 1) ys) in
      rw (
        none_over,
        few,
        take_of_length_le (n + 1) ys (ground arith),
        take_of_length_le n ys (ground arith),
      )
]

abbrev pub page_params : ℤ → ℕ → ℕ → OffsetParams
page_params account_id page size = record {
  account_id = account_id;
  page = pos page;
  size = pos size;
}

module _ (db : Database) (table : List Transaction) (v : Serves db table) (key : Bytes)
    (ttl : Duration) where
  -- Over a database that answers from a table, page p + 1 of n rows, where p + 1 and n + 1 fit an
  -- int, starts at the rank p * n of the descending listing as int64 arithmetic gives it: where
  -- that rank is not negative, the page is the slice from it on, and has_more says whether a row
  -- follows the slice.
  pub list_by_offset-wrapped :
      (account_id : ℤ) (p n : ℕ)
      → suc p < 2 ^ 63
      → n + 1 < 2 ^ 63
      → p * n % 2 ^ 64 < 2 ^ 63
      → let rest = drop (p * n % 2 ^ 64) (listing (offset_query account_id) table) in
        list_by_offset (service_over db key ttl) (page_params account_id (suc p) n)
        ≡ ok (record {
          transactions = take n rest;
          page = pos (suc p);
          size = pos n;
          has_more = ltb n (length rest);
        })
  unfolding list_by_offset
  list_by_offset-wrapped account_id p n h k l = rw (
    page_before p,
    wrap64_of_InInt64 (pos p) (omega arith),
    product p n,
    low_rank (p * n) l,
    fetch_one_more n k,
    page_by_offset-listing db table v account_id (p * n % 2 ^ 64) (n + 1),
    trim-take n (drop (p * n % 2 ^ 64) (listing (offset_query account_id) table)),
  )

  -- Over a database that answers from a table, page p + 1 of n rows is the slice of the descending
  -- listing that starts at rank p * n, and has_more says whether a row follows it, as long as the
  -- page, n + 1 and the rank fit an int.
  pub list_by_offset-listing :
      (account_id : ℤ) (p n : ℕ)
      → suc p < 2 ^ 63
      → n + 1 < 2 ^ 63
      → p * n < 2 ^ 63
      → let rest = drop (p * n) (listing (offset_query account_id) table) in
        list_by_offset (service_over db key ttl) (page_params account_id (suc p) n)
        ≡ ok (record {
          transactions = take n rest;
          page = pos (suc p);
          size = pos n;
          has_more = ltb n (length rest);
        })
  list_by_offset-listing account_id p n h k l =
      let same : p * n % 2 ^ 64 ≡ p * n = omega arith in
      list_by_offset-wrapped account_id p n h k (omega arith) ∙ rw same
