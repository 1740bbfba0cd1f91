-- ===== src/Handler/QueryText.antt =====
-- Requests as a client writes them: the query string of a listing, with its numbers in decimal, down
-- to the rows of the table.
use concevoir_une_api_pagine.Prelude.{
  ℕ, suc, ◌*◌, ◌≤◌, ◌<◌, ◌^◌, List, [], ◌∷◌, Option, none, some, Bytes, codes, text_eq,
  if◌then◌else◌, pos, ltb, take, drop, length, All, ◌≡◌, refl, arith,
}
use concevoir_une_api_pagine.Errors.{ok}
use concevoir_une_api_pagine.Go.Strconv.{format_int}
use concevoir_une_api_pagine.Go.Time.{Duration}
use concevoir_une_api_pagine.Cursor.FilterText.{IsSort}
use concevoir_une_api_pagine.Domain.{Sort}
use concevoir_une_api_pagine.Handler.Requests.{
  Context, KeysetListRequest, OffsetListRequest, keyset_fields, offset_fields, empty_keyset_request,
  empty_offset_request,
}
use concevoir_une_api_pagine.Handler.Printed.{
  account_id_param-format_int, page_size_param-format_int, page_number_param-format_int,
  page_size_value_within, page_number_value_positive, sort_order_param_order,
  sort_order_value_order,
}
use concevoir_une_api_pagine.Handler.Binding.{Binds}
use concevoir_une_api_pagine.Domain.{Transaction}
use concevoir_une_api_pagine.Postgres.Database.{Database, Serves}
use concevoir_une_api_pagine.Postgres.Listing.{listing, offset_query}
use concevoir_une_api_pagine.Service.{Readings}
use concevoir_une_api_pagine.Service.Client.{Visit, Walker}
use concevoir_une_api_pagine.Service.Offsets.{list_by_offset-listing}
use concevoir_une_api_pagine.Service.Walk.{IsTable, IsTimely}
use concevoir_une_api_pagine.Handler.{list_by_offset}
use concevoir_une_api_pagine.Handler.Replies.{offset_list}
use concevoir_une_api_pagine.Handler.Answers.{application}
use concevoir_une_api_pagine.Handler.Client.{documented_rows, http_walk}
use concevoir_une_api_pagine.Handler.Walk.{IsRequest, http_walk-listing}

-- `?account_id=…&status=…&sort=…&limit=…&cursor=…`
abbrev pub keyset_form : ℕ → Bytes → Sort → ℕ → Bytes → Bytes → Option Bytes
keyset_form account_id status order limit token name =
    if text_eq name (codes "account_id")
    then some (format_int (pos account_id))
    else if text_eq name (codes "status")
    then some status
    else if text_eq name (codes "sort")
    then some order
    else if text_eq name (codes "limit")
    then some (format_int (pos limit))
    else if text_eq name (codes "cursor")
    then some token
    else none

abbrev pub walker_of : Bytes → Duration → ℕ → Bytes → Sort → ℕ → Walker
walker_of key ttl account_id status order limit = record {
  key = key;
  ttl = ttl;
  query = record { account_id = pos account_id; status = status; sort = order };
  limit = limit;
}

-- The requests whose query strings a client writes are those of its walk.
keyset_form-IsRequest :
    (key : Bytes) (ttl : Duration) (account_id : ℕ) (status : Bytes) (order : Sort) (limit : ℕ)
    → 0 < account_id
    → account_id < 2 ^ 63
    → IsSort order
    → 0 < limit
    → limit ≤ 100
    → (context : Bytes → Context)
    → ((token : Bytes) → Binds (context token) (keyset_form account_id status order limit token))
    → IsRequest (walker_of key ttl account_id status order limit) context
unfolding text_eq
keyset_form-IsRequest key ttl a status order n some_account fits known some_limit capped context b =
    record {
      request = record {
        account_id = pos a;
        status = status;
        sort = order;
        limit = pos n;
        cursor = [];
      };
      binds = λ token.
          rw
            (
              (b token).binds KeysetListRequest keyset_fields empty_keyset_request,
              account_id_param-format_int a (pos 0) some_account fits,
              sort_order_param_order order [] known,
              page_size_param-format_int n (pos 0) (omega arith),
            )
            refl;
      same_query = rw (sort_order_value_order order known) refl;
      same_limit = page_size_value_within n some_limit capped;
    }

-- A client asks for the transactions of an account with a positive bigint id, in one of the two
-- orders, at most 100 rows a page and a positive number of them, and puts each page.next into the
-- cursor of its next request. Over a database that answers from one table which does not change, it
-- is answered with the rows of the whole listing, each once and in order, if there are as many
-- requests as the listing has pages and each token is used in time.
pub http_walk-query_text :
    (key : Bytes) (ttl : Duration) (account_id : ℕ) (status : Bytes) (order : Sort) (limit : ℕ)
    (table : List Transaction) (context : Bytes → Context) (v : Visit) (vs : List Visit)
    → 0 < account_id
    → account_id < 2 ^ 63
    → IsSort order
    → 0 < limit
    → limit ≤ 100
    → ((token : Bytes) → Binds (context token) (keyset_form account_id status order limit token))
    → IsTable table
    → All (λ u. Serves u.database table) (v ∷ vs)
    → IsTimely ttl (v ∷ vs)
    → let q = (walker_of key ttl account_id status order limit).query in
      length (listing q table) ≤ length (v ∷ vs) * limit
      → http_walk key ttl context (v ∷ vs) [] ≡ ok (some (documented_rows (listing q table)))
http_walk-query_text key ttl a status order n table context v vs some_account fits known some_limit
      capped b t serves timely enough =
    http_walk-listing (walker_of key ttl a status order n) table context v vs some_limit
      (omega arith)
      (keyset_form-IsRequest key ttl a status order n some_account fits known some_limit capped
        context b)
      t serves timely enough

-- `?account_id=…&page=…&size=…`
abbrev pub offset_form : ℕ → ℕ → ℕ → Bytes → Option Bytes
offset_form account_id page size name =
    if text_eq name (codes "account_id")
    then some (format_int (pos account_id))
    else if text_eq name (codes "page")
    then some (format_int (pos page))
    else if text_eq name (codes "size")
    then some (format_int (pos size))
    else none

offset_form-bound :
    (account_id page size : ℕ) (context : Context)
    → Binds context (offset_form account_id page size)
    → 0 < account_id
    → account_id < 2 ^ 63
    → 0 < page
    → page < 2 ^ 63
    → size < 2 ^ 63
    → context.should_bind_query OffsetListRequest offset_fields empty_offset_request
      ≡ ok (record { account_id = pos account_id; page = pos page; size = pos size })
unfolding text_eq
offset_form-bound a p n context b ha la hp lp ln =
    rw
      (
        b.binds OffsetListRequest offset_fields empty_offset_request,
        account_id_param-format_int a (pos 0) ha la,
        page_number_param-format_int p (pos 0) hp lp,
        page_size_param-format_int n (pos 0) ln,
      )
      refl

-- A client that asks for page p + 1 of the transactions of an account with a positive bigint id, by
-- at most 100 rows a page and a positive number n of them, is answered with the rows of the
-- descending listing from rank p * n on, with the page and the size that it asked for, and with
-- whether a row follows them, over a database that answers from a table, as long as the page and
-- the rank fit an int.
pub list_by_offset-query_text :
    (key : Bytes) (ttl : Duration) (clock : Readings) (db : Database) (table : List Transaction)
    (account_id p n : ℕ) (context : Context)
    → Serves db table
    → Binds context (offset_form account_id (suc p) n)
    → 0 < account_id
    → account_id < 2 ^ 63
    → suc p < 2 ^ 63
    → 0 < n
    → n ≤ 100
    → p * n < 2 ^ 63
    → let rest = drop (p * n) (listing (offset_query (pos account_id)) table) in
      list_by_offset (application db key ttl clock) context
      ≡ ok (record {
        status = 200;
        body = offset_list (record {
          data_rows = documented_rows (take n rest);
          page = record { page = pos (suc p); size = pos n; has_more = ltb n (length rest) };
        });
        logged = [];
      })
unfolding list_by_offset
list_by_offset-query_text key ttl clock db table a p n context v b ha la hp hn capped rank =
    rw
      (
        offset_form-bound a (suc p) n context b ha la (omega arith) hp (omega arith),
        page_number_value_positive (suc p) (omega arith),
        page_size_value_within n hn capped,
        list_by_offset-listing db table v key ttl (pos a) p n hp (omega arith) rank,
      )
      refl
