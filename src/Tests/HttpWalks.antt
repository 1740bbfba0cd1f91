-- ===== src/Tests/HttpWalks.antt =====
-- The theorem on walks over HTTP at a small table.
use concevoir_une_api_pagine.Prelude.{
  [], ◌∷◌, Option, none, some, Bytes, codes, text_eq, if◌then◌else◌, refl, ◌≡◌, pos, arith, sort,
  insert_sorted, take, drop, length, ltb,
}
use concevoir_une_api_pagine.Errors.{ok}
use concevoir_une_api_pagine.Go.Strconv.{parse_int}
use concevoir_une_api_pagine.Domain.{cap_limit}
use concevoir_une_api_pagine.Postgres.Order.{shown_before, is_newest_first}
use concevoir_une_api_pagine.Postgres.Listing.{listing, offset_query, belongs}
use concevoir_une_api_pagine.Postgres.Snapshot.{snapshot, snapshot-Serves}
use concevoir_une_api_pagine.Handler.{list_by_offset}
use concevoir_une_api_pagine.Handler.Requests.{
  Context, account_id_param, page_size_param, sort_order_value, page_size_value,
}
use concevoir_une_api_pagine.Handler.Binding.{context_of, context_of-Binds}
use concevoir_une_api_pagine.Handler.Answers.{application}
use concevoir_une_api_pagine.Handler.Replies.{offset_list}
use concevoir_une_api_pagine.Handler.QueryText.{offset_form, list_by_offset-query_text}
use concevoir_une_api_pagine.Handler.Client.{documented_rows, http_walk}
use concevoir_une_api_pagine.Handler.Walk.{IsRequest, http_walk-listing}
use concevoir_une_api_pagine.Tests.Data.{
  three_rows, three_rows-IsTable, tenant_query, test_key, three_days, walker, visit_at, two_visits,
  two_visits-IsTimely,
}

-- `?account_id=42&limit=2&cursor=…`
abbrev walk_form : Bytes → Bytes → Option Bytes
walk_form token name =
    if text_eq name (codes "account_id")
    then some (codes "42")
    else if text_eq name (codes "limit")
    then some (codes "2")
    else if text_eq name (codes "cursor")
    then some token
    else none

abbrev walk_context : Bytes → Context
walk_context token = context_of (walk_form token)

walk_context-IsRequest : IsRequest walker walk_context
unfolding account_id_param page_size_param text_eq parse_int sort_order_value page_size_value
    cap_limit
walk_context-IsRequest = record {
  request = record { account_id = pos 42; status = []; sort = []; limit = pos 2; cursor = [] };
  binds = λ token. refl;
  same_query = refl;
  same_limit = refl;
}

http_walk-listing_example :
    http_walk test_key three_days walk_context two_visits []
    ≡ ok (some (documented_rows (listing tenant_query three_rows)))
http_walk-listing_example =
    http_walk-listing walker three_rows walk_context (visit_at three_rows 0)
      (visit_at three_rows 60 ∷ []) (omega arith) (omega arith) walk_context-IsRequest
      three_rows-IsTable (snapshot-Serves three_rows, (snapshot-Serves three_rows, tt))
      two_visits-IsTimely
      (unfold listing sort insert_sorted shown_before is_newest_first text_eq belongs in
        (omega arith))

list_by_offset-query_text_example :
    list_by_offset
      (application (snapshot three_rows) test_key three_days (visit_at three_rows 0).clock)
      (context_of (offset_form 42 2 2))
    ≡ ok (record {
      status = 200;
      body = offset_list (record {
        data_rows = documented_rows (take 2 (drop 2 (listing (offset_query (pos 42)) three_rows)));
        page = record {
          page = pos 2;
          size = pos 2;
          has_more = ltb 2 (length (drop 2 (listing (offset_query (pos 42)) three_rows)));
        };
      });
      logged = [];
    })
list_by_offset-query_text_example =
    list_by_offset-query_text test_key three_days (visit_at three_rows 0).clock
      (snapshot three_rows) three_rows 42 1 2 (context_of (offset_form 42 2 2))
      (snapshot-Serves three_rows) (context_of-Binds (offset_form 42 2 2)) (omega arith)
      (omega arith) (omega arith) (omega arith) (omega arith) (omega arith)
