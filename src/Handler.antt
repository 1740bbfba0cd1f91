-- ===== src/Handler.antt =====
-- The handlers of go/internal/handler/http_transaction.go and the health check of http.go.
pub mod Requests
pub mod Replies
pub mod Binding
pub mod Bounds
pub mod Failures
pub mod Answers
pub mod Client
pub mod Walk
pub mod Serving
pub mod Routing
pub mod Served
pub mod Printed
pub mod QueryText
pub mod Journey
use concevoir_une_api_pagine.Prelude.{
  List, [], ◌∷◌, Bool, Bytes, codes, text_eq, if◌then◌else◌, map, ℤ, Option, none, some,
}
use concevoir_une_api_pagine.Errors.{Error, Result, ok, err, panicked, ◌>>=◌}
use concevoir_une_api_pagine.Go.Strconv.{format_int}
use concevoir_une_api_pagine.Go.Time.{format_rfc3339_nano}
use concevoir_une_api_pagine.Domain.{Transaction, ListParams, OffsetParams, KeysetPage, OffsetPage}
use concevoir_une_api_pagine.Logger.{level_error, error_value}
use Requests.{
  Context, KeysetListRequest, OffsetListRequest, TotalRequest, keyset_fields, offset_fields,
  total_fields, empty_keyset_request, empty_offset_request, empty_total_request, keyset_params,
  offset_params,
}
use Replies.{
  Outcome, TransactionResponse, keyset_list, offset_list, count_estimate, health_status,
  respond_error,
}

-- The interface `transactionService`.
pub record TransactionService : Type 0 where
  pub list : ListParams → Result KeysetPage
  pub list_by_offset : OffsetParams → Result OffsetPage
  pub total : Bool → Result ℤ

abbrev pub transaction_response : Transaction → TransactionResponse
transaction_response t = record {
  id = format_int t.id;
  account_id = t.account_id;
  amount_cents = t.amount_cents;
  label = t.label;
  created_at = format_rfc3339_nano t.created_at;
}

abbrev pub transactions_response : List Transaction → List TransactionResponse
transactions_response transactions = map transaction_response transactions

abbrev pub nullable : Bytes → Option Bytes
nullable s = if text_eq s [] then none else some s

-- An early return through `respondError`; a panic goes on to `gin.Recovery`.
abbrev pub settle : Result Outcome → Result Outcome
settle (ok outcome) = ok outcome
settle (err e) = ok (respond_error e)
settle panicked = panicked

abbrev pub keyset_reply : KeysetPage → Outcome
keyset_reply page = record {
  status = 200;
  body = keyset_list (record {
    data_rows = transactions_response page.transactions;
    page = record { next = nullable page.next; has_more = page.has_more };
  });
  logged = [];
}

-- `GET /v1/transactions`
unfoldable pub list : TransactionService → Context → Result Outcome
list service c = settle (do
  request ← c.should_bind_query KeysetListRequest keyset_fields empty_keyset_request
  page ← service.list (keyset_params request)
  ok (keyset_reply page))

-- `GET /v1/transactions/offset`
unfoldable pub list_by_offset : TransactionService → Context → Result Outcome
list_by_offset service c = settle (do
  request ← c.should_bind_query OffsetListRequest offset_fields empty_offset_request
  page ← service.list_by_offset (offset_params request)
  ok (record {
    status = 200;
    body = offset_list (record {
      data_rows = transactions_response page.transactions;
      page = record { page = page.page; size = page.size; has_more = page.has_more };
    });
    logged = [];
  }))

-- `GET /v1/transactions/total`
unfoldable pub total : TransactionService → Context → Result Outcome
total service c = settle (do
  request ← c.should_bind_query TotalRequest total_fields empty_total_request
  estimate ← service.total request.exact
  ok (record {
    status = 200;
    body = count_estimate (record { estimate = estimate; exact = request.exact });
    logged = [];
  }))

-- `GET /healthz`, with what `Ping` returns.
abbrev pub health : Option Error → Outcome
health none = record { status = 200; body = health_status (codes "ok"); logged = [] }
health (some e) = record {
  status = 503;
  body = health_status (codes "unavailable");
  logged =
      record {
        level = level_error;
        message = codes "health check failed";
        attributes = (codes "error", error_value e) ∷ [];
      }
      ∷ [];
}

-- `ginMode`
unfoldable pub gin_mode : Bytes → Bytes
gin_mode mode =
    if text_eq mode (codes "release")
    then mode
    else if text_eq mode (codes "test")
    then mode
    else if text_eq mode (codes "debug")
    then mode
    else codes "release"
