-- ===== src/Handler/Replies.antt =====
-- What a handler answers and logs: the envelope and the mapping of go/internal/handler/errors.go.
use concevoir_une_api_pagine.Prelude.{
  ℕ, List, [], ◌∷◌, Bool, Bytes, codes, if◌then◌else◌, ◌==◌, ℤ, pos, Option,
}
use concevoir_une_api_pagine.Errors.{
  Error, error_text, is_error, invalid_cursor, cursor_expired, filter_mismatch, invalid_limit,
  invalid_page, invalid_sort, invalid_account_id,
}
use concevoir_une_api_pagine.Logger.{
  LogRecord, level_warn, level_error, error_value, number_value, text_value,
}

pub record ErrorBody : Type 0 where
  pub code : Bytes
  pub message : Bytes

pub record TransactionResponse : Type 0 where
  pub id : Bytes
  pub account_id : ℤ
  pub amount_cents : ℤ
  pub label : Bytes
  pub created_at : Bytes

-- `Next` is a pointer: nil is `none`, which is written as `null`.
pub record KeysetPageResponse : Type 0 where
  pub next : Option Bytes
  pub has_more : Bool

pub record KeysetListResponse : Type 0 where
  pub data_rows : List TransactionResponse
  pub page : KeysetPageResponse

pub record OffsetPageResponse : Type 0 where
  pub page : ℤ
  pub size : ℤ
  pub has_more : Bool

pub record OffsetListResponse : Type 0 where
  pub data_rows : List TransactionResponse
  pub page : OffsetPageResponse

pub record CountEstimateResponse : Type 0 where
  pub estimate : ℤ
  pub exact : Bool

-- The value that a handler hands to `c.JSON`.
pub data Body : Type 0 where
  error_body : ErrorBody → Body
  keyset_list : KeysetListResponse → Body
  offset_list : OffsetListResponse → Body
  count_estimate : CountEstimateResponse → Body
  health_status : Bytes → Body

-- The response of a handler, and the records it logs.
pub record Outcome : Type 0 where
  pub status : ℕ
  pub body : Body
  pub logged : List LogRecord

unfoldable pub status_for : Error → ℕ × Bytes
status_for e =
    if is_error e cursor_expired
    then (410, codes "cursor_expired")
    else if is_error e filter_mismatch
    then (400, codes "cursor_filter_mismatch")
    else if is_error e invalid_cursor
    then (400, codes "invalid_cursor")
    else if is_error e invalid_limit
    then (400, codes "invalid_limit")
    else if is_error e invalid_page
    then (400, codes "invalid_page")
    else if is_error e invalid_sort
    then (400, codes "invalid_sort")
    else if is_error e invalid_account_id
    then (400, codes "invalid_account_id")
    else (500, codes "internal_error")

-- A bare 500, with the whole chain in the log.
abbrev pub failed : Error → ℕ → Bytes → Outcome
failed e status code = record {
  status = status;
  body = error_body (record { code = code; message = codes "internal server error" });
  logged =
      record {
        level = level_error;
        message = codes "request failed";
        attributes = (codes "error", error_value e) ∷ [];
      }
      ∷ [];
}

abbrev pub rejected : Error → ℕ → Bytes → Outcome
rejected e status code = record {
  status = status;
  body = error_body (record { code = code; message = error_text e });
  logged =
      record {
        level = level_warn;
        message = codes "request rejected";
        attributes =
            (codes "status", number_value (pos status))
            ∷ (codes "code", text_value code)
            ∷ (codes "error", error_value e)
            ∷ [];
      }
      ∷ [];
}

unfoldable pub respond_error : Error → Outcome
respond_error e =
    let (status, code) = status_for e in
    if status == 500 then failed e status code else rejected e status code
