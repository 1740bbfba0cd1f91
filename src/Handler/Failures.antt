-- ===== src/Handler/Failures.antt =====
-- How an error is answered: the table of spec/contract.md, and what a response never tells.
use concevoir_une_api_pagine.Prelude.{ℕ, List, [], ◌∷◌, Bytes, codes, false, ◌==◌, ◌≡◌, refl, pos}
use concevoir_une_api_pagine.Errors.{
  Sentinel, Error, sentinel, wrapped, is_error, error_text, invalid_cursor, cursor_expired,
  filter_mismatch, invalid_limit, invalid_page, invalid_sort, invalid_account_id,
}
use concevoir_une_api_pagine.Errors.Outcomes.{IsForeign}
use concevoir_une_api_pagine.Logger.{level_warn, level_error, error_value, number_value, text_value}
use concevoir_une_api_pagine.Handler.Replies.{Outcome, error_body, status_for, respond_error}

-- The statuses and codes that spec/contract.md lists.
abbrev pub contract_status : Sentinel → ℕ
contract_status cursor_expired = 410
contract_status _ = 400

abbrev pub contract_code : Sentinel → Bytes
contract_code invalid_limit = codes "invalid_limit"
contract_code invalid_page = codes "invalid_page"
contract_code invalid_sort = codes "invalid_sort"
contract_code invalid_account_id = codes "invalid_account_id"
contract_code invalid_cursor = codes "invalid_cursor"
contract_code filter_mismatch = codes "cursor_filter_mismatch"
contract_code cursor_expired = codes "cursor_expired"

-- The answer to an error of the contract: its status, its code beside its own text, and one warning.
abbrev pub IsWarned : Error → ℕ → Bytes → Outcome → Type 0
IsWarned e status code o =
    (o.status ≡ status)
    × (o.body ≡ error_body (record { code = code; message = error_text e }))
    × (o.logged
        ≡ record {
          level = level_warn;
          message = codes "request rejected";
          attributes =
              (codes "status", number_value (pos status))
              ∷ (codes "code", text_value code)
              ∷ (codes "error", error_value e)
              ∷ [];
        }
          ∷ [])

-- The answer to any other error: the body of every one of them is the same, and the log has the
-- error.
abbrev pub IsInternal : Error → Outcome → Type 0
IsInternal e o =
    (o.status ≡ 500)
    × (o.body
        ≡ error_body
            (record { code = codes "internal_error"; message = codes "internal server error" }))
    × (o.logged
        ≡ record {
          level = level_error;
          message = codes "request failed";
          attributes = (codes "error", error_value e) ∷ [];
        }
          ∷ [])

-- An error wrapped once for each text, the last text innermost.
abbrev pub wrapped_in : List Bytes → Error → Error
wrapped_in [] e = e
wrapped_in (t ∷ ts) e = wrapped t (wrapped_in ts e)

status_for-wrapped : (t : Bytes) (e : Error) → status_for (wrapped t e) ≡ status_for e
unfolding status_for is_error
status_for-wrapped t e = refl

status_for-sentinel :
    (s : Sentinel) → status_for (sentinel s) ≡ (contract_status s, contract_code s)
unfolding status_for is_error
status_for-sentinel invalid_cursor = refl
status_for-sentinel cursor_expired = refl
status_for-sentinel filter_mismatch = refl
status_for-sentinel invalid_limit = refl
status_for-sentinel invalid_page = refl
status_for-sentinel invalid_sort = refl
status_for-sentinel invalid_account_id = refl

pub status_for-wrapped_in :
    (ts : List Bytes) (s : Sentinel)
    → status_for (wrapped_in ts (sentinel s)) ≡ (contract_status s, contract_code s)
status_for-wrapped_in [] s = status_for-sentinel s
status_for-wrapped_in (t ∷ ts) s =
    rw (status_for-wrapped t (wrapped_in ts (sentinel s))) (status_for-wrapped_in ts s)

not_internal : (s : Sentinel) → (contract_status s == 500) ≡ false
not_internal invalid_cursor = refl
not_internal cursor_expired = refl
not_internal filter_mismatch = refl
not_internal invalid_limit = refl
not_internal invalid_page = refl
not_internal invalid_sort = refl
not_internal invalid_account_id = refl

-- However often it is wrapped, an error that the contract names is answered with the status and the
-- code of the contract's table, beside the whole text of the error, and is logged in one record, a
-- warning with the status, the code and the error.
pub respond_error-wrapped_in :
    (ts : List Bytes) (s : Sentinel)
    → let e = wrapped_in ts (sentinel s) in
      IsWarned e (contract_status s) (contract_code s) (respond_error e)
unfolding respond_error
respond_error-wrapped_in ts s = rw (status_for-wrapped_in ts s, not_internal s) (refl, refl, refl)

-- An error with none of the program's own in its chain is answered with status 500, the code
-- internal_error and the text "internal server error", and the whole of it is logged in one record,
-- as an error.
pub respond_error-foreign : (e : Error) → IsForeign e → IsInternal e (respond_error e)
unfolding respond_error status_for
respond_error-foreign e h =
    rw
      (
        h cursor_expired,
        h filter_mismatch,
        h invalid_cursor,
        h invalid_limit,
        h invalid_page,
        h invalid_sort,
        h invalid_account_id,
      )
      (refl, refl, refl)
