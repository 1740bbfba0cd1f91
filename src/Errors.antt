-- ===== src/Errors.antt =====
-- Go's `error` values: the sentinels of pkg/cursor/cursor.go and internal/domain/errors.go, the
-- errors of other code, and what `fmt.Errorf` wraps with `%w`; and what a call returns or does.
pub mod Outcomes
use Prim.Native.String.{String}
use concevoir_une_api_pagine.Prelude.{◌++◌, Bool, true, false, Bytes, codes, Option, none, some}

pub data Sentinel : Type 0 where
  invalid_cursor cursor_expired filter_mismatch : Sentinel
  invalid_limit invalid_page invalid_sort invalid_account_id : Sentinel

pub data Error : Type 0 where
  sentinel : Sentinel → Error
  other : Bytes → Error
  wrapped : Bytes → Error → Error

-- The text of a sentinel, as `errors.New` is given it.
unfoldable pub sentinel_text : Sentinel → Bytes
sentinel_text invalid_cursor = codes "invalid cursor"
sentinel_text cursor_expired = codes "cursor expired"
sentinel_text filter_mismatch = codes "cursor filters do not match the request"
sentinel_text invalid_limit = codes "limit must be a non-negative integer"
sentinel_text invalid_page = codes "page must be an integer greater than or equal to 1"
sentinel_text invalid_sort = codes "sort must be created_at:desc or created_at:asc"
sentinel_text invalid_account_id = codes "account_id must be a positive integer"

-- `err.Error()`
unfoldable pub error_text : Error → Bytes
unfolding sentinel_text
error_text (sentinel s) = sentinel_text s
error_text (other t) = t
error_text (wrapped t e) = t ++ codes ": " ++ error_text e

abbrev pub same_sentinel : Sentinel → Sentinel → Bool
same_sentinel invalid_cursor invalid_cursor = true
same_sentinel cursor_expired cursor_expired = true
same_sentinel filter_mismatch filter_mismatch = true
same_sentinel invalid_limit invalid_limit = true
same_sentinel invalid_page invalid_page = true
same_sentinel invalid_sort invalid_sort = true
same_sentinel invalid_account_id invalid_account_id = true
same_sentinel _ _ = false

-- `errors.Is`: the sentinel stands somewhere in the chain of wrapped errors.
unfoldable pub is_error : Error → Sentinel → Bool
is_error (sentinel t) s = same_sentinel t s
is_error (other _) s = false
is_error (wrapped _ e) s = is_error e s

-- `panicked` is a run-time panic, such as an index out of range.
pub data Result {ℓ} (A : Type ℓ) : Type ℓ where
  ok : A → Result A
  err : Error → Result A
  panicked : Result A

infixl 5 ◌>>=◌ ◌>>◌
abbrev pub ◌>>=◌ {ℓ κ} : {A : Type ℓ} {B : Type κ} → Result A → (A → Result B) → Result B
ok a >>= k = k a
err e >>= k = err e
panicked >>= k = panicked

abbrev pub ◌>>◌ {ℓ} : {B : Type ℓ} → Result (Unit {0}) → Result B → Result B
m >> k = m >>= λ _. k

-- An early `return err` unless the test holds.
abbrev pub ensure : Bool → Sentinel → Result (Unit {0})
ensure true s = ok tt
ensure false s = err (sentinel s)

-- The value, or a sentinel where there is none.
abbrev pub or_error {ℓ} : {A : Type ℓ} → Option A → Sentinel → Result A
or_error none s = err (sentinel s)
or_error (some a) s = ok a

-- `fmt.Errorf("text: %w", err)` where a call has failed.
abbrev pub wrap {ℓ} : {A : Type ℓ} → Result A → String → Result A
wrap (ok a) text = ok a
wrap (err e) text = err (wrapped (codes text) e)
wrap panicked text = panicked
