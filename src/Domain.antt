-- ===== src/Domain.antt =====
-- The entities and the vocabulary of go/internal/domain: transaction.go and limits.go.
use concevoir_une_api_pagine.Prelude.{
  List, [], Bool, not, Bytes, codes, text_eq, if◌then◌else◌, ℤ, pos, ltb_ℤ, eqb_ℤ,
}
use concevoir_une_api_pagine.Errors.{Result, ok, err, sentinel, invalid_sort}
use concevoir_une_api_pagine.Go.Time.{Time}

pub record Transaction : Type 0 where
  pub id : ℤ
  pub account_id : ℤ
  pub amount_cents : ℤ
  pub label : Bytes
  pub created_at : Time

-- `type Sort string`: its two constants, and the conversions of any other text.
abbrev pub Sort : Type 0
Sort = Bytes

abbrev pub sort_created_at_desc : Sort
sort_created_at_desc = codes "created_at:desc"

abbrev pub sort_created_at_asc : Sort
sort_created_at_asc = codes "created_at:asc"

unfoldable pub parse_sort : Bytes → Result Sort
parse_sort raw =
    if text_eq raw []
    then ok sort_created_at_desc
    else if text_eq raw sort_created_at_desc
    then ok sort_created_at_desc
    else if text_eq raw sort_created_at_asc
    then ok sort_created_at_asc
    else err (sentinel invalid_sort)

-- `Sort.Descending`
unfoldable pub is_descending : Sort → Bool
is_descending s = not (text_eq s sort_created_at_asc)

pub record ListQuery : Type 0 where
  pub account_id : ℤ
  pub status : Bytes
  pub sort : Sort

pub record ListParams : Type 0 where
  pub query : ListQuery
  pub limit : ℤ
  pub cursor : Bytes

pub record OffsetParams : Type 0 where
  pub account_id : ℤ
  pub page : ℤ
  pub size : ℤ

pub record Bound : Type 0 where
  pub created_at : Time
  pub id : ℤ

pub record KeysetPage : Type 0 where
  pub transactions : List Transaction
  pub next : Bytes
  pub has_more : Bool

pub record OffsetPage : Type 0 where
  pub transactions : List Transaction
  pub page : ℤ
  pub size : ℤ
  pub has_more : Bool

abbrev pub default_limit : ℤ
default_limit = pos 20

abbrev pub max_limit : ℤ
max_limit = pos 100

unfoldable pub cap_limit : ℤ → ℤ → ℤ → ℤ
cap_limit requested fallback max_allowed =
    if eqb_ℤ requested (pos 0)
    then fallback
    else if ltb_ℤ max_allowed requested
    then max_allowed
    else requested
