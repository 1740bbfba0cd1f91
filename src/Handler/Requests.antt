-- ===== src/Handler/Requests.antt =====
-- The request structs of go/internal/handler/requests.go: each parameter is a type that validates
-- itself, and each endpoint binds its query string into one struct.
use concevoir_une_api_pagine.Prelude.{
  List, [], ◌∷◌, Bool, false, Bytes, codes, text_eq, if◌then◌else◌, ℤ, pos, ltb_ℤ, eqb_ℤ, Option,
  none, some,
}
use concevoir_une_api_pagine.Errors.{
  Sentinel, Result, ok, err, ◌>>=◌, sentinel, invalid_account_id, invalid_limit, invalid_page,
}
use concevoir_une_api_pagine.Go.Strconv.{parse_int}
use concevoir_une_api_pagine.Domain.{
  Sort, parse_sort, sort_created_at_desc, ListParams, OffsetParams, cap_limit, default_limit,
  max_limit,
}

-- A field of a request struct: its `form` tag, and what its type makes of the raw text.
pub record Field (S : Type 0) : Type 0 where
  pub tag : Bytes
  pub assign : Bytes → S → Result S

-- `gin.Context`, as far as a handler asks it for its query string: the struct's fields, and the
-- struct before, give the struct after.
pub record Context : Type 1 where
  pub should_bind_query : (S : Type 0) → List (Field S) → S → Result S

-- A number, unless it is below a bound.
abbrev pub at_least : ℤ → Option ℤ → Sentinel → Result ℤ
at_least bound none s = err (sentinel s)
at_least bound (some n) s = if ltb_ℤ n bound then err (sentinel s) else ok n

-- The five methods `UnmarshalParam`; the second argument is what the receiver holds before.
unfoldable pub account_id_param : Bytes → ℤ → Result ℤ
account_id_param raw old =
    if text_eq raw [] then ok old else at_least (pos 1) (parse_int raw) invalid_account_id

unfoldable pub page_size_param : Bytes → ℤ → Result ℤ
page_size_param raw old =
    if text_eq raw [] then ok old else at_least (pos 0) (parse_int raw) invalid_limit

unfoldable pub page_number_param : Bytes → ℤ → Result ℤ
page_number_param raw old =
    if text_eq raw [] then ok old else at_least (pos 1) (parse_int raw) invalid_page

unfoldable pub sort_order_param : Bytes → Bytes → Result Bytes
sort_order_param raw old = parse_sort raw

unfoldable pub exact_flag_param : Bytes → Bool → Result Bool
exact_flag_param raw old = ok (text_eq raw (codes "true"))

-- The methods `value` that do more than a conversion.
unfoldable pub page_size_value : ℤ → ℤ
page_size_value s = cap_limit s default_limit max_limit

unfoldable pub page_number_value : ℤ → ℤ
page_number_value n = if eqb_ℤ n (pos 0) then pos 1 else n

unfoldable pub sort_order_value : Bytes → Sort
sort_order_value o = if text_eq o [] then sort_created_at_desc else o

pub record KeysetListRequest : Type 0 where
  pub account_id : ℤ
  pub status : Bytes
  pub sort : Bytes
  pub limit : ℤ
  pub cursor : Bytes

pub record OffsetListRequest : Type 0 where
  pub account_id : ℤ
  pub page : ℤ
  pub size : ℤ

pub record TotalRequest : Type 0 where
  pub exact : Bool

abbrev pub empty_keyset_request : KeysetListRequest
empty_keyset_request = record {
  account_id = pos 0;
  status = [];
  sort = [];
  limit = pos 0;
  cursor = [];
}

abbrev pub empty_offset_request : OffsetListRequest
empty_offset_request = record { account_id = pos 0; page = pos 0; size = pos 0 }

abbrev pub empty_total_request : TotalRequest
empty_total_request = record { exact = false }

-- The fields with their tags, in the order of the struct.
abbrev pub keyset_fields : List (Field KeysetListRequest)
keyset_fields =
    record {
      tag = codes "account_id";
      assign =
          λ raw r. (do x ← account_id_param raw r.account_id; ok (record r { account_id = x }));
    }
    ∷ record { tag = codes "status"; assign = λ raw r. ok (record r { status = raw }) }
    ∷ record {
      tag = codes "sort";
      assign = λ raw r. (do x ← sort_order_param raw r.sort; ok (record r { sort = x }));
    }
    ∷ record {
      tag = codes "limit";
      assign = λ raw r. (do x ← page_size_param raw r.limit; ok (record r { limit = x }));
    }
    ∷ record { tag = codes "cursor"; assign = λ raw r. ok (record r { cursor = raw }) }
    ∷ []

abbrev pub offset_fields : List (Field OffsetListRequest)
offset_fields =
    record {
      tag = codes "account_id";
      assign =
          λ raw r. (do x ← account_id_param raw r.account_id; ok (record r { account_id = x }));
    }
    ∷ record {
      tag = codes "page";
      assign = λ raw r. (do x ← page_number_param raw r.page; ok (record r { page = x }));
    }
    ∷ record {
      tag = codes "size";
      assign = λ raw r. (do x ← page_size_param raw r.size; ok (record r { size = x }));
    }
    ∷ []

abbrev pub total_fields : List (Field TotalRequest)
total_fields =
    record {
      tag = codes "exact";
      assign = λ raw r. (do x ← exact_flag_param raw r.exact; ok (record { exact = x }));
    }
    ∷ []

abbrev pub keyset_params : KeysetListRequest → ListParams
keyset_params r = record {
  query = record { account_id = r.account_id; status = r.status; sort = sort_order_value r.sort };
  limit = page_size_value r.limit;
  cursor = r.cursor;
}

abbrev pub offset_params : OffsetListRequest → OffsetParams
offset_params r = record {
  account_id = r.account_id;
  page = page_number_value r.page;
  size = page_size_value r.size;
}
