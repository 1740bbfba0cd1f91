-- ===== src/Handler/Bounds.antt =====
-- The parameters that reach the service, whatever the query string.
use concevoir_une_api_pagine.Prelude.{
  ℕ, ◌≤◌, [], true, Bytes, text_eq, if◌then◌else◌, ℤ, pos, negsuc, ltb_ℤ, eqb_ℤ, Option, none, some,
  Bool-cases, ◌≡◌, refl, ◌⊎◌, inl, inr, arith,
}
use concevoir_une_api_pagine.Errors.{
  Error, Sentinel, ok, sentinel, invalid_sort, invalid_account_id, invalid_limit, invalid_page,
}
use concevoir_une_api_pagine.Errors.Outcomes.{Holds, Holds->>=, Holds-map}
use concevoir_une_api_pagine.Domain.{
  ListParams, OffsetParams, sort_created_at_desc, sort_created_at_asc, cap_limit, parse_sort,
}
use concevoir_une_api_pagine.Go.Strconv.{parse_int}
use concevoir_une_api_pagine.Handler.Requests.{
  Context, KeysetListRequest, OffsetListRequest, keyset_fields, offset_fields, empty_keyset_request,
  empty_offset_request, keyset_params, offset_params, at_least, account_id_param, page_size_param,
  page_number_param, sort_order_param, page_size_value, page_number_value, sort_order_value,
}
use concevoir_une_api_pagine.Handler.Failures.{contract_status}
use concevoir_une_api_pagine.Handler.Binding.{Binds, bind_fields-Holds}

-- A number from `low` on.
abbrev pub IsFrom : ℕ → ℤ → Type 0
IsFrom low z = (n : ℕ) × (z ≡ pos n) × (low ≤ n)

-- A page of 1 to 100 rows.
abbrev pub IsPageSize : ℤ → Type 0
IsPageSize z = (n : ℕ) × (z ≡ pos n) × (1 ≤ n) × (n ≤ 100)

-- One of the two orders.
abbrev pub IsSort : Bytes → Type 0
IsSort s = (s ≡ sort_created_at_desc) ⊎ (s ≡ sort_created_at_asc)

abbrev pub IsListParams : ListParams → Type 0
IsListParams p = IsFrom 0 p.query.account_id × IsSort p.query.sort × IsPageSize p.limit

abbrev pub IsOffsetParams : OffsetParams → Type 0
IsOffsetParams p = IsFrom 0 p.account_id × IsFrom 1 p.page × IsPageSize p.size

-- An error that the contract answers with status 400.
abbrev pub IsBadRequest : Error → Type 0
IsBadRequest e = (s : Sentinel) × (e ≡ sentinel s) × (contract_status s ≡ 400)

at_least-Holds :
    (low : ℕ) (o : Option ℤ) (s : Sentinel) (Q : Error → Type 0)
    → Q (sentinel s)
    → Holds (IsFrom low) Q (at_least (pos low) o s)
at_least-Holds low none s Q h = h
at_least-Holds low (some (pos n)) s Q h = elim (Bool-cases (ltb_ℤ (pos n) (pos low))) [
  | inl less ↦ rw less h
  | inr enough ↦ rw enough (n, refl, ground arith)
]
at_least-Holds low (some (negsuc n)) s Q h =
    let less : ltb_ℤ (negsuc n) (pos low) ≡ true = ground arith in rw less h

number_param-Holds :
    (low : ℕ) (raw : Bytes) (old : ℤ) (s : Sentinel) (P : ℤ → Type 0) (Q : Error → Type 0)
    → P old
    → ((z : ℤ) → IsFrom low z → P z)
    → Q (sentinel s)
    → Holds P Q (if text_eq raw [] then ok old else at_least (pos low) (parse_int raw) s)
number_param-Holds low raw old s P Q p f q = elim (Bool-cases (text_eq raw [])) [
  | inl absent ↦ rw absent p
  | inr present ↦ rw present (
      Holds-map (IsFrom low) Q P Q (at_least (pos low) (parse_int raw) s) f (λ _ e. e)
        (at_least-Holds low (parse_int raw) s Q q))
]

page_size_value-IsPageSize : (z : ℤ) → IsFrom 0 z → IsPageSize (page_size_value z)
unfolding page_size_value cap_limit
page_size_value-IsPageSize z (n, e, h) = elim (Bool-cases (eqb_ℤ (pos n) (pos 0))) [
  | inl none_given ↦ rw (e, none_given) (20, refl, omega arith, omega arith)
  | inr given ↦ elim (Bool-cases (ltb_ℤ (pos 100) (pos n))) [
    | inl many ↦ rw (e, given, many) (100, refl, omega arith, omega arith)
    | inr few ↦ rw (e, given, few) (n, refl, ground arith, ground arith)
  ]
]

page_number_value-IsFrom : (z : ℤ) → IsFrom 0 z → IsFrom 1 (page_number_value z)
unfolding page_number_value
page_number_value-IsFrom z (n, e, h) = elim (Bool-cases (eqb_ℤ (pos n) (pos 0))) [
  | inl none_given ↦ rw (e, none_given) (1, refl, omega arith)
  | inr given ↦ rw (e, given) (n, refl, ground arith)
]

-- What the field holds before its value is taken: nothing, or one of the two orders.
abbrev IsSortField : Bytes → Type 0
IsSortField s = (s ≡ []) ⊎ IsSort s

sort_order_param-Holds :
    (raw old : Bytes) → Holds IsSortField IsBadRequest (sort_order_param raw old)
unfolding sort_order_param parse_sort
sort_order_param-Holds raw old = elim (Bool-cases (text_eq raw [])) [
  | inl absent ↦ rw absent (inr (inl refl))
  | inr present ↦ elim (Bool-cases (text_eq raw sort_created_at_desc)) [
    | inl desc ↦ rw (present, desc) (inr (inl refl))
    | inr other ↦ elim (Bool-cases (text_eq raw sort_created_at_asc)) [
      | inl asc ↦ rw (present, other, asc) (inr (inr refl))
      | inr neither ↦ rw (present, other, neither) (invalid_sort, refl, refl)
    ]
  ]
]

sort_order_value-IsSort : (s : Bytes) → IsSortField s → IsSort (sort_order_value s)
unfolding sort_order_value text_eq
sort_order_value-IsSort s (inl e) = rw e (inl refl)
sort_order_value-IsSort s (inr (inl e)) = rw e (inl refl)
sort_order_value-IsSort s (inr (inr e)) = rw e (inr refl)

wider : (z : ℤ) → IsFrom 1 z → IsFrom 0 z
wider z (n, e, h) = (n, e, omega arith)

account_id_param-Holds :
    (raw : Bytes) (old : ℤ)
    → IsFrom 0 old
    → Holds (IsFrom 0) IsBadRequest (account_id_param raw old)
unfolding account_id_param
account_id_param-Holds raw old h =
    number_param-Holds 1 raw old invalid_account_id (IsFrom 0) IsBadRequest h wider
      (invalid_account_id, refl, refl)

page_size_param-Holds :
    (raw : Bytes) (old : ℤ) → IsFrom 0 old → Holds (IsFrom 0) IsBadRequest (page_size_param raw old)
unfolding page_size_param
page_size_param-Holds raw old h =
    number_param-Holds 0 raw old invalid_limit (IsFrom 0) IsBadRequest h (λ _ k. k)
      (invalid_limit, refl, refl)

page_number_param-Holds :
    (raw : Bytes) (old : ℤ)
    → IsFrom 0 old
    → Holds (IsFrom 0) IsBadRequest (page_number_param raw old)
unfolding page_number_param
page_number_param-Holds raw old h =
    number_param-Holds 1 raw old invalid_page (IsFrom 0) IsBadRequest h wider
      (invalid_page, refl, refl)

abbrev IsKeysetRequest : KeysetListRequest → Type 0
IsKeysetRequest r = IsFrom 0 r.account_id × IsSortField r.sort × IsFrom 0 r.limit

-- Whatever the query string, under a binding that assigns the fields in order, the parameters of
-- a keyset page ask for 1 to 100 rows in one of the two orders, with an account id that is no
-- less than 0; or an error is returned that the contract answers with status 400.
pub keyset_params-IsListParams :
    (c : Context) (form : Bytes → Option Bytes)
    → Binds c form
    → Holds
        (λ r. IsListParams (keyset_params r))
        IsBadRequest
        (c.should_bind_query KeysetListRequest keyset_fields empty_keyset_request)
keyset_params-IsListParams c form b =
    rw (b.binds KeysetListRequest keyset_fields empty_keyset_request) (
      Holds-map IsKeysetRequest IsBadRequest (λ r. IsListParams (keyset_params r)) IsBadRequest _
        (λ r (a, o, l). (a, sort_order_value-IsSort r.sort o, page_size_value-IsPageSize r.limit l))
        (λ _ e. e)
        (bind_fields-Holds KeysetListRequest IsKeysetRequest IsBadRequest form keyset_fields
          (
            λ raw s (a, o, l).
                Holds->>= (IsFrom 0) IsBadRequest IsKeysetRequest
                  (account_id_param raw s.account_id) _ (account_id_param-Holds raw s.account_id a)
                  (λ _ k. (k, o, l)),
            (
              λ _ _ h. h,
              (
                λ raw s (a, o, l).
                    Holds->>= IsSortField IsBadRequest IsKeysetRequest (sort_order_param raw s.sort)
                      _ (sort_order_param-Holds raw s.sort) (λ _ k. (a, k, l)),
                (
                  λ raw s (a, o, l).
                      Holds->>= (IsFrom 0) IsBadRequest IsKeysetRequest
                        (page_size_param raw s.limit) _ (page_size_param-Holds raw s.limit l)
                        (λ _ k. (a, o, k)),
                  (λ _ _ h. h, tt),
                ),
              ),
            ),
          )
          empty_keyset_request ((0, refl, omega arith), inl refl, (0, refl, omega arith))))

abbrev IsOffsetRequest : OffsetListRequest → Type 0
IsOffsetRequest r = IsFrom 0 r.account_id × IsFrom 0 r.page × IsFrom 0 r.size

-- Whatever the query string, under a binding that assigns the fields in order, the parameters of
-- a page by rank ask for a page from 1 on of 1 to 100 rows, with an account id that is no less
-- than 0; or an error is returned that the contract answers with status 400.
pub offset_params-IsOffsetParams :
    (c : Context) (form : Bytes → Option Bytes)
    → Binds c form
    → Holds
        (λ r. IsOffsetParams (offset_params r))
        IsBadRequest
        (c.should_bind_query OffsetListRequest offset_fields empty_offset_request)
offset_params-IsOffsetParams c form b =
    rw (b.binds OffsetListRequest offset_fields empty_offset_request) (
      Holds-map IsOffsetRequest IsBadRequest (λ r. IsOffsetParams (offset_params r)) IsBadRequest _
        (λ r (a, p, l). (a, page_number_value-IsFrom r.page p, page_size_value-IsPageSize r.size l))
        (λ _ e. e)
        (bind_fields-Holds OffsetListRequest IsOffsetRequest IsBadRequest form offset_fields
          (
            λ raw s (a, p, l).
                Holds->>= (IsFrom 0) IsBadRequest IsOffsetRequest
                  (account_id_param raw s.account_id) _ (account_id_param-Holds raw s.account_id a)
                  (λ _ k. (k, p, l)),
            (
              λ raw s (a, p, l).
                  Holds->>= (IsFrom 0) IsBadRequest IsOffsetRequest (page_number_param raw s.page) _
                    (page_number_param-Holds raw s.page p) (λ _ k. (a, k, l)),
              (
                λ raw s (a, p, l).
                    Holds->>= (IsFrom 0) IsBadRequest IsOffsetRequest (page_size_param raw s.size) _
                      (page_size_param-Holds raw s.size l) (λ _ k. (a, p, k)),
                tt,
              ),
            ),
          )
          empty_offset_request
          ((0, refl, omega arith), (0, refl, omega arith), (0, refl, omega arith))))
