-- ===== src/Tests/Requests.antt =====
-- The theorems on requests and their answers at a query string.
use concevoir_une_api_pagine.Prelude.{
  [], ◌∷◌, Option, none, some, Bytes, codes, text_eq, if◌then◌else◌, refl,
}
use concevoir_une_api_pagine.Errors.{Error, other, wrapped, sentinel, cursor_expired, is_error}
use concevoir_une_api_pagine.Errors.Outcomes.{Holds, IsForeign}
use concevoir_une_api_pagine.Handler.Requests.{
  KeysetListRequest, OffsetListRequest, keyset_fields, offset_fields, empty_keyset_request,
  empty_offset_request, keyset_params, offset_params,
}
use concevoir_une_api_pagine.Handler.Replies.{respond_error}
use concevoir_une_api_pagine.Handler.Binding.{context_of, context_of-Binds}
use concevoir_une_api_pagine.Handler.Bounds.{
  IsListParams, IsOffsetParams, IsBadRequest, keyset_params-IsListParams,
  offset_params-IsOffsetParams,
}
use concevoir_une_api_pagine.Handler.Failures.{
  IsWarned, IsInternal, respond_error-wrapped_in, respond_error-foreign,
}

-- `?account_id=42&limit=500&sort=created_at:asc&page=3&size=0&exact=true`
abbrev pub form : Bytes → Option Bytes
form name =
    if text_eq name (codes "account_id")
    then some (codes "42")
    else if text_eq name (codes "limit")
    then some (codes "500")
    else if text_eq name (codes "sort")
    then some (codes "created_at:asc")
    else if text_eq name (codes "page")
    then some (codes "3")
    else if text_eq name (codes "size")
    then some (codes "0")
    else if text_eq name (codes "exact")
    then some (codes "true")
    else none

keyset_params-IsListParams_example :
    Holds
      (λ r. IsListParams (keyset_params r))
      IsBadRequest
      ((context_of form).should_bind_query KeysetListRequest keyset_fields empty_keyset_request)
keyset_params-IsListParams_example =
    keyset_params-IsListParams (context_of form) form (context_of-Binds form)

offset_params-IsOffsetParams_example :
    Holds
      (λ r. IsOffsetParams (offset_params r))
      IsBadRequest
      ((context_of form).should_bind_query OffsetListRequest offset_fields empty_offset_request)
offset_params-IsOffsetParams_example =
    offset_params-IsOffsetParams (context_of form) form (context_of-Binds form)

abbrev timeout : Error
timeout = wrapped (codes "selecting transactions") (other (codes "timeout"))

timeout-IsForeign : IsForeign timeout
unfolding is_error
timeout-IsForeign s = refl

respond_error-wrapped_in_example :
    IsWarned
      (wrapped (codes "listing") (sentinel cursor_expired))
      410
      (codes "cursor_expired")
      (respond_error (wrapped (codes "listing") (sentinel cursor_expired)))
respond_error-wrapped_in_example = respond_error-wrapped_in (codes "listing" ∷ []) cursor_expired

respond_error-foreign_example : IsInternal timeout (respond_error timeout)
respond_error-foreign_example = respond_error-foreign timeout timeout-IsForeign
