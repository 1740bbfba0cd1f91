-- ===== src/Handler/Answers.antt =====
-- The answers of the three endpoints over a database, the service and the repository in between.
use concevoir_une_api_pagine.Prelude.{
  ℕ, ◌≤◌, ◌<◌, List, [], ◌∷◌, Bool, true, false, Bytes, ℤ, pos, ltb_ℤ, length, Option, none, some,
  ◌≡◌, ◌⊎◌, inl, inr, refl, arith,
}
use concevoir_une_api_pagine.Errors.{
  Sentinel, Error, Result, ok, err, panicked, sentinel, invalid_cursor, cursor_expired,
  filter_mismatch,
}
use concevoir_une_api_pagine.Errors.Outcomes.{Holds, Holds->>=, Holds-map, IsForeign, Never}
use concevoir_une_api_pagine.Go.Time.{Duration}
use concevoir_une_api_pagine.Domain.{Transaction, KeysetPage}
use concevoir_une_api_pagine.Postgres.Database.{Database}
use concevoir_une_api_pagine.Postgres.Failures.{
  Any, IsDriver, count_rows-Holds, estimate_rows-Holds,
}
use concevoir_une_api_pagine.Service.{Transactions, Readings}
use concevoir_une_api_pagine.Service
use concevoir_une_api_pagine.Service.Pages.{
  IsPage, full, last, IsListError, IsOffsetPage, service_over, list-Holds, list_by_offset-Holds,
}
use concevoir_une_api_pagine.Handler.{
  TransactionService, settle, list, list_by_offset, total, transactions_response, keyset_reply,
}
use concevoir_une_api_pagine.Handler.Requests.{
  Context, KeysetListRequest, OffsetListRequest, TotalRequest, keyset_fields, offset_fields,
  total_fields, exact_flag_param, empty_keyset_request, empty_offset_request, empty_total_request,
  keyset_params, offset_params,
}
use concevoir_une_api_pagine.Handler.Replies.{
  Outcome, Body, keyset_list, offset_list, count_estimate, respond_error,
}
use concevoir_une_api_pagine.Handler.Binding.{Binds, bind_fields-Holds}
use concevoir_une_api_pagine.Handler.Bounds.{
  IsListParams, IsOffsetParams, IsBadRequest, keyset_params-IsListParams,
  offset_params-IsOffsetParams,
}
use concevoir_une_api_pagine.Handler.Failures.{
  contract_status, contract_code, IsWarned, IsInternal, respond_error-wrapped_in,
  respond_error-foreign,
}

-- What `run` of go/main.go puts together, at one request: the service over the repository, and the
-- clock.
abbrev pub application : Database → Bytes → Duration → Readings → TransactionService
application db key ttl clock =
    let s = service_over db key ttl in
    record {
      list = Service.list s clock;
      list_by_offset = Service.list_by_offset s;
      total = Service.total s;
    }

-- The three ways to answer a request: with a body, with an error of the contract, or with a bare 500
-- for an error of other code.
pub data IsAnswer (P : Body → Type 0) (o : Outcome) : Type 0 where
  answered : o.status ≡ 200 → P o.body → o.logged ≡ [] → IsAnswer P o
  refused :
      (s : Sentinel) → IsWarned (sentinel s) (contract_status s) (contract_code s) o → IsAnswer P o
  broken : (e : Error) → IsForeign e → IsInternal e o → IsAnswer P o

-- A page of at most 100 rows, whose token is null where no more rows are.
abbrev pub IsKeysetBody : Body → Type 0
IsKeysetBody (keyset_list r) =
    (length r.data_rows ≤ 100)
    × (((r.page.has_more ≡ false) × (r.page.next ≡ none))
        ⊎ ((r.page.has_more ≡ true)
            × (0 < length r.data_rows)
            × ((t : Bytes) × (r.page.next ≡ some t))))
IsKeysetBody _ = ⊥

-- A page from 1 on of at most as many rows as its size, which is 1 to 100.
abbrev pub IsOffsetBody : Body → Type 0
IsOffsetBody (offset_list r) =
    (k : ℕ) × (n : ℕ) × (r.page.page ≡ pos k)
    × (r.page.size ≡ pos n)
    × (1 ≤ k)
    × (1 ≤ n)
    × (n ≤ 100)
    × (length r.data_rows ≤ n)
IsOffsetBody _ = ⊥

abbrev pub IsTotalBody : Body → Type 0
IsTotalBody (count_estimate r) = r.exact ≡ false → ltb_ℤ r.estimate (pos 0) ≡ false
IsTotalBody _ = ⊥

settle-Holds :
    (P : Body → Type 0) (Q : Error → Type 0) (m : Result Outcome)
    → ((e : Error) → Q e → IsAnswer P (respond_error e))
    → Holds (IsAnswer P) Q m
    → Holds (IsAnswer P) Never (settle m)
settle-Holds P Q (ok o) f h = h
settle-Holds P Q (err e) f h = f e h
settle-Holds P Q panicked f h = absurd h

sentinel-IsAnswer : (P : Body → Type 0) (s : Sentinel) → IsAnswer P (respond_error (sentinel s))
sentinel-IsAnswer P s = refused s (respond_error-wrapped_in [] s)

foreign-IsAnswer : (P : Body → Type 0) (e : Error) → IsForeign e → IsAnswer P (respond_error e)
foreign-IsAnswer P e h = broken e h (respond_error-foreign e h)

length-transactions_response :
    (ts : List Transaction) → length (transactions_response ts) ≡ length ts
length-transactions_response [] = refl
length-transactions_response (t ∷ ts) = rw (length-transactions_response ts)

-- An error of a keyset listing: of the request, of the cursor, or of other code.
abbrev IsRequestError : Error → Type 0
IsRequestError e = IsBadRequest e ⊎ IsListError e

request_error-IsAnswer : (e : Error) → IsRequestError e → IsAnswer IsKeysetBody (respond_error e)
request_error-IsAnswer e (inl (s, h, _)) = rw h (sentinel-IsAnswer IsKeysetBody s)
request_error-IsAnswer e (inr (inl h)) = rw h (sentinel-IsAnswer IsKeysetBody invalid_cursor)
request_error-IsAnswer e (inr (inr (inl h))) = rw h (sentinel-IsAnswer IsKeysetBody cursor_expired)
request_error-IsAnswer e (inr (inr (inr (inl h)))) =
    rw h (sentinel-IsAnswer IsKeysetBody filter_mismatch)
request_error-IsAnswer e (inr (inr (inr (inr h)))) = foreign-IsAnswer IsKeysetBody e h

abbrev IsOffsetError : Error → Type 0
IsOffsetError e = IsBadRequest e ⊎ IsForeign e

offset_error-IsAnswer : (e : Error) → IsOffsetError e → IsAnswer IsOffsetBody (respond_error e)
offset_error-IsAnswer e (inl (s, h, _)) = rw h (sentinel-IsAnswer IsOffsetBody s)
offset_error-IsAnswer e (inr h) = foreign-IsAnswer IsOffsetBody e h

keyset_reply-IsAnswer :
    (n : ℕ) (page : KeysetPage)
    → 1 ≤ n
    → n ≤ 100
    → IsPage n page
    → IsAnswer IsKeysetBody (keyset_reply page)
keyset_reply-IsAnswer n page low high (full more size token) =
    answered refl
      (
        omega (arith, length-transactions_response page.transactions),
        inr (
          more,
          omega (arith, length-transactions_response page.transactions),
          (page.next, rw token),
        ),
      )
      refl
keyset_reply-IsAnswer n page low high (last done size token) =
    answered refl
      (omega (arith, length-transactions_response page.transactions), inl (done, rw token)) refl

-- A number that is not negative, unless it is exact.
abbrev IsTotal : Bool → ℤ → Type 0
IsTotal exact n = exact ≡ false → ltb_ℤ n (pos 0) ≡ false

total-IsTotal :
    (db : Database) (d : IsDriver db) (key : Bytes) (ttl : Duration) (exact : Bool)
    → Holds (IsTotal exact) IsForeign (Service.total (service_over db key ttl) exact)
unfolding Service.total
total-IsTotal db d key ttl true =
    Holds-map Any IsForeign (IsTotal true) IsForeign _ (λ n _ h. cc) (λ _ e. e)
      (count_rows-Holds db d)
total-IsTotal db d key ttl false =
    Holds-map _ IsForeign (IsTotal false) IsForeign _ (λ n h _. h) (λ _ e. e)
      (estimate_rows-Holds db d)

module _ (db : Database) (d : IsDriver db) (key : Bytes) (ttl : Duration) (clock : Readings)
    (c : Context) (form : Bytes → Option Bytes) (b : Binds c form) where
  pub list-IsAnswer : Holds (IsAnswer IsKeysetBody) Never (list (application db key ttl clock) c)
  unfolding list
  list-IsAnswer = settle-Holds IsKeysetBody IsRequestError _ request_error-IsAnswer (
      Holds->>= (λ r. IsListParams (keyset_params r)) IsRequestError (IsAnswer IsKeysetBody)
        (c.should_bind_query KeysetListRequest keyset_fields empty_keyset_request) _
        (Holds-map _ IsBadRequest (λ r. IsListParams (keyset_params r)) IsRequestError _ (λ _ h. h)
          (λ _ h. inl h) (keyset_params-IsListParams c form b))
        (λ r (_, _, (n, e, low, high)). rw e (
          Holds->>= (IsPage n) IsRequestError (IsAnswer IsKeysetBody)
            (Service.list (service_over db key ttl) clock
              (record { query = (keyset_params r).query; limit = pos n; cursor = r.cursor }))
            _
            (Holds-map (IsPage n) IsListError (IsPage n) IsRequestError _ (λ _ p. p) (λ _ p. inr p)
              (list-Holds db d key ttl clock (keyset_params r).query r.cursor n low))
            (λ page p. keyset_reply-IsAnswer n page low high p))))

  pub list_by_offset-IsAnswer :
      Holds (IsAnswer IsOffsetBody) Never (list_by_offset (application db key ttl clock) c)
  unfolding list_by_offset
  list_by_offset-IsAnswer = settle-Holds IsOffsetBody IsOffsetError _ offset_error-IsAnswer (
      Holds->>= (λ r. IsOffsetParams (offset_params r)) IsOffsetError (IsAnswer IsOffsetBody)
        (c.should_bind_query OffsetListRequest offset_fields empty_offset_request) _
        (Holds-map _ IsBadRequest (λ r. IsOffsetParams (offset_params r)) IsOffsetError _ (λ _ h. h)
          (λ _ h. inl h) (offset_params-IsOffsetParams c form b))
        (λ r (_, (k, first, from), (n, e, low, high)).
          rw (first, e)
            (Holds->>= (IsOffsetPage (pos k) n) IsOffsetError (IsAnswer IsOffsetBody)
              (Service.list_by_offset (service_over db key ttl)
                (record { account_id = r.account_id; page = pos k; size = pos n }))
              _
              (Holds-map (IsOffsetPage (pos k) n) IsForeign (IsOffsetPage (pos k) n) IsOffsetError _
                (λ _ p. p) (λ _ p. inr p)
                (list_by_offset-Holds db d key ttl r.account_id (pos k) n))
              (λ page (number, size, rows, _).
                answered refl
                  (
                    k,
                    n,
                    number,
                    size,
                    from,
                    low,
                    high,
                    omega (arith, length-transactions_response page.transactions),
                  )
                  refl))))

  pub total-IsAnswer : Holds (IsAnswer IsTotalBody) Never (total (application db key ttl clock) c)
  unfolding total exact_flag_param
  total-IsAnswer = rw (b.binds TotalRequest total_fields empty_total_request) (
      settle-Holds IsTotalBody IsForeign _ (foreign-IsAnswer IsTotalBody) (
        Holds->>= Any IsForeign (IsAnswer IsTotalBody) _ _
          (bind_fields-Holds TotalRequest Any IsForeign form total_fields (λ _ _ _. tt, tt)
            empty_total_request tt)
          (λ r _.
            Holds->>= (IsTotal r.exact) IsForeign (IsAnswer IsTotalBody)
              (Service.total (service_over db key ttl) r.exact) _
              (total-IsTotal db d key ttl r.exact) (λ n h. answered refl h refl))))
