-- ===== src/Service/Pages.antt =====
-- The page that a call returns, whatever the repository answers, and the errors it returns.
use concevoir_une_api_pagine.Prelude.{
  ℕ, ◌≤◌, ◌<◌, List, [], ◌∷◌, ◌++◌, true, false, Bytes, text_eq, ℤ, pos, ltb_ℤ, length,
  length-append, take, length-take, Bool-cases, ◌≡◌, ◌⊎◌, inl, inr, refl, arith,
}
use concevoir_une_api_pagine.Errors.{
  Error, Result, ok, sentinel, ensure, invalid_cursor, cursor_expired, filter_mismatch,
}
use concevoir_une_api_pagine.Errors.Outcomes.{Holds, Holds->>=, Holds-map, Holds-ensure, IsForeign}
use concevoir_une_api_pagine.Go.Base64
use concevoir_une_api_pagine.Go.Sha256.{hmac, length-hmac}
use concevoir_une_api_pagine.Go.Time.{Time, Duration}
use concevoir_une_api_pagine.Domain.{
  Transaction, ListQuery, ListParams, KeysetPage, OffsetPage, is_descending,
}
use concevoir_une_api_pagine.Cursor.{encode, decode_at}
use concevoir_une_api_pagine.Cursor.Payload.{Cursor, canonical_payload}
use concevoir_une_api_pagine.Cursor.Authentic.{IsAccepted, IsRefusal, decode_at-Holds}
use concevoir_une_api_pagine.Postgres.Repository.{new_transaction_repository}
use concevoir_une_api_pagine.Postgres.Database.{Database}
use concevoir_une_api_pagine.Postgres.Failures.{
  Any, IsDriver, first_page-Holds, next_page-Holds, page_by_offset-Holds,
}
use concevoir_une_api_pagine.Service.{
  Transactions, Readings, trim, last_row, page_of, cursor_after, query_fingerprint, same_direction,
  resume, list, list_by_offset, fetch_of,
}
use concevoir_une_api_pagine.Service.Paging.{split_nonempty, last_row-append}

-- A page of at most so many rows: if it says that there are more, it is full and it has a token; if
-- not, it has none.
pub data IsPage (limit : ℕ) (page : KeysetPage) : Type 0 where
  full :
      page.has_more ≡ true
      → length page.transactions ≡ limit
      → text_eq page.next [] ≡ false
      → IsPage limit page
  last :
      page.has_more ≡ false
      → length page.transactions ≤ limit
      → text_eq page.next [] ≡ true
      → IsPage limit page

-- An error of a listing: one of the cursor's three, or one of the driver's.
abbrev pub IsListError : Error → Type 0
IsListError e =
    (e ≡ sentinel invalid_cursor)
    ⊎ (e ≡ sentinel cursor_expired)
    ⊎ (e ≡ sentinel filter_mismatch)
    ⊎ IsForeign e

base64-nonempty : (s : Bytes) → 0 < length s → text_eq (Base64.encode s) [] ≡ false
unfolding Base64.encode Base64.sextets text_eq
base64-nonempty [] h = absurd (omega arith)
base64-nonempty (a ∷ []) h = refl
base64-nonempty (a ∷ b ∷ []) h = refl
base64-nonempty (a ∷ b ∷ c ∷ s) h = refl

pub encode-nonempty : (c : Cursor) (key : Bytes) → text_eq (encode c key) [] ≡ false
unfolding encode
encode-nonempty c key =
    let payload = canonical_payload c in
    base64-nonempty (hmac key payload ++ payload)
      (omega (arith, length-append (hmac key payload) payload, length-hmac key payload))

pub empty : text_eq [] [] ≡ true
unfolding text_eq
empty = refl

pub page_of-Holds :
    (s : Transactions) (now : Time) (q : ListQuery) (token : Bytes) (n : ℕ)
    → 0 < n
    → (rows : List Transaction)
    → Holds
        (IsPage n)
        IsListError
        (page_of s now (record { query = q; limit = pos n; cursor = token }) rows)
unfolding page_of trim
page_of-Holds s now q token n h rows = elim (Bool-cases (ltb_ℤ (pos n) (pos (length rows)))) [
  | inl more ↦
      let room : 0 < length (take n rows) = ground (arith, length-take n rows) in
      let (xs, k, e) = split_nonempty (take n rows) room in
      let at_end : last_row (take n rows) ≡ ok k = rw e (last_row-append xs k) in
      rw (more, at_end)
        (full refl (ground (arith, length-take n rows))
          (encode-nonempty (cursor_after q k now) s.cursor_key))
  | inr done ↦ rw done (last refl (ground arith) empty)
]

-- A page by rank.
abbrev pub IsOffsetPage : ℤ → ℕ → OffsetPage → Type 0
IsOffsetPage number size page =
    (page.page ≡ number)
    × (page.size ≡ pos size)
    × (length page.transactions ≤ size)
    × (page.has_more ≡ true → length page.transactions ≡ size)

-- The listing service over a database.
abbrev pub service_over : Database → Bytes → Duration → Transactions
service_over db key ttl = record {
  repository = new_transaction_repository db;
  cursor_key = key;
  cursor_ttl = ttl;
}

module _ (db : Database) (d : IsDriver db) (key : Bytes) (ttl : Duration) where
  abbrev s : Transactions
  s = service_over db key ttl

  pub decoded-Holds :
      (token : Bytes) (now : Time) → Holds Any IsListError (decode_at token key ttl now)
  decoded-Holds token now =
      Holds-map (IsAccepted token key ttl now) (IsRefusal token key ttl now) Any IsListError
        (decode_at token key ttl now) (λ _ _. tt) refusal (decode_at-Holds token key ttl now)
    where
      refusal : (e : Error) → IsRefusal token key ttl now e → IsListError e
      refusal e (inl invalid) = inl invalid
      refusal e (inr (expired, _)) = inr (inl expired)

  pub foreign-Holds :
      (m : Result (List Transaction)) → Holds Any IsForeign m → Holds Any IsListError m
  foreign-Holds m h =
      Holds-map Any IsForeign Any IsListError m (λ _ u. u) (λ _ f. inr (inr (inr f))) h

  resume-Holds :
      (now : Time) (params : ListParams) (fetch : ℤ)
      → Holds Any IsListError (resume s now params fetch)
  unfolding resume
  resume-Holds now params fetch =
      let mismatch : IsListError (sentinel filter_mismatch) = inr (inr (inl refl)) in
      Holds->>= Any IsListError Any (decode_at params.cursor key ttl now) _
        (decoded-Holds params.cursor now)
        (λ position _.
          Holds->>= (λ _. _ ≡ true) IsListError Any
            (ensure (text_eq position.fingerprint (query_fingerprint params.query)) filter_mismatch)
            _ (Holds-ensure IsListError _ filter_mismatch mismatch)
            (λ _ _.
              Holds->>= (λ _. _ ≡ true) IsListError Any
                (ensure (same_direction position.descending (is_descending params.query.sort))
                  filter_mismatch)
                _ (Holds-ensure IsListError _ filter_mismatch mismatch)
                (λ _ _. foreign-Holds _ (next_page-Holds db d params.query _ fetch))))

  -- Over a driver that always returns, a call for n rows, one at least, returns a page of at most n
  -- rows: a full page with a token if it says that there are more, and a page without one if not.
  -- Otherwise it returns an error of the cursor's, or one of the driver's. It never panics.
  pub list-Holds :
      (clock : Readings) (q : ListQuery) (token : Bytes) (n : ℕ)
      → 0 < n
      → Holds
          (IsPage n)
          IsListError
          (list s clock (record { query = q; limit = pos n; cursor = token }))
  unfolding list
  list-Holds clock q token n h = elim (Bool-cases (text_eq token [])) [
    | inl no_token ↦ rw no_token (
        Holds->>= Any IsListError (IsPage n) (s.repository.first_page q (fetch_of (pos n))) _
          (foreign-Holds _ (first_page-Holds db d q (fetch_of (pos n))))
          (λ rows _. page_of-Holds s clock.at_issue q token n h rows))
    | inr some_token ↦ rw some_token (
        Holds->>= Any IsListError (IsPage n) (resume s clock.at_decode _ (fetch_of (pos n))) _
          (resume-Holds clock.at_decode _ (fetch_of (pos n)))
          (λ rows _. page_of-Holds s clock.at_issue q token n h rows))
  ]

  -- Over a driver that always returns, a call for n rows by rank returns a page of at most n rows,
  -- and of n rows if there are more, with the number and the size that were asked for. Otherwise it
  -- returns an error of the driver's. It never panics.
  pub list_by_offset-Holds :
      (account_id page : ℤ) (n : ℕ)
      → Holds
          (IsOffsetPage page n)
          IsForeign
          (list_by_offset s (record { account_id = account_id; page = page; size = pos n }))
  unfolding list_by_offset trim
  list_by_offset-Holds account_id page n =
      Holds->>= Any IsForeign (IsOffsetPage page n)
        (s.repository.offset_page account_id _ (fetch_of (pos n))) _
        (page_by_offset-Holds db d account_id _ (fetch_of (pos n)))
        (λ rows _. elim (Bool-cases (ltb_ℤ (pos n) (pos (length rows)))) [
          | inl more ↦ rw more (
            refl,
            refl,
            ground (arith, length-take n rows),
            λ _. ground (arith, length-take n rows),
          )
          | inr done ↦ rw done (refl, refl, ground arith, λ h. cc)
        ])
