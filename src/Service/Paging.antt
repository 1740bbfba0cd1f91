-- ===== src/Service/Paging.antt =====
-- One page: what `List` makes of the rows that it fetches, and where a token resumes.
use concevoir_une_api_pagine.Prelude.{
  ℕ, ◌+◌, ◌≤◌, ◌<◌, ◌^◌, List, [], ◌∷◌, ◌++◌, Bool, true, false, ◌≡◌, refl, ap, ◌∙◌, arith, Bytes,
  text_eq, text_eq_refl, ℤ, pos, ltb_ℤ, InInt64, wrap64_of_InInt64, ◌+ℤ◌, length, take, length-take,
  take-take_le, take_of_length_le, All, All-map, All-take,
}
use concevoir_une_api_pagine.Errors.{ok, err, ◌>>=◌, sentinel, invalid_cursor}
use concevoir_une_api_pagine.Go.Base64
use concevoir_une_api_pagine.Go.Base64.RoundTrip.{encode-IsPlain, IsByte, IsPlain as Base64Plain}
use concevoir_une_api_pagine.Go.Sha256.{sum256, sum256-IsByte}
use concevoir_une_api_pagine.Go.Json.Strings.{IsPlain}
use concevoir_une_api_pagine.Go.Time.{Time, Duration}
use concevoir_une_api_pagine.Go.Time.RoundTrip.{IsYear, whole_micros, whole_seconds, HasSeconds}
use concevoir_une_api_pagine.Domain.{Transaction, is_descending, ListQuery, ListParams}
use concevoir_une_api_pagine.Cursor.{
  Filters, fingerprint, filter_text, fingerprint_bytes, decode_at, split_token, encode,
}
use concevoir_une_api_pagine.Cursor.Payload.{Cursor}
use concevoir_une_api_pagine.Cursor.RoundTrip.{Encodable, is_expired, decode_at-encode}
use concevoir_une_api_pagine.Postgres.Order.{bound_of}
use concevoir_une_api_pagine.Service.{
  Transactions, fetch_of, trim, last_row, query_fingerprint, cursor_after, page_of, resume, list,
  same_direction,
}

-- A row as the table stores it: a `bigint` id, and an instant of whole microseconds within the years
-- that the cursor's layout writes.
pub record IsRow (t : Transaction) : Type 0 where
  pub year : ℕ
  pub created : IsYear t.created_at year
  pub precise : whole_micros t.created_at ≡ t.created_at
  pub row : InInt64 t.id

pub fetch_one_more : (n : ℕ) → n + 1 < 2 ^ 63 → fetch_of (pos n) ≡ pos (n + 1)
fetch_one_more n h =
    let sum : pos n +ℤ pos 1 ≡ pos (n + 1) = unfold ◌+ℤ◌ in (ground arith) in
    rw sum (wrap64_of_InInt64 (pos (n + 1)) (omega arith))

pub last_row-append : (xs : List Transaction) (k : Transaction) → last_row (xs ++ k ∷ []) ≡ ok k
last_row-append [] k = refl
last_row-append (x ∷ []) k = refl
last_row-append (x ∷ y ∷ xs) k = last_row-append (y ∷ xs) k

split_last :
    (t : Transaction) (ts : List Transaction)
    → (xs : List Transaction) × (k : Transaction) × (t ∷ ts ≡ xs ++ k ∷ [])
split_last t [] = ([], t, refl)
split_last t (u ∷ us) = let (xs, k, e) = split_last u us in (t ∷ xs, k, ap (◌∷◌ t) e)

pub split_nonempty :
    (ts : List Transaction)
    → 0 < length ts
    → (xs : List Transaction) × (k : Transaction) × (ts ≡ xs ++ k ∷ [])
split_nonempty [] h = absurd (omega arith)
split_nonempty (t ∷ ts) h = split_last t ts

module _ (s : Transactions) (now : Time) (q : ListQuery) (n : ℕ) (token : Bytes)
    (ys : List Transaction) where
  abbrev params : ListParams
  params = record { query = q; limit = pos n; cursor = token }

  fetched_length : length (take (n + 1) ys) ≤ n + 1
  fetched_length = omega (arith, length-take (n + 1) ys)

  -- The last page: at most as many rows as asked for are left.
  pub page_of_last :
      length ys ≤ n
      → page_of s now params (take (n + 1) ys)
        ≡ ok (record { transactions = ys; next = []; has_more = false })
  unfolding page_of trim
  page_of_last h =
      let whole : take (n + 1) ys ≡ ys = take_of_length_le (n + 1) ys (omega arith) in
      let few : ltb_ℤ (pos n) (pos (length ys)) ≡ false = ground arith in rw (whole, few)

  -- A page with more behind it: the extra row is dropped, and the token is that of the last row.
  pub page_of_more :
      (xs : List Transaction) (k : Transaction)
      → n < length ys
      → take n ys ≡ xs ++ k ∷ []
      → page_of s now params (take (n + 1) ys)
        ≡ ok (record {
          transactions = take n ys;
          next = encode (cursor_after q k now) s.cursor_key;
          has_more = true;
        })
  unfolding page_of trim
  page_of_more xs k h e =
      let many : ltb_ℤ (pos n) (pos (length (take (n + 1) ys))) ≡ true =
        ground (arith, length-take (n + 1) ys) in
      rw (many, take-take_le n (n + 1) ys (omega arith), e, last_row-append xs k)

-- A fingerprint needs no escape in the payload.
fingerprint-IsPlain : (f : Filters) → All IsPlain (fingerprint f)
unfolding fingerprint
fingerprint-IsPlain f =
    let prefix = take fingerprint_bytes (sum256 (filter_text f)) in
    All-map (fingerprint f) (λ c p. plain c p)
      (encode-IsPlain prefix (
        All-take IsByte fingerprint_bytes (sum256 (filter_text f)) (sum256-IsByte (filter_text f))))
  where
    plain : (c : ℕ) → Base64Plain c → IsPlain c
    plain c p = omega arith

pub cursor_after-Encodable :
    (q : ListQuery) (k : Transaction) (now : Time)
    → IsRow k
    → HasSeconds now
    → Encodable (cursor_after q k now)
cursor_after-Encodable q k now r h = record {
  year = r.year;
  created = r.created;
  row = r.row;
  plain = fingerprint-IsPlain _;
  issued = h;
}

empty_token :
    (key : Bytes) (ttl : Duration) (now : Time)
    → decode_at [] key ttl now ≡ err (sentinel invalid_cursor)
unfolding decode_at split_token Base64.decode
empty_token key ttl now = refl

-- The empty token is no cursor.
pub token_not_empty :
    (token key : Bytes) (ttl : Duration) (now : Time) (c : Cursor)
    → decode_at token key ttl now ≡ ok c
    → text_eq token [] ≡ false
unfolding text_eq
token_not_empty [] key ttl now c h = cc (empty_token key ttl now, h)
token_not_empty (_ ∷ _) key ttl now c h = refl

same_direction_self : (b : Bool) → same_direction b b ≡ true
same_direction_self true = refl
same_direction_self false = refl

module _ (s : Transactions) (q : ListQuery) (n : ℕ) (k : Transaction) (issued now : Time)
    (r : IsRow k) (h : HasSeconds issued)
    (fresh : is_expired s.cursor_ttl now (whole_seconds issued) ≡ false) where
  abbrev token_of : Bytes
  token_of = encode (cursor_after q k issued) s.cursor_key

  pub decoded :
      decode_at token_of s.cursor_key s.cursor_ttl now
      ≡ ok (record (cursor_after q k issued) { issued_at = whole_seconds issued })
  decoded =
      decode_at-encode (cursor_after q k issued) s.cursor_key s.cursor_ttl now
        (cursor_after-Encodable q k issued r h)
      ∙ rw (fresh, r.precise)

  -- The token of a row resumes behind that row, with the query that it was issued for.
  resume_after :
      (fetch : ℤ)
      → resume s now (record { query = q; limit = pos n; cursor = token_of }) fetch
        ≡ s.repository.next_page q (bound_of k) fetch
  unfolding resume
  resume_after fetch =
      rw (decoded, text_eq_refl (query_fingerprint q), same_direction_self (is_descending q.sort))

  pub list_after :
      (issue : Time)
      → n + 1 < 2 ^ 63
      → list s
          (record { at_decode = now; at_issue = issue })
          (record { query = q; limit = pos n; cursor = token_of })
        ≡ (s.repository.next_page q (bound_of k) (pos (n + 1))
            >>= page_of s issue (record { query = q; limit = pos n; cursor = token_of }))
  unfolding list
  list_after issue small = rw (
    token_not_empty token_of s.cursor_key s.cursor_ttl now _ decoded,
    fetch_one_more n small,
    resume_after (pos (n + 1)),
  )
