-- ===== src/Service/Mismatch.antt =====
-- A token used with other filters than those that it was issued for.
use concevoir_une_api_pagine.Prelude.{
  ℕ, false, Bytes, text_eq, text_eq→eq, take, Bool-cases, ◌≡◌, ◌≢◌, ◌⊎◌, inl, inr, sym, ap, ◌∙◌,
  pos, InInt64, some, All-take, All,
}
use concevoir_une_api_pagine.Errors.{err, sentinel, filter_mismatch}
use concevoir_une_api_pagine.Go.Base64
use concevoir_une_api_pagine.Go.Base64.RoundTrip.{decode-encode, IsByte}
use concevoir_une_api_pagine.Go.Sha256.{sum256, sum256-IsByte}
use concevoir_une_api_pagine.Go.Time.{Time}
use concevoir_une_api_pagine.Go.Time.RoundTrip.{whole_seconds, HasSeconds}
use concevoir_une_api_pagine.Domain.{Transaction, ListQuery}
use concevoir_une_api_pagine.Cursor.{Filters, fingerprint, filter_text, fingerprint_bytes, encode}
use concevoir_une_api_pagine.Cursor.RoundTrip.{is_expired}
use concevoir_une_api_pagine.Cursor.FilterText.{IsSort, filter_text-injective}
use concevoir_une_api_pagine.Service.{
  Transactions, Readings, list, resume, query_fingerprint, cursor_after,
}
use concevoir_une_api_pagine.Service.Paging.{IsRow, decoded, token_not_empty}

-- A query that the handlers build.
pub record IsQuery (q : ListQuery) : Type 0 where
  pub account : InInt64 q.account_id
  pub order : IsSort q.sort

abbrev filters_of : ListQuery → Filters
filters_of q = record { account_id = q.account_id; status = q.status; sort = q.sort }

-- The digests of two texts that differ have the same first bytes.
abbrev pub Collide : Bytes → Bytes → Type 0
Collide s t = (s ≢ t) × (take fingerprint_bytes (sum256 s) ≡ take fingerprint_bytes (sum256 t))

prefix-IsByte : (f : Filters) → All IsByte (take fingerprint_bytes (sum256 (filter_text f)))
prefix-IsByte f =
    All-take IsByte fingerprint_bytes (sum256 (filter_text f)) (sum256-IsByte (filter_text f))

fingerprint-prefix :
    (f g : Filters)
    → fingerprint f ≡ fingerprint g
    → take fingerprint_bytes (sum256 (filter_text f))
      ≡ take fingerprint_bytes (sum256 (filter_text g))
unfolding fingerprint
fingerprint-prefix f g e =
    let a = take fingerprint_bytes (sum256 (filter_text f)) in
    let b = take fingerprint_bytes (sum256 (filter_text g)) in
    let same : some a ≡ some b =
      sym (decode-encode a (prefix-IsByte f))
      ∙ ap Base64.decode e
      ∙ decode-encode b (prefix-IsByte g) in
    cc same

-- A token of a row of the table that has not expired, used with a query that differs from the one
-- it was issued for, where both have a bigint account id and one of the two orders, is refused as
-- a mismatch of filters, unless the first eight bytes of the SHA-256 digests of the two filter
-- texts, which are not the same, collide.
pub list-other_query :
    (s : Transactions) (q other : ListQuery) (n : ℕ) (k : Transaction) (issued : Time)
    (clock : Readings)
    → IsRow k
    → HasSeconds issued
    → is_expired s.cursor_ttl clock.at_decode (whole_seconds issued) ≡ false
    → IsQuery q
    → IsQuery other
    → q ≢ other
    → (list s clock (record {
      query = other;
      limit = pos n;
      cursor = encode (cursor_after q k issued) s.cursor_key;
    })
        ≡ err (sentinel filter_mismatch))
      ⊎ Collide (filter_text (filters_of q)) (filter_text (filters_of other))
unfolding list resume
list-other_query s q other n k issued clock r h fresh v w differ =
    elim (Bool-cases (text_eq (query_fingerprint q) (query_fingerprint other))) [
      | inl same ↦
          let prefixes =
            fingerprint-prefix (filters_of q) (filters_of other) (text_eq→eq _ _ same) in
          inr (
            λ e. differ (
                same_query (
                  filter_text-injective (filters_of q) (filters_of other) v.account w.account
                    v.order w.order e)),
            prefixes,
          )
      | inr mismatch ↦
          let position = decoded s q n k issued clock.at_decode r h fresh in
          inl (
            rw (
              token_not_empty _ s.cursor_key s.cursor_ttl clock.at_decode _ position,
              position,
              mismatch,
            ))
    ]
  where
    same_query : filters_of q ≡ filters_of other → q ≡ other
    same_query e = cc e
