-- ===== src/Cursor/FilterText.antt =====
-- Filters that differ are never written as one text, so that equal fingerprints of different filters
-- are a collision of the digests.
use concevoir_une_api_pagine.Prelude.{
  ℕ, [], ◌∷◌, ◌++◌, some, ◌≡◌, ◌≢◌, ◌⊎◌, inl, inr, refl, sym, ap, ◌∙◌, Bytes, All, All-map, length,
  length-append, ℤ, InInt64, arith,
}
use concevoir_une_api_pagine.Prelude.Cuts.{head_and_tail, cut_at}
use concevoir_une_api_pagine.Domain.{sort_created_at_desc, sort_created_at_asc}
use concevoir_une_api_pagine.Go.Strconv.{format_int, parse_int}
use concevoir_une_api_pagine.Go.Strconv.RoundTrip.{
  parse_int-format_int, format_int-IsDigit, IsDigit,
}
use concevoir_une_api_pagine.Cursor.{Filters, filter_text}

abbrev IsNoBar : ℕ → Type 0
IsNoBar c = c ≢ b'|'

-- A common end is cut off.
cut_end : (s t u : Bytes) → s ++ u ≡ t ++ u → s ≡ t
cut_end [] [] u e = refl
cut_end [] (y ∷ t) u e = absurd (omega (arith, ap length e, length-append t u))
cut_end (x ∷ s) [] u e = absurd (omega (arith, ap length e, length-append s u))
cut_end (x ∷ s) (y ∷ t) u e =
    let (same, rest) = head_and_tail x y _ _ e in rw (same, cut_end s t u rest)

-- The two orders end differently, whatever stands in front of them.
orders_differ : (s t : Bytes) → s ++ b'|' ∷ sort_created_at_desc ≢ t ++ b'|' ∷ sort_created_at_asc
orders_differ [] [] e = absurd (omega (arith, ap length e))
orders_differ [] (x ∷ []) e =
    let next = (head_and_tail _ _ _ _ (head_and_tail _ _ _ _ e).1).0 in absurd (omega (arith, next))
orders_differ [] (x ∷ y ∷ t) e =
    absurd (omega (arith, ap length e, length-append t (b'|' ∷ sort_created_at_asc)))
orders_differ (x ∷ s) [] e =
    absurd (omega (arith, ap length e, length-append s (b'|' ∷ sort_created_at_desc)))
orders_differ (x ∷ s) (y ∷ t) e = orders_differ s t (head_and_tail x y _ _ e).1

-- One of the two orders.
abbrev pub IsSort : Bytes → Type 0
IsSort s = (s ≡ sort_created_at_desc) ⊎ (s ≡ sort_created_at_asc)

no_bar : (z : ℤ) → All IsNoBar (format_int z)
no_bar z = All-map (format_int z) plain (format_int-IsDigit z)
  where
    plain : (c : ℕ) → IsDigit c ⊎ (c ≡ b'-') → IsNoBar c
    plain c (inl d) e = absurd (omega (arith, e))
    plain c (inr d) e = absurd (omega (arith, e, d))

status_and_sort :
    (s t x y : Bytes) → IsSort x → IsSort y → s ++ b'|' ∷ x ≡ t ++ b'|' ∷ y → (s ≡ t) × (x ≡ y)
status_and_sort s t x y (inl h) (inl k) e = (cut_end s t (b'|' ∷ x) (e ∙ rw (h, k)), rw (h, k))
status_and_sort s t x y (inr h) (inr k) e = (cut_end s t (b'|' ∷ x) (e ∙ rw (h, k)), rw (h, k))
status_and_sort s t x y (inl h) (inr k) e = absurd (orders_differ s t (rw (sym h, sym k) e))
status_and_sort s t x y (inr h) (inl k) e = absurd (orders_differ t s (rw (sym h, sym k) (sym e)))

-- Two sets of filters that are written as one text, each with a bigint account id and one of the two
-- orders, are the same, whatever characters a status has.
pub filter_text-injective :
    (f g : Filters)
    → InInt64 f.account_id
    → InInt64 g.account_id
    → IsSort f.sort
    → IsSort g.sort
    → filter_text f ≡ filter_text g
    → f ≡ g
unfolding filter_text
filter_text-injective f g hf hg sf sg e =
    let (ids, rest) =
      cut_at b'|' (format_int f.account_id) (format_int g.account_id) _ _ (no_bar f.account_id)
        (no_bar g.account_id) e in
    let (statuses, sorts) = status_and_sort f.status g.status f.sort g.sort sf sg rest in
    let some_id : some f.account_id ≡ some g.account_id =
      sym (parse_int-format_int f.account_id hf)
      ∙ ap parse_int ids
      ∙ parse_int-format_int g.account_id hg in
    let same : f.account_id ≡ g.account_id = cc some_id in cc
