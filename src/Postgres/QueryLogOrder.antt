-- ===== src/Postgres/QueryLogOrder.antt =====
-- The query log does not depend on the order in which Go iterates over a map.
use concevoir_une_api_pagine.Prelude.{
  [], ◌∷◌, true, false, Bytes, text_eq, text_eq→eq, ◌==◌, StrictOrder, Apart, Distinct, All,
  Bool-cases, ◌≡◌, ◌≢◌, inl, inr, refl, sym, ap, ◌∙◌, arith, subst,
}
use concevoir_une_api_pagine.Prelude.Permutations.{sort-Perm, Distinct-Perm}
use mathlib.Core.List.{Permᴰ}
use mathlib.Core.Path.{fun_ext}
use concevoir_une_api_pagine.Logger.{Attribute}
use concevoir_une_api_pagine.Postgres.QueryLog.{
  TraceLevel, TraceData, bytes_less, keys, value_at, log_query,
}

bytes_less_irrefl : (s : Bytes) → bytes_less s s ≡ false
unfolding bytes_less
bytes_less_irrefl [] = refl
bytes_less_irrefl (a ∷ s) = ground (arith, bytes_less_irrefl s)

bytes_less_trans :
    (s t u : Bytes) → bytes_less s t ≡ true → bytes_less t u ≡ true → bytes_less s u ≡ true
unfolding bytes_less
bytes_less_trans s t [] h k = cc
bytes_less_trans [] t (c ∷ u) h k = refl
bytes_less_trans (a ∷ s) [] (c ∷ u) h k = cc
bytes_less_trans (a ∷ s) (b ∷ t) (c ∷ u) h k = ground (arith, bytes_less_trans s t u)

bytes_less-StrictOrder : StrictOrder bytes_less
bytes_less-StrictOrder = record { irrefl = bytes_less_irrefl; trans = bytes_less_trans }

bytes_less_total : (s t : Bytes) → s ≢ t → Apart bytes_less s t
unfolding bytes_less
bytes_less_total [] [] h = absurd (h refl)
bytes_less_total [] (b ∷ t) h = inl refl
bytes_less_total (a ∷ s) [] h = inr refl
bytes_less_total (a ∷ s) (b ∷ t) h = elim (Bool-cases (a == b)) [
  | inl same ↦
      let heads : a ≡ b = ground arith in
      elim (bytes_less_total s t (λ e. h (rw (heads, e)))) [
        | inl less ↦ inl (ground arith)
        | inr more ↦ inr (ground arith)
      ]
  | inr differ ↦ ground arith
]

-- The entries of a map: no key stands twice.
abbrev pub HasDistinctKeys : TraceData → Type 0
HasDistinctKeys [] = Unit
HasDistinctKeys (e ∷ es) = All (λ f. e.0 ≢ f.0) es × HasDistinctKeys es

keys-Distinct : (d : TraceData) → HasDistinctKeys d → Distinct bytes_less (keys d)
keys-Distinct [] h = tt
keys-Distinct (e ∷ es) (h, hs) = (apart es h, keys-Distinct es hs)
  where
    apart : (fs : TraceData) → All (λ f. e.0 ≢ f.0) fs → All (Apart bytes_less e.0) (keys fs)
    apart [] h = tt
    apart (f ∷ fs) (h, hs) = (bytes_less_total e.0 f.0 h, apart fs hs)

keys-Perm : {d d' : TraceData} → Permᴰ d d' → Permᴰ (keys d) (keys d')
keys-Perm Permᴰ.nil = Permᴰ.nil
keys-Perm (Permᴰ.cons e p) = Permᴰ.cons (ap (λ x. x.0) e) (keys-Perm p)
keys-Perm (Permᴰ.swap e f) = Permᴰ.swap (ap (λ x. x.0) e) (ap (λ x. x.0) f)
keys-Perm (Permᴰ.trans p q) = Permᴰ.trans (keys-Perm p) (keys-Perm q)

never_less : (t : Bytes) → Apart bytes_less t t → ⊥
never_less t (inl less) = let same : false ≡ true = sym (bytes_less_irrefl t) ∙ less in cc
never_less t (inr less) = let same : false ≡ true = sym (bytes_less_irrefl t) ∙ less in cc

not_same : (s t k : Bytes) → Apart bytes_less s t → text_eq s k ≡ true → text_eq t k ≡ false
not_same s t k h e = elim (Bool-cases (text_eq t k)) [
  | inr other ↦ other
  | inl same ↦
      let equal : s ≡ t = text_eq→eq s k e ∙ sym (text_eq→eq t k same) in
      absurd (never_less t (subst (λ u. Apart bytes_less u t) equal h))
]

swapped :
    (a b : Bytes × Attribute) (l : TraceData) (k : Bytes)
    → Apart bytes_less a.0 b.0
    → value_at (a ∷ b ∷ l) k ≡ value_at (b ∷ a ∷ l) k
unfolding value_at
swapped a b l k h = elim (Bool-cases (text_eq a.0 k)) [
  | inl first ↦ rw (first, not_same a.0 b.0 k h first)
  | inr other ↦ rw other
]

value_at-Perm :
    {d d' : TraceData} (k : Bytes)
    → Permᴰ d d'
    → Distinct bytes_less (keys d)
    → value_at d k ≡ value_at d' k
unfolding value_at
value_at-Perm k Permᴰ.nil h = refl
value_at-Perm k (Permᴰ.cons e p) (_, hs) = rw (e, value_at-Perm k p hs)
value_at-Perm k (Permᴰ.swap {a} {b} {a'} {b'} {l} e f) ((h, _), _) = swapped a b l k h ∙ rw (e, f)
value_at-Perm k (Permᴰ.trans p q) h =
    value_at-Perm k p h ∙ value_at-Perm k q (Distinct-Perm bytes_less (keys-Perm p) h)

-- The record of a query is the same, in whichever order the entries of its map, whose keys
-- differ, are met.
pub log_query-Perm :
    (level : TraceLevel) (message : Bytes) (d d' : TraceData)
    → HasDistinctKeys d
    → Permᴰ d d'
    → log_query level message d ≡ log_query level message d'
unfolding log_query
log_query-Perm level message d d' h p =
    let distinct = keys-Distinct d h in
    let values : value_at d ≡ value_at d' = fun_ext (λ k. value_at-Perm k p distinct) in
    rw (sort-Perm bytes_less-StrictOrder (keys-Perm p) distinct, values)
