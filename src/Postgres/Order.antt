-- ===== src/Postgres/Order.antt =====
-- The order of a listing: `ORDER BY` is a strict order, total on rows with distinct ids, and the
-- bound of the next page is that order seen from a row.
use concevoir_une_api_pagine.Prelude.{
  List, [], ◌∷◌, Bool, true, false, ◌&&◌, ◌||◌, ◌≡◌, ◌≢◌, refl, ◌⊎◌, inl, inr, sym, arith, ◌∙◌,
  codes, text_eq, if◌then◌else◌, Bool-cases, ℤ, ltb_ℤ, eqb_ℤ, All, All-map, All-filter, filter,
  StrictOrder, Apart, Distinct,
}
use concevoir_une_api_pagine.Domain.{Transaction, Sort, Bound, is_descending}
use concevoir_une_api_pagine.Postgres.Statements.{Direction, ascending, descending}
use concevoir_une_api_pagine.Postgres.Database.{row_before, tuple_less, tuple_greater}

-- Keys compare lexicographically.
key_less : ℤ → ℤ → ℤ → ℤ → Bool
key_less c i c' i' = ltb_ℤ c c' || eqb_ℤ c c' && ltb_ℤ i i'

key_less_irrefl : (c i : ℤ) → key_less c i c i ≡ false
unfolding key_less
key_less_irrefl c i = ground arith

key_less_trans :
    (c1 i1 c2 i2 c3 i3 : ℤ)
    → key_less c1 i1 c2 i2 ≡ true
    → key_less c2 i2 c3 i3 ≡ true
    → key_less c1 i1 c3 i3 ≡ true
unfolding key_less
key_less_trans c1 i1 c2 i2 c3 i3 h k = ground arith

key_less_total :
    (c i c' i' : ℤ) → i ≢ i' → (key_less c i c' i' ≡ true) ⊎ (key_less c' i' c i ≡ true)
unfolding key_less
key_less_total c i c' i' h = ground arith

row_before_key :
    (x y : Transaction)
    → (row_before ascending ascending x y ≡ key_less x.created_at x.id y.created_at y.id)
      × (row_before descending descending x y ≡ key_less y.created_at y.id x.created_at x.id)
unfolding key_less
row_before_key x y = ground arith

-- The order that spec/contract.md gives each value of `sort`: created_at:asc alone shows the oldest
-- row first.
unfoldable pub is_newest_first : Sort → Bool
is_newest_first s = if text_eq s (codes "created_at:asc") then false else true

pub is_descending-is_newest_first : (s : Sort) → is_descending s ≡ is_newest_first s
unfolding is_descending is_newest_first
is_descending-is_newest_first s = elim (Bool-cases (text_eq s (codes "created_at:asc"))) [
  | inl ascends ↦ rw ascends refl
  | inr descends ↦ rw descends refl
]

-- Both columns run in one direction.
abbrev pub direction_of : Sort → Direction
direction_of s = if is_newest_first s then descending else ascending

-- The order in which a listing shows the rows.
unfoldable pub shown_before : Sort → Transaction → Transaction → Bool
shown_before s = row_before (direction_of s) (direction_of s)

-- The rows that the next page's bound lets through.
unfoldable pub after_bound : Sort → Bound → Transaction → Bool
after_bound s b t =
    if is_newest_first s then tuple_less t b.created_at b.id else tuple_greater t b.created_at b.id

abbrev pub bound_of : Transaction → Bound
bound_of t = record { created_at = t.created_at; id = t.id }

pub shown_before-StrictOrder : (s : Sort) → StrictOrder (shown_before s)
unfolding shown_before
shown_before-StrictOrder s = elim (Bool-cases (is_newest_first s)) [
  | inl d ↦ rw d (record {
    irrefl = λ a. rw (row_before_key a a).1 (key_less_irrefl a.created_at a.id);
    trans = λ a b c h k.
        (row_before_key a c).1
        ∙ key_less_trans c.created_at c.id b.created_at b.id a.created_at a.id
            (sym (row_before_key b c).1 ∙ k) (sym (row_before_key a b).1 ∙ h);
  })
  | inr d ↦ rw d (record {
    irrefl = λ a. rw (row_before_key a a).0 (key_less_irrefl a.created_at a.id);
    trans = λ a b c h k.
        (row_before_key a c).0
        ∙ key_less_trans a.created_at a.id b.created_at b.id c.created_at c.id
            (sym (row_before_key a b).0 ∙ h) (sym (row_before_key b c).0 ∙ k);
  })
]

pub shown_before-Apart : (s : Sort) (x y : Transaction) → x.id ≢ y.id → Apart (shown_before s) x y
unfolding shown_before
shown_before-Apart s x y h = elim (Bool-cases (is_newest_first s)) [
  | inl d ↦
      rw (d, (row_before_key x y).1, (row_before_key y x).1)
        (key_less_total y.created_at y.id x.created_at x.id (λ e. h (sym e)))
  | inr d ↦
      rw (d, (row_before_key x y).0, (row_before_key y x).0)
        (key_less_total x.created_at x.id y.created_at y.id h)
]

-- The primary key: no id stands twice.
abbrev pub HasUniqueIds : List Transaction → Type 0
HasUniqueIds [] = Unit
HasUniqueIds (x ∷ xs) = All (λ y. x.id ≢ y.id) xs × HasUniqueIds xs

pub HasUniqueIds-Distinct :
    (s : Sort) (xs : List Transaction) → HasUniqueIds xs → Distinct (shown_before s) xs
HasUniqueIds-Distinct s [] h = tt
HasUniqueIds-Distinct s (x ∷ xs) (hx, h) =
    (All-map xs (λ y. shown_before-Apart s x y) hx, HasUniqueIds-Distinct s xs h)

pub HasUniqueIds-filter :
    (p : Transaction → Bool) (xs : List Transaction) → HasUniqueIds xs → HasUniqueIds (filter p xs)
HasUniqueIds-filter p [] h = tt
HasUniqueIds-filter p (x ∷ xs) (hx, h) = elim (Bool-cases (p x)) [
  | inl e ↦ rw e (All-filter (λ y. x.id ≢ y.id) p xs hx, HasUniqueIds-filter p xs h)
  | inr e ↦ rw e (HasUniqueIds-filter p xs h)
]

-- Past the bound of a row stand the rows that are shown behind it.
pub after_bound-bound_of :
    (s : Sort) (k t : Transaction) → after_bound s (bound_of k) t ≡ shown_before s k t
unfolding after_bound shown_before
after_bound-bound_of s k t = elim (Bool-cases (is_newest_first s)) [
  | inl d ↦ rw d (ground arith)
  | inr d ↦ rw d (ground arith)
]
