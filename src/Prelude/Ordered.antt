-- ===== src/Prelude/Ordered.antt =====
-- Sorting by a strict order: insertion sort, its commuting with a filter, and cuts of sorted lists.
use mathlib.Core.Path.{◌≡◌, refl, ap, ◌∙◌}
use mathlib.Core.Bool.{Bool, true, false}
use mathlib.Core.Logic.{◌⊎◌, inl, inr}
use mathlib.Core.List.{List, [], ◌∷◌, ◌++◌}
use native.Mathlib.Omega.{arith}
use concevoir_une_api_pagine.Prelude.Tests.{if◌then◌else◌, Bool-cases}
use concevoir_une_api_pagine.Prelude.Lists.{
  filter, All, All-map, All-filter, All-append_left, All-append_right,
}

-- A strict order given by its test.
pub record StrictOrder {ℓ} {A : Type ℓ} (before : A → A → Bool) : Type ℓ where
  pub irrefl : (a : A) → before a a ≡ false
  pub trans : (a b c : A) → before a b ≡ true → before b c ≡ true → before a c ≡ true

module _ {ℓ} {A : Type ℓ} (before : A → A → Bool) where
  abbrev pub Apart : A → A → Type 0
  Apart a b = (before a b ≡ true) ⊎ (before b a ≡ true)

  -- Any two members are comparable.
  abbrev pub Distinct : List A → Type 0
  Distinct [] = Unit
  Distinct (x ∷ xs) = All (Apart x) xs × Distinct xs

  abbrev pub Sorted : List A → Type 0
  Sorted [] = Unit
  Sorted (x ∷ xs) = All (λ y. before x y ≡ true) xs × Sorted xs

  unfoldable pub insert_sorted : A → List A → List A
  insert_sorted x [] = x ∷ []
  insert_sorted x (y ∷ ys) = if before x y then x ∷ y ∷ ys else y ∷ insert_sorted x ys

  unfoldable pub sort : List A → List A
  sort [] = []
  sort (x ∷ xs) = insert_sorted x (sort xs)

module _ {ℓ κ} {A : Type ℓ} (P : A → Type κ) (before : A → A → Bool) where
  pub All-insert_sorted : (x : A) (ys : List A) → P x → All P ys → All P (insert_sorted before x ys)
  unfolding insert_sorted
  All-insert_sorted x [] px h = (px, tt)
  All-insert_sorted x (y ∷ ys) px (py, h) = elim (Bool-cases (before x y)) [
    | inl e ↦ rw e (px, (py, h))
    | inr e ↦ rw e (py, All-insert_sorted x ys px h)
  ]

  pub All-sort : (xs : List A) → All P xs → All P (sort before xs)
  unfolding sort
  All-sort [] h = tt
  All-sort (x ∷ xs) (px, h) = All-insert_sorted x (sort before xs) px (All-sort xs h)

module _ {ℓ} {A : Type ℓ} (p : A → Bool) where
  pub filter_of_All : (xs : List A) → All (λ x. p x ≡ true) xs → filter p xs ≡ xs
  filter_of_All [] h = refl
  filter_of_All (x ∷ xs) (e, h) = rw e (ap (◌∷◌ x) (filter_of_All xs h))

  pub filter_of_none : (xs : List A) → All (λ x. p x ≡ false) xs → filter p xs ≡ []
  filter_of_none [] h = refl
  filter_of_none (x ∷ xs) (e, h) = rw e (filter_of_none xs h)

  pub filter-append : (xs ys : List A) → filter p (xs ++ ys) ≡ filter p xs ++ filter p ys
  filter-append [] ys = refl
  filter-append (x ∷ xs) ys = elim (Bool-cases (p x)) [
    | inl e ↦ rw e (ap (◌∷◌ x) (filter-append xs ys))
    | inr e ↦ rw e (filter-append xs ys)
  ]

module _ {ℓ} {A : Type ℓ} {before : A → A → Bool} (o : StrictOrder before) where
  pub asym : (a b : A) → before a b ≡ true → before b a ≡ false
  asym a b h = elim (Bool-cases (before b a)) [
    | inl e ↦ cc (o.trans a b a h e, o.irrefl a)
    | inr e ↦ e
  ]

  before-All :
      (x y : A) (ys : List A)
      → before x y ≡ true
      → All (λ z. before y z ≡ true) ys
      → All (λ z. before x z ≡ true) ys
  before-All x y ys h k = All-map ys (λ z. o.trans x y z h) k

  insert_sorted-Sorted :
      (x : A) (ys : List A)
      → All (Apart before x) ys
      → Sorted before ys
      → Sorted before (insert_sorted before x ys)
  unfolding insert_sorted
  insert_sorted-Sorted x [] a s = (tt, tt)
  insert_sorted-Sorted x (y ∷ ys) (a, as') (k, s) = elim (Bool-cases (before x y)) [
    | inl e ↦ rw e ((e, before-All x y ys e k), (k, s))
    | inr e ↦ rw e (
      All-insert_sorted (λ z. before y z ≡ true) before x ys (ground arith) k,
      insert_sorted-Sorted x ys as' s,
    )
  ]

  pub sort-Sorted : (xs : List A) → Distinct before xs → Sorted before (sort before xs)
  unfolding sort
  sort-Sorted [] d = tt
  sort-Sorted (x ∷ xs) (a, d) =
      insert_sorted-Sorted x (sort before xs) (All-sort (Apart before x) before xs a)
        (sort-Sorted xs d)

  insert_sorted_front :
      (x : A) (ys : List A) → All (λ z. before x z ≡ true) ys → insert_sorted before x ys ≡ x ∷ ys
  unfolding insert_sorted
  insert_sorted_front x [] h = refl
  insert_sorted_front x (y ∷ ys) (e, _) = rw e

  filter-insert_sorted :
      (p : A → Bool) (x : A) (ys : List A)
      → Sorted before ys
      → filter p (insert_sorted before x ys)
        ≡ (if p x then insert_sorted before x (filter p ys) else filter p ys)
  unfolding insert_sorted
  filter-insert_sorted p x [] s = refl
  filter-insert_sorted p x (y ∷ ys) (k, s) = elim (Bool-cases (before x y)) [
    | inl e ↦
        let front =
          insert_sorted_front x (filter p (y ∷ ys))
            (All-filter (λ z. before x z ≡ true) p (y ∷ ys) (e, before-All x y ys e k)) in
        rw e (rw front refl)
    | inr e ↦ rw e (ground (arith, filter-insert_sorted p x ys s))
  ]

  pub filter-sort :
      (p : A → Bool) (xs : List A)
      → Distinct before xs
      → filter p (sort before xs) ≡ sort before (filter p xs)
  unfolding sort
  filter-sort p [] d = refl
  filter-sort p (x ∷ xs) (a, d) =
      let ih = filter-sort p xs d in
      filter-insert_sorted p x (sort before xs) (sort-Sorted xs d)
      ∙ elim (Bool-cases (p x)) [ inl e ↦ rw (e, ih) | inr e ↦ rw (e, ih) ]

  pub Sorted-append_left : (xs ys : List A) → Sorted before (xs ++ ys) → Sorted before xs
  Sorted-append_left [] ys s = tt
  Sorted-append_left (x ∷ xs) ys (k, s) =
      (All-append_left (λ z. before x z ≡ true) xs ys k, Sorted-append_left xs ys s)

  pub Sorted-append_right : (xs ys : List A) → Sorted before (xs ++ ys) → Sorted before ys
  Sorted-append_right [] ys s = s
  Sorted-append_right (x ∷ xs) ys (k, s) = Sorted-append_right xs ys s

  -- What a sorted list holds after one of its members is what stands behind it.
  pub filter_after :
      (xs : List A) (k : A) (ys : List A)
      → Sorted before (xs ++ k ∷ ys)
      → filter (before k) (xs ++ k ∷ ys) ≡ ys
  filter_after [] k ys (h, s) = rw (o.irrefl k) (filter_of_All (before k) ys h)
  filter_after (x ∷ xs) k ys (h, s) =
      let first = (All-append_right (λ z. before x z ≡ true) xs (k ∷ ys) h).0 in
      rw (asym x k first) (filter_after xs k ys s)

-- What comes before everything in a list is sorted in front of it.
module _ {ℓ} {A : Type ℓ} (before : A → A → Bool) where
  insert_sorted-append :
      (x : A) (xs ys : List A)
      → All (λ y. before x y ≡ true) ys
      → insert_sorted before x (xs ++ ys) ≡ insert_sorted before x xs ++ ys
  unfolding insert_sorted
  insert_sorted-append x [] [] h = refl
  insert_sorted-append x [] (y ∷ ys) (b, _) = rw b refl
  insert_sorted-append x (z ∷ xs) ys h = elim (Bool-cases (before x z)) [
    | inl e ↦ rw e refl
    | inr e ↦ rw e (ap (◌∷◌ z) (insert_sorted-append x xs ys h))
  ]

  pub sort-append :
      (xs ys : List A)
      → All (λ x. All (λ y. before x y ≡ true) (sort before ys)) xs
      → sort before (xs ++ ys) ≡ sort before xs ++ sort before ys
  unfolding sort
  sort-append [] ys h = refl
  sort-append (x ∷ xs) ys (hx, h) =
      ap (insert_sorted before x) (sort-append xs ys h)
      ∙ insert_sorted-append x (sort before xs) (sort before ys) hx
