-- ===== src/Prelude/Members.antt =====
-- Members of lists: what a filter and a sort keep, and sorted lists put one behind the other.
use concevoir_une_api_pagine.Prelude.{
  List, [], ◌∷◌, ◌++◌, Bool, true, Bool-cases, filter, All, All-map, All-filter, Sorted,
  insert_sorted, sort, ◌≡◌, refl, sym, StrictOrder, length, ◌≤◌, arith, ◌⊎◌, inl, inr, subst,
}
use mathlib.Core.List.{Memᴰ}

module _ {ℓ} {A : Type ℓ} where
  pub All-Mem {κ} : (P : A → Type κ) {a : A} (xs : List A) → All P xs → Memᴰ a xs → P a
  All-Mem P [] _ m = elim m [ ]
  All-Mem P (x ∷ xs) (h, hs) (Memᴰ.head e) = subst P (sym e) h
  All-Mem P (x ∷ xs) (h, hs) (Memᴰ.tail m) = All-Mem P xs hs m

  pub All-members : (xs : List A) → All (λ x. Memᴰ x xs) xs
  All-members [] = tt
  All-members (x ∷ xs) = (Memᴰ.head refl, All-map xs (λ y m. Memᴰ.tail m) (All-members xs))

  pub filter-All : (p : A → Bool) (xs : List A) → All (λ x. p x ≡ true) (filter p xs)
  filter-All p [] = tt
  filter-All p (x ∷ xs) = elim (Bool-cases (p x)) [
    | inl e ↦ rw e (e, filter-All p xs)
    | inr e ↦ rw e (filter-All p xs)
  ]

  pub Mem-filter :
      (p : A → Bool) {a : A} (xs : List A) → p a ≡ true → Memᴰ a xs → Memᴰ a (filter p xs)
  Mem-filter p [] h m = elim m [ ]
  Mem-filter p (x ∷ xs) h (Memᴰ.head e) =
      let kept : p x ≡ true = subst (λ y. p y ≡ true) e h in rw kept (Memᴰ.head e)
  Mem-filter p (x ∷ xs) h (Memᴰ.tail m) = elim (Bool-cases (p x)) [
    | inl e ↦ rw e (Memᴰ.tail (Mem-filter p xs h m))
    | inr e ↦ rw e (Mem-filter p xs h m)
  ]

module _ {ℓ} {A : Type ℓ} (before : A → A → Bool) where
  insert_sorted-Mem :
      {a : A} (x : A) (ys : List A) → (a ≡ x) ⊎ Memᴰ a ys → Memᴰ a (insert_sorted before x ys)
  unfolding insert_sorted
  insert_sorted-Mem x [] (inl e) = Memᴰ.head e
  insert_sorted-Mem x [] (inr m) = Memᴰ.tail m
  insert_sorted-Mem {a} x (y ∷ ys) h = elim (Bool-cases (before x y)) [
    | inl b ↦ rw b (front h)
    | inr b ↦ rw b (behind (λ k. insert_sorted-Mem x ys k) h)
  ]
    where
      front : (a ≡ x) ⊎ Memᴰ a (y ∷ ys) → Memᴰ a (x ∷ y ∷ ys)
      front (inl e) = Memᴰ.head e
      front (inr m) = Memᴰ.tail m

      behind :
          ((a ≡ x) ⊎ Memᴰ a ys → Memᴰ a (insert_sorted before x ys))
          → (a ≡ x) ⊎ Memᴰ a (y ∷ ys)
          → Memᴰ a (y ∷ insert_sorted before x ys)
      behind ih (inl e) = Memᴰ.tail (ih (inl e))
      behind ih (inr (Memᴰ.head e)) = Memᴰ.head e
      behind ih (inr (Memᴰ.tail m)) = Memᴰ.tail (ih (inr m))

  pub sort-Mem : {a : A} (xs : List A) → Memᴰ a xs → Memᴰ a (sort before xs)
  unfolding sort
  sort-Mem [] m = elim m [ ]
  sort-Mem (x ∷ xs) (Memᴰ.head e) = insert_sorted-Mem x (sort before xs) (inl e)
  sort-Mem (x ∷ xs) (Memᴰ.tail m) = insert_sorted-Mem x (sort before xs) (inr (sort-Mem xs m))

  pub Sorted-filter : (p : A → Bool) (xs : List A) → Sorted before xs → Sorted before (filter p xs)
  Sorted-filter p [] h = tt
  Sorted-filter p (x ∷ xs) (h, hs) = elim (Bool-cases (p x)) [
    | inl e ↦ rw e (All-filter (λ y. before x y ≡ true) p xs h, Sorted-filter p xs hs)
    | inr e ↦ rw e (Sorted-filter p xs hs)
  ]

  -- The members behind a cut are behind the member in front of it.
  pub Sorted-behind :
      (xs : List A) (k : A) (ys : List A)
      → Sorted before ((xs ++ k ∷ []) ++ ys)
      → All (λ y. before k y ≡ true) ys
  Sorted-behind [] k ys (h, _) = h
  Sorted-behind (x ∷ xs) k ys (_, h) = Sorted-behind xs k ys h

module _ {ℓ} {A : Type ℓ} {before : A → A → Bool} (o : StrictOrder before) where
  -- Members that come behind another stand behind it.
  within_tail :
      (y : A) (xs ys : List A)
      → All (λ x. before y x ≡ true) xs
      → All (λ x. Memᴰ x (y ∷ ys)) xs
      → All (λ x. Memᴰ x ys) xs
  within_tail y [] ys b m = tt
  within_tail y (x ∷ xs) ys (b, bs) (m, ms) = (behind m, within_tail y xs ys bs ms)
    where
      behind : Memᴰ x (y ∷ ys) → Memᴰ x ys
      behind (Memᴰ.head e) =
          let self : before y y ≡ true = subst (λ z. before y z ≡ true) e b in cc (o.irrefl y)
      behind (Memᴰ.tail m) = m

  -- A sorted list of members of another sorted list is no longer than it.
  pub length-within :
      (xs ys : List A)
      → Sorted before xs
      → Sorted before ys
      → All (λ x. Memᴰ x ys) xs
      → length xs ≤ length ys
  length-within [] ys hx hy m = omega arith
  length-within (x ∷ xs) [] hx hy (m, _) = elim m [ ]
  length-within (x ∷ xs) (y ∷ ys) (b, hx) (c, hy) (Memᴰ.head e, ms) =
      let tail = within_tail y xs ys (subst (λ z. All (λ u. before z u ≡ true) xs) e b) ms in
      omega (arith, length-within xs ys hx hy tail)
  length-within (x ∷ xs) (y ∷ ys) (b, hx) (c, hy) (Memᴰ.tail m, ms) =
      let first : before y x ≡ true = All-Mem (λ z. before y z ≡ true) ys c m in
      let tail = within_tail y xs ys (All-map xs (λ z h. o.trans y x z first h) b) ms in
      omega (arith, length-within (x ∷ xs) ys (b, hx) hy (m, tail))
