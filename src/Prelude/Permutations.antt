-- ===== src/Prelude/Permutations.antt =====
-- Sorting forgets the order of a list whose members are comparable.
use concevoir_une_api_pagine.Prelude.{
  List, [], ◌∷◌, Bool, true, Bool-cases, All, StrictOrder, Apart, Distinct, insert_sorted, sort,
  asym, ◌≡◌, refl, sym, subst, ◌∙◌, inl, inr,
}
use mathlib.Core.List.{Permᴰ}

pub All-Perm {ℓ κ} :
    {A : Type ℓ} (P : A → Type κ) {xs ys : List A} → Permᴰ xs ys → All P xs → All P ys
All-Perm P Permᴰ.nil h = h
All-Perm P (Permᴰ.cons e p) (h, hs) = (subst P e h, All-Perm P p hs)
All-Perm P (Permᴰ.swap e f) (h, (k, hs)) = (subst P f k, (subst P e h, hs))
All-Perm P (Permᴰ.trans p q) h = All-Perm P q (All-Perm P p h)

module _ {ℓ} {A : Type ℓ} (before : A → A → Bool) where
  Apart-sym : (x y : A) → Apart before x y → Apart before y x
  Apart-sym x y (inl h) = inr h
  Apart-sym x y (inr h) = inl h

  pub Distinct-Perm : {xs ys : List A} → Permᴰ xs ys → Distinct before xs → Distinct before ys
  Distinct-Perm Permᴰ.nil h = h
  Distinct-Perm (Permᴰ.cons {a} {b} {l₁} {l₂} e p) (h, hs) =
      (subst (λ x. All (Apart before x) l₂) e (All-Perm (Apart before a) p h), Distinct-Perm p hs)
  Distinct-Perm (Permᴰ.swap {a} {b} {a'} {b'} {l} e f) ((h, ha), (hb, hs)) = (
    (
      subst (λ x. Apart before x b') f (subst (λ x. Apart before b x) e (Apart-sym a b h)),
      subst (λ x. All (Apart before x) l) f hb,
    ),
    (subst (λ x. All (Apart before x) l) e ha, hs),
  )
  Distinct-Perm (Permᴰ.trans p q) h = Distinct-Perm q (Distinct-Perm p h)

module _ {ℓ} {A : Type ℓ} {before : A → A → Bool} (o : StrictOrder before) where
  -- The smaller of two members is inserted in front, whichever is inserted first.
  insert_before :
      (x y : A) (l : List A)
      → before x y ≡ true
      → insert_sorted before x (insert_sorted before y l)
        ≡ insert_sorted before y (insert_sorted before x l)
  unfolding insert_sorted
  insert_before x y [] h = rw (h, asym o x y h)
  insert_before x y (z ∷ zs) h = elim (Bool-cases (before y z)) [
    | inl yz ↦ rw (yz, o.trans x y z h yz, h, asym o x y h, yz)
    | inr not_yz ↦ elim (Bool-cases (before x z)) [
      | inl xz ↦ rw (not_yz, xz, asym o x y h, not_yz)
      | inr not_xz ↦ rw (not_yz, not_xz, not_yz, insert_before x y zs h)
    ]
  ]

  insert-Apart :
      (x y : A) (l : List A)
      → Apart before x y
      → insert_sorted before x (insert_sorted before y l)
        ≡ insert_sorted before y (insert_sorted before x l)
  insert-Apart x y l (inl h) = insert_before x y l h
  insert-Apart x y l (inr h) = sym (insert_before y x l h)

  -- Two orders of a list whose members are comparable are sorted alike.
  pub sort-Perm :
      {xs ys : List A} → Permᴰ xs ys → Distinct before xs → sort before xs ≡ sort before ys
  unfolding sort
  sort-Perm Permᴰ.nil h = refl
  sort-Perm (Permᴰ.cons e p) (h, hs) = rw (e, sort-Perm p hs)
  sort-Perm (Permᴰ.swap {a} {b} {a'} {b'} {l} e f) ((h, _), _) =
      insert-Apart a b (sort before l) h ∙ rw (e, f)
  sort-Perm (Permᴰ.trans p q) h = sort-Perm p h ∙ sort-Perm q (Distinct-Perm before p h)
