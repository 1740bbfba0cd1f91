-- ===== src/Prelude/Cuts.antt =====
-- Where texts that are put together come apart again.
use concevoir_une_api_pagine.Prelude.Texts.{Bytes}
use concevoir_une_api_pagine.Prelude.Lists.{All}
use Prim.Native.Nat.{ℕ}
use mathlib.Core.Path.{◌≡◌, refl, sym}
use mathlib.Core.Logic.{◌≢◌}
use mathlib.Core.List.{[], ◌∷◌, ◌++◌}

pub head_and_tail : (x y : ℕ) (s t : Bytes) → x ∷ s ≡ y ∷ t → (x ≡ y) × (s ≡ t)
head_and_tail x y s t e = (cc e, cc e)

-- A common front is cut off.
pub cut_front : (u s t : Bytes) → u ++ s ≡ u ++ t → s ≡ t
cut_front [] s t e = e
cut_front (x ∷ u) s t e = cut_front u s t (head_and_tail x x _ _ e).1

-- A text without a mark ends at the first mark.
pub cut_at :
    (mark : ℕ) (xs ys s t : Bytes)
    → All (λ c. c ≢ mark) xs
    → All (λ c. c ≢ mark) ys
    → xs ++ mark ∷ s ≡ ys ++ mark ∷ t
    → (xs ≡ ys) × (s ≡ t)
cut_at mark [] [] s t h k e = (refl, (head_and_tail _ _ _ _ e).1)
cut_at mark [] (y ∷ ys) s t h (k, _) e = absurd (k (sym (head_and_tail _ _ _ _ e).0))
cut_at mark (x ∷ xs) [] s t (h, _) k e = absurd (h (head_and_tail _ _ _ _ e).0)
cut_at mark (x ∷ xs) (y ∷ ys) s t (_, h) (_, k) e =
    let (same, rest) = head_and_tail x y _ _ e in
    let (front, back) = cut_at mark xs ys s t h k rest in (rw (same, front), back)
