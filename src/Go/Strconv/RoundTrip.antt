-- ===== src/Go/Strconv/RoundTrip.antt =====
-- Reading back what `FormatInt` writes.
use concevoir_une_api_pagine.Prelude.{
  ℕ, zero, suc, ◌+◌, ◌/◌, ◌%◌, ◌≤◌, ◌<◌, [], ◌∷◌, ◌++◌, some, ◌≡◌, ◌∙◌, refl, arith, Bytes, All,
  All-map, ◌⊎◌, ltb, Bool-cases, inl, inr, ℤ, pos, negsuc, InInt64,
}
use concevoir_une_api_pagine.Go.Strconv.{
  digits, format_nat, format_int, scan, parse_nat, positive, parse_int,
}

abbrev pub IsDigit : ℕ → Type 0
IsDigit c = (b'0' ≤ c) × (c ≤ b'9')

scan_digit : (n : ℕ) (out : Bytes) → scan ((b'0' + n % 10) ∷ out) (n / 10) ≡ scan out n
unfolding scan
scan_digit n out = ground arith

scan-digits : (f n : ℕ) (out : Bytes) → n < f → scan (digits f n out) 0 ≡ scan out n
unfolding digits
scan-digits zero n out h = absurd (omega arith)
scan-digits (suc f) n out h = elim (Bool-cases (ltb n 10)) [
  | inl small ↦ rw small (unfold scan in (ground arith))
  | inr large ↦
      rw (large, scan-digits f (n / 10) ((b'0' + n % 10) ∷ out) (ground arith)) (scan_digit n out)
]

-- What `digits` puts in front of `out` does not depend on it.
pub digits-append : (f n : ℕ) (out rest : Bytes) → digits f n out ++ rest ≡ digits f n (out ++ rest)
unfolding digits
digits-append zero n out rest = refl
digits-append (suc f) n out rest = elim (Bool-cases (ltb n 10)) [
  | inl small ↦ rw small
  | inr large ↦ rw large (digits-append f (n / 10) ((b'0' + n % 10) ∷ out) rest)
]

digits-IsDigit : (f n : ℕ) (out : Bytes) → All IsDigit out → All IsDigit (digits f n out)
unfolding digits
digits-IsDigit zero n out h = h
digits-IsDigit (suc f) n out h = elim (Bool-cases (ltb n 10)) [
  | inl small ↦ rw small (omega arith, h)
  | inr large ↦ rw large (digits-IsDigit f (n / 10) ((b'0' + n % 10) ∷ out) (omega arith, h))
]

pub format_nat-IsDigit : (n : ℕ) → All IsDigit (format_nat n)
unfolding format_nat
format_nat-IsDigit n = digits-IsDigit (suc n) n [] tt

-- The first digit is there, and it is zero for zero alone.
digits_head :
    (f n : ℕ) (out : Bytes)
    → n < f
    → (c : ℕ) × (s : Bytes) × (digits f n out ≡ c ∷ s)
      × IsDigit c
      × (c ≡ b'0' → (n ≡ 0) × (s ≡ out))
unfolding digits
digits_head zero n out h = absurd (omega arith)
digits_head (suc f) n out h = elim (Bool-cases (ltb n 10)) [
  | inl small ↦ rw small ((b'0' + n % 10), out, refl, omega arith, λ e. (ground arith, refl))
  | inr large ↦
      let (c, s, e, d, z) = digits_head f (n / 10) ((b'0' + n % 10) ∷ out) (ground arith) in
      rw large (c, s, e, d, λ k. absurd (ground (arith, z k)))
]

pub format_nat_head :
    (n : ℕ)
    → (c : ℕ) × (s : Bytes) × (format_nat n ≡ c ∷ s) × IsDigit c × (c ≡ b'0' → (n ≡ 0) × (s ≡ []))
unfolding format_nat
format_nat_head n = digits_head (suc n) n [] (omega arith)

parse_nat-scan : (s : Bytes) (c : ℕ) (t : Bytes) → s ≡ c ∷ t → parse_nat s ≡ scan s 0
unfolding parse_nat
parse_nat-scan [] c t e = cc
parse_nat-scan (_ ∷ _) c t e = refl

pub parse_nat-format_nat : (n : ℕ) → parse_nat (format_nat n) ≡ some n
parse_nat-format_nat n =
    let (c, s, e, _, _) = format_nat_head n in
    parse_nat-scan (format_nat n) c s e ∙ scan-format_nat n
  where
    scan-format_nat : (n : ℕ) → scan (format_nat n) 0 ≡ some n
    scan-format_nat n = unfold format_nat scan in scan-digits (suc n) n [] (omega arith)

parse_positive :
    (s : Bytes) (c : ℕ) (t : Bytes) → s ≡ c ∷ t → IsDigit c → parse_int s ≡ positive (parse_nat s)
unfolding parse_int
parse_positive [] c t e d = cc
parse_positive (x ∷ s) c t e d = ground (arith, head_eq x c s t e)
  where
    head_eq : (x c : ℕ) (s t : Bytes) → x ∷ s ≡ c ∷ t → x ≡ c
    head_eq x c s t e = cc

-- `ParseInt` reads back what `FormatInt` writes, for every `int64`.
pub parse_int-format_int : (z : ℤ) → InInt64 z → parse_int (format_int z) ≡ some z
unfolding format_int
parse_int-format_int (pos n) h =
    let (c, s, e, d, _) = format_nat_head n in
    rw (parse_positive (format_nat n) c s e d, parse_nat-format_nat n) (ground arith)
parse_int-format_int (negsuc n) h =
    unfold parse_int in rw (parse_nat-format_nat (suc n)) (ground arith)

-- The characters of an integer are digits and a minus.
pub format_int-IsDigit : (z : ℤ) → All (λ c. IsDigit c ⊎ (c ≡ b'-')) (format_int z)
unfolding format_int
format_int-IsDigit (pos n) = All-map (format_nat n) (λ c d. inl d) (format_nat-IsDigit n)
format_int-IsDigit (negsuc n) =
    (inr refl, All-map (format_nat (suc n)) (λ c d. inl d) (format_nat-IsDigit (suc n)))
