-- ===== src/Go/Json/Numbers.antt =====
-- A JSON number, as its text and the rest: an optional minus, an integer with no leading zero, an
-- optional fraction and an optional exponent.
use concevoir_une_api_pagine.Prelude.{
  ℕ, [], ◌∷◌, ◌++◌, Bool-cases, inl, inr, ◌⊎◌, ==_iff, ◌∙◌, sym, subst, append-nil, suc, ℤ, pos,
  negsuc, Option, none, some, ◌||◌, Bytes, ◌==◌, if◌then◌else◌, ◌≡◌, arith, All,
}
use concevoir_une_api_pagine.Prelude.Options.{◌>>=◌}
use concevoir_une_api_pagine.Go.Strconv.{is_digit, format_nat, format_int}
use concevoir_une_api_pagine.Go.Strconv.RoundTrip.{IsDigit, format_nat-IsDigit, format_nat_head}

unfoldable pub span_digits : Bytes → Bytes × Bytes
span_digits [] = ([], [])
span_digits (c ∷ s) =
    let (ds, rest) = span_digits s in if is_digit c then (c ∷ ds, rest) else ([], c ∷ s)

digits1 : Bytes → Option (Bytes × Bytes)
digits1 [] = none
digits1 (c ∷ s) = let (ds, rest) = span_digits s in if is_digit c then some (c ∷ ds, rest) else none

integer : Bytes → Option (Bytes × Bytes)
integer [] = none
integer (c ∷ s) = if c == b'0' then some (c ∷ [], s) else digits1 (c ∷ s)

fraction : Bytes → Option (Bytes × Bytes)
fraction [] = some ([], [])
fraction (c ∷ s) =
    if c == b'.' then (do (ds, rest) ← digits1 s; some (c ∷ ds, rest)) else some ([], c ∷ s)

signed : Bytes → Option (Bytes × Bytes)
signed [] = none
signed (c ∷ s) =
    if c == b'+' || c == b'-'
    then (do (ds, rest) ← digits1 s; some (c ∷ ds, rest))
    else digits1 (c ∷ s)

exponent : Bytes → Option (Bytes × Bytes)
exponent [] = some ([], [])
exponent (c ∷ s) =
    if c == b'e' || c == b'E'
    then (do (ds, rest) ← signed s; some (c ∷ ds, rest))
    else some ([], c ∷ s)

unsigned : Bytes → Option (Bytes × Bytes)
unsigned s = do
  (whole, s1) ← integer s
  (part, s2) ← fraction s1
  (power, s3) ← exponent s2
  some (whole ++ part ++ power, s3)

unfoldable pub number_text : Bytes → Option (Bytes × Bytes)
unfolding digits1 integer fraction signed exponent unsigned
number_text [] = none
number_text (c ∷ s) =
    if c == b'-' then (do (t, rest) ← unsigned s; some (c ∷ t, rest)) else unsigned (c ∷ s)

-- A number ends before a comma or a brace.
abbrev pub Ends : Bytes → Type 0
Ends [] = ⊥
Ends (c ∷ s) = (c ≡ b',') ⊎ (c ≡ b'}')

span_digits_end : (s : Bytes) → Ends s → span_digits s ≡ ([], s)
unfolding span_digits
span_digits_end [] e = absurd e
span_digits_end (c ∷ s) e = ground arith

span_digits-append : (ds s : Bytes) → All IsDigit ds → Ends s → span_digits (ds ++ s) ≡ (ds, s)
unfolding span_digits
span_digits-append [] s h e = span_digits_end s e
span_digits-append (d ∷ ds) s (hd, h) e = ground (arith, span_digits-append ds s h e)

no_fraction : (s : Bytes) → Ends s → fraction s ≡ some ([], s)
unfolding fraction
no_fraction [] e = absurd e
no_fraction (c ∷ s) e = ground arith

no_exponent : (s : Bytes) → Ends s → exponent s ≡ some ([], s)
unfolding exponent
no_exponent [] e = absurd e
no_exponent (c ∷ s) e = ground arith

-- Digits that have no leading zero, unless they are one zero.
abbrev IsInteger : Bytes → Type 0
IsInteger [] = ⊥
IsInteger (c ∷ ds) = IsDigit c × All IsDigit ds × (c ≡ b'0' → ds ≡ [])

integer-append : (t s : Bytes) → IsInteger t → Ends s → integer (t ++ s) ≡ some (t, s)
unfolding integer digits1
integer-append [] s h e = absurd h
integer-append (c ∷ ds) s (hc, h, z) e = elim (Bool-cases (c == b'0')) [
  | inl zero ↦ rw (zero, z ((==_iff c b'0').0 zero))
  | inr other ↦ rw (other, span_digits-append ds s h e) (ground arith)
]

unsigned-append : (t s : Bytes) → IsInteger t → Ends s → unsigned (t ++ s) ≡ some (t, s)
unfolding unsigned
unsigned-append t s h e =
    rw (integer-append t s h e, no_fraction s e, no_exponent s e, append-nil, append-nil)

format_nat-IsInteger : (n : ℕ) → IsInteger (format_nat n)
format_nat-IsInteger n =
    let (c, t, same, d, z) = format_nat_head n in
    let ds = subst (All IsDigit) same (format_nat-IsDigit n) in
    subst IsInteger (sym same) (d, ds.1, λ e. (z e).1)

unsigned_first : (t s : Bytes) → IsInteger t → number_text (t ++ s) ≡ unsigned (t ++ s)
unfolding number_text
unsigned_first [] s h = absurd h
unsigned_first (c ∷ ds) s h = ground arith

-- The text of an integer is one number.
pub number_text-format_int :
    (z : ℤ) (s : Bytes) → Ends s → number_text (format_int z ++ s) ≡ some (format_int z, s)
unfolding format_int
number_text-format_int (pos n) s e =
    let whole = format_nat-IsInteger n in
    unsigned_first (format_nat n) s whole ∙ unsigned-append (format_nat n) s whole e
number_text-format_int (negsuc n) s e =
    unfold number_text in
    rw (unsigned-append (format_nat (suc n)) s (format_nat-IsInteger (suc n)) e)
