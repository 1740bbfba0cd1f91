-- ===== src/Go/Strconv.antt =====
-- `strconv`: `FormatInt`, `Itoa`, `ParseInt` and `Atoi` in base ten and 64 bits.
-- An error of `ParseInt`, of syntax or of range, is `none`: the program never tells them apart.
pub mod RoundTrip
use concevoir_une_api_pagine.Prelude.{
  ℕ, zero, suc, ◌+◌, ◌-◌, ◌*◌, ◌/◌, ◌%◌, ◌^◌, [], ◌∷◌, Bool, Option, none, some, ◌≡◌, refl, Bytes,
  codes, ltb, leb, ◌==◌, if◌then◌else◌, ◌&&◌, ℤ, pos, negsuc, sub_ℕ,
}

-- The decimal digits of `n` in front of `out`; the first argument bounds the rounds.
unfoldable pub digits : ℕ → ℕ → Bytes → Bytes
digits zero n out = out
digits (suc f) n out =
    let out' = (b'0' + n % 10) ∷ out in
    let rest = digits f (n / 10) out' in if ltb n 10 then out' else rest

unfoldable pub format_nat : ℕ → Bytes
unfolding digits
format_nat n = digits (suc n) n []

unfoldable pub format_int : ℤ → Bytes
unfolding format_nat
format_int (pos n) = format_nat n
format_int (negsuc n) = b'-' ∷ format_nat (suc n)

abbrev pub is_digit : ℕ → Bool
is_digit c = leb b'0' c && leb c b'9'

-- The number that the digits spell behind `n`.
unfoldable pub scan : Bytes → ℕ → Option ℕ
scan [] n = some n
scan (c ∷ s) n = let rest = scan s (n * 10 + (c - b'0')) in if is_digit c then rest else none

unfoldable pub parse_nat : Bytes → Option ℕ
unfolding scan
parse_nat [] = none
parse_nat (c ∷ s) = scan (c ∷ s) 0

-- The signed value, if it fits 64 bits.
abbrev pub positive : Option ℕ → Option ℤ
positive none = none
positive (some n) = if ltb n (2 ^ 63) then some (pos n) else none

abbrev pub negative : Option ℕ → Option ℤ
negative none = none
negative (some n) = if leb n (2 ^ 63) then some (sub_ℕ 0 n) else none

unfoldable pub parse_int : Bytes → Option ℤ
unfolding parse_nat
parse_int [] = none
parse_int (c ∷ s) =
    if c == b'-'
    then negative (parse_nat s)
    else if c == b'+'
    then positive (parse_nat s)
    else positive (parse_nat (c ∷ s))
