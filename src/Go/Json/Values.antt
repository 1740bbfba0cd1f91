-- ===== src/Go/Json/Values.antt =====
-- How a text that the program writes is read: its values, and its members one by one.
use concevoir_une_api_pagine.Prelude.{
  ℕ, suc, ◌+◌, [], ◌∷◌, ◌++◌, true, false, some, ◌≡◌, ◌⊎◌, inl, inr, refl, sym, arith, ◌∙◌, Bytes,
  All, codes, ◌==◌, ℤ, pos, negsuc, subst,
}
use concevoir_une_api_pagine.Prelude.Options.{◌>>=◌}
use concevoir_une_api_pagine.Go.Strconv.{format_int, format_nat}
use concevoir_une_api_pagine.Go.Strconv.RoundTrip.{IsDigit, format_nat_head}
use concevoir_une_api_pagine.Go.Json.{
  Json, bool, num, str, obj, Members, end, member, value, members, member_name, skip_space,
  separator, colon, quote, word,
}
use concevoir_une_api_pagine.Go.Json.Strings.{string_text_plain, IsPlain}
use concevoir_une_api_pagine.Go.Json.Numbers.{number_text, number_text-format_int, Ends}

pub value_string :
    (f depth : ℕ) (s rest : Bytes)
    → All IsPlain s
    → value (suc f) depth (b'"' ∷ (s ++ b'"' ∷ rest)) ≡ some (str s, rest)
unfolding value
value_string f depth s rest p = rw (string_text_plain s rest p)

pub value_bool :
    (f depth : ℕ) (rest : Bytes)
    → (value (suc f) depth (codes "true" ++ rest) ≡ some (bool true, rest))
      × (value (suc f) depth (codes "false" ++ rest) ≡ some (bool false, rest))
unfolding value word
value_bool f depth rest = (refl, refl)

-- No other value begins with a minus or a digit.
abbrev BeginsNumber : ℕ → Type 0
BeginsNumber c = (c ≡ b'-') ⊎ IsDigit c

value_number :
    (f depth c : ℕ) (s : Bytes)
    → BeginsNumber c
    → value (suc f) depth (c ∷ s) ≡ (do (t, rest) ← number_text (c ∷ s); some (num t, rest))
unfolding value
value_number f depth c s h =
    let n1 : (c == b'{') ≡ false = ground arith in
    let n2 : (c == b'[') ≡ false = ground arith in
    let n3 : (c == b'"') ≡ false = ground arith in
    let n4 : (c == b't') ≡ false = ground arith in
    let n5 : (c == b'f') ≡ false = ground arith in
    let n6 : (c == b'n') ≡ false = ground arith in rw (n1, value, n2, n3, n4, n5, n6)

format_int_head : (z : ℤ) → (c : ℕ) × (s : Bytes) × (format_int z ≡ c ∷ s) × BeginsNumber c
unfolding format_int
format_int_head (pos n) = let (c, s, e, d, _) = format_nat_head n in (c, s, e, inr d)
format_int_head (negsuc n) = (b'-', format_nat (suc n), refl, inl refl)

value_number_of :
    (f depth : ℕ) (t rest : Bytes) (c : ℕ) (s : Bytes)
    → t ≡ c ∷ s
    → BeginsNumber c
    → number_text (t ++ rest) ≡ some (t, rest)
    → value (suc f) depth (t ++ rest) ≡ some (num t, rest)
value_number_of f depth [] rest c s e b h = cc
value_number_of f depth (x ∷ t) rest c s e b h =
    let first : x ≡ c = cc in
    value_number f depth x (t ++ rest) (subst BeginsNumber (sym first) b) ∙ rw h

pub value_int :
    (f depth : ℕ) (z : ℤ) (rest : Bytes)
    → Ends rest
    → value (suc f) depth (format_int z ++ rest) ≡ some (num (format_int z), rest)
value_int f depth z rest e =
    let (c, s, same, b) = format_int_head z in
    value_number_of f depth (format_int z) rest c s same b (number_text-format_int z rest e)

-- A text that does not begin with a space.
abbrev pub NoSpace : Bytes → Type 0
NoSpace s = skip_space s ≡ s

pub NoSpace-append_int : (z : ℤ) (rest : Bytes) → NoSpace (format_int z ++ rest)
NoSpace-append_int z rest =
    let (c, s, same, b) = format_int_head z in visible (format_int z) rest c s same b
  where
    visible :
        (t rest : Bytes) (c : ℕ) (s : Bytes) → t ≡ c ∷ s → BeginsNumber c → NoSpace (t ++ rest)
    visible [] rest c s e b = cc
    visible (x ∷ t) rest c s e b = let first : x ≡ c = cc in unfold skip_space in (ground arith)

-- The name of a member with one letter.
name_of :
    (c : ℕ) (s : Bytes)
    → IsPlain c
    → NoSpace s
    → member_name (b'"' ∷ c ∷ b'"' ∷ b':' ∷ s) ≡ some (c ∷ [], s)
unfolding member_name skip_space quote colon
name_of c s p visible = rw (string_text_plain (c ∷ []) (b':' ∷ s) (p, tt)) (rw visible refl)

-- One member in front of others.
pub members_step :
    (f depth c : ℕ) (s : Bytes) (v : Json) (rest : Bytes) (ms : Members) (left : Bytes)
    → IsPlain c
    → NoSpace s
    → value f (depth + 1) s ≡ some (v, b',' ∷ rest)
    → members f depth rest ≡ some (ms, left)
    → members (suc f) depth (b'"' ∷ c ∷ b'"' ∷ b':' ∷ s) ≡ some (member (c ∷ []) v ms, left)
unfolding members separator skip_space
members_step f depth c s v rest ms left p visible h k = rw (name_of c s p visible, h, k)

-- The last member.
pub members_last :
    (f depth c : ℕ) (s : Bytes) (v : Json) (rest : Bytes)
    → IsPlain c
    → NoSpace s
    → value f (depth + 1) s ≡ some (v, b'}' ∷ rest)
    → members (suc f) depth (b'"' ∷ c ∷ b'"' ∷ b':' ∷ s) ≡ some (member (c ∷ []) v end, rest)
unfolding members separator skip_space
members_last f depth c s v rest p visible h = rw (name_of c s p visible, h)

-- An object that begins with a name, outside of any other value.
pub value_object :
    (f : ℕ) (s : Bytes) (ms : Members) (left : Bytes)
    → members f 0 (b'"' ∷ s) ≡ some (ms, left)
    → value (suc (suc f)) 0 (b'{' ∷ b'"' ∷ s) ≡ some (obj ms, left)
unfolding value separator skip_space
value_object f s ms left h = rw h
