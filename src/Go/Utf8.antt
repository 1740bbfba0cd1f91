-- ===== src/Go/Utf8.antt =====
-- `unicode/utf8`, and `range` over a string.
use concevoir_une_api_pagine.Prelude.{
  ℕ, zero, suc, ◌+◌, ◌-◌, ◌*◌, ◌/◌, ◌%◌, ◌≡◌, ◌<◌, refl, arith, List, [], ◌∷◌, Bool, ◌&&◌, ◌||◌,
  Bytes, leb, ltb, if◌then◌else◌, length, All,
}

-- U+FFFD, for what is not UTF-8.
abbrev pub rune_error : ℕ
rune_error = 0xfffd

abbrev between : ℕ → ℕ → ℕ → Bool
between lo hi x = leb lo x && leb x hi

abbrev is_continuation : ℕ → Bool
is_continuation = between 0x80 0xbf

-- The second byte of a sequence of three or four is limited, so that each rune has one encoding.
abbrev second_of_three : ℕ → ℕ → Bool
second_of_three a b =
    between (if leb a 0xe0 then 0xa0 else 0x80) (if between 0xed 0xed a then 0x9f else 0xbf) b

abbrev second_of_four : ℕ → ℕ → Bool
second_of_four a b =
    between (if leb a 0xf0 then 0x90 else 0x80) (if leb 0xf4 a then 0x8f else 0xbf) b

decode_two : ℕ → Bytes → ℕ × Bytes
decode_two a (b ∷ s) =
    if is_continuation b then ((a - 0xc0) * 64 + (b - 0x80), s) else (rune_error, b ∷ s)
decode_two a [] = (rune_error, [])

decode_three : ℕ → Bytes → ℕ × Bytes
decode_three a (b ∷ c ∷ s) =
    if second_of_three a b && is_continuation c
    then ((a - 0xe0) * 4096 + (b - 0x80) * 64 + (c - 0x80), s)
    else (rune_error, b ∷ c ∷ s)
decode_three a s = (rune_error, s)

decode_four : ℕ → Bytes → ℕ × Bytes
decode_four a (b ∷ c ∷ d ∷ s) =
    if second_of_four a b && is_continuation c && is_continuation d
    then ((a - 0xf0) * 262144 + (b - 0x80) * 4096 + (c - 0x80) * 64 + (d - 0x80), s)
    else (rune_error, b ∷ c ∷ d ∷ s)
decode_four a s = (rune_error, s)

-- `DecodeRune` on a first byte and the bytes behind it: the rune, and what it leaves.
unfoldable pub decode_rune : ℕ → Bytes → ℕ × Bytes
unfolding decode_two decode_three decode_four
decode_rune a s =
    if ltb a 0x80
    then (a, s)
    else if between 0xc2 0xdf a
    then decode_two a s
    else if between 0xe0 0xef a
    then decode_three a s
    else if between 0xf0 0xf4 a
    then decode_four a s
    else (rune_error, s)

-- `EncodeRune`
unfoldable pub encode_rune : ℕ → Bytes
encode_rune r =
    if ltb r 0x80
    then r ∷ []
    else if ltb r 0x800
    then (0xc0 + r / 64) ∷ (0x80 + r % 64) ∷ []
    else if between 0xd800 0xdfff r || ltb 0x10ffff r
    then 0xef ∷ 0xbf ∷ 0xbd ∷ []
    else if ltb r 0x10000
    then (0xe0 + r / 4096) ∷ (0x80 + r / 64 % 64) ∷ (0x80 + r % 64) ∷ []
    else (0xf0 + r / 262144) ∷ (0x80 + r / 4096 % 64) ∷ (0x80 + r / 64 % 64) ∷ (0x80 + r % 64) ∷ []

-- The runes that `range` visits; each takes a byte at least.
runes_within : ℕ → Bytes → List ℕ
runes_within zero s = []
runes_within (suc n) [] = []
runes_within (suc n) (a ∷ s) = let (r, rest) = decode_rune a s in r ∷ runes_within n rest

unfoldable pub runes : Bytes → List ℕ
unfolding runes_within
runes s = runes_within (length s) s

abbrev pub IsAscii : ℕ → Type 0
IsAscii c = c < 0x80

pub decode_rune_ascii : (a : ℕ) (s : Bytes) → IsAscii a → decode_rune a s ≡ (a, s)
unfolding decode_rune
decode_rune_ascii a s h = ground arith

runes_within_ascii : (s : Bytes) → All IsAscii s → runes_within (length s) s ≡ s
unfolding runes_within
runes_within_ascii [] h = refl
runes_within_ascii (a ∷ s) (ha, h) = rw (decode_rune_ascii a s ha, runes_within_ascii s h)

-- The runes of an ASCII text are its bytes.
pub runes_ascii : (s : Bytes) → All IsAscii s → runes s ≡ s
unfolding runes
runes_ascii s h = runes_within_ascii s h
