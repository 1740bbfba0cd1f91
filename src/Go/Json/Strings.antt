-- ===== src/Go/Json/Strings.antt =====
-- The text of a JSON string behind its opening quote, and the rest behind the closing one. Escapes
-- are undone; what is not UTF-8, or half of a surrogate pair, becomes U+FFFD.
use concevoir_une_api_pagine.Prelude.{
  ℕ, zero, suc, ◌+◌, ◌-◌, ◌*◌, ◌≤◌, ◌<◌, [], ◌∷◌, ◌++◌, true, false, Option, none, some, ◌&&◌,
  Bytes, leb, ltb, ◌==◌, if◌then◌else◌, ◌≡◌, ◌≢◌, refl, arith, All, length,
}
use concevoir_une_api_pagine.Prelude.Options.{◌>>=◌}
use concevoir_une_api_pagine.Go.Utf8.{decode_rune, encode_rune, rune_error, decode_rune_ascii}

unfoldable pub hex : ℕ → Option ℕ
hex c =
    if leb b'0' c && leb c b'9'
    then some (c - b'0')
    else if leb b'a' c && leb c b'f'
    then some (c - b'a' + 10)
    else if leb b'A' c && leb c b'F'
    then some (c - b'A' + 10)
    else none

unfoldable pub hex4 : Bytes → Option (ℕ × Bytes)
hex4 (a ∷ b ∷ c ∷ d ∷ s) = do
  w ← hex a
  x ← hex b
  y ← hex c
  z ← hex d
  some (w * 4096 + x * 256 + y * 16 + z, s)
hex4 _ = none

-- The second half of a surrogate pair, where one follows.
unfoldable pub low_half : Bytes → Option (ℕ × Bytes)
low_half (a ∷ b ∷ s) = if a == b'\\' && b == b'u' then hex4 s else none
low_half _ = none

unfoldable pub pair : ℕ → Bytes → ℕ × Bytes
pair r s = elim (low_half s) [
  | none ↦ (rune_error, s)
  | some (low, rest) ↦
      (if ltb r 0xdc00 && leb 0xdc00 low && leb low 0xdfff
        then (0x10000 + (r - 0xd800) * 1024 + (low - 0xdc00), rest)
        else (rune_error, s))
]

unfoldable pub unicode : Bytes → Option (ℕ × Bytes)
unicode s = do
  (r, rest) ← hex4 s
  some (if leb 0xd800 r && leb r 0xdfff then pair r rest else (r, rest))

-- The rune that an escape stands for.
unfoldable pub escape : Bytes → Option (ℕ × Bytes)
escape [] = none
escape (c ∷ s) =
    if c == b'"'
    then some (b'"', s)
    else if c == b'\\'
    then some (b'\\', s)
    else if c == b'/'
    then some (b'/', s)
    else if c == b'b'
    then some (8, s)
    else if c == b'f'
    then some (12, s)
    else if c == b'n'
    then some (10, s)
    else if c == b'r'
    then some (13, s)
    else if c == b't'
    then some (9, s)
    else if c == b'u'
    then unicode s
    else none

-- The next rune of the text.
unfoldable pub next_rune : ℕ → Bytes → Option (ℕ × Bytes)
next_rune c s = if c == b'\\' then escape s else if ltb c 0x20 then none else some (decode_rune c s)

string_within : ℕ → Bytes → Option (Bytes × Bytes)
string_within zero s = none
string_within (suc n) [] = none
string_within (suc n) (c ∷ s) = elim (c == b'"') [
  | true ↦ some ([], s)
  | false ↦ (do
    (r, s1) ← next_rune c s
    (t, rest) ← string_within n s1
    some (encode_rune r ++ t, rest))
]

unfoldable pub string_text : Bytes → Option (Bytes × Bytes)
unfolding string_within
string_text s = string_within (length s) s

-- What a JSON string may hold as it is, in one byte.
abbrev pub IsPlain : ℕ → Type 0
IsPlain c = (0x20 ≤ c) × (c < 0x7f) × (c ≢ b'"') × (c ≢ b'\\')

next_rune_plain : (c : ℕ) (s : Bytes) → IsPlain c → next_rune c s ≡ some (c, s)
unfolding next_rune
next_rune_plain c s h = ground (arith, decode_rune_ascii c s)

encode_rune_plain : (c : ℕ) → IsPlain c → encode_rune c ≡ c ∷ []
unfolding encode_rune
encode_rune_plain c h = ground arith

not_quote : (c : ℕ) → IsPlain c → (c == b'"') ≡ false
not_quote c h = ground arith

string_within_plain :
    (n : ℕ) (s rest : Bytes)
    → length s < n
    → All IsPlain s
    → string_within n (s ++ b'"' ∷ rest) ≡ some (s, rest)
unfolding string_within
string_within_plain zero s rest h p = absurd (omega arith)
string_within_plain (suc n) [] rest h p = refl
string_within_plain (suc n) (c ∷ s) rest h (pc, p) = rw (
  not_quote c pc,
  string_within,
  next_rune_plain c (s ++ b'"' ∷ rest) pc,
  string_within_plain n s rest (omega arith) p,
  encode_rune_plain c pc,
)

quoted_length : (s rest : Bytes) → length s < length (s ++ b'"' ∷ rest)
quoted_length [] rest = omega arith
quoted_length (c ∷ s) rest = omega (arith, quoted_length s rest)

-- A plain text in quotes is read as it stands.
pub string_text_plain :
    (s rest : Bytes) → All IsPlain s → string_text (s ++ b'"' ∷ rest) ≡ some (s, rest)
unfolding string_text
string_text_plain s rest p =
    string_within_plain (length (s ++ b'"' ∷ rest)) s rest (quoted_length s rest) p
