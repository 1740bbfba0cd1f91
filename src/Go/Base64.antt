-- ===== src/Go/Base64.antt =====
-- `encoding/base64`: `RawURLEncoding`, the URL alphabet with no padding.
pub mod RoundTrip
use concevoir_une_api_pagine.Prelude.{
  ℕ, ◌+◌, ◌-◌, ◌*◌, ◌/◌, ◌%◌, List, [], ◌∷◌, Bool, Option, none, some, ◌||◌, Bytes, ltb, leb, ◌==◌,
  ◌&&◌, if◌then◌else◌, filter, not,
}
use concevoir_une_api_pagine.Prelude.Options.{◌>>=◌}

-- The character of a six-bit value, and the value of a character.
unfoldable pub digit : ℕ → ℕ
digit v =
    if ltb v 26
    then b'A' + v
    else if ltb v 52
    then b'a' + (v - 26)
    else if ltb v 62
    then b'0' + (v - 52)
    else if v == 62
    then b'-'
    else b'_'

unfoldable pub digit_value : ℕ → Option ℕ
digit_value c =
    if leb b'A' c && leb c b'Z'
    then some (c - b'A')
    else if leb b'a' c && leb c b'z'
    then some (c - b'a' + 26)
    else if leb b'0' c && leb c b'9'
    then some (c - b'0' + 52)
    else if c == b'-'
    then some 62
    else if c == b'_'
    then some 63
    else none

-- Three bytes are four six-bit values; one or two bytes at the end are two or three.
unfoldable pub sextets : Bytes → List ℕ
sextets [] = []
sextets (a ∷ []) = (a / 4) ∷ (a % 4 * 16) ∷ []
sextets (a ∷ b ∷ []) = (a / 4) ∷ (a % 4 * 16 + b / 16) ∷ (b % 16 * 4) ∷ []
sextets (a ∷ b ∷ c ∷ rest) =
    (a / 4) ∷ (a % 4 * 16 + b / 16) ∷ (b % 16 * 4 + c / 64) ∷ (c % 64) ∷ sextets rest

-- The bits that a last group does not use are not looked at; one value alone is an error.
unfoldable pub octets : List ℕ → Option Bytes
octets [] = some []
octets (w ∷ []) = none
octets (w ∷ x ∷ []) = some ((w * 4 + x / 16) ∷ [])
octets (w ∷ x ∷ y ∷ []) = some ((w * 4 + x / 16) ∷ (x % 16 * 16 + y / 4) ∷ [])
octets (w ∷ x ∷ y ∷ z ∷ rest) = do
  bs ← octets rest
  some ((w * 4 + x / 16) ∷ (x % 16 * 16 + y / 4) ∷ (y % 4 * 64 + z) ∷ bs)

unfoldable pub encode_digits : List ℕ → Bytes
encode_digits [] = []
encode_digits (v ∷ vs) = digit v ∷ encode_digits vs

unfoldable pub digit_values : Bytes → Option (List ℕ)
unfolding digit_value
digit_values [] = some []
digit_values (c ∷ s) = do v ← digit_value c; vs ← digit_values s; some (v ∷ vs)

-- Line breaks in the text are skipped.
unfoldable pub unbroken : Bytes → Bytes
unbroken = filter (λ c. not (c == b'\n' || c == b'\r'))

-- `DecodeString`
unfoldable pub decode : Bytes → Option Bytes
unfolding octets digit_values unbroken
decode s = do vs ← digit_values (unbroken s); octets vs

-- `EncodeToString`
unfoldable pub encode : Bytes → Bytes
unfolding sextets encode_digits digit
encode s = encode_digits (sextets s)
