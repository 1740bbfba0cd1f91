-- ===== src/Go/Base64/RoundTrip.antt =====
-- Decoding what was encoded, and the alphabet of an encoded text.
use concevoir_une_api_pagine.Prelude.{
  ℕ, ◌<◌, List, [], ◌∷◌, true, some, ◌||◌, ◌≡◌, ◌≢◌, refl, arith, Bytes, All, All-map, ◌==◌,
  filter_of_All, not,
}
use concevoir_une_api_pagine.Go.Base64.{
  digit, digit_value, unbroken, sextets, octets, encode_digits, digit_values, encode, decode,
}

abbrev pub IsByte : ℕ → Type 0
IsByte b = b < 256

abbrev IsSextet : ℕ → Type 0
IsSextet v = v < 64

digit_value-digit : (v : ℕ) → IsSextet v → digit_value (digit v) ≡ some v
unfolding digit digit_value
digit_value-digit v h = ground arith

-- The characters of an encoded text are printable and need no escape.
abbrev pub IsPlain : ℕ → Type 0
IsPlain c = (0x20 < c) × (c < 0x7f) × (c ≢ b'"') × (c ≢ b'\\')

digit-IsPlain : (v : ℕ) → IsSextet v → IsPlain (digit v)
unfolding digit
digit-IsPlain v h = ground arith

sextets-IsSextet : (s : Bytes) → All IsByte s → All IsSextet (sextets s)
unfolding sextets
sextets-IsSextet [] h = tt
sextets-IsSextet (a ∷ []) h = omega arith
sextets-IsSextet (a ∷ b ∷ []) h = omega arith
sextets-IsSextet (a ∷ b ∷ c ∷ rest) (ha, (hb, (hc, h))) =
    (omega arith, (omega arith, (omega arith, (omega arith, sextets-IsSextet rest h))))

octets-sextets : (s : Bytes) → All IsByte s → octets (sextets s) ≡ some s
unfolding octets sextets
octets-sextets [] h = refl
octets-sextets (a ∷ []) h = ground arith
octets-sextets (a ∷ b ∷ []) h = ground arith
octets-sextets (a ∷ b ∷ c ∷ rest) (ha, (hb, (hc, h))) = rw (octets-sextets rest h) (ground arith)

digit_values-encode_digits :
    (vs : List ℕ) → All IsSextet vs → digit_values (encode_digits vs) ≡ some vs
unfolding digit_values encode_digits
digit_values-encode_digits [] h = refl
digit_values-encode_digits (v ∷ vs) (hv, h) =
    rw (digit_value-digit v hv, digit_values-encode_digits vs h, digit_values)

encode_digits-IsPlain : (vs : List ℕ) → All IsSextet vs → All IsPlain (encode_digits vs)
unfolding encode_digits
encode_digits-IsPlain [] h = tt
encode_digits-IsPlain (v ∷ vs) (hv, h) = (digit-IsPlain v hv, encode_digits-IsPlain vs h)

pub encode-IsPlain : (s : Bytes) → All IsByte s → All IsPlain (encode s)
unfolding encode
encode-IsPlain s h = encode_digits-IsPlain (sextets s) (sextets-IsSextet s h)

unbroken_of_IsPlain : (s : Bytes) → All IsPlain s → unbroken s ≡ s
unfolding unbroken
unbroken_of_IsPlain s h =
    filter_of_All (λ c. not (c == b'\n' || c == b'\r')) s (All-map s (λ c p. kept c p) h)
  where
    kept : (c : ℕ) → IsPlain c → not (c == b'\n' || c == b'\r') ≡ true
    kept c p = ground arith

-- Every sequence of bytes is read back from its encoding.
pub decode-encode : (s : Bytes) → All IsByte s → decode (encode s) ≡ some s
unfolding decode encode
decode-encode s h =
    let small = sextets-IsSextet s h in
    rw
      (
        unbroken_of_IsPlain (encode_digits (sextets s)) (encode_digits-IsPlain (sextets s) small),
        digit_values-encode_digits (sextets s) small,
      )
      (octets-sextets s h)
