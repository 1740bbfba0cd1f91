-- ===== src/Cursor/Written.antt =====
-- The bytes of a payload.
use concevoir_une_api_pagine.Prelude.{
  ℕ, ◌<◌, [], ◌∷◌, ◌++◌, append_assoc, append-nil, Bool, ◌≡◌, refl, arith, ap, Bytes, All, ℤ,
  All-map,
}
use concevoir_une_api_pagine.Go.Strconv.{format_int}
use concevoir_une_api_pagine.Go.Utf8.{runes_ascii, encode_rune}
use concevoir_une_api_pagine.Go.Time.{format_micro, unix_seconds}
use concevoir_une_api_pagine.Go.Json.Strings.{IsPlain}
use concevoir_une_api_pagine.Cursor.Payload.{
  Cursor, version, write_rune, write_runes, write_json_string, built, format_bool,
  canonical_payload,
}

write_rune_plain : (r : ℕ) → IsPlain r → write_rune r ≡ r ∷ []
unfolding write_rune encode_rune
write_rune_plain r h = ground arith

write_runes_plain : (s : Bytes) → All IsPlain s → write_runes s ≡ s ++ b'"' ∷ []
unfolding write_runes
write_runes_plain [] h = refl
write_runes_plain (r ∷ s) (p, h) = rw (write_rune_plain r p, write_runes_plain s h)

-- A plain text is written as it stands.
write_json_string_plain :
    (s : Bytes) → All IsPlain s → write_json_string s ≡ b'"' ∷ (s ++ b'"' ∷ [])
unfolding write_json_string
write_json_string_plain s h =
    rw (runes_ascii s (All-map s (λ c p. ascii c p) h)) (ap (◌∷◌ b'"') (write_runes_plain s h))
  where
    ascii : (c : ℕ) → IsPlain c → c < 0x80
    ascii c p = omega arith

-- One member with its name, as the payload spells it.
abbrev pub named : ℕ → Bytes → Bytes
named c s = b'"' ∷ c ∷ b'"' ∷ b':' ∷ s

abbrev pub quoted : Bytes → Bytes → Bytes
quoted t s = b'"' ∷ (t ++ b'"' ∷ s)

-- The payload from its fields.
abbrev pub written : Bytes → ℤ → Bool → Bytes → ℤ → Bytes
written c i d f t = named b'v' (
    format_int version
    ++ b','
      ∷ named b'c' (
          quoted c (
            b','
            ∷ named b'i' (
                format_int i
                ++ b','
                  ∷ named b'd' (
                      format_bool d
                      ++ b','
                        ∷ named b'f' (quoted f (b',' ∷ named b't' (format_int t ++ b'}' ∷ []))))))))

pub canonical_payload-written :
    (c : Cursor)
    → All IsPlain (format_micro c.created_at)
    → All IsPlain c.fingerprint
    → canonical_payload c
      ≡ b'{'
        ∷ written
            (format_micro c.created_at)
            c.id
            c.descending
            c.fingerprint
            (unix_seconds c.issued_at)
unfolding canonical_payload built
canonical_payload-written c p q = simp (
  write_json_string_plain (format_micro c.created_at) p,
  write_json_string_plain c.fingerprint q,
  append_assoc,
  append-nil,
)
