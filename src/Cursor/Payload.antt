-- ===== src/Cursor/Payload.antt =====
-- The canonical payload of go/pkg/cursor/cursor.go, written byte for byte.
use concevoir_une_api_pagine.Prelude.{
  ℕ, ◌+◌, ◌-◌, ◌/◌, ◌%◌, [], ◌∷◌, ◌++◌, List, Bool, true, false, Bytes, codes, ltb, ◌==◌,
  if◌then◌else◌, ℤ, pos,
}
use concevoir_une_api_pagine.Go.Strconv.{format_int}
use concevoir_une_api_pagine.Go.Time.{Time, format_micro, unix_seconds}
use concevoir_une_api_pagine.Go.Utf8.{runes, encode_rune}

abbrev pub version : ℤ
version = pos 1

pub record Cursor : Type 0 where
  pub created_at : Time
  pub id : ℤ
  pub descending : Bool
  pub fingerprint : Bytes
  pub issued_at : Time

-- `%04x` of a rune below 0x20.
abbrev hex_digit : ℕ → ℕ
hex_digit n = if ltb n 10 then b'0' + n else b'a' + (n - 10)

abbrev pub unicode_escape : ℕ → Bytes
unicode_escape r = b'\\' ∷ b'u' ∷ b'0' ∷ b'0' ∷ hex_digit (r / 16) ∷ hex_digit (r % 16) ∷ []

-- What the loop of `writeJSONString` appends for a rune.
unfoldable pub write_rune : ℕ → Bytes
write_rune r =
    if r == b'"'
    then b'\\' ∷ b'"' ∷ []
    else if r == b'\\'
    then b'\\' ∷ b'\\' ∷ []
    else if r == b'\n'
    then b'\\' ∷ b'n' ∷ []
    else if r == b'\r'
    then b'\\' ∷ b'r' ∷ []
    else if r == b'\t'
    then b'\\' ∷ b't' ∷ []
    else if ltb r 0x20
    then unicode_escape r
    else encode_rune r

-- The loop, and the closing quote.
unfoldable pub write_runes : List ℕ → Bytes
write_runes [] = b'"' ∷ []
write_runes (r ∷ rs) = write_rune r ++ write_runes rs

unfoldable pub write_json_string : Bytes → Bytes
write_json_string s = b'"' ∷ write_runes (runes s)

-- What a `strings.Builder` holds after a row of writes.
unfoldable pub built : List Bytes → Bytes
built [] = []
built (p ∷ ps) = p ++ built ps

-- `strconv.FormatBool`
abbrev pub format_bool : Bool → Bytes
format_bool true = codes "true"
format_bool false = codes "false"

unfoldable pub canonical_payload : Cursor → Bytes
canonical_payload c = built (
    codes "{\"v\":"
    ∷ format_int version
    ∷ codes ",\"c\":"
    ∷ write_json_string (format_micro c.created_at)
    ∷ codes ",\"i\":"
    ∷ format_int c.id
    ∷ codes ",\"d\":"
    ∷ format_bool c.descending
    ∷ codes ",\"f\":"
    ∷ write_json_string c.fingerprint
    ∷ codes ",\"t\":"
    ∷ format_int (unix_seconds c.issued_at)
    ∷ codes "}"
    ∷ [])
