-- ===== src/Cursor.antt =====
-- The opaque cursor of go/pkg/cursor/cursor.go: fingerprint, canonical payload, signature, and the
-- decoding that checks them.
pub mod Wire
pub mod Payload
pub mod Written
pub mod Unmarshalled
pub mod PlainText
pub mod RoundTrip
pub mod Authentic
pub mod FilterText
use concevoir_une_api_pagine.Prelude.{
  ℕ, ◌+◌, ◌/◌, ◌%◌, ◌<◌, [], ◌∷◌, ◌++◌, List, Bool, true, false, not, ◌&&◌, Bytes, codes, ltb, leb,
  ◌==◌, if◌then◌else◌, length, take, drop, text_eq, ℤ, pos, ltb_ℤ, eqb_ℤ, Option, none, some,
}
use concevoir_une_api_pagine.Errors.{
  Result, ok, err, ◌>>=◌, ◌>>◌, ensure, or_error, invalid_cursor, cursor_expired,
}
use concevoir_une_api_pagine.Go.Strconv.{format_int}
use concevoir_une_api_pagine.Go.Base64
use concevoir_une_api_pagine.Go.Sha256.{sum256, hmac}
use concevoir_une_api_pagine.Go.Time.{Time, Duration, parse_micro, unix, sub}
use Wire.{WirePayload, unmarshal}
use Payload.{Cursor, canonical_payload, version}

abbrev pub fingerprint_bytes : ℕ
fingerprint_bytes = 8

-- `sha256.Size`
abbrev pub digest_size : ℕ
digest_size = 32

pub record Filters : Type 0 where
  pub account_id : ℤ
  pub status : Bytes
  pub sort : Bytes

-- `fmt.Sprintf("%d|%s|%s", …)`
unfoldable pub filter_text : Filters → Bytes
filter_text f = format_int f.account_id ++ (b'|' ∷ (f.status ++ (b'|' ∷ f.sort)))

unfoldable pub fingerprint : Filters → Bytes
fingerprint f = Base64.encode (take fingerprint_bytes (sum256 (filter_text f)))

unfoldable pub encode : Cursor → Bytes → Bytes
encode c key = let payload = canonical_payload c in Base64.encode (hmac key payload ++ payload)

-- Both halves of an early return: the text is no base64, or it is no longer than a signature.
unfoldable pub split_token : Bytes → Result (Bytes × Bytes)
split_token token = do
  raw ← or_error (Base64.decode token) invalid_cursor
  ensure (not (leb (length raw) digest_size)) invalid_cursor
  ok (take digest_size raw, drop digest_size raw)

unfoldable pub decode_at : Bytes → Bytes → Duration → Time → Result Cursor
decode_at token key ttl now = do
  (signature, payload) ← split_token token
  ensure (text_eq signature (hmac key payload)) invalid_cursor
  p ← or_error (unmarshal payload) invalid_cursor
  ensure (eqb_ℤ p.version version) invalid_cursor
  created_at ← or_error (parse_micro p.created_at) invalid_cursor
  let issued_at = unix p.issued_at
  ensure (not (ltb_ℤ (pos 0) ttl && ltb_ℤ ttl (sub now issued_at))) cursor_expired
  ok (record {
    created_at = created_at;
    id = p.id;
    descending = p.descending;
    fingerprint = p.fingerprint;
    issued_at = issued_at;
  })

-- `Decode` reads the wall clock.
unfoldable pub decode : Time → Bytes → Bytes → Duration → Result Cursor
decode wall_clock token key ttl = decode_at token key ttl wall_clock
