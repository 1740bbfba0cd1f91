-- ===== src/Cursor/RoundTrip.antt =====
-- Decoding an encoded cursor, on every branch that is left to it.
use concevoir_une_api_pagine.Prelude.{
  ℕ, ◌<◌, [], ◌∷◌, ◌++◌, Bool, true, false, not, ◌&&◌, some, ◌≡◌, refl, sym, arith, ap, Bytes, All,
  All-append, text_eq_refl, length, length-append, take, drop, leb, if◌then◌else◌, pos, InInt64,
  ltb_ℤ,
}
use concevoir_une_api_pagine.Errors.{ok, err, ◌>>=◌, sentinel, cursor_expired, ensure}
use concevoir_une_api_pagine.Go.Base64
use concevoir_une_api_pagine.Go.Base64.RoundTrip.{decode-encode, IsByte}
use concevoir_une_api_pagine.Go.Sha256.{hmac, length-hmac, hmac-IsByte}
use concevoir_une_api_pagine.Go.Json.Strings.{IsPlain}
use concevoir_une_api_pagine.Go.Time.{Time, Duration, sub, unix_seconds, format_micro}
use concevoir_une_api_pagine.Go.Time.RoundTrip.{
  IsYear, whole_micros, parse_micro-format_micro, whole_seconds, HasSeconds, unix-unix_seconds,
  unix_seconds-InInt64,
}
use concevoir_une_api_pagine.Cursor.{digest_size, encode, split_token, decode_at}
use concevoir_une_api_pagine.Cursor.Payload.{Cursor, canonical_payload, version}
use concevoir_une_api_pagine.Cursor.Wire.{unmarshal, WirePayload}
use concevoir_une_api_pagine.Cursor.Written.{canonical_payload-written}
use concevoir_une_api_pagine.Cursor.Unmarshalled.{unmarshal-written}
use concevoir_une_api_pagine.Cursor.PlainText.{format_micro-IsPlain, written-IsByte}

-- The first bytes of two joined texts, and the others.
take-length : (s t : Bytes) (n : ℕ) → length s ≡ n → take n (s ++ t) ≡ s
take-length [] t n h = rw (sym h)
take-length (x ∷ s) t n h = rw (sym h) (ap (◌∷◌ x) (take-length s t (length s) refl))

drop-length : (s t : Bytes) (n : ℕ) → length s ≡ n → drop n (s ++ t) ≡ t
drop-length [] t n h = rw (sym h)
drop-length (x ∷ s) t n h = rw (sym h) (drop-length s t (length s) refl)

-- A token that carries a signature and a payload is split where the signature ends.
pub split_token-encode :
    (signature payload : Bytes)
    → length signature ≡ digest_size
    → 0 < length payload
    → All IsByte signature
    → All IsByte payload
    → split_token (Base64.encode (signature ++ payload)) ≡ ok (signature, payload)
unfolding split_token
split_token-encode signature payload size some_payload bs bp =
    let longer : (not (leb (length (signature ++ payload)) digest_size)) ≡ true =
      ground (arith, length-append signature payload) in
    rw (
      decode-encode (signature ++ payload) (All-append IsByte signature payload bs bp),
      longer,
      take-length signature payload digest_size size,
      drop-length signature payload digest_size size,
    )

-- A cursor that a payload has room for: a position within the years of four digits, a fingerprint
-- with nothing to escape, and an `int64` for each number.
pub record Encodable (c : Cursor) : Type 0 where
  pub year : ℕ
  pub created : IsYear c.created_at year
  pub row : InInt64 c.id
  pub plain : All IsPlain c.fingerprint
  pub issued : HasSeconds c.issued_at

-- What a token keeps of a cursor.
abbrev pub stored : Cursor → Cursor
stored c = record c {
  created_at = whole_micros c.created_at;
  issued_at = whole_seconds c.issued_at;
}

abbrev pub is_expired : Duration → Time → Time → Bool
is_expired ttl now issued_at = ltb_ℤ (pos 0) ttl && ltb_ℤ ttl (sub now issued_at)

module _ (c : Cursor) (e : Encodable c) where
  payload-IsByte : All IsByte (canonical_payload c)
  payload-IsByte =
      let pc = format_micro-IsPlain c.created_at e.year e.created in
      rw (canonical_payload-written c pc e.plain) (
        written-IsByte (format_micro c.created_at) c.fingerprint c.id (unix_seconds c.issued_at)
          c.descending pc e.plain)

  payload_longer : 0 < length (canonical_payload c)
  payload_longer =
      let pc = format_micro-IsPlain c.created_at e.year e.created in
      rw (canonical_payload-written c pc e.plain) (omega arith)

  -- What the payload is unmarshalled to.
  abbrev wire : WirePayload
  wire = record {
    version = version;
    created_at = format_micro c.created_at;
    id = c.id;
    descending = c.descending;
    fingerprint = c.fingerprint;
    issued_at = unix_seconds c.issued_at;
  }

  unmarshal-payload : unmarshal (canonical_payload c) ≡ some wire
  unmarshal-payload =
      let pc = format_micro-IsPlain c.created_at e.year e.created in
      rw (canonical_payload-written c pc e.plain) (
        unmarshal-written (format_micro c.created_at) c.fingerprint c.id (unix_seconds c.issued_at)
          c.descending pc e.plain e.row (unix_seconds-InInt64 c.issued_at e.issued))

fresh_or_expired :
    (b : Bool) (c : Cursor)
    → (ensure (not b) cursor_expired >>= λ _. ok c)
      ≡ (if b then err (sentinel cursor_expired) else ok c)
fresh_or_expired true c = refl
fresh_or_expired false c = refl

-- A cursor whose position is in the years 0 to 9999, whose fingerprint has nothing to escape and
-- whose numbers take 64 bits is read back from its token, its position to the microsecond and its
-- issue to the second, unless it is older than the time to live, when the token is refused as
-- expired.
pub decode_at-encode :
    (c : Cursor) (key : Bytes) (ttl : Duration) (now : Time)
    → Encodable c
    → decode_at (encode c key) key ttl now ≡ (
        if is_expired ttl now (whole_seconds c.issued_at)
        then err (sentinel cursor_expired)
        else ok (stored c))
unfolding decode_at encode
decode_at-encode c key ttl now e =
    let payload = canonical_payload c in
    rw
      (
        split_token-encode (hmac key payload) payload (length-hmac key payload) (payload_longer c e)
            (hmac-IsByte key payload) (payload-IsByte c e),
        text_eq_refl (hmac key payload),
        unmarshal-payload c e,
        parse_micro-format_micro c.created_at e.year e.created,
        unix-unix_seconds c.issued_at e.issued,
      )
      (fresh_or_expired (is_expired ttl now (whole_seconds c.issued_at)) (stored c))
