-- ===== src/Cursor/Authentic.antt =====
-- What `DecodeAt` accepts, and which error it refuses the rest with.
use concevoir_une_api_pagine.Prelude.{
  ◌++◌, Bool, true, false, not, some, ◌≡◌, ◌⊎◌, refl, inl, inr, Bytes, text_eq, text_eq→eq, length,
  leb, take-append-drop, eqb_ℤ, sym, ap, ◌∙◌,
}
use concevoir_une_api_pagine.Errors.{
  Error, Result, ok, sentinel, invalid_cursor, cursor_expired, ensure, or_error, ◌>>=◌, ◌>>◌,
}
use concevoir_une_api_pagine.Errors.Outcomes.{Holds, Holds->>=, Holds-ensure, Holds-or_error}
use concevoir_une_api_pagine.Go.Base64
use concevoir_une_api_pagine.Go.Sha256.{hmac}
use concevoir_une_api_pagine.Go.Time.{Time, Duration, parse_micro, unix}
use concevoir_une_api_pagine.Cursor.{split_token, decode_at, digest_size}
use concevoir_une_api_pagine.Cursor.Payload.{Cursor, version}
use concevoir_une_api_pagine.Cursor.Wire.{WirePayload, unmarshal}
use concevoir_une_api_pagine.Cursor.RoundTrip.{is_expired}

-- The token is the signature of a payload under the key, in front of the payload.
abbrev pub IsSigned : Bytes → Bytes → Bytes → Type 0
IsSigned token key payload = Base64.decode token ≡ some (hmac key payload ++ payload)

-- The payload is an object of the current version that stands for the cursor.
pub record Carries (payload : Bytes) (c : Cursor) : Type 0 where
  pub wire : WirePayload
  pub read : unmarshal payload ≡ some wire
  pub current : eqb_ℤ wire.version version ≡ true
  pub position : parse_micro wire.created_at ≡ some c.created_at
  pub rest : c ≡ record {
    created_at = c.created_at;
    id = wire.id;
    descending = wire.descending;
    fingerprint = wire.fingerprint;
    issued_at = unix wire.issued_at;
  }

abbrev pub IsAccepted : Bytes → Bytes → Duration → Time → Cursor → Type 0
IsAccepted token key ttl now c =
    (payload : Bytes) × IsSigned token key payload
    × Carries payload c
    × (is_expired ttl now c.issued_at ≡ false)

-- Only a token with a right signature is told that it has expired.
abbrev pub IsRefusal : Bytes → Bytes → Duration → Time → Error → Type 0
IsRefusal token key ttl now e =
    (e ≡ sentinel invalid_cursor)
    ⊎ ((e ≡ sentinel cursor_expired)
        × ((payload : Bytes) × (c : Cursor) × IsSigned token key payload
            × Carries payload c
            × (is_expired ttl now c.issued_at ≡ true)))

-- The cursor of a payload that has been read.
abbrev cursor_from : WirePayload → Time → Cursor
cursor_from p created_at = record {
  created_at = created_at;
  id = p.id;
  descending = p.descending;
  fingerprint = p.fingerprint;
  issued_at = unix p.issued_at;
}

-- What `DecodeAt` does with a payload whose signature is right.
unfoldable cursor_of : Bytes → Duration → Time → Result Cursor
cursor_of payload ttl now = do
  p ← or_error (unmarshal payload) invalid_cursor
  ensure (eqb_ℤ p.version version) invalid_cursor
  created_at ← or_error (parse_micro p.created_at) invalid_cursor
  ensure (not (is_expired ttl now (unix p.issued_at))) cursor_expired
  ok (cursor_from p created_at)

split_token-Holds :
    (Q : Error → Type 0) (token : Bytes)
    → Q (sentinel invalid_cursor)
    → Holds (λ p. Base64.decode token ≡ some (p.0 ++ p.1)) Q (split_token token)
unfolding split_token
split_token-Holds Q token h =
    Holds->>= (λ raw. Base64.decode token ≡ some raw) Q
      (λ p. Base64.decode token ≡ some (p.0 ++ p.1)) (or_error (Base64.decode token) invalid_cursor)
      _ (Holds-or_error Q (Base64.decode token) invalid_cursor h)
      (λ raw e.
        Holds->>= (λ _. not (leb (length raw) digest_size) ≡ true) Q
          (λ p. Base64.decode token ≡ some (p.0 ++ p.1))
          (ensure (not (leb (length raw) digest_size)) invalid_cursor) _
          (Holds-ensure Q (not (leb (length raw) digest_size)) invalid_cursor h)
          (λ _ _. e ∙ ap some (sym (take-append-drop digest_size raw))))

fresh_or_refused :
    (R : Cursor → Type 0) (Q : Error → Type 0) (b : Bool) (c : Cursor)
    → (b ≡ false → R c)
    → (b ≡ true → Q (sentinel cursor_expired))
    → Holds R Q (ensure (not b) cursor_expired >>= λ _. ok c)
fresh_or_refused R Q true c f g = g refl
fresh_or_refused R Q false c f g = f refl

-- The branches of `DecodeAt` behind the signature.
payload-Holds :
    (token key : Bytes) (ttl : Duration) (now : Time) (payload : Bytes)
    → IsSigned token key payload
    → Holds (IsAccepted token key ttl now) (IsRefusal token key ttl now) (cursor_of payload ttl now)
unfolding cursor_of
payload-Holds token key ttl now payload signed =
    let Q = IsRefusal token key ttl now in
    let R = IsAccepted token key ttl now in
    let invalid : Q (sentinel invalid_cursor) = inl refl in
    Holds->>= (λ p. unmarshal payload ≡ some p) Q R (or_error (unmarshal payload) invalid_cursor) _
      (Holds-or_error Q (unmarshal payload) invalid_cursor invalid)
      (λ p read.
        Holds->>= (λ _. eqb_ℤ p.version version ≡ true) Q R
          (ensure (eqb_ℤ p.version version) invalid_cursor) _
          (Holds-ensure Q (eqb_ℤ p.version version) invalid_cursor invalid)
          (λ _ current.
            Holds->>= (λ t. parse_micro p.created_at ≡ some t) Q R
              (or_error (parse_micro p.created_at) invalid_cursor) _
              (Holds-or_error Q (parse_micro p.created_at) invalid_cursor invalid)
              (λ t position.
                let c = cursor_from p t in
                let carries : Carries payload c = record {
                  wire = p;
                  read = read;
                  current = current;
                  position = position;
                  rest = refl;
                } in
                fresh_or_refused R Q (is_expired ttl now (unix p.issued_at)) c
                  (λ fresh. (payload, signed, carries, fresh))
                  (λ old. inr (refl, (payload, c, signed, carries, old))))))

-- A cursor is accepted only from a token that carries a signature, under the key, of the payload that
-- stands for the cursor, and that is no older than the time to live. Every other token is refused as
-- invalid, or as expired if it has such a signature and is older; decoding never panics.
pub decode_at-Holds :
    (token key : Bytes) (ttl : Duration) (now : Time)
    → Holds
        (IsAccepted token key ttl now)
        (IsRefusal token key ttl now)
        (decode_at token key ttl now)
unfolding decode_at cursor_of
decode_at-Holds token key ttl now =
    let Q = IsRefusal token key ttl now in
    let R = IsAccepted token key ttl now in
    let invalid : Q (sentinel invalid_cursor) = inl refl in
    Holds->>= (λ p. Base64.decode token ≡ some (p.0 ++ p.1)) Q R (split_token token) _
      (split_token-Holds Q token invalid)
      (λ (signature, payload) e.
        Holds->>= (λ _. text_eq signature (hmac key payload) ≡ true) Q R
          (ensure (text_eq signature (hmac key payload)) invalid_cursor) _
          (Holds-ensure Q (text_eq signature (hmac key payload)) invalid_cursor invalid)
          (λ _ same.
            payload-Holds token key ttl now payload
              (e ∙ ap (λ s. some (s ++ payload)) (text_eq→eq signature (hmac key payload) same))))
