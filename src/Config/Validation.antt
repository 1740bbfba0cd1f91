-- ===== src/Config/Validation.antt =====
-- What a configuration that `Load` lets through has, and what the cursor makes of it.
use concevoir_une_api_pagine.Prelude.{
  [], Bool, true, false, not, text_eq, ltb_ℤ, pos, ◌≡◌, ◌∙◌, ◌↔◌, refl, if◌then◌else◌,
}
use concevoir_une_api_pagine.Errors.{Error, Result, ok, err, sentinel, cursor_expired}
use concevoir_une_api_pagine.Go.Time.{Time, sub}
use concevoir_une_api_pagine.Go.Time.RoundTrip.{whole_seconds}
use concevoir_une_api_pagine.Cursor.{encode, decode_at}
use concevoir_une_api_pagine.Cursor.Payload.{Cursor}
use concevoir_une_api_pagine.Cursor.RoundTrip.{Encodable, decode_at-encode}
use concevoir_une_api_pagine.Config.{Application, validate}

-- The settings that the program can run with.
pub record IsUsable (a : Application) : Type 0 where
  pub host : text_eq a.postgres.host [] ≡ false
  pub database : text_eq a.postgres.database [] ≡ false
  pub connections : ltb_ℤ a.postgres.max_conns a.postgres.min_conns ≡ false
  pub port : ltb_ℤ (pos 0) a.server.port ≡ true
  pub key : text_eq a.cursor.key [] ≡ false
  pub ttl : ltb_ℤ (pos 0) a.cursor.ttl ≡ true

-- Past a test that returns an error.
passed :
    (b : Bool) (e : Error) (m : Result (Unit {0}))
    → (if b then err e else m) ≡ ok tt
    → (b ≡ false) × (m ≡ ok tt)
passed true e m h = cc
passed false e m h = (refl, h)

not-false : (b : Bool) → not b ≡ false → b ≡ true
not-false true h = refl
not-false false h = cc

-- A configuration is accepted exactly if it names a host and a database, has no fewer connections at
-- most than at least, a positive port, a signing key and a positive time to live.
pub validate-IsUsable : (a : Application) → (validate a ≡ ok tt) ↔ IsUsable a
unfolding validate
validate-IsUsable a = (
  λ h.
      let (host, h1) = passed _ _ _ h in
      let (database, h2) = passed _ _ _ h1 in
      let (connections, h3) = passed _ _ _ h2 in
      let (port, h4) = passed _ _ _ h3 in
      let (key, h5) = passed _ _ _ h4 in
      let (ttl, _) = passed _ _ _ h5 in
      record {
        host = host;
        database = database;
        connections = connections;
        port = not-false _ port;
        key = key;
        ttl = not-false _ ttl;
      },
  λ u. rw (u.host, u.database, u.connections, u.port, u.key, u.ttl) refl,
)

-- Under a configuration that is accepted, the token of an encodable cursor that is older than the
-- time to live is refused as expired: the check is never turned off.
pub decode_at-validated :
    (a : Application) (c : Cursor) (now : Time)
    → validate a ≡ ok tt
    → Encodable c
    → ltb_ℤ a.cursor.ttl (sub now (whole_seconds c.issued_at)) ≡ true
    → decode_at (encode c a.cursor.key) a.cursor.key a.cursor.ttl now
      ≡ err (sentinel cursor_expired)
decode_at-validated a c now h e old =
    let usable = (validate-IsUsable a).0 h in
    decode_at-encode c a.cursor.key a.cursor.ttl now e ∙ rw (usable.ttl, old)
