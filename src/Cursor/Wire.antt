-- ===== src/Cursor/Wire.antt =====
-- `wirePayload` of go/pkg/cursor/cursor.go, and `json.Unmarshal` into it: a name of a member fits a
-- field whatever its case, an unknown name is skipped, a later member overrides an earlier one, and
-- `null` leaves a field as it is.
use concevoir_une_api_pagine.Prelude.{
  ℕ, ◌-◌, [], ◌∷◌, Bool, false, ◌||◌, Bytes, text_eq, if◌then◌else◌, ℤ, pos, Option, none, some,
}
use concevoir_une_api_pagine.Prelude.Options.{◌>>=◌}
use concevoir_une_api_pagine.Go.Strconv.{parse_int}
use concevoir_une_api_pagine.Go.Json.{
  Json, null, bool, num, str, obj, Members, end, member, document,
}

pub record WirePayload : Type 0 where
  pub version : ℤ
  pub created_at : Bytes
  pub id : ℤ
  pub descending : Bool
  pub fingerprint : Bytes
  pub issued_at : ℤ

abbrev pub empty_payload : WirePayload
empty_payload = record {
  version = pos 0;
  created_at = [];
  id = pos 0;
  descending = false;
  fingerprint = [];
  issued_at = pos 0;
}

-- A value read into an `int` or an `int64`, into a `string` and into a `bool`; the second argument
-- is what the field holds before.
unfoldable pub read_int : Json → ℤ → Option ℤ
read_int null old = some old
read_int (num t) old = parse_int t
read_int _ old = none

unfoldable pub read_string : Json → Bytes → Option Bytes
read_string null old = some old
read_string (str t) old = some t
read_string _ old = none

unfoldable pub read_bool : Json → Bool → Option Bool
read_bool null old = some old
read_bool (bool b) old = some b
read_bool _ old = none

-- The tag of a field in either case.
abbrev pub fits_tag : ℕ → Bytes → Bool
fits_tag c name = text_eq name (c ∷ []) || text_eq name ((c - 32) ∷ [])

unfoldable pub read_member : Bytes → Json → WirePayload → Option WirePayload
unfolding read_int read_string read_bool
read_member name v p =
    if fits_tag b'v' name
    then (do x ← read_int v p.version; some (record p { version = x }))
    else if fits_tag b'c' name
    then (do x ← read_string v p.created_at; some (record p { created_at = x }))
    else if fits_tag b'i' name
    then (do x ← read_int v p.id; some (record p { id = x }))
    else if fits_tag b'd' name
    then (do x ← read_bool v p.descending; some (record p { descending = x }))
    else if fits_tag b'f' name
    then (do x ← read_string v p.fingerprint; some (record p { fingerprint = x }))
    else if fits_tag b't' name
    then (do x ← read_int v p.issued_at; some (record p { issued_at = x }))
    else some p

unfoldable pub read_members : Members → WirePayload → Option WirePayload
unfolding read_member
read_members end p = some p
read_members (member name v ms) p = do q ← read_member name v p; read_members ms q

unfoldable pub read_payload : Json → Option WirePayload
unfolding read_members
read_payload null = some empty_payload
read_payload (obj ms) = read_members ms empty_payload
read_payload _ = none

unfoldable pub unmarshal : Bytes → Option WirePayload
unmarshal s = do v ← document s; read_payload v
