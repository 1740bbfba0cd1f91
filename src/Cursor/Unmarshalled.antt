-- ===== src/Cursor/Unmarshalled.antt =====
-- How `json.Unmarshal` reads the bytes of a payload back.
use concevoir_une_api_pagine.Prelude.{
  ℕ, suc, ◌+◌, ◌-◌, ◌*◌, [], ◌∷◌, ◌++◌, Bool, true, false, some, ◌≡◌, refl, inl, inr, arith, Bytes,
  All, length, text_eq, ℤ, InInt64,
}
use concevoir_une_api_pagine.Go.Strconv.{format_int}
use concevoir_une_api_pagine.Go.Strconv.RoundTrip.{parse_int-format_int}
use concevoir_une_api_pagine.Go.Json.{
  bool, num, str, obj, Members, end, member, value, members, document, skip_space,
}
use concevoir_une_api_pagine.Go.Json.Strings.{IsPlain}
use concevoir_une_api_pagine.Go.Json.Values.{
  value_string, value_bool, value_int, NoSpace, NoSpace-append_int, members_step, members_last,
  value_object,
}
use concevoir_une_api_pagine.Cursor.Payload.{version, format_bool}
use concevoir_une_api_pagine.Cursor.Wire.{read_payload, unmarshal}
use concevoir_une_api_pagine.Cursor.Written.{named, quoted, written}

abbrev number_member : ℕ → ℤ → Members → Members
number_member c z ms = member (c ∷ []) (num (format_int z)) ms

abbrev written_members : Bytes → ℤ → Bool → Bytes → ℤ → Members
written_members c i d f t = number_member b'v' version (
    member (b'c' ∷ []) (str c) (
      number_member b'i' i
        (member (b'd' ∷ []) (bool d) (member (b'f' ∷ []) (str f) (number_member b't' t end)))))

value-format_bool :
    (n depth : ℕ) (d : Bool) (rest : Bytes)
    → value (suc n) depth (format_bool d ++ rest) ≡ some (bool d, rest)
value-format_bool n depth true rest = (value_bool n depth rest).0
value-format_bool n depth false rest = (value_bool n depth rest).1

NoSpace-bool : (d : Bool) (rest : Bytes) → NoSpace (format_bool d ++ rest)
unfolding skip_space
NoSpace-bool true rest = refl
NoSpace-bool false rest = refl

NoSpace-quoted : (t s : Bytes) → NoSpace (quoted t s)
unfolding skip_space
NoSpace-quoted t s = refl

module _ (n : ℕ) (c f : Bytes) (i t : ℤ) (d : Bool) (pc : All IsPlain c) (pf : All IsPlain f) where
  abbrev text_t : Bytes
  text_t = named b't' (format_int t ++ b'}' ∷ [])

  abbrev text_f : Bytes
  text_f = named b'f' (quoted f (b',' ∷ text_t))

  abbrev text_d : Bytes
  text_d = named b'd' (format_bool d ++ b',' ∷ text_f)

  abbrev text_i : Bytes
  text_i = named b'i' (format_int i ++ b',' ∷ text_d)

  abbrev text_c : Bytes
  text_c = named b'c' (quoted c (b',' ∷ text_i))

  read_issued_at : members (suc (suc n)) 0 text_t ≡ some (number_member b't' t end, [])
  read_issued_at =
      members_last (suc n) 0 b't' (format_int t ++ b'}' ∷ []) (num (format_int t)) [] (omega arith)
        (NoSpace-append_int t (b'}' ∷ [])) (value_int n 1 t (b'}' ∷ []) (inr refl))

  read_fingerprint :
      members (suc (suc (suc n))) 0 text_f
      ≡ some (member (b'f' ∷ []) (str f) (number_member b't' t end), [])
  read_fingerprint =
      members_step (suc (suc n)) 0 b'f' (quoted f (b',' ∷ text_t)) (str f) text_t _ [] (omega arith)
        (NoSpace-quoted f _) (value_string (suc n) 1 f (b',' ∷ text_t) pf) read_issued_at

  read_descending :
      members (suc (suc (suc (suc n)))) 0 text_d
      ≡ some
          (member (b'd' ∷ []) (bool d) (member (b'f' ∷ []) (str f) (number_member b't' t end)), [])
  read_descending =
      members_step (suc (suc (suc n))) 0 b'd' (format_bool d ++ b',' ∷ text_f) (bool d) text_f _ []
        (omega arith) (NoSpace-bool d _) (value-format_bool (suc (suc n)) 1 d (b',' ∷ text_f))
        read_fingerprint

  read_written :
      members (suc (suc (suc (suc (suc (suc (suc n))))))) 0 (written c i d f t)
      ≡ some (written_members c i d f t, [])
  read_written =
      members_step (suc (suc (suc (suc (suc (suc n)))))) 0 b'v'
        (format_int version ++ b',' ∷ text_c) (num (format_int version)) text_c _ [] (omega arith)
        (NoSpace-append_int version _) (value_int _ 1 version (b',' ∷ text_c) (inl refl))
        (members_step (suc (suc (suc (suc (suc n))))) 0 b'c' (quoted c (b',' ∷ text_i)) (str c)
          text_i _ [] (omega arith) (NoSpace-quoted c _)
          (value_string (suc (suc (suc (suc n)))) 1 c (b',' ∷ text_i) pc)
          (members_step (suc (suc (suc (suc n)))) 0 b'i' (format_int i ++ b',' ∷ text_d)
            (num (format_int i)) text_d _ [] (omega arith) (NoSpace-append_int i _)
            (value_int _ 1 i (b',' ∷ text_d) (inl refl)) read_descending))

  value-written :
      (m : ℕ)
      → m ≡ 9 + n
      → value m 0 (b'{' ∷ written c i d f t) ≡ some (obj (written_members c i d f t), [])
  value-written m e =
      let deep : m ≡ suc (suc (suc (suc (suc (suc (suc (suc (suc n)))))))) = omega arith in
      rw deep (value_object _ _ _ [] read_written)

document-written :
    (c f : Bytes) (i t : ℤ) (d : Bool)
    → All IsPlain c
    → All IsPlain f
    → document (b'{' ∷ written c i d f t) ≡ some (obj (written_members c i d f t))
unfolding document skip_space
document-written c f i t d pc pf =
    let m = 3 * length (b'{' ∷ written c i d f t) + 3 in
    let enough : m ≡ 9 + (m - 9) = omega arith in
    rw (value-written (m - 9) c f i t d pc pf m enough)

-- The payload is read back field by field.
pub unmarshal-written :
    (c f : Bytes) (i t : ℤ) (d : Bool)
    → All IsPlain c
    → All IsPlain f
    → InInt64 i
    → InInt64 t
    → unmarshal (b'{' ∷ written c i d f t)
      ≡ some (record {
        version = version;
        created_at = c;
        id = i;
        descending = d;
        fingerprint = f;
        issued_at = t;
      })
unfolding unmarshal read_payload text_eq
unmarshal-written c f i t d pc pf hi ht = rw (
  document-written c f i t d pc pf,
  parse_int-format_int version (omega arith),
  parse_int-format_int i hi,
  parse_int-format_int t ht,
)
