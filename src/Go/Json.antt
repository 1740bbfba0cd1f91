-- ===== src/Go/Json.antt =====
-- `encoding/json`, for reading: the syntax that `Unmarshal` accepts, as a tree. A number is kept as
-- its text, since the type that it is read into decides its value.
pub mod Strings
pub mod Numbers
pub mod Values
use concevoir_une_api_pagine.Prelude.{
  ℕ, zero, suc, ◌+◌, ◌*◌, [], ◌∷◌, Bool, true, false, Option, none, some, ◌||◌, Bytes, leb, ltb,
  ◌==◌, if◌then◌else◌, length, codes,
}
use concevoir_une_api_pagine.Prelude.Options.{◌>>=◌, ◌>>◌, guard}
use Strings.{string_text}
use Numbers.{number_text}

mutual
  pub data Json : Type 0 where
    null : Json
    bool : Bool → Json
    num : Bytes → Json
    str : Bytes → Json
    arr : Items → Json
    obj : Members → Json

  pub data Items : Type 0 where
    nil : Items
    cons : Json → Items → Items

  pub data Members : Type 0 where
    end : Members
    member : Bytes → Json → Members → Members

abbrev pub is_space : ℕ → Bool
is_space c = c == b' ' || c == b'\t' || c == b'\r' || c == b'\n'

unfoldable pub skip_space : Bytes → Bytes
skip_space [] = []
skip_space (c ∷ s) = if is_space c then skip_space s else c ∷ s

-- The rest of the text behind a word.
unfoldable pub word : Bytes → Bytes → Option Bytes
word [] s = some s
word (c ∷ w) [] = none
word (c ∷ w) (x ∷ s) = let rest = word w s in if x == c then rest else none

abbrev pub max_depth : ℕ
max_depth = 10000

abbrev at_end : Bytes → Bool
at_end [] = true
at_end (_ ∷ _) = false

unfoldable pub colon : Bytes → Option Bytes
colon [] = none
colon (c ∷ s) = if c == b':' then some s else none

unfoldable pub quote : Bytes → Option Bytes
quote [] = none
quote (c ∷ s) = if c == b'"' then some s else none

-- What stands behind an element: the mark that ends the list, or a comma.
unfoldable pub separator : ℕ → Bytes → Option (Bool × Bytes)
separator last [] = none
separator last (c ∷ s) =
    if c == last then some (false, s) else if c == b',' then some (true, s) else none

-- The name of a member, and the text of its value.
unfoldable pub member_name : Bytes → Option (Bytes × Bytes)
member_name s = do
  s1 ← quote (skip_space s)
  (name, s2) ← string_text s1
  s3 ← colon (skip_space s2)
  some (name, skip_space s3)

-- The depth is bounded by the package itself.
unfoldable mutual
  pub value : ℕ → ℕ → Bytes → Option (Json × Bytes)
  value zero depth s = none
  value (suc f) depth [] = none
  value (suc f) depth (c ∷ s) = elim (c == b'{') [
    | true ↦ (do guard (ltb depth max_depth); first_member f depth (skip_space s))
    | false ↦ elim (c == b'[') [
      | true ↦ (do guard (ltb depth max_depth); first_item f depth (skip_space s))
      | false ↦ elim (c == b'"') [
        | true ↦ (do (t, rest) ← string_text s; some (str t, rest))
        | false ↦ elim (c == b't') [
          | true ↦ (do rest ← word (codes "rue") s; some (bool true, rest))
          | false ↦ elim (c == b'f') [
            | true ↦ (do rest ← word (codes "alse") s; some (bool false, rest))
            | false ↦ elim (c == b'n') [
              | true ↦ (do rest ← word (codes "ull") s; some (null, rest))
              | false ↦ (do (t, rest) ← number_text (c ∷ s); some (num t, rest))
            ]
          ]
        ]
      ]
    ]
  ]

  pub first_member : ℕ → ℕ → Bytes → Option (Json × Bytes)
  first_member zero depth s = none
  first_member (suc f) depth s = elim (separator b'}' s) [
    | none ↦ (do (ms, rest) ← members f depth s; some (obj ms, rest))
    | some (more, rest) ↦ (if more then none else some (obj end, rest))
  ]

  pub members : ℕ → ℕ → Bytes → Option (Members × Bytes)
  members zero depth s = none
  members (suc f) depth s = do
    (name, s1) ← member_name s
    (v, s2) ← value f (depth + 1) s1
    (more, s3) ← separator b'}' (skip_space s2)
    elim more [
      | true ↦ (do (ms, rest) ← members f depth s3; some (member name v ms, rest))
      | false ↦ some (member name v end, s3)
    ]

  pub first_item : ℕ → ℕ → Bytes → Option (Json × Bytes)
  first_item zero depth s = none
  first_item (suc f) depth s = elim (separator b']' s) [
    | none ↦ (do (vs, rest) ← items f depth s; some (arr vs, rest))
    | some (more, rest) ↦ (if more then none else some (arr nil, rest))
  ]

  pub items : ℕ → ℕ → Bytes → Option (Items × Bytes)
  items zero depth s = none
  items (suc f) depth s = do
    (v, s1) ← value f (depth + 1) (skip_space s)
    (more, s2) ← separator b']' (skip_space s1)
    elim more [
      | true ↦ (do (vs, rest) ← items f depth s2; some (cons v vs, rest))
      | false ↦ some (cons v nil, s2)
    ]

-- The fuel is three units for each byte: a call that opens an object or an array and reads its first
-- value takes three, and each later value takes one.
unfoldable pub document : Bytes → Option Json
document s = do
  (v, rest) ← value (3 * length s + 3) 0 (skip_space s)
  guard (at_end (skip_space rest))
  some v
