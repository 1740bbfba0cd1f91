-- ===== src/Config/Environment.antt =====
-- The names of environment variables: the `TransformFunc` of `Load` in go/internal/config/config.go,
-- and the `strings` functions that it calls, at the texts it calls them with.
use concevoir_une_api_pagine.Prelude.{
  ℕ, ◌+◌, ◌-◌, [], ◌∷◌, ◌++◌, map, Bool, true, false, not, ◌&&◌, ◌||◌, Bytes, codes, leb, ◌==◌,
  if◌then◌else◌, Bool-cases, ◌≡◌, refl, ap, ◌∙◌, inl, inr, arith,
}

abbrev pub env_prefix : Bytes
env_prefix = codes "PAGINATION_"

-- `strings.TrimPrefix`: the rest behind a prefix, or the whole text.
unfoldable pub trim_prefix_from : Bytes → Bytes → Bytes → Bytes
trim_prefix_from whole s [] = s
trim_prefix_from whole [] (c ∷ prefix) = whole
trim_prefix_from whole (x ∷ s) (c ∷ prefix) =
    let rest = trim_prefix_from whole s prefix in if x == c then rest else whole

unfoldable pub trim_prefix : Bytes → Bytes → Bytes
unfolding trim_prefix_from
trim_prefix s prefix = trim_prefix_from s s prefix

-- `strings.ToLower` of an ASCII text.
abbrev pub lower : ℕ → ℕ
lower c = if leb b'A' c && leb c b'Z' then c + 32 else c

unfoldable pub to_lower : Bytes → Bytes
to_lower s = map lower s

-- `strings.ReplaceAll` of two underscores by a point, from the left.
unfoldable pub replace_nested : Bytes → Bytes
replace_nested [] = []
replace_nested (x ∷ []) = x ∷ []
replace_nested (x ∷ y ∷ s) =
    let single = x ∷ replace_nested (y ∷ s) in
    let nested = b'.' ∷ replace_nested s in if x == b'_' && y == b'_' then nested else single

-- The key under which the provider files a variable.
unfoldable pub transform : Bytes → Bytes
unfolding trim_prefix to_lower replace_nested
transform key = replace_nested (to_lower (trim_prefix key env_prefix))

-- The name of the variable for a key: upper case, with two underscores for a point.
abbrev pub upper : ℕ → ℕ
upper c = if leb b'a' c && leb c b'z' then c - 32 else c

unfoldable pub name_of : Bytes → Bytes
name_of [] = []
name_of (c ∷ path) =
    let rest = name_of path in if c == b'.' then b'_' ∷ b'_' ∷ rest else upper c ∷ rest

abbrev pub env_name : Bytes → Bytes
env_name path = env_prefix ++ name_of path

-- A key of lower-case letters, digits, points and underscores, where an underscore has neither a
-- second one nor a point behind it.
abbrev pub is_path_byte : ℕ → Bool
is_path_byte c = leb b'a' c && leb c b'z' || leb b'0' c && leb c b'9' || (c == b'.' || c == b'_')

abbrev pub is_apart : ℕ → Bytes → Bool
is_apart c [] = true
is_apart c (d ∷ _) = not (c == b'_') || not (d == b'_' || d == b'.')

abbrev pub IsPath : Bytes → Type 0
IsPath [] = Unit {0}
IsPath (c ∷ path) = (is_path_byte c ≡ true) × (is_apart c path ≡ true) × IsPath path

-- A key with two underscores for a point.
nested : Bytes → Bytes
nested [] = []
nested (c ∷ path) = let rest = nested path in if c == b'.' then b'_' ∷ b'_' ∷ rest else c ∷ rest

lower-upper : (c : ℕ) → is_path_byte c ≡ true → lower (upper c) ≡ c
lower-upper c h = ground arith

to_lower-name_of : (path : Bytes) → IsPath path → to_lower (name_of path) ≡ nested path
unfolding to_lower name_of nested
to_lower-name_of [] h = refl
to_lower-name_of (c ∷ path) (b, _, h) = elim (Bool-cases (c == b'.')) [
  | inl point ↦ rw (point, to_lower-name_of path h) refl
  | inr other ↦ rw (other, lower-upper c b, to_lower-name_of path h) refl
]

replace_nested-single :
    (c : ℕ) (path : Bytes)
    → (c == b'.') ≡ false
    → is_apart c path ≡ true
    → replace_nested (c ∷ nested path) ≡ c ∷ replace_nested (nested path)
unfolding replace_nested nested
replace_nested-single c [] h a = refl
replace_nested-single c (d ∷ path) h a = ground arith

replace_nested-nested : (path : Bytes) → IsPath path → replace_nested (nested path) ≡ path
unfolding replace_nested nested
replace_nested-nested [] h = refl
replace_nested-nested (c ∷ path) (b, a, h) = elim (Bool-cases (c == b'.')) [
  | inl point ↦ ground (arith, replace_nested-nested path h)
  | inr other ↦
      rw other
        (replace_nested-single c path other a ∙ ap (λ s. c ∷ s) (replace_nested-nested path h))
]

-- The variable for a key of lower-case letters, digits, points and underscores, where no underscore
-- stands before a point or another underscore, is filed under that key.
pub transform-env_name : (path : Bytes) → IsPath path → transform (env_name path) ≡ path
unfolding transform
transform-env_name path h =
    ap replace_nested (to_lower-name_of path h) ∙ replace_nested-nested path h
