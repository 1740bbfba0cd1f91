-- ===== src/Testutil/Root.antt =====
-- `RepositoryRoot` and `readSharedSchema` of go/internal/testutil/postgres.go.
use concevoir_une_api_pagine.Prelude.{
  List, [], ◌∷◌, ◌++◌, Bool, true, false, Bytes, codes, if◌then◌else◌, Bool-cases, All, ◌≡◌, refl,
  ap, ◌⊎◌, inl, inr,
}
use Prim.Native.String.{String}
use concevoir_une_api_pagine.Errors.{Error, other, wrapped}

-- A directory by the names on its absolute path, its own first: the root has none.
abbrev pub Directory : Type 0
Directory = List Bytes

-- `filepath.Dir`: the root is its own parent.
abbrev pub parent : Directory → Directory
parent [] = []
parent (_ ∷ dir) = dir

-- The file system: the working directory, whether a file of a directory is there, and what is in a
-- file below a directory.
pub record Files : Type 0 where
  pub getwd : Error ⊎ Directory
  pub stat : Directory → String → Bool
  pub read_file : Directory → String → Error ⊎ Bytes

-- The loop: up to the directory that has a go.mod, and the root at the latest.
unfoldable pub climb : (Directory → Bool) → Directory → Error ⊎ Directory
climb has_go_mod [] =
    if has_go_mod [] then inr [] else inl (other (codes "module root not found above /"))
climb has_go_mod (name ∷ dir) =
    let up = climb has_go_mod dir in if has_go_mod (name ∷ dir) then inr dir else up

abbrev pub climb_from : Files → Error ⊎ Directory → Error ⊎ Directory
climb_from files (inl e) = inl e
climb_from files (inr dir) = climb (λ d. files.stat d "go.mod") dir

unfoldable pub repository_root : Files → Error ⊎ Directory
unfolding climb
repository_root files = climb_from files files.getwd

abbrev pub schema_below : Files → Error ⊎ Directory → Error ⊎ Bytes
schema_below files (inl e) = inl e
schema_below files (inr root) = elim (files.read_file root "sql/01-schema.sql") [
  | inl e ↦ inl (wrapped (codes "reading sql/01-schema.sql") e)
  | inr content ↦ inr content
]

unfoldable pub read_shared_schema : Files → Error ⊎ Bytes
unfolding repository_root
read_shared_schema files = schema_below files (repository_root files)

-- A directory and all above it.
abbrev pub ancestors : Directory → List Directory
ancestors [] = [] ∷ []
ancestors (name ∷ dir) = (name ∷ dir) ∷ ancestors dir

-- The parent of the nearest directory that has a go.mod, or an error where none has.
abbrev pub IsNearest : (Directory → Bool) → Directory → Error ⊎ Directory → Type 0
IsNearest has dir (inl e) = All (λ d. has d ≡ false) (ancestors dir)
IsNearest has dir (inr root) =
    (nearer : List Directory) × (found : Directory) × (farther : List Directory) × (ancestors dir
      ≡ nearer ++ found ∷ farther)
    × All (λ d. has d ≡ false) nearer
    × (has found ≡ true)
    × (root ≡ parent found)

climb-IsNearest : (has : Directory → Bool) (dir : Directory) → IsNearest has dir (climb has dir)
unfolding climb
climb-IsNearest has [] = elim (Bool-cases (has [])) [
  | inl yes_ ↦ rw yes_ ([], [], [], refl, tt, yes_, refl)
  | inr no_ ↦ rw no_ (no_, tt)
]
climb-IsNearest has (name ∷ dir) = elim (Bool-cases (has (name ∷ dir))) [
  | inl yes_ ↦ rw yes_ ([], name ∷ dir, ancestors dir, refl, tt, yes_, refl)
  | inr no_ ↦ rw no_ (further (climb has dir) no_ (climb-IsNearest has dir))
]
  where
    further :
        (r : Error ⊎ Directory)
        → has (name ∷ dir) ≡ false
        → IsNearest has dir r
        → IsNearest has (name ∷ dir) r
    further (inl e) no_ h = (no_, h)
    further (inr root) no_ (nearer, found, farther, e, none_, there, up) = (
      (name ∷ dir) ∷ nearer,
      found,
      farther,
      ap (λ l. (name ∷ dir) ∷ l) e,
      (no_, none_),
      there,
      up,
    )

-- From a working directory, the root that is found is the parent of the nearest directory upwards
-- that has a go.mod, and it is an error exactly where no directory up to the root of the file system
-- has one.
pub repository_root-IsNearest :
    (files : Files) (dir : Directory)
    → files.getwd ≡ inr dir
    → IsNearest (λ d. files.stat d "go.mod") dir (repository_root files)
unfolding repository_root
repository_root-IsNearest files dir h = rw h (climb-IsNearest (λ d. files.stat d "go.mod") dir)
