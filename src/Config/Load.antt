-- ===== src/Config/Load.antt =====
-- `Load` of go/internal/config/config.go, over koanf.
use concevoir_une_api_pagine.Prelude.{
  List, [], ◌∷◌, map, Bytes, codes, Option, none, some, ◌≡◌, refl, subst, ap, ◌∙◌, text_eq,
  if◌then◌else◌,
}
use Prim.Native.String.{String}
use mathlib.Core.List.{Memᴰ}
use concevoir_une_api_pagine.Errors.{Result, ok, err, panicked, ◌>>=◌, ◌>>◌, wrap}
use concevoir_une_api_pagine.Config.{Application, validate}
use concevoir_une_api_pagine.Config.Environment.{
  env_prefix, env_name, transform, IsPath, transform-env_name,
}
use concevoir_une_api_pagine.Config.Validation.{IsUsable, validate-IsUsable}

-- koanf, which is not code of the repository: a store of values by their keys, the loading of a YAML
-- file of a directory into an empty store, the loading of the environment on top of a store, with
-- the prefix of the names and what turns a name into a key, and the unmarshalling of a store.
pub record Koanf : Type 1 where
  pub Store : Type 0
  pub load_file : Bytes → Bytes → Result Store
  pub load_env : Store → Bytes → (Bytes → Bytes) → Result Store
  pub unmarshal : Store → Result Application

abbrev pub config_file_name : Bytes
config_file_name = codes "application.yaml"

-- `Load`
unfoldable pub load : Koanf → Bytes → Result Application
load k dir = do
  file ← wrap (k.load_file dir config_file_name) "loading application.yaml"
  store ← wrap (k.load_env file env_prefix transform) "loading environment variables"
  app ← wrap (k.unmarshal store) "unmarshalling configuration"
  validate app
  ok app

-- The settings that are texts, by their keys.
abbrev pub text_settings : Application → List (Bytes × Bytes)
text_settings a =
    (codes "server.host", a.server.host)
    ∷ (codes "server.mode", a.server.mode)
    ∷ (codes "postgres.host", a.postgres.host)
    ∷ (codes "postgres.database", a.postgres.database)
    ∷ (codes "postgres.user", a.postgres.user)
    ∷ (codes "postgres.password", a.postgres.password)
    ∷ (codes "postgres.sslmode", a.postgres.ssl_mode)
    ∷ (codes "logging.level", a.logging.level)
    ∷ (codes "logging.format", a.logging.format)
    ∷ (codes "cursor.key", a.cursor.key)
    ∷ []

-- The first value under a key.
unfoldable pub value_of : List (Bytes × Bytes) → Bytes → Option Bytes
value_of [] key = none
value_of ((k, v) ∷ rest) key =
    let other = value_of rest key in if text_eq k key then some v else other

-- As documented: a variable overrides what the store has under its key, unless another variable
-- goes by that key; and a text setting is what the store has under its key.
pub record IsKoanf (k : Koanf) (read : k.Store → Bytes → Option Bytes)
    (environment : List (Bytes × Bytes)) : Type 0 where
  pub overrides :
      (s s' : k.Store) (key value : Bytes)
      → k.load_env s env_prefix transform ≡ ok s'
      → Memᴰ (env_name key, value) environment
      → ((name other : Bytes)
          → Memᴰ (name, other) environment
          → transform name ≡ transform (env_name key)
          → other ≡ value)
      → read s' (transform (env_name key)) ≡ some value
  pub unmarshals :
      (s : k.Store) (a : Application) (key value : Bytes)
      → k.unmarshal s ≡ ok a
      → Memᴰ key (map (λ p. p.0) (text_settings a))
      → read s key ≡ some value
      → value_of (text_settings a) key ≡ some value

-- A call whose value goes on has returned one.
wrapped_ok {ℓ κ} :
    {A : Type ℓ} {B : Type κ} (m : Result A) (text : String) (f : A → Result B) {b : B}
    → (wrap m text >>= f) ≡ ok b
    → (a : A) × (m ≡ ok a) × (f a ≡ ok b)
wrapped_ok (ok a) text f h = (a, refl, h)
wrapped_ok (err e) text f h = cc
wrapped_ok panicked text f h = cc

validated : (a b : Application) → (validate a >> ok a) ≡ ok b → (a ≡ b) × (validate a ≡ ok tt)
validated a b h = settled (validate a) refl h
  where
    settled : (m : Result (Unit {0})) → validate a ≡ m → (m >> ok a) ≡ ok b → (a ≡ b) × (m ≡ ok tt)
    settled (ok _) p q = (cc, refl)
    settled (err e) p q = cc
    settled panicked p q = cc

-- Over koanf as documented, where `Load` succeeds its settings can be run with, and a text setting
-- for whose key a variable with the prefix is set has the value of that variable, whatever the file
-- says, unless a variable of another value goes by the same key.
pub load-environment :
    (k : Koanf) (read : k.Store → Bytes → Option Bytes) (environment : List (Bytes × Bytes))
    → IsKoanf k read environment
    → (dir : Bytes) (a : Application) → load k dir ≡ ok a
    → (key value : Bytes) → IsPath key
    → Memᴰ key (map (λ p. p.0) (text_settings a))
    → Memᴰ (env_name key, value) environment
    → ((name other : Bytes)
        → Memᴰ (name, other) environment
        → transform name ≡ transform (env_name key)
        → other ≡ value)
    → IsUsable a × (value_of (text_settings a) key ≡ some value)
unfolding load
load-environment k read environment h dir a loaded key value path m var only =
    let (file, _, from_file) = wrapped_ok (k.load_file dir config_file_name) _ _ loaded in
    let (store, stored, from_env) =
      wrapped_ok (k.load_env file env_prefix transform) _ _ from_file in
    let (app, read_app, checked) = wrapped_ok (k.unmarshal store) _ _ from_env in
    let (same, valid) = validated app a checked in
    let over = h.overrides file store key value stored var only in
    (
      subst IsUsable same ((validate-IsUsable app).0 valid),
      h.unmarshals store a key value (read_app ∙ ap ok same) m
          (rw (transform-env_name key path) at over),
    )
