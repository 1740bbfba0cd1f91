-- ===== src/Tests/Loading.antt =====
-- `Load` with the signing key in the environment, over a koanf whose store is that key.
use concevoir_une_api_pagine.Prelude.{
  List, [], ◌∷◌, Bool, true, ◌&&◌, Bytes, codes, Option, none, some, text_eq, text_eq_refl,
  text_eq→eq, if◌then◌else◌, Bool-cases, ◌≡◌, refl, ap, ◌∙◌, inl, inr, arith,
}
use mathlib.Core.List.{Memᴰ}
use concevoir_une_api_pagine.Errors.{ok}
use concevoir_une_api_pagine.Config.{Application, validate}
use concevoir_une_api_pagine.Config.Environment.{
  env_prefix, env_name, name_of, transform, IsPath, is_path_byte, is_apart, transform-env_name,
}
use concevoir_une_api_pagine.Config.Validation.{IsUsable}
use concevoir_une_api_pagine.Config.Load.{
  Koanf, load, text_settings, value_of, IsKoanf, load-environment,
}
use concevoir_une_api_pagine.Tests.Settings.{settings}

abbrev is_path : Bytes → Bool
is_path [] = true
is_path (c ∷ path) = is_path_byte c && (is_apart c path && is_path path)

checked : (path : Bytes) → is_path path ≡ true → IsPath path
checked [] h = tt
checked (c ∷ path) h = ground (arith, checked path)

-- A nested key whose second part has an underscore.
env_name_of_timeout :
    env_name (codes "server.shutdown_timeout") ≡ codes "PAGINATION_SERVER__SHUTDOWN_TIMEOUT"
unfolding name_of
env_name_of_timeout = refl

transform-env_name_example :
    transform (env_name (codes "server.shutdown_timeout")) ≡ codes "server.shutdown_timeout"
transform-env_name_example =
    transform-env_name (codes "server.shutdown_timeout")
      (checked (codes "server.shutdown_timeout") refl)

abbrev key_path : Bytes
key_path = codes "cursor.key"

abbrev pub secret : Bytes
secret = codes "from-the-environment"

abbrev environment : List (Bytes × Bytes)
environment = (env_name key_path, secret) ∷ []

abbrev pub with_key : Bytes → Application
with_key key = record settings { cursor = record { key = key; ttl = settings.cursor.ttl } }

abbrev pub koanf : Koanf
koanf = record {
  Store = Bytes;
  load_file = λ dir name. ok (codes "from-the-file");
  load_env = λ s prefix key_of. ok secret;
  unmarshal = λ s. ok (with_key s);
}

abbrev read : Bytes → Bytes → Option Bytes
read s key = if text_eq key key_path then some s else none

key_path-transform : transform (env_name key_path) ≡ key_path
key_path-transform = transform-env_name key_path (checked key_path refl)

overrides :
    (s s' key value : Bytes)
    → koanf.load_env s env_prefix transform ≡ ok s'
    → Memᴰ (env_name key, value) environment
    → read s' (transform (env_name key)) ≡ some value
overrides s s' key value e (Memᴰ.head p) =
    let name = ap (λ (x : Bytes × Bytes). transform x.0) p ∙ key_path-transform in
    let val = ap (λ (x : Bytes × Bytes). x.1) p in rw (name, text_eq_refl key_path) (cc)
overrides s s' key value e (Memᴰ.tail m) = elim m [ ]

unmarshals :
    (s : Bytes) (a : Application) (key value : Bytes)
    → koanf.unmarshal s ≡ ok a
    → read s key ≡ some value
    → value_of (text_settings a) key ≡ some value
unfolding value_of text_eq
unmarshals s a key value e h = elim (Bool-cases (text_eq key key_path)) [
  | inl is ↦
      let same = text_eq→eq key key_path is in
      let whole : with_key s ≡ a = cc in rw (same, ← whole) (rw is at h)
  | inr not ↦ absurd (ground arith)
]

koanf-IsKoanf : IsKoanf koanf read environment
koanf-IsKoanf = record {
  overrides = λ s s' key value e m _. overrides s s' key value e m;
  unmarshals = λ s a key value e _ h. unmarshals s a key value e h;
}

only_one :
    (name other : Bytes)
    → Memᴰ (name, other) environment
    → transform name ≡ transform (env_name key_path)
    → other ≡ secret
only_one name other (Memᴰ.head p) _ = ap (λ (x : Bytes × Bytes). x.1) p
only_one name other (Memᴰ.tail m) _ = elim m [ ]

load-environment_example :
    IsUsable (with_key secret) × (value_of (text_settings (with_key secret)) key_path ≡ some secret)
load-environment_example =
    load-environment koanf read environment koanf-IsKoanf (codes ".") (with_key secret)
      (unfold load validate text_eq in refl) key_path secret (checked key_path refl)
      (Memᴰ.tail (
        Memᴰ.tail (
          Memᴰ.tail (
            Memᴰ.tail
              (Memᴰ.tail (Memᴰ.tail (Memᴰ.tail (Memᴰ.tail (Memᴰ.tail (Memᴰ.head refl))))))))))
      (Memᴰ.head refl) only_one
