-- ===== src/Handler/Binding.antt =====
-- What the handlers rely on in gin's `ShouldBindQuery`: the fields of the struct take, in order, the
-- first value of their key, a field whose key is absent stays as it is, and the first error is
-- returned. And what a bound request then satisfies.
use concevoir_une_api_pagine.Prelude.{List, [], ◌∷◌, Bytes, Option, none, some, All, ◌≡◌, refl}
use concevoir_une_api_pagine.Errors.{Error, Result, ok, ◌>>=◌}
use concevoir_une_api_pagine.Errors.Outcomes.{Holds, Holds->>=}
use concevoir_une_api_pagine.Handler.Requests.{Field, Context}

abbrev pub bind_field : (S : Type 0) → Option Bytes → Field S → S → Result S
bind_field S none f s = ok s
bind_field S (some raw) f s = f.assign raw s

abbrev pub bind_fields : (S : Type 0) → (Bytes → Option Bytes) → List (Field S) → S → Result S
bind_fields S form [] s = ok s
bind_fields S form (f ∷ fs) s = do t ← bind_field S (form f.tag) f s; bind_fields S form fs t

-- The context binds the query string whose keys have these first values.
pub record Binds (c : Context) (form : Bytes → Option Bytes) : Type 1 where
  pub binds :
      (S : Type 0) (fs : List (Field S)) (s : S)
      → c.should_bind_query S fs s ≡ bind_fields S form fs s

-- A context as documented.
abbrev pub context_of : (Bytes → Option Bytes) → Context
context_of form = record { should_bind_query = λ S. bind_fields S form }

pub context_of-Binds : (form : Bytes → Option Bytes) → Binds (context_of form) form
context_of-Binds form = record { binds = λ S fs s. refl }

-- What each assignment keeps, binding keeps.
pub bind_fields-Holds :
    (S : Type 0) (P : S → Type 0) (Q : Error → Type 0) (form : Bytes → Option Bytes)
    → (fs : List (Field S)) → All (λ f. (raw : Bytes) (s : S) → P s → Holds P Q (f.assign raw s)) fs
    → (s : S) → P s
    → Holds P Q (bind_fields S form fs s)
bind_fields-Holds S P Q form [] h s p = p
bind_fields-Holds S P Q form (f ∷ fs) (h, hs) s p =
    Holds->>= P Q P (bind_field S (form f.tag) f s) (bind_fields S form fs) (first (form f.tag))
      (λ t q. bind_fields-Holds S P Q form fs hs t q)
  where
    first : (o : Option Bytes) → Holds P Q (bind_field S o f s)
    first none = p
    first (some raw) = h raw s p
