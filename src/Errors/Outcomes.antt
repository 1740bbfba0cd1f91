-- ===== src/Errors/Outcomes.antt =====
-- What holds of a call on every branch: of its value, of its error, and that it does not panic.
use concevoir_une_api_pagine.Prelude.{Bool, true, false, Option, none, some, ◌≡◌, refl, Bytes}
use concevoir_une_api_pagine.Errors.{
  Sentinel, Error, sentinel, Result, ok, err, panicked, ◌>>=◌, ensure, or_error, is_error, wrapped,
}

abbrev pub Holds {ℓ} : {A : Type ℓ} → (A → Type 0) → (Error → Type 0) → Result A → Type 0
Holds P Q (ok a) = P a
Holds P Q (err e) = Q e
Holds P Q panicked = ⊥

-- No error is left.
abbrev pub Never : Error → Type 0
Never _ = ⊥

-- Behind a call, what its value promises may be used.
pub Holds->>= {ℓ κ} :
    {A : Type ℓ} {B : Type κ}
    → (P : A → Type 0) (Q : Error → Type 0) (R : B → Type 0) → (m : Result A) (k : A → Result B)
    → Holds P Q m
    → ((a : A) → P a → Holds R Q (k a))
    → Holds R Q (m >>= k)
Holds->>= P Q R (ok a) k h f = f a h
Holds->>= P Q R (err e) k h f = h
Holds->>= P Q R panicked k h f = absurd h

-- What holds may be weakened, for the value and for the error.
pub Holds-map {ℓ} :
    {A : Type ℓ}
    → (P : A → Type 0) (Q : Error → Type 0) (P' : A → Type 0) (Q' : Error → Type 0) → (m : Result A)
    → ((a : A) → P a → P' a)
    → ((e : Error) → Q e → Q' e)
    → Holds P Q m
    → Holds P' Q' m
Holds-map P Q P' Q' (ok a) f g h = f a h
Holds-map P Q P' Q' (err e) f g h = g e h
Holds-map P Q P' Q' panicked f g h = absurd h

-- What a call returns is its value.
pub Holds-returned :
    {A : Type 0}
    → (P : A → Type 0) (Q : Error → Type 0) (m : Result A) → Holds P Q m
    → Holds (λ a. m ≡ ok a) Q m
Holds-returned P Q (ok a) h = refl
Holds-returned P Q (err e) h = h
Holds-returned P Q panicked h = absurd h

pub Holds-ensure :
    (Q : Error → Type 0) (b : Bool) (s : Sentinel)
    → Q (sentinel s)
    → Holds (λ _. b ≡ true) Q (ensure b s)
Holds-ensure Q true s h = refl
Holds-ensure Q false s h = h

pub Holds-or_error :
    {A : Type 0}
    → (Q : Error → Type 0) (o : Option A) (s : Sentinel) → Q (sentinel s)
    → Holds (λ a. o ≡ some a) Q (or_error o s)
Holds-or_error Q none s h = h
Holds-or_error Q (some a) s h = refl

-- An error of other code: no sentinel stands in its chain.
abbrev pub IsForeign : Error → Type 0
IsForeign e = (s : Sentinel) → is_error e s ≡ false

pub IsForeign-wrapped : (t : Bytes) (e : Error) → IsForeign e → IsForeign (wrapped t e)
unfolding is_error
IsForeign-wrapped t e h s = h s

-- A value that is returned behind a call has the call's value in front of it.
pub ok-behind {ℓ κ} :
    {A : Type ℓ} {B : Type κ} (m : Result A) (k : A → Result B) (b : B)
    → (m >>= k) ≡ ok b
    → (a : A) × (m ≡ ok a) × (k a ≡ ok b)
ok-behind (ok a) k b e = (a, refl, e)
ok-behind (err x) k b e = cc
ok-behind panicked k b e = cc
