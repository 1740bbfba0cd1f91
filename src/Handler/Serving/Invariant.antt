-- ===== src/Handler/Serving/Invariant.antt =====
-- What every state of `HTTPServer.Run` has, whatever steps led to it.
use concevoir_une_api_pagine.Prelude.{
  ℕ, ◌+◌, ◌≤◌, List, [], ◌∷◌, ◌++◌, length, Bool, true, Option, none, some, All, ◌≡◌, refl, sym,
  subst, append_assoc, append-nil, arith,
}
use mathlib.Core.List.{Memᴰ}
use mathlib.Core.List.Memᴰ
use concevoir_une_api_pagine.Errors.{Error}
use concevoir_une_api_pagine.Config.{Server}
use concevoir_une_api_pagine.Handler.Serving.{
  server_closed, failure, Listener, starting, serving, sending, stopped, Main, selecting, draining,
  receiving, returned, Phase, accepting, closing, drained, Run, Event, announce, listen_returns,
  send, cancel, receive, shut_down, shutdown_returns, start, error_capacity, serve_result,
  on_receive, step, NetHttp, IsNetHttp, IsAllowed, Steps, stay, next,
}

abbrev pub error_of : Option Error → List Error
error_of none = []
error_of (some e) = e ∷ []

-- The errors of net/http among some events.
abbrev pub failures_of : Event → List Error
failures_of (listen_returns r) = error_of (serve_result r)
failures_of (shutdown_returns r) = error_of r
failures_of _ = []

abbrev pub failures : List Event → List Error
failures [] = []
failures (e ∷ es) = failures_of e ++ failures es

-- What the goroutine has not sent yet.
abbrev pub unsent : Listener → ℕ
unsent stopped = 0
unsent _ = 1

abbrev pub held : Listener → List Error
held (sending r) = error_of r
held _ = []

abbrev pub waiting : List (Option Error) → List Error
waiting [] = []
waiting (r ∷ rest) = error_of r ++ waiting rest

-- One result is on its way until `Run` returns, and none may be left then.
abbrev pub IsOnItsWay : Main → ℕ → Type 0
IsOnItsWay (returned _) n = n ≤ 1
IsOnItsWay _ n = n ≡ 1

abbrev pub IsPlace : Main → Phase → Bool → Type 0
IsPlace selecting p c = p ≡ accepting
IsPlace draining p c = (p ≡ closing) × (c ≡ true)
IsPlace receiving p c = (p ≡ drained) × (c ≡ true)
IsPlace (returned none) p c = (p ≡ drained) × (c ≡ true)
IsPlace (returned (some _)) p c = Unit {0}

-- With no call of `Shutdown`, what the goroutine sends is an error.
abbrev pub HasError : Option Error → Type 0
HasError none = ⊥
HasError (some _) = Unit {0}

abbrev pub HasFailed : Listener → Type 0
HasFailed (sending r) = HasError r
HasFailed _ = Unit {0}

abbrev pub IsQuiet : Phase → Listener → List (Option Error) → Type 0
IsQuiet accepting l q = HasFailed l × All HasError q
IsQuiet _ _ _ = Unit {0}

-- Where the errors of net/http are.
abbrev pub Accounts : Main → Listener → List (Option Error) → List Error → Type 0
Accounts (returned none) l q fs = (fs ≡ []) × (unsent l + length q ≡ 0)
Accounts (returned (some e)) l q fs = Memᴰ e fs
Accounts _ l q fs = fs ≡ held l ++ waiting q

pub record IsRun (s : Run) (fs : List Error) : Type 0 where
  pub on_its_way : IsOnItsWay s.main (unsent s.listener + length s.queued)
  pub place : IsPlace s.main s.phase s.cancelled
  pub quiet : IsQuiet s.phase s.listener s.queued
  pub accounts : Accounts s.main s.listener s.queued fs

pub start-IsRun : IsRun start []
start-IsRun = record { on_its_way = refl; place = refl; quiet = (tt, tt); accounts = refl }

pub empty_of_length : (q : List (Option Error)) → length q ≤ 0 → q ≡ []
empty_of_length [] h = refl
empty_of_length (r ∷ q) h = absurd (omega arith)

-- The error with which serving ends is on its way, unless the caller has returned another.
Accounts-failure :
    (m : Main) (q : List (Option Error)) (fs : List Error) (x : Error)
    → IsOnItsWay m (1 + length q)
    → Accounts m serving q fs
    → Accounts m (sending (some x)) q (fs ++ x ∷ [])
Accounts-failure (returned (some e)) q fs x w h = Memᴰ.append_left (x ∷ []) h
Accounts-failure (returned none) q fs x w h = absurd (omega arith)
Accounts-failure selecting q fs x w h = ground (arith, empty_of_length q)
Accounts-failure draining q fs x w h = ground (arith, empty_of_length q)
Accounts-failure receiving q fs x w h = ground (arith, empty_of_length q)

-- The result that `Run` receives is all that there is.
Accounts-receive :
    (l : Listener) (r : Option Error) (rest : List (Option Error)) (fs : List Error)
    → unsent l + length (r ∷ rest) ≡ 1
    → fs ≡ held l ++ waiting (r ∷ rest)
    → Accounts (returned r) l rest fs
Accounts-receive stopped none [] fs w h = (h, refl)
Accounts-receive stopped (some e) [] fs w h = subst (Memᴰ e) (sym h) (Memᴰ.head refl)
Accounts-receive l r (r' ∷ rest) fs w h = absurd (omega arith)
Accounts-receive starting r [] fs w h = absurd (omega arith)
Accounts-receive serving r [] fs w h = absurd (omega arith)
Accounts-receive (sending _) r [] fs w h = absurd (omega arith)

receive-IsRun :
    (s u : Run) (m : Main) (q : List (Option Error)) (fs : List Error)
    → s.main ≡ m
    → s.queued ≡ q
    → on_receive s m q ≡ some u
    → IsRun s fs
    → IsRun u fs
receive-IsRun s u selecting (r ∷ rest) fs p q e v =
    ground (arith, Accounts-receive s.listener r rest fs)
receive-IsRun s u receiving (r ∷ rest) fs p q e v =
    ground (arith, Accounts-receive s.listener r rest fs)
receive-IsRun s u selecting [] fs p q e v = absurd (cc)
receive-IsRun s u receiving [] fs p q e v = absurd (cc)
receive-IsRun s u draining q' fs p q e v = absurd (cc)
receive-IsRun s u (returned r) q' fs p q e v = absurd (cc)

pub step-IsRun :
    (n : NetHttp)
    → IsNetHttp n
    → (c : Server) (s u : Run) (e : Event) (fs : List Error) → IsAllowed n s e
    → step c s e ≡ some u
    → IsRun s fs
    → IsRun u (fs ++ failures_of e)
unfolding step error_capacity
step-IsRun n h c s u announce fs a p v = ground (arith, append-nil fs)
step-IsRun n h c s u (listen_returns none) fs a p v = ground (arith, h.fails s.phase)
step-IsRun n h c s u (listen_returns (some server_closed)) fs a p v =
    ground (arith, append-nil fs, h.stays_open)
step-IsRun n h c s u (listen_returns (some (failure x))) fs a p v =
    ground (arith, Accounts-failure s.main s.queued fs x, empty_of_length s.queued)
step-IsRun n h c s u send fs a p v = ground (arith, append-nil fs, empty_of_length s.queued)
step-IsRun n h c s u cancel fs a p v = ground (arith, append-nil fs)
step-IsRun n h c s u receive fs a p v =
    rw (append-nil fs) (receive-IsRun s u s.main s.queued fs refl refl p v)
step-IsRun n h c s u shut_down fs a p v = ground (arith, append-nil fs)
step-IsRun n h c s u (shutdown_returns none) fs a p v = ground (arith, append-nil fs)
step-IsRun n h c s u (shutdown_returns (some e)) fs a p v =
    let last : Memᴰ e (fs ++ e ∷ []) = Memᴰ.append_right fs (Memᴰ.head refl) in ground arith

pub Steps-IsRun :
    (n : NetHttp)
    → IsNetHttp n
    → (c : Server) (s t : Run) (es : List Event) (fs : List Error) → Steps n c s es t
    → IsRun s fs
    → IsRun t (fs ++ failures es)
Steps-IsRun n h c s t [] fs stay v = rw (append-nil fs) v
Steps-IsRun n h c s t (e ∷ es) fs (next {u = u} _ a p rest) v =
    rw (← append_assoc fs (failures_of e) (failures es))
      (Steps-IsRun n h c u t es (fs ++ failures_of e) rest (step-IsRun n h c s u e fs a p v))
