-- ===== src/Handler/Serving/Ending.antt =====
-- How many steps `HTTPServer.Run` makes, and whether it can be stuck.
use concevoir_une_api_pagine.Prelude.{
  ℕ, ◌+◌, ◌≤◌, List, [], ◌∷◌, length, Bool, true, false, Option, none, some, ◌≡◌, refl, ◌⊎◌, inl,
  inr, Bool-cases, arith,
}
use concevoir_une_api_pagine.Errors.{Error}
use concevoir_une_api_pagine.Config.{Server}
use concevoir_une_api_pagine.Handler.Serving.{
  server_closed, Listener, starting, serving, sending, stopped, Main, selecting, draining,
  receiving, returned, drained, Run, Event, announce, listen_returns, send, cancel, receive,
  shut_down, shutdown_returns, start, error_capacity, step, NetHttp, IsNetHttp, IsAllowed, Steps,
  stay, next,
}
use concevoir_une_api_pagine.Handler.Serving.Invariant.{IsRun, start-IsRun, Steps-IsRun}

-- How many steps the parts of a state can make at most.
abbrev listener_left : Listener → ℕ
listener_left starting = 3
listener_left serving = 2
listener_left (sending _) = 1
listener_left stopped = 0

abbrev main_left : Main → ℕ
main_left selecting = 3
main_left draining = 2
main_left receiving = 1
main_left (returned _) = 0

abbrev cancel_left : Bool → ℕ
cancel_left false = 1
cancel_left true = 0

abbrev left : Run → ℕ
left s = listener_left s.listener + main_left s.main + cancel_left s.cancelled

step-left : (c : Server) (s u : Run) (e : Event) → step c s e ≡ some u → left u + 1 ≤ left s
unfolding step error_capacity
step-left c s u announce p = ground arith
step-left c s u (listen_returns r) p = ground arith
step-left c s u send p = ground arith
step-left c s u cancel p = ground arith
step-left c s u receive p = ground arith
step-left c s u shut_down p = ground arith
step-left c s u (shutdown_returns none) p = ground arith
step-left c s u (shutdown_returns (some e)) p = ground arith

Steps-length :
    (n : NetHttp) (c : Server) (s t : Run) (es : List Event)
    → Steps n c s es t
    → length es + left t ≤ left s
Steps-length n c s t [] stay = omega arith
Steps-length n c s t (e ∷ es) (next {u = u} _ a p rest) =
    omega (arith, step-left c s u e p, Steps-length n c u t es rest)

abbrev pub CanStep : NetHttp → Server → Run → Type 0
CanStep n c s = (e : Event) × (u : Run) × IsAllowed n s e × (step c s e ≡ some u)

abbrev pub HasReturned : Run → Type 0
HasReturned s = (r : Option Error) × (s.main ≡ returned r)

abbrev is_possible : Option Run → Bool
is_possible none = false
is_possible (some _) = true

possible_step :
    (n : NetHttp) (c : Server) (s : Run) (e : Event)
    → IsAllowed n s e
    → is_possible (step c s e) ≡ true
    → CanStep n c s
possible_step n c s e a h = let (u, p) = result (step c s e) h in (e, u, a, p)
  where
    result : (o : Option Run) → is_possible o ≡ true → (u : Run) × (o ≡ some u)
    result none h = absurd (ground arith)
    result (some u) h = (u, refl)

-- While `Run` waits for its goroutine behind `Shutdown`, the goroutine or the channel moves.
module _ (n : NetHttp) (h : IsNetHttp n) (c : Server) (s : Run) {fs : List Error}
    (v : IsRun s fs) where
  receiving-CanStep :
      (l : Listener) (q : List (Option Error))
      → s.main ≡ receiving
      → s.listener ≡ l
      → s.queued ≡ q
      → CanStep n c s
  unfolding step error_capacity
  receiving-CanStep l (r ∷ q) m p e = possible_step n c s receive tt (ground arith)
  receiving-CanStep starting [] m p e = possible_step n c s announce tt (ground arith)
  receiving-CanStep serving [] m p e =
      let at : s.phase ≡ drained = ground arith in
      possible_step n c s (listen_returns (some server_closed))
        (h.closes s.phase (λ x. ground arith)) (ground arith)
  receiving-CanStep (sending r) [] m p e = possible_step n c s send tt (ground arith)
  receiving-CanStep stopped [] m p e = absurd (ground arith)

  moves : (m : Main) → s.main ≡ m → s.cancelled ≡ true → HasReturned s ⊎ CanStep n c s
  unfolding step error_capacity
  moves selecting p d = inr (possible_step n c s shut_down tt (ground arith))
  moves draining p d = inr (
      possible_step n c s (shutdown_returns h.shutdown_result) h.shuts_down
        (ends h.shutdown_result))
    where
      ends : (r : Option Error) → is_possible (step c s (shutdown_returns r)) ≡ true
      ends none = ground (arith, p)
      ends (some e) = ground (arith, p)
  moves receiving p d = inr (receiving-CanStep s.listener s.queued p refl refl)
  moves (returned r) p d = inl (r, p)

-- Over net/http as documented, and in whatever order its steps are made, `Run` makes seven steps at
-- most; and unless its context is not done yet, it has returned or can make another step: it does
-- not deadlock, and returns.
pub run-ends :
    (n : NetHttp)
    → IsNetHttp n
    → (c : Server) (es : List Event) (t : Run) → Steps n c start es t
    → (length es ≤ 7) × (HasReturned t ⊎ CanStep n c t ⊎ (t.cancelled ≡ false))
run-ends n h c es t steps = (
  omega (arith, Steps-length n c start t es steps),
  elim (Bool-cases t.cancelled) [
    | inl done ↦
        elim (moves n h c t (Steps-IsRun n h c start t es [] steps start-IsRun) t.main refl done) [
          | inl r ↦ inl r
          | inr s ↦ inr (inl s)
        ]
    | inr not_yet ↦ inr (inr not_yet)
  ],
)
