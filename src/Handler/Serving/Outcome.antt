-- ===== src/Handler/Serving/Outcome.antt =====
-- What `HTTPServer.Run` returns, and what its goroutine finds when it sends.
use concevoir_une_api_pagine.Prelude.{
  ◌+◌, List, [], ◌∷◌, length, true, Option, none, some, ◌≡◌, refl, arith,
}
use mathlib.Core.List.{Memᴰ}
use concevoir_une_api_pagine.Errors.{Error}
use concevoir_une_api_pagine.Config.{Server}
use concevoir_une_api_pagine.Handler.Serving.{
  Listener, starting, serving, sending, stopped, Main, returned, drained, Run, Event, send, start,
  error_capacity, step, NetHttp, IsNetHttp, Steps,
}
use concevoir_une_api_pagine.Handler.Serving.Invariant.{
  failures, unsent, IsOnItsWay, IsRun, start-IsRun, Steps-IsRun, empty_of_length,
}

-- A nil error, or an error of net/http.
abbrev pub IsOutcome : Option Error → Run → List Event → Type 0
IsOutcome none t es =
    (t.cancelled ≡ true) × (t.phase ≡ drained) × (t.listener ≡ stopped) × (failures es ≡ [])
IsOutcome (some e) t es = Memᴰ e (failures es)

stopped_of_unsent : (l : Listener) (q : List (Option Error)) → unsent l + length q ≡ 0 → l ≡ stopped
stopped_of_unsent stopped q h = refl
stopped_of_unsent starting q h = absurd (omega arith)
stopped_of_unsent serving q h = absurd (omega arith)
stopped_of_unsent (sending r) q h = absurd (omega arith)

accounted :
    (t : Run) (es : List Event) (r : Option Error)
    → t.main ≡ returned r
    → IsRun t (failures es)
    → IsOutcome r t es
accounted t es none p v = ground (arith, stopped_of_unsent t.listener t.queued)
accounted t es (some e) p v = ground arith

-- Over net/http as documented, and in whatever order its steps are made, `Run` returns nil only if
-- its context is done, `Shutdown` has drained the server, the goroutine has stopped, and neither
-- `ListenAndServe` nor `Shutdown` has failed; and any other error that it returns is one of theirs.
pub run-IsOutcome :
    (n : NetHttp)
    → IsNetHttp n
    → (c : Server) (es : List Event) (t : Run) (r : Option Error) → Steps n c start es t
    → t.main ≡ returned r
    → IsOutcome r t es
run-IsOutcome n h c es t r steps p =
    accounted t es r p (Steps-IsRun n h c start t es [] steps start-IsRun)

room_to_send :
    (c : Server) (t : Run) (r : Option Error) (m : Main)
    → t.main ≡ m
    → t.listener ≡ sending r
    → IsOnItsWay m (unsent t.listener + length t.queued)
    → step c t send ≡ some (record t { listener = stopped; queued = r ∷ [] })
unfolding step error_capacity
room_to_send c t r m p l w = ground (arith, empty_of_length t.queued)

-- Over net/http as documented, and in whatever order its steps are made, the goroutine never waits
-- to send its result: the channel is empty then, also after `Run` has returned, and is left with
-- that result.
pub send_never_waits :
    (n : NetHttp)
    → IsNetHttp n
    → (c : Server) (es : List Event) (t : Run) (r : Option Error) → Steps n c start es t
    → t.listener ≡ sending r
    → step c t send ≡ some (record t { listener = stopped; queued = r ∷ [] })
send_never_waits n h c es t r steps p =
    room_to_send c t r t.main refl p (Steps-IsRun n h c start t es [] steps start-IsRun).on_its_way
