-- ===== src/Tests/Serving.antt =====
-- `Run` at concrete executions: one that shuts down, and one whose address is in use.
use concevoir_une_api_pagine.Prelude.{
  ◌≤◌, List, [], ◌∷◌, length, Bool, true, false, Option, none, some, codes, ◌≡◌, refl, ◌⊎◌, pos,
}
use concevoir_une_api_pagine.Errors.{Error, other}
use concevoir_une_api_pagine.Config.{Server}
use concevoir_une_api_pagine.Handler.Serving.{
  ServeError, server_closed, failure, stopped, Phase, accepting, closing, drained, Run, Event,
  announce, listen_returns, send, cancel, receive, shut_down, shutdown_returns, start,
  error_capacity, step, NetHttp, IsNetHttp, Steps, stay, next,
}
use concevoir_une_api_pagine.Handler.Serving.Outcome.{IsOutcome, run-IsOutcome, send_never_waits}
use concevoir_une_api_pagine.Handler.Serving.Ending.{HasReturned, CanStep, run-ends}

abbrev address_in_use : Error
address_in_use = other (codes "listen tcp :8080: bind: address already in use")

abbrev listen_outcomes : Phase → Option ServeError → Bool
listen_outcomes accepting (some (failure _)) = true
listen_outcomes closing (some server_closed) = true
listen_outcomes drained (some server_closed) = true
listen_outcomes _ _ = false

abbrev shutdown_outcomes : Option Error → Bool
shutdown_outcomes none = true
shutdown_outcomes (some _) = false

abbrev net_http : NetHttp
net_http = record { listen = listen_outcomes; shutdown = shutdown_outcomes }

net_http-fails : (p : Phase) → net_http.listen p none ≡ false
net_http-fails accepting = refl
net_http-fails closing = refl
net_http-fails drained = refl

net_http-closes : (p : Phase) → (p ≡ accepting → ⊥) → net_http.listen p (some server_closed) ≡ true
net_http-closes accepting h = absurd (h refl)
net_http-closes closing h = refl
net_http-closes drained h = refl

net_http-IsNetHttp : IsNetHttp net_http
net_http-IsNetHttp = record {
  fails = net_http-fails;
  stays_open = refl;
  closes = net_http-closes;
  shutdown_result = none;
  shuts_down = refl;
}

abbrev local : Server
local = record {
  host = [];
  port = pos 8080;
  mode = codes "release";
  shutdown_timeout = pos 10_000_000_000;
}

-- The state that events lead to.
abbrev after : Run → List Event → Run
after s [] = s
after s (e ∷ es) = elim (step local s e) [ none ↦ s | some u ↦ after u es ]

abbrev orderly : List Event
orderly =
    announce
    ∷ cancel
    ∷ shut_down
    ∷ listen_returns (some server_closed)
    ∷ shutdown_returns none
    ∷ send
    ∷ receive
    ∷ []

orderly-Steps : Steps net_http local start orderly (after start orderly)
unfolding step error_capacity
orderly-Steps = next announce tt refl (
    next cancel tt refl (
      next shut_down tt refl (
        next (listen_returns (some server_closed)) refl refl (
          next (shutdown_returns none) refl refl (next send tt refl (next receive tt refl stay))))))

run-IsOutcome_example : IsOutcome none (after start orderly) orderly
run-IsOutcome_example =
    run-IsOutcome net_http net_http-IsNetHttp local orderly (after start orderly) none orderly-Steps
      (unfold step error_capacity in refl)

run-ends_example :
    (length orderly ≤ 7)
    × (HasReturned (after start orderly)
        ⊎ CanStep net_http local (after start orderly)
        ⊎ ((after start orderly).cancelled ≡ false))
run-ends_example =
    run-ends net_http net_http-IsNetHttp local orderly (after start orderly) orderly-Steps

abbrev refused : List Event
refused = announce ∷ listen_returns (some (failure address_in_use)) ∷ []

refused-Steps : Steps net_http local start refused (after start refused)
unfolding step error_capacity
refused-Steps =
    next announce tt refl (next (listen_returns (some (failure address_in_use))) refl refl stay)

send_never_waits_example :
    step local (after start refused) send
    ≡ some (record (after start refused) { listener = stopped; queued = some address_in_use ∷ [] })
send_never_waits_example =
    send_never_waits net_http net_http-IsNetHttp local refused (after start refused)
      (some address_in_use) refused-Steps (unfold step error_capacity in refl)
