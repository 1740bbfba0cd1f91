-- ===== src/Handler/Serving.antt =====
-- `HTTPServer.Run` of go/internal/handler/http.go: its two goroutines, the channel between them, and
-- the `http.Server` under them, as steps in any order.
pub mod Invariant
pub mod Outcome
pub mod Ending
use concevoir_une_api_pagine.Prelude.{
  ℕ, List, [], ◌∷◌, ◌++◌, length, Bool, true, false, Option, none, some, codes, ltb, ltb→lt,
  if◌then◌else◌, ◌≡◌,
}
use concevoir_une_api_pagine.Errors.{Error}
use concevoir_une_api_pagine.Config.{Server, addr}
use concevoir_une_api_pagine.Logger.{LogRecord, level_info, text_value, duration_value}

-- What `ListenAndServe` returns: an error for which `errors.Is(err, http.ErrServerClosed)` holds, or
-- another.
pub data ServeError : Type 0 where
  server_closed : ServeError
  failure : Error → ServeError

-- The goroutine that serves.
pub data Listener : Type 0 where
  starting serving : Listener
  sending : Option Error → Listener
  stopped : Listener

-- The caller of `Run`; `returned none` is a nil error.
pub data Main : Type 0 where
  selecting draining receiving : Main
  returned : Option Error → Main

-- The `http.Server`: before `Shutdown` is called, from then on, and when it has returned nil.
pub data Phase : Type 0 where
  accepting closing drained : Phase

-- `queued` is what stands in `errCh`, and `cancelled` says that `ctx` is done.
pub record Run : Type 0 where
  pub listener : Listener
  pub main : Main
  pub queued : List (Option Error)
  pub cancelled : Bool
  pub phase : Phase
  pub logged : List LogRecord

pub data Event : Type 0 where
  announce : Event
  listen_returns : Option ServeError → Event
  send : Event
  cancel : Event
  receive : Event
  shut_down : Event
  shutdown_returns : Option Error → Event

abbrev pub start : Run
start = record {
  listener = starting;
  main = selecting;
  queued = [];
  cancelled = false;
  phase = accepting;
  logged = [];
}

-- The capacity that `errCh` is made with.
unfoldable pub error_capacity : ℕ
error_capacity = 1

-- What the goroutine sends for what `ListenAndServe` returns.
abbrev pub serve_result : Option ServeError → Option Error
serve_result none = none
serve_result (some server_closed) = none
serve_result (some (failure e)) = some e

abbrev pub on_announce : Server → Run → Listener → Option Run
on_announce c s starting = some (record s {
  listener = serving;
  logged =
      s.logged
      ++ record {
        level = level_info;
        message = codes "HTTP server listening";
        attributes = (codes "addr", text_value (addr c)) ∷ [];
      }
        ∷ [];
})
on_announce c s _ = none

abbrev pub on_listen_returns : Run → Option ServeError → Listener → Option Run
on_listen_returns s r serving = some (record s { listener = sending (serve_result r) })
on_listen_returns s r _ = none

-- A send waits while the channel is full.
abbrev pub on_send : Run → Listener → Option Run
on_send s (sending r) =
    if ltb (length s.queued) error_capacity
    then some (record s { listener = stopped; queued = s.queued ++ r ∷ [] })
    else none
on_send s _ = none

abbrev pub on_cancel : Run → Bool → Option Run
on_cancel s false = some (record s { cancelled = true })
on_cancel s true = none

-- Both receives of `errCh` return what they get.
abbrev pub on_receive : Run → Main → List (Option Error) → Option Run
on_receive s selecting (r ∷ rest) = some (record s { main = returned r; queued = rest })
on_receive s receiving (r ∷ rest) = some (record s { main = returned r; queued = rest })
on_receive s _ _ = none

abbrev pub on_shut_down : Server → Run → Main → Bool → Option Run
on_shut_down c s selecting true = some (record s {
  main = draining;
  phase = closing;
  logged =
      s.logged
      ++ record {
        level = level_info;
        message = codes "shutting down HTTP server";
        attributes = (codes "timeout", duration_value c.shutdown_timeout) ∷ [];
      }
        ∷ [];
})
on_shut_down c s _ _ = none

abbrev pub on_shutdown_returns : Run → Option Error → Main → Option Run
on_shutdown_returns s none draining = some (record s { main = receiving; phase = drained })
on_shutdown_returns s (some e) draining = some (record s { main = returned (some e) })
on_shutdown_returns s _ _ = none

-- One step of `Run`, or `none` if it cannot be made.
unfoldable pub step : Server → Run → Event → Option Run
unfolding error_capacity
step c s announce = on_announce c s s.listener
step c s (listen_returns r) = on_listen_returns s r s.listener
step c s send = on_send s s.listener
step c s cancel = on_cancel s s.cancelled
step c s receive = on_receive s s.main s.queued
step c s shut_down = on_shut_down c s s.main s.cancelled
step c s (shutdown_returns r) = on_shutdown_returns s r s.main

-- The calls of net/http: what `ListenAndServe` may return in a phase of its server, and what
-- `Shutdown` may return.
pub record NetHttp : Type 0 where
  pub listen : Phase → Option ServeError → Bool
  pub shutdown : Option Error → Bool

-- As documented: `ListenAndServe` never returns nil; it returns `ErrServerClosed` only if `Shutdown`
-- was called, and from then on it does; `Shutdown` returns, its context's error at the latest.
pub record IsNetHttp (n : NetHttp) : Type 0 where
  pub fails : (p : Phase) → n.listen p none ≡ false
  pub stays_open : n.listen accepting (some server_closed) ≡ false
  pub closes : (p : Phase) → (p ≡ accepting → ⊥) → n.listen p (some server_closed) ≡ true
  pub shutdown_result : Option Error
  pub shuts_down : n.shutdown shutdown_result ≡ true

abbrev pub IsAllowed : NetHttp → Run → Event → Type 0
IsAllowed n s (listen_returns r) = n.listen s.phase r ≡ true
IsAllowed n s (shutdown_returns r) = n.shutdown r ≡ true
IsAllowed n s _ = Unit {0}

-- Steps in their order, from one state to another.
pub data Steps (n : NetHttp) (c : Server) : Run → List Event → Run → Type 0 where
  stay : {s : Run} → Steps n c s [] s
  next :
      {s u t : Run} {es : List Event} (e : Event)
      → IsAllowed n s e
      → step c s e ≡ some u
      → Steps n c u es t
      → Steps n c s (e ∷ es) t
