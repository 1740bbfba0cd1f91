-- ===== src/Handler/Routing.antt =====
-- The server of go/internal/handler/http.go in front of the handlers: NewHTTPServer, setupRoutes,
-- requestLogger and ServeHTTP.
use concevoir_une_api_pagine.Prelude.{
  ℕ, ◌*◌, List, [], ◌∷◌, ◌++◌, map, Option, none, some, Bytes, codes, pos,
}
use concevoir_une_api_pagine.Errors.{Error, Result, ok, err, panicked, ◌>>=◌}
use concevoir_une_api_pagine.Go.Time.{Time, Duration, sub, second}
use concevoir_une_api_pagine.Config.{Server, addr}
use concevoir_une_api_pagine.Logger.{
  LoggingConfig, LogRecord, level_info, text_value, number_value, duration_value,
}
use concevoir_une_api_pagine.Service.{Readings}
use concevoir_une_api_pagine.Handler
use concevoir_une_api_pagine.Handler.{TransactionService}
use concevoir_une_api_pagine.Handler.Requests.{Context}
use concevoir_une_api_pagine.Handler.Replies.{Outcome}

pub data Endpoint : Type 0 where
  health_check keyset_listing offset_listing total_count : Endpoint

pub record Route : Type 0 where
  pub method : Bytes
  pub path : Bytes
  pub endpoint : Endpoint

pub data Middleware : Type 0 where
  recovery request_logger : Middleware

-- `HTTPServer`, with what it gives gin and its `http.Server`.
pub record HttpServer : Type 0 where
  pub mode : Bytes
  pub middleware : List Middleware
  pub routes : List Route
  pub server_addr : Bytes
  pub read_header_timeout : Duration
  pub shutdown_timeout : Duration
  pub logger : LoggingConfig
  pub health_pinger : Option Error
  pub transactions : Readings → TransactionService

abbrev pub get : Bytes → Endpoint → Route
get path endpoint = record { method = codes "GET"; path = path; endpoint = endpoint }

-- The routes of a group stand below its path.
abbrev pub group : Bytes → List Route → List Route
group prefix routes =
    map (λ r. record { method = r.method; path = prefix ++ r.path; endpoint = r.endpoint }) routes

-- `setupRoutes`
abbrev pub setup_routes : List Route
setup_routes =
    get (codes "/healthz") health_check
    ∷ group (codes "/v1/transactions") (
        get [] keyset_listing
        ∷ get (codes "/offset") offset_listing
        ∷ get (codes "/total") total_count
        ∷ [])

-- `NewHTTPServer`
unfoldable pub new_http_server :
    Server → LoggingConfig → Option Error → (Readings → TransactionService) → HttpServer
new_http_server cfg log pinger transactions = record {
  mode = Handler.gin_mode cfg.mode;
  middleware = recovery ∷ request_logger ∷ [];
  routes = setup_routes;
  server_addr = addr cfg;
  read_header_timeout = pos (5 * second);
  shutdown_timeout = cfg.shutdown_timeout;
  logger = log;
  health_pinger = pinger;
  transactions = transactions;
}

-- A request, the clock at it, and when it is begun and done.
pub record Request : Type 1 where
  pub method : Bytes
  pub path : Bytes
  pub context : Context
  pub clock : Readings
  pub started : Time
  pub finished : Time

-- The outcome of a handler, or a response that gin writes, with the records of the logger.
pub data Response : Type 0 where
  written : Outcome → Response
  plain : ℕ → List LogRecord → Response

-- `requestLogger`: its record of a request that was answered with a status.
abbrev pub request_record : Request → ℕ → LogRecord
request_record r status = record {
  level = level_info;
  message = codes "request";
  attributes =
      (codes "method", text_value r.method)
      ∷ (codes "path", text_value r.path)
      ∷ (codes "status", number_value (pos status))
      ∷ (codes "duration", duration_value (sub r.finished r.started))
      ∷ [];
}

abbrev pub with_record : Request → Response → Response
with_record r (written o) =
    written (record o { logged = o.logged ++ request_record r o.status ∷ [] })
with_record r (plain status logged) = plain status (logged ++ request_record r status ∷ [])

-- `c.Next()` between what a middleware does before and behind it: a panic passes `requestLogger`,
-- which defers nothing, and `gin.Recovery` answers it.
abbrev pub recovered : Result Response → Result Response
recovered (ok a) = ok a
recovered (err e) = err e
recovered panicked = ok (plain 500 [])

unfoldable pub through : List Middleware → Request → Result Response → Result Response
through [] r next = next
through (recovery ∷ rest) r next = recovered (through rest r next)
through (request_logger ∷ rest) r next = through rest r next >>= λ a. ok (with_record r a)

-- gin's router, which is not code of the repository.
pub record Router : Type 0 where
  pub find : List Route → Bytes → Bytes → Option Endpoint

unfoldable pub handle : HttpServer → Request → Endpoint → Result Outcome
handle s r health_check = ok (Handler.health s.health_pinger)
handle s r keyset_listing = Handler.list (s.transactions r.clock) r.context
handle s r offset_listing = Handler.list_by_offset (s.transactions r.clock) r.context
handle s r total_count = Handler.total (s.transactions r.clock) r.context

abbrev pub routed : HttpServer → Request → Option Endpoint → Result Response
routed s r none = ok (plain 404 [])
routed s r (some e) = handle s r e >>= λ o. ok (written o)

-- `ServeHTTP`
unfoldable pub serve_http : Router → HttpServer → Request → Result Response
unfolding through handle
serve_http gin s r = through s.middleware r (routed s r (gin.find s.routes r.method r.path))
