-- ===== src/Handler/Served.antt =====
-- What the server answers at its routes, from the routing table down to the database.
use concevoir_une_api_pagine.Prelude.{
  [], ◌∷◌, ◌++◌, Option, none, some, Bytes, codes, pos, ◌≡◌, refl, ◌⊎◌, inl, inr,
}
use mathlib.Core.List.{Memᴰ}
use concevoir_une_api_pagine.Errors.{Error, Result, ok, err, panicked}
use concevoir_une_api_pagine.Errors.Outcomes.{Holds, Never}
use concevoir_une_api_pagine.Go.Time.{sub}
use concevoir_une_api_pagine.Config.{Application}
use concevoir_une_api_pagine.Logger.{level_info, text_value, number_value, duration_value}
use concevoir_une_api_pagine.Postgres.Database.{Database}
use concevoir_une_api_pagine.Postgres.Failures.{IsDriver}
use concevoir_une_api_pagine.Handler.{health}
use concevoir_une_api_pagine.Handler.Replies.{Outcome, health_status}
use concevoir_une_api_pagine.Handler.Binding.{Binds}
use concevoir_une_api_pagine.Handler.Answers.{
  application, IsAnswer, IsKeysetBody, IsOffsetBody, IsTotalBody, list-IsAnswer,
  list_by_offset-IsAnswer, total-IsAnswer,
}
use concevoir_une_api_pagine.Handler.Routing.{
  plain, Endpoint, health_check, keyset_listing, offset_listing, total_count, Route, setup_routes,
  HttpServer, new_http_server, Request, Response, written, through, Router, handle, serve_http,
}

-- The server that `run` of go/main.go builds over a database.
unfoldable pub server_over : Application → Database → HttpServer
server_over a db =
    new_http_server a.server a.logging db.ping (application db a.cursor.key a.cursor.ttl)

-- What the handler of a route makes.
abbrev pub IsAnswerAt : Database → Endpoint → Outcome → Type 0
IsAnswerAt db health_check o =
    ((db.ping ≡ none) × (o.status ≡ 200) × (o.body ≡ health_status (codes "ok")))
    ⊎ ((e : Error) × (db.ping ≡ some e)
        × (o.status ≡ 503)
        × (o.body ≡ health_status (codes "unavailable")))
IsAnswerAt db keyset_listing o = IsAnswer IsKeysetBody o
IsAnswerAt db offset_listing o = IsAnswer IsOffsetBody o
IsAnswerAt db total_count o = IsAnswer IsTotalBody o

-- As documented: a route of the table is found by its method and its path, where no two routes of
-- the table have both in common.
pub record IsRouter (gin : Router) : Type 0 where
  pub finds :
      (r : Route) → Memᴰ r setup_routes → gin.find setup_routes r.method r.path ≡ some r.endpoint

health-IsAnswerAt :
    (db : Database) (p : Option Error) → db.ping ≡ p → IsAnswerAt db health_check (health p)
health-IsAnswerAt db none h = inl (h, refl, refl)
health-IsAnswerAt db (some e) h = inr (e, h, refl, refl)

handle-IsAnswerAt :
    (a : Application) (db : Database)
    → IsDriver db
    → (r : Request) (form : Bytes → Option Bytes) → Binds r.context form
    → (e : Endpoint) → Holds (IsAnswerAt db e) Never (handle (server_over a db) r e)
unfolding handle server_over new_http_server
handle-IsAnswerAt a db d r form b health_check = health-IsAnswerAt db db.ping refl
handle-IsAnswerAt a db d r form b keyset_listing =
    list-IsAnswer db d a.cursor.key a.cursor.ttl r.clock r.context form b
handle-IsAnswerAt a db d r form b offset_listing =
    list_by_offset-IsAnswer db d a.cursor.key a.cursor.ttl r.clock r.context form b
handle-IsAnswerAt a db d r form b total_count =
    total-IsAnswer db d a.cursor.key a.cursor.ttl r.clock r.context form b

-- The paths that spec/contract.md gives the endpoints, each for GET.
abbrev pub contract_path : Endpoint → Bytes
contract_path health_check = codes "/healthz"
contract_path keyset_listing = codes "/v1/transactions"
contract_path offset_listing = codes "/v1/transactions/offset"
contract_path total_count = codes "/v1/transactions/total"

contract_route-Memᴰ :
    (e : Endpoint)
    → Memᴰ (record { method = codes "GET"; path = contract_path e; endpoint = e }) setup_routes
contract_route-Memᴰ health_check = Memᴰ.head refl
contract_route-Memᴰ keyset_listing = Memᴰ.tail (Memᴰ.head refl)
contract_route-Memᴰ offset_listing = Memᴰ.tail (Memᴰ.tail (Memᴰ.head refl))
contract_route-Memᴰ total_count = Memᴰ.tail (Memᴰ.tail (Memᴰ.tail (Memᴰ.head refl)))

-- What the handler made, followed in the log by one record of the request: its method, its path, the
-- status of the answer and the time taken.
abbrev pub IsLogged : Request → Outcome → Response → Type 0
IsLogged r o response =
    response
    ≡ written (record {
      status = o.status;
      body = o.body;
      logged =
          o.logged
          ++ record {
            level = level_info;
            message = codes "request";
            attributes =
                (codes "method", text_value r.method)
                ∷ (codes "path", text_value r.path)
                ∷ (codes "status", number_value (pos o.status))
                ∷ (codes "duration", duration_value (sub r.finished r.started))
                ∷ [];
          }
            ∷ [];
    })

-- Over a driver that always returns, and with gin as documented, a GET of the path that the contract
-- gives an endpoint is answered with what that endpoint promises, status and body, and never by the
-- recovery from a panic; and the log has the handler's own records and behind them one record with
-- the method, the path, the status of the answer and the time taken.
pub serve_http-IsAnswerAt :
    (gin : Router)
    → IsRouter gin
    → (a : Application) (db : Database) → IsDriver db
    → (e : Endpoint) (r : Request) (form : Bytes → Option Bytes) → Binds r.context form
    → r.method ≡ codes "GET"
    → r.path ≡ contract_path e
    → (o : Outcome) × (response : Response) × IsAnswerAt db e o
      × IsLogged r o response
      × (serve_http gin (server_over a db) r ≡ ok response)
unfolding serve_http server_over new_http_server through
serve_http-IsAnswerAt gin g a db d e r form b method path =
    answered (handle (server_over a db) r e) refl (handle-IsAnswerAt a db d r form b e)
  where
    answered :
        (h : Result Outcome)
        → handle (server_over a db) r e ≡ h
        → Holds (IsAnswerAt db e) Never h
        → (o : Outcome) × (response : Response) × IsAnswerAt db e o
          × IsLogged r o response
          × (serve_http gin (server_over a db) r ≡ ok response)
    answered (ok o) made h =
        (o, _, h, refl, rw (method, path, g.finds _ (contract_route-Memᴰ e), made) refl)
    answered (err x) made h = absurd h
    answered panicked made h = absurd h

-- A handler that panics is answered by the recovery with a bare 500, and the request leaves no record
-- of the request logger.
pub serve_http_panicked :
    (gin : Router) (a : Application) (db : Database) (r : Request) (e : Endpoint)
    → gin.find setup_routes r.method r.path ≡ some e
    → handle (server_over a db) r e ≡ panicked
    → serve_http gin (server_over a db) r ≡ ok (plain 500 [])
unfolding serve_http server_over new_http_server through
serve_http_panicked gin a db r e found p = rw (found, p) refl
