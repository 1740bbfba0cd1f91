-- ===== src/Tests/Programs.antt =====
-- The routes, the pool and the whole program, over a small table.
use concevoir_une_api_pagine.Prelude.{
  List, [], ◌∷◌, ◌&&◌, Option, none, some, Bytes, codes, text_eq, if◌then◌else◌, pos, ◌≡◌, refl,
  ◌⊎◌, inr,
}
use mathlib.Core.List.{Memᴰ}
use concevoir_une_api_pagine.Errors.{Error, ok}
use concevoir_une_api_pagine.Postgres.Snapshot.{snapshot, snapshot-IsDriver}
use concevoir_une_api_pagine.Postgres.Pool.{Pgxpool, Pool, PoolConfig, new_pool}
use concevoir_une_api_pagine.Postgres.PoolLifetime.{IsPgxpool, IsOwned, new_pool-IsOwned}
use concevoir_une_api_pagine.Handler.Replies.{Outcome}
use concevoir_une_api_pagine.Handler.Routing.{
  Endpoint, keyset_listing, Route, setup_routes, Request, Response, Router, serve_http,
}
use concevoir_une_api_pagine.Handler.Served.{
  server_over, IsAnswerAt, IsLogged, serve_http-IsAnswerAt,
}
use concevoir_une_api_pagine.Config.Load.{load}
use concevoir_une_api_pagine.Program.{Environment, main}
use concevoir_une_api_pagine.Program.Lifetime.{held, IsExit, main-IsExit}
use concevoir_une_api_pagine.Tests.Data.{three_rows, visit_at, noon}
use concevoir_une_api_pagine.Tests.Settings.{settings}
use concevoir_une_api_pagine.Tests.Loading.{koanf}
use concevoir_une_api_pagine.Tests.Requests.{form}
use concevoir_une_api_pagine.Handler.Binding.{context_of, context_of-Binds}

-- A router that takes the first route of the method and the path.
abbrev pub first_route : List Route → Bytes → Bytes → Option Endpoint
first_route [] method path = none
first_route (r ∷ rs) method path =
    let rest = first_route rs method path in
    if text_eq r.method method && text_eq r.path path then some r.endpoint else rest

abbrev pub gin : Router
gin = record { find = first_route }

pub gin-finds :
    (r : Route) → Memᴰ r setup_routes → gin.find setup_routes r.method r.path ≡ some r.endpoint
unfolding text_eq
gin-finds r (Memᴰ.head p) = rw p refl
gin-finds r (Memᴰ.tail (Memᴰ.head p)) = rw p refl
gin-finds r (Memᴰ.tail (Memᴰ.tail (Memᴰ.head p))) = rw p refl
gin-finds r (Memᴰ.tail (Memᴰ.tail (Memᴰ.tail (Memᴰ.head p)))) = rw p refl
gin-finds r (Memᴰ.tail (Memᴰ.tail (Memᴰ.tail (Memᴰ.tail m)))) = elim m [ ]

abbrev request : Request
request = record {
  method = codes "GET";
  path = codes "/v1/transactions";
  context = context_of form;
  clock = (visit_at three_rows 0).clock;
  started = pos noon;
  finished = pos noon;
}

serve_http-IsAnswerAt_example :
    (o : Outcome) × (response : Response) × IsAnswerAt (snapshot three_rows) keyset_listing o
    × IsLogged request o response
    × (serve_http gin (server_over settings (snapshot three_rows)) request ≡ ok response)
serve_http-IsAnswerAt_example =
    serve_http-IsAnswerAt gin (record { finds = gin-finds }) settings (snapshot three_rows)
      (snapshot-IsDriver three_rows) keyset_listing request form (context_of-Binds form) refl refl

-- A pool over the table.
abbrev pub parse_dsn : Bytes → Error ⊎ PoolConfig
parse_dsn d = inr (record { connection = d; min_conns = pos 0; max_conns = pos 4; tracer = none })

abbrev pub open_pool : PoolConfig → Error ⊎ Pool
open_pool c = inr (record { config = c; database = snapshot three_rows })

abbrev pub pgxpool : Pgxpool
pgxpool = record { parse_config = parse_dsn; new_with_config = open_pool }

pgxpool-IsPgxpool : IsPgxpool pgxpool
pgxpool-IsPgxpool = record { untraced = untraced; keeps = keeps }
  where
    untraced : (d : Bytes) (c : PoolConfig) → parse_dsn d ≡ inr c → c.tracer ≡ none
    untraced d c p = cc

    keeps : (c : PoolConfig) (p : Pool) → open_pool c ≡ inr p → p.config ≡ c
    keeps c p e = cc

new_pool-IsOwned_example :
    IsOwned settings.postgres settings.logging
      (new_pool pgxpool settings.postgres settings.logging).0
      (new_pool pgxpool settings.postgres settings.logging).1
new_pool-IsOwned_example =
    new_pool-IsOwned pgxpool pgxpool-IsPgxpool settings.postgres settings.logging

abbrev environment : Environment
environment = record { koanf = koanf; pgxpool = pgxpool; serve = λ s. none }

main-IsExit_example :
    (held [] (main environment (codes ".")).0 ≡ some [])
    × IsExit environment
        (load koanf (codes "."))
        (main environment (codes ".")).0
        (main environment (codes ".")).1
main-IsExit_example = main-IsExit environment (codes ".")
