-- ===== src/Handler/Journey.antt =====
-- A walk through the whole server: each request goes through the routing table and the middleware to
-- the handler, the service, the repository and the database.
use concevoir_une_api_pagine.Prelude.{
  ℕ, ◌*◌, ◌≤◌, ◌<◌, ◌^◌, List, [], ◌∷◌, Option, none, some, Bytes, codes, All, length, ◌≡◌, refl,
}
use mathlib.Core.List.{Memᴰ}
use concevoir_une_api_pagine.Errors.{Result, ok, err, other, ◌>>=◌}
use concevoir_une_api_pagine.Errors.Outcomes.{ok-behind}
use concevoir_une_api_pagine.Go.Time.{Time}
use concevoir_une_api_pagine.Domain.{Sort}
use concevoir_une_api_pagine.Domain.{Transaction}
use concevoir_une_api_pagine.Config.{Application}
use concevoir_une_api_pagine.Postgres.Database.{Serves}
use concevoir_une_api_pagine.Postgres.Listing.{listing}
use concevoir_une_api_pagine.Service.Client.{Visit}
use concevoir_une_api_pagine.Service.Walk.{IsTable, IsTimely}
use concevoir_une_api_pagine.Handler.{list}
use concevoir_une_api_pagine.Handler.Requests.{Context}
use concevoir_une_api_pagine.Handler.Replies.{Outcome, TransactionResponse}
use concevoir_une_api_pagine.Handler.Binding.{Binds}
use concevoir_une_api_pagine.Handler.Answers.{application}
use concevoir_une_api_pagine.Handler.Client.{documented_rows, http_walk, read_page, follow}
use concevoir_une_api_pagine.Cursor.FilterText.{IsSort}
use concevoir_une_api_pagine.Handler.QueryText.{keyset_form, walker_of, http_walk-query_text}
use concevoir_une_api_pagine.Handler.Routing.{
  Request, Response, written, plain, Router, with_record, through, handle, new_http_server,
  serve_http,
}
use concevoir_une_api_pagine.Handler.Served.{server_over, IsRouter}

-- The request for a page: its context is the query string with a token for its cursor, and it takes
-- some time.
abbrev pub page_request :
    (Bytes → Context) → (Visit → Time) → (Visit → Time) → Visit → Bytes → Request
page_request context started finished v token = record {
  method = codes "GET";
  path = codes "/v1/transactions";
  context = context token;
  clock = v.clock;
  started = started v;
  finished = finished v;
}

abbrev read_response : Response → Result (List TransactionResponse × Option Bytes)
read_response (written o) = read_page o.body
read_response (plain status logged) = err (other (codes "no page"))

-- The rows of the responses of a server, or `none` if the walk has not ended with the last request.
unfoldable pub served_walk :
    Router
    → Application
    → (Visit → Bytes → Request)
    → List Visit
    → Bytes
    → Result (Option (List TransactionResponse))
served_walk gin a request [] token = ok none
served_walk gin a request (v ∷ vs) token = do
  response ← serve_http gin (server_over a v.database) (request v token)
  (rows, next) ← read_response response
  follow rows next (λ t. served_walk gin a request vs t)

module _ (gin : Router) (g : IsRouter gin) (a : Application) (context : Bytes → Context)
    (started finished : Visit → Time) where
  -- What the handler answers to the request, the server answers, with its record.
  serve_list :
      (v : Visit) (token : Bytes) (o : Outcome)
      → list (application v.database a.cursor.key a.cursor.ttl v.clock) (context token) ≡ ok o
      → let r = page_request context started finished v token in
        serve_http gin (server_over a v.database) r ≡ ok (with_record r (written o))
  unfolding serve_http server_over new_http_server through handle
  serve_list v token o e = rw (g.finds _ (Memᴰ.tail (Memᴰ.head refl)), e) refl

  follow_ok :
      (rows : List TransactionResponse) (next : Option Bytes)
      (f h : Bytes → Result (Option (List TransactionResponse)))
      → ((t : Bytes) (o : Option (List TransactionResponse)) → f t ≡ ok o → h t ≡ ok o)
      → (o : Option (List TransactionResponse)) → follow rows next f ≡ ok o
      → follow rows next h ≡ ok o
  follow_ok rows none f h same o e = e
  follow_ok rows (some t) f h same o e =
      let (more, read, rest) = ok-behind (f t) _ o e in rw (same t more read) rest

  served_walk-http_walk :
      (vs : List Visit) (token : Bytes) (o : Option (List TransactionResponse))
      → http_walk a.cursor.key a.cursor.ttl context vs token ≡ ok o
      → served_walk gin a (page_request context started finished) vs token ≡ ok o
  unfolding http_walk served_walk
  served_walk-http_walk [] token o e = e
  served_walk-http_walk (v ∷ vs) token o e =
      let (outcome, answered, behind) =
        ok-behind (list (application v.database a.cursor.key a.cursor.ttl v.clock) (context token))
          _ o e in
      let ((rows, next), page, rest) = ok-behind (read_page outcome.body) _ o behind in
      rw (serve_list v token outcome answered, page)
        (follow_ok rows next (λ t. http_walk a.cursor.key a.cursor.ttl context vs t)
          (λ t. served_walk gin a (page_request context started finished) vs t)
          (λ t x h. served_walk-http_walk vs t x h) o rest)

-- A client asks the server for the transactions of an account with a positive bigint id, in one of
-- the two orders, at most 100 rows a page and a positive number of them, and puts each page.next
-- into the cursor of its next request. With gin as documented, and over a database that answers
-- from one table which does not change, it is answered with the rows of the whole listing, each
-- once and in order, if there are as many requests as the listing has pages and each token is used
-- within the configured time to live.
pub served_walk-query_text :
    (gin : Router)
    → IsRouter gin
    → (a : Application) (started finished : Visit → Time) (account_id : ℕ) (status : Bytes)
      (order : Sort) (limit : ℕ) (table : List Transaction) (context : Bytes → Context) (v : Visit)
      (vs : List Visit)
    → 0 < account_id
    → account_id < 2 ^ 63
    → IsSort order
    → 0 < limit
    → limit ≤ 100
    → ((token : Bytes) → Binds (context token) (keyset_form account_id status order limit token))
    → IsTable table
    → All (λ u. Serves u.database table) (v ∷ vs)
    → IsTimely a.cursor.ttl (v ∷ vs)
    → let q = (walker_of a.cursor.key a.cursor.ttl account_id status order limit).query in
      length (listing q table) ≤ length (v ∷ vs) * limit
      → served_walk gin a (page_request context started finished) (v ∷ vs) []
        ≡ ok (some (documented_rows (listing q table)))
served_walk-query_text gin g a started finished account_id status order limit table context v vs
      some_account fits known some_limit capped b t serves timely enough =
    served_walk-http_walk gin g a context started finished (v ∷ vs) [] _ (
      http_walk-query_text a.cursor.key a.cursor.ttl account_id status order limit table context v
        vs some_account fits known some_limit capped b t serves timely enough)
