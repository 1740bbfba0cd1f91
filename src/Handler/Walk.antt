-- ===== src/Handler/Walk.antt =====
-- A walk over HTTP returns the rows of the walk of the service.
use concevoir_une_api_pagine.Prelude.{
  ◌+◌, ◌*◌, ◌≤◌, ◌<◌, ◌^◌, List, [], ◌∷◌, ◌++◌, Bool, true, false, Option, none, some, Bytes,
  if◌then◌else◌, pos, All, length, ◌≡◌, refl, sym, ap, subst, ◌∙◌,
}
use concevoir_une_api_pagine.Errors.{ok, ◌>>=◌}
use concevoir_une_api_pagine.Errors.Outcomes.{Holds, ok-behind}
use concevoir_une_api_pagine.Domain.{Transaction, KeysetPage}
use concevoir_une_api_pagine.Postgres.Database.{Serves}
use concevoir_une_api_pagine.Postgres.Listing.{listing}
use concevoir_une_api_pagine.Service.{Transactions, Readings, page_of, resume, fetch_of}
use concevoir_une_api_pagine.Service
use concevoir_une_api_pagine.Service.Pages.{IsPage, full, last, IsListError, page_of-Holds}
use concevoir_une_api_pagine.Service.Client.{Visit, Walker, service_at, params_at, walk, behind}
use concevoir_une_api_pagine.Service.Walk.{IsTimely, IsTable, walk-listing}
use concevoir_une_api_pagine.Handler.{list, transactions_response, keyset_reply, nullable}
use concevoir_une_api_pagine.Handler.Requests.{
  Context, KeysetListRequest, keyset_fields, empty_keyset_request, keyset_params, page_size_value,
}
use concevoir_une_api_pagine.Handler.Replies.{TransactionResponse}
use concevoir_une_api_pagine.Handler.Answers.{application}
use concevoir_une_api_pagine.Handler.Client.{documented_rows, http_walk, follow, followed_by}

then_branch {ℓ} : {A : Type ℓ} (x y z : A) (b : Bool) → b ≡ true → (if b then x else y) ≡ z → x ≡ z
then_branch x y z true h e = e
then_branch x y z false h e = cc

else_branch {ℓ} : {A : Type ℓ} (x y z : A) (b : Bool) → b ≡ false → (if b then x else y) ≡ z → y ≡ z
else_branch x y z true h e = cc
else_branch x y z false h e = e

value_of : (x y : Option (List Transaction)) → ok x ≡ ok y → x ≡ y
value_of x y e = cc

-- Whatever the repository, a page that is returned is one of at most n rows, with a token exactly if
-- more rows are.
list-IsPage :
    (s : Transactions) (clock : Readings) (w : Walker) (token : Bytes) (page : KeysetPage)
    → 0 < w.limit
    → Service.list s clock (params_at w token) ≡ ok page
    → IsPage w.limit page
unfolding Service.list
list-IsPage s clock w token page h e =
    let (rows, _, made) = ok-behind _ (page_of s clock.at_issue (params_at w token)) page e in
    subst (Holds (IsPage w.limit) IsListError) made
      (page_of-Holds s clock.at_issue w.query token w.limit h rows)

-- The requests of a walk: with a token for its cursor, a query string is bound to the walker's query
-- and limit, and to that token.
pub record IsRequest (w : Walker) (context : Bytes → Context) : Type 0 where
  pub request : KeysetListRequest
  pub binds :
      (token : Bytes)
      → (context token).should_bind_query KeysetListRequest keyset_fields empty_keyset_request
        ≡ ok (record request { cursor = token })
  pub same_query : (keyset_params request).query ≡ w.query
  pub same_limit : page_size_value request.limit ≡ pos w.limit

map-append :
    (xs ys : List Transaction)
    → transactions_response (xs ++ ys) ≡ transactions_response xs ++ transactions_response ys
map-append [] ys = refl
map-append (x ∷ xs) ys = rw (map-append xs ys)

abbrev pub responses : Option (List Transaction) → Option (List TransactionResponse)
responses none = none
responses (some rows) = some (transactions_response rows)

responses-behind :
    (rows : List Transaction) (o : Option (List Transaction))
    → responses (behind rows o) ≡ followed_by (transactions_response rows) (responses o)
responses-behind rows none = refl
responses-behind rows (some more) = rw (map-append rows more)

module _ (w : Walker) (some_limit : 0 < w.limit) (context : Bytes → Context)
    (q : IsRequest w context) where
  reply :
      (v : Visit) (token : Bytes) (page : KeysetPage)
      → Service.list (service_at w v) v.clock (params_at w token) ≡ ok page
      → list (application v.database w.key w.ttl v.clock) (context token) ≡ ok (keyset_reply page)
  unfolding list
  reply v token page e = rw (q.binds token, q.same_query, q.same_limit, e)

  http_walk-walk :
      (vs : List Visit) (token : Bytes) (o : Option (List Transaction))
      → walk w vs token ≡ ok o
      → http_walk w.key w.ttl context vs token ≡ ok (responses o)
  unfolding walk http_walk
  http_walk-walk [] token o e = let same : none ≡ o = cc in ap (λ x. ok (responses x)) same
  http_walk-walk (v ∷ vs) token o e =
      let (page, returned, rest) =
        ok-behind (Service.list (service_at w v) v.clock (params_at w token)) _ o e in
      rw (reply v token page returned) (
        followed page rest (λ x h. http_walk-walk vs page.next x h)
          (list-IsPage (service_at w v) v.clock w token page some_limit returned))
    where
      followed :
          (page : KeysetPage)
          → (if page.has_more
              then walk w vs page.next >>= (λ more. ok (behind page.transactions more))
              else ok (some page.transactions))
            ≡ ok o
          → ((x : Option (List Transaction))
              → walk w vs page.next ≡ ok x
              → http_walk w.key w.ttl context vs page.next ≡ ok (responses x))
          → IsPage w.limit page
          → follow
              (transactions_response page.transactions)
              (nullable page.next)
              (λ t. http_walk w.key w.ttl context vs t)
            ≡ ok (responses o)
      followed page rest ih (full more size token) =
          let (x, walked, whole) =
            ok-behind (walk w vs page.next) _ o (then_branch _ _ _ _ more rest) in
          rw (token, ih x walked)
            (ap ok (sym (responses-behind page.transactions x))
              ∙ ap (λ y. ok (responses y)) (value_of (behind page.transactions x) o whole))
      followed page rest ih (last done size token) = rw token (
          ap (λ y. ok (responses y))
            (value_of (some page.transactions) o (else_branch _ _ _ _ done rest)))

-- A walk over HTTP, with one row a page at least and fewer than 2 ^ 63 - 1, over a database that
-- answers from one table which does not change: a client that follows page.next is answered with
-- the rows of the whole listing, each once and in order, if its query strings are bound to the
-- walk's query and limit, there are as many requests as the listing has pages, and each token is
-- used in time.
pub http_walk-listing :
    (w : Walker) (table : List Transaction) (context : Bytes → Context) (v : Visit)
    (vs : List Visit)
    → 0 < w.limit
    → w.limit + 1 < 2 ^ 63
    → IsRequest w context
    → IsTable table
    → All (λ u. Serves u.database table) (v ∷ vs)
    → IsTimely w.ttl (v ∷ vs)
    → length (listing w.query table) ≤ length (v ∷ vs) * w.limit
    → http_walk w.key w.ttl context (v ∷ vs) []
      ≡ ok (some (documented_rows (listing w.query table)))
http_walk-listing w table context v vs some_limit small q t serves timely enough =
    http_walk-walk w some_limit context q (v ∷ vs) [] (some (listing w.query table))
      (walk-listing w table v vs some_limit small t serves timely enough)
