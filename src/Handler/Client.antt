-- ===== src/Handler/Client.antt =====
-- A client of GET /v1/transactions that puts the `page.next` of a response into the next request's
-- `cursor`, and stops where it is null, as spec/contract.md asks.
use concevoir_une_api_pagine.Prelude.{List, [], ◌∷◌, ◌++◌, map, Option, none, some, Bytes, codes}
use concevoir_une_api_pagine.Errors.{Result, ok, err, other, ◌>>=◌}
use concevoir_une_api_pagine.Go.Strconv.{format_int}
use concevoir_une_api_pagine.Go.Time.{Duration, format_rfc3339_nano}
use concevoir_une_api_pagine.Domain.{Transaction}
use concevoir_une_api_pagine.Handler.{list}
use concevoir_une_api_pagine.Handler.Requests.{Context}
use concevoir_une_api_pagine.Handler.Replies.{Body, keyset_list, TransactionResponse}
use concevoir_une_api_pagine.Handler.Answers.{application}
use concevoir_une_api_pagine.Service.Client.{Visit}

-- Rows as spec/contract.md shows them: the id and the instant as texts, the two numbers as numbers.
abbrev pub documented_rows : List Transaction → List TransactionResponse
documented_rows rows =
    map
      (λ t. record {
        id = format_int t.id;
        account_id = t.account_id;
        amount_cents = t.amount_cents;
        label = t.label;
        created_at = format_rfc3339_nano t.created_at;
      })
      rows

-- The rows of a response and its token; any other response ends the walk with an error.
abbrev pub read_page : Body → Result (List TransactionResponse × Option Bytes)
read_page (keyset_list r) = ok (r.data_rows, r.page.next)
read_page _ = err (other (codes "no page"))

abbrev pub followed_by :
    List TransactionResponse → Option (List TransactionResponse) → Option (List TransactionResponse)
followed_by rows none = none
followed_by rows (some more) = some (rows ++ more)

-- On to the next request, if there is a token.
abbrev pub follow :
    List TransactionResponse
    → Option Bytes
    → (Bytes → Result (Option (List TransactionResponse)))
    → Result (Option (List TransactionResponse))
follow rows none next_request = ok (some rows)
follow rows (some t) next_request = do more ← next_request t; ok (followed_by rows more)

-- The rows of the responses, or `none` if the walk has not ended with the last request. The context
-- is the request with a token for its cursor.
unfoldable pub http_walk :
    Bytes
    → Duration
    → (Bytes → Context)
    → List Visit
    → Bytes
    → Result (Option (List TransactionResponse))
http_walk key ttl context [] token = ok none
http_walk key ttl context (v ∷ vs) token = do
  outcome ← list (application v.database key ttl v.clock) (context token)
  (rows, next) ← read_page outcome.body
  follow rows next (λ t. http_walk key ttl context vs t)
