-- ===== src/Tests/Journeys.antt =====
-- The walk of a client through the whole server at a small table.
use concevoir_une_api_pagine.Prelude.{
  [], ◌∷◌, some, pos, inl, refl, ◌≡◌, arith, sort, insert_sorted, text_eq, Bytes,
}
use concevoir_une_api_pagine.Errors.{ok}
use concevoir_une_api_pagine.Domain.{sort_created_at_desc}
use concevoir_une_api_pagine.Postgres.Order.{shown_before, is_newest_first}
use concevoir_une_api_pagine.Postgres.Listing.{listing, belongs}
use concevoir_une_api_pagine.Postgres.Snapshot.{snapshot-Serves}
use concevoir_une_api_pagine.Handler.Client.{documented_rows}
use concevoir_une_api_pagine.Handler.Requests.{Context}
use concevoir_une_api_pagine.Handler.Binding.{context_of, context_of-Binds}
use concevoir_une_api_pagine.Handler.QueryText.{keyset_form}
use concevoir_une_api_pagine.Handler.Journey.{page_request, served_walk, served_walk-query_text}
use concevoir_une_api_pagine.Tests.Data.{
  three_rows, three_rows-IsTable, tenant_query, visit_at, two_visits, two_visits-IsTimely, noon,
}
use concevoir_une_api_pagine.Tests.Settings.{settings}
use concevoir_une_api_pagine.Tests.Programs.{gin, gin-finds}

abbrev context : Bytes → Context
context token = context_of (keyset_form 42 [] sort_created_at_desc 2 token)

served_walk-query_text_example :
    served_walk gin settings (page_request context (λ v. pos noon) (λ v. pos noon)) two_visits []
    ≡ ok (some (documented_rows (listing tenant_query three_rows)))
served_walk-query_text_example =
    served_walk-query_text gin (record { finds = gin-finds }) settings (λ v. pos noon)
      (λ v. pos noon) 42 [] sort_created_at_desc 2 three_rows context (visit_at three_rows 0)
      (visit_at three_rows 60 ∷ []) (omega arith) (omega arith) (inl refl) (omega arith)
      (omega arith) (λ token. context_of-Binds (keyset_form 42 [] sort_created_at_desc 2 token))
      three_rows-IsTable (snapshot-Serves three_rows, (snapshot-Serves three_rows, tt))
      two_visits-IsTimely
      (unfold listing sort insert_sorted shown_before is_newest_first text_eq belongs in
        (omega arith))
