-- ===== src/Tests/Walks.antt =====
-- The theorems on cursors and walks at concrete inputs.
use concevoir_une_api_pagine.Prelude.{[], ◌∷◌, ◌≡◌, some, arith}
use concevoir_une_api_pagine.Prelude.{sort, insert_sorted, text_eq}
use concevoir_une_api_pagine.Postgres.Order.{shown_before, is_newest_first}
use concevoir_une_api_pagine.Prelude.{true, List, refl}
use concevoir_une_api_pagine.Prelude.Members.{All-members}
use mathlib.Core.List.{Memᴰ}
use concevoir_une_api_pagine.Domain.{Transaction}
use concevoir_une_api_pagine.Errors.Outcomes.{Holds, Never}
use concevoir_une_api_pagine.Service.Changes.{IsEnd, IsShown, IsComplete, visits}
use concevoir_une_api_pagine.Service.Ending.{walk-ends}
use concevoir_une_api_pagine.Service.ChangingWalk.{walk-IsEnd}
use concevoir_une_api_pagine.Tests.Data.{
  three_stages, three_stages-IsTimely, four_rows, four_rows-IsTable, growing, growing-IsTimely,
  three_rows, three_rows-IsTable, tenant_query, walker, visit_at, two_visits, two_visits-IsTimely,
}
use concevoir_une_api_pagine.Errors.{ok}
use concevoir_une_api_pagine.Postgres.Snapshot.{snapshot-Serves}
use concevoir_une_api_pagine.Postgres.Listing.{listing, belongs}
use concevoir_une_api_pagine.Service.Client.{walk}
use concevoir_une_api_pagine.Service.Walk.{walk-listing}

walk-listing_example : walk walker two_visits [] ≡ ok (some (listing tenant_query three_rows))
walk-listing_example =
    walk-listing walker three_rows (visit_at three_rows 0) (visit_at three_rows 60 ∷ [])
      (omega arith) (omega arith) three_rows-IsTable
      (snapshot-Serves three_rows, (snapshot-Serves three_rows, tt)) two_visits-IsTimely
      (unfold listing sort insert_sorted shown_before is_newest_first text_eq belongs in
        (omega arith))

walk-IsEnd_example :
    Holds (IsEnd tenant_query (λ _. true) 2 growing) Never (walk walker (visits growing) [])
walk-IsEnd_example =
    walk-IsEnd walker (omega arith) (omega arith)
      (record { visit = visit_at three_rows 0; table = three_rows })
      (record { visit = visit_at four_rows 60; table = four_rows } ∷ [])
      (
        (snapshot-Serves three_rows, three_rows-IsTable),
        ((snapshot-Serves four_rows, four_rows-IsTable), tt),
      )
      growing-IsTimely

walk-ends_example :
    (rows : List Transaction) × (walk walker (visits three_stages) [] ≡ ok (some rows))
    × IsShown tenant_query (λ _. true) three_stages rows
    × IsComplete tenant_query (λ _. true) three_stages rows
walk-ends_example =
    walk-ends walker (omega arith) (omega arith)
      (record { visit = visit_at three_rows 0; table = three_rows })
      (record { visit = visit_at four_rows 60; table = four_rows }
        ∷ record { visit = visit_at four_rows 120; table = four_rows }
        ∷ [])
      (
        (snapshot-Serves three_rows, three_rows-IsTable),
        (
          (snapshot-Serves four_rows, four_rows-IsTable),
          ((snapshot-Serves four_rows, four_rows-IsTable), tt),
        ),
      )
      three_stages-IsTimely four_rows four_rows-IsTable.unique
      (
        (
          Memᴰ.tail (Memᴰ.head refl),
          (
            Memᴰ.tail (Memᴰ.tail (Memᴰ.head refl)),
            (Memᴰ.tail (Memᴰ.tail (Memᴰ.tail (Memᴰ.head refl))), tt),
          ),
        ),
        (All-members four_rows, (All-members four_rows, tt)),
      )
      (unfold listing sort insert_sorted shown_before is_newest_first text_eq belongs in
        omega arith)
