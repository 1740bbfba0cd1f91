-- ===== src/Service/Ending.antt =====
-- How many requests end a walk over a table that changes between them.
use concevoir_une_api_pagine.Prelude.{
  ◌+◌, ◌*◌, ◌<◌, ◌≤◌, ◌^◌, List, [], ◌∷◌, length, Bool, true, Option, none, some, All, ◌≡◌, refl,
  inl, inr, arith,
}
use concevoir_une_api_pagine.Prelude.Members.{All-Mem, length-within}
use mathlib.Core.List.{Memᴰ}
use concevoir_une_api_pagine.Errors.{Result, ok, err, panicked}
use concevoir_une_api_pagine.Errors.Outcomes.{Holds, Never}
use concevoir_une_api_pagine.Domain.{Transaction, ListQuery}
use concevoir_une_api_pagine.Postgres.Order.{HasUniqueIds, shown_before-StrictOrder}
use concevoir_une_api_pagine.Postgres.Listing.{belongs, listing}
use concevoir_une_api_pagine.Service.Client.{Walker, walk}
use concevoir_une_api_pagine.Service.Walk.{IsTimely, listing-Sorted}
use concevoir_une_api_pagine.Service.Changes.{
  Stage, visits, IsStage, InSome, IsShown, IsComplete, IsEnd, listing-Mem,
}
use concevoir_une_api_pagine.Service.ChangingWalk.{walk-IsEnd}

-- The rows of each table are among these.
abbrev pub IsWithin : List Transaction → List Stage → Type 0
IsWithin every stages = All (λ s. All (λ t. Memᴰ t every) s.table) stages

InSome-within :
    (every : List Transaction) (stages : List Stage) (t : Transaction)
    → IsWithin every stages
    → InSome stages t
    → Memᴰ t every
InSome-within every [] t h m = absurd m
InSome-within every (s ∷ stages) t (h, hs) (inl m) = All-Mem (λ t. Memᴰ t every) s.table h m
InSome-within every (s ∷ stages) t (h, hs) (inr m) = InSome-within every stages t hs m

module _ (q : ListQuery) (every : List Transaction) (stages : List Stage)
    (within : IsWithin every stages) where
  shown-within :
      (rows : List Transaction)
      → All (λ t. belongs q.account_id t ≡ true) rows
      → All (InSome stages) rows
      → All (λ t. Memᴰ t (listing q every)) rows
  shown-within [] _ _ = tt
  shown-within (t ∷ rows) (b, bs) (m, ms) =
      (listing-Mem q every t b (InSome-within every stages t within m), shown-within rows bs ms)

  -- What a walk has shown is no more than the rows of the account.
  shown-le :
      (p : Transaction → Bool) (rows : List Transaction)
      → HasUniqueIds every
      → IsShown q p stages rows
      → length rows ≤ length (listing q every)
  shown-le p rows unique h =
      length-within (shown_before-StrictOrder q.sort) rows (listing q every) h.in_order
        (listing-Sorted q every unique) (shown-within rows h.of_account h.real)

module _ (w : Walker) (stages : List Stage) (every : List Transaction) (unique : HasUniqueIds every)
    (within : IsWithin every stages)
    (few : length (listing w.query every) < length stages * w.limit) where
  ended :
      (r : Result (Option (List Transaction)))
      → Holds (IsEnd w.query (λ _. true) w.limit stages) Never r
      → (rows : List Transaction) × (r ≡ ok (some rows))
        × IsShown w.query (λ _. true) stages rows
        × IsComplete w.query (λ _. true) stages rows
  ended (ok none) (rows, shown, full) =
      absurd (
        omega
          (arith, full, few, shown-le w.query every stages within (λ _. true) rows unique shown))
  ended (ok (some rows)) (shown, complete) = (rows, refl, shown, complete)
  ended (err e) h = absurd h
  ended panicked h = absurd h

-- A walk with one row a page at least and fewer than 2 ^ 63 - 1, over a database that answers each
-- request from the table as it is then, ends, if each token is used in time, as soon as its
-- requests have room for one row more than the account has in a list with unique ids that holds the
-- rows of every table it meets. The rows it then returns stood in the table of a request, are of
-- the account, strictly in order, and have among them each row of the account that is in the table
-- at every request.
pub walk-ends :
    (w : Walker)
    → w.limit + 1 < 2 ^ 63
    → 0 < w.limit
    → (s : Stage) (stages : List Stage) → All IsStage (s ∷ stages)
    → IsTimely w.ttl (visits (s ∷ stages))
    → (every : List Transaction) → HasUniqueIds every
    → IsWithin every (s ∷ stages)
    → length (listing w.query every) < length (s ∷ stages) * w.limit
    → (rows : List Transaction) × (walk w (visits (s ∷ stages)) [] ≡ ok (some rows))
      × IsShown w.query (λ _. true) (s ∷ stages) rows
      × IsComplete w.query (λ _. true) (s ∷ stages) rows
walk-ends w small some_limit s stages h timely every unique within few =
    ended w (s ∷ stages) every unique within few (walk w (visits (s ∷ stages)) [])
      (walk-IsEnd w small some_limit s stages h timely)
