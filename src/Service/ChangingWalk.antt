-- ===== src/Service/ChangingWalk.antt =====
-- What a walk returns if the table changes between its requests.
use concevoir_une_api_pagine.Prelude.{
  ◌+◌, ◌≤◌, ◌<◌, ◌^◌, List, [], ◌∷◌, ◌++◌, Bool, true, false, Option, none, some, Bytes, filter,
  length, length-append, length-take, take, ltb, Bool-cases, All, All-append_right, All-take,
  All-filter, subst, ◌≡◌, refl, inl, inr, arith, ◌∙◌,
}
use concevoir_une_api_pagine.Errors.Outcomes.{Holds, Holds->>=, Never}
use concevoir_une_api_pagine.Go.Time.{Time}
use concevoir_une_api_pagine.Go.Time.RoundTrip.{whole_seconds, HasSeconds}
use concevoir_une_api_pagine.Domain.{Transaction, ListQuery}
use concevoir_une_api_pagine.Cursor.{encode}
use concevoir_une_api_pagine.Cursor.RoundTrip.{is_expired}
use concevoir_une_api_pagine.Postgres.Order.{bound_of}
use concevoir_une_api_pagine.Postgres.Listing.{filter-true, listing, next_page-listing}
use concevoir_une_api_pagine.Service.{list, page_of, cursor_after}
use concevoir_une_api_pagine.Service.Paging.{
  IsRow, split_nonempty, page_of_last, page_of_more, list_after,
}
use concevoir_une_api_pagine.Service.Client.{Walker, service_at, params_at, walk, behind}
use concevoir_une_api_pagine.Service.Walk.{IsTimely, listing-IsRow, fetch_first}
use concevoir_une_api_pagine.Service.Changes.{
  Stage, visits, IsStage, IsShown, IsEnd, IsUpward, behind_row, behind_row-IsUpward, last-IsShown,
  last-IsComplete, joined-IsShown, joined-IsComplete,
}

nothing-IsShown : (q : ListQuery) (p : Transaction → Bool) → IsShown q p [] []
nothing-IsShown q p = record { of_account = tt; admitted = tt; in_order = tt; real = tt }

module _ (w : Walker) (small : w.limit + 1 < 2 ^ 63) (some_limit : 0 < w.limit) where
  -- A request with the token of a row fetches what the table of that request has behind it.
  fetch_behind :
      (s : Stage) (k : Transaction) (issued : Time)
      → IsStage s
      → IsRow k
      → HasSeconds issued
      → is_expired w.ttl s.visit.clock.at_decode (whole_seconds issued) ≡ false
      → let token = encode (cursor_after w.query k issued) w.key in
        list (service_at w s.visit) s.visit.clock (params_at w token)
        ≡ page_of
            (service_at w s.visit)
            s.visit.clock.at_issue
            (params_at w token)
            (take (w.limit + 1) (filter (behind_row w.query k) (listing w.query s.table)))
  fetch_behind s k issued (served, t) row h fresh =
      list_after (service_at w s.visit) w.query w.limit k issued s.visit.clock.at_decode row h fresh
        s.visit.clock.at_issue small
      ∙ rw (
          next_page-listing s.visit.database s.table served w.query (bound_of k) (w.limit + 1)
            t.unique)

  module _ (s : Stage) (stages : List Stage) (p : Transaction → Bool) (up : IsUpward w.query p)
      (h : IsStage s) (token : Bytes)
      (page : list (service_at w s.visit) s.visit.clock (params_at w token)
        ≡ page_of
            (service_at w s.visit)
            s.visit.clock.at_issue
            (params_at w token)
            (take (w.limit + 1) (filter p (listing w.query s.table)))) where
    abbrev rows : List Transaction
    rows = filter p (listing w.query s.table)

    last_page :
        length rows ≤ w.limit
        → Holds (IsEnd w.query p w.limit (s ∷ stages)) Never (walk w (visits (s ∷ stages)) token)
    unfolding walk
    last_page few =
        rw
          (
            page,
            page_of_last (service_at w s.visit) s.visit.clock.at_issue w.query w.limit token rows
                few,
          )
          (last-IsShown w.query p up s stages h.1, last-IsComplete w.query p up s stages h.1)

    page_before :
        (zs : List Transaction) (k : Transaction)
        → w.limit < length rows
        → take w.limit rows ≡ zs ++ k ∷ []
        → Holds
            (IsEnd w.query (behind_row w.query k) w.limit stages)
            Never
            (walk w (visits stages) (encode (cursor_after w.query k s.visit.clock.at_issue) w.key))
        → Holds (IsEnd w.query p w.limit (s ∷ stages)) Never (walk w (visits (s ∷ stages)) token)
    unfolding walk
    page_before zs k many e rest =
        rw
          (
            page,
            page_of_more (service_at w s.visit) s.visit.clock.at_issue w.query w.limit token rows zs
                k many e,
          )
          (Holds->>= (IsEnd w.query (behind_row w.query k) w.limit stages) Never
            (IsEnd w.query p w.limit (s ∷ stages))
            (walk w (visits stages) (encode (cursor_after w.query k s.visit.clock.at_issue) w.key))
            _ rest joined)
      where
        joined :
            (o : Option (List Transaction))
            → IsEnd w.query (behind_row w.query k) w.limit stages o
            → IsEnd w.query p w.limit (s ∷ stages) (behind (take w.limit rows) o)
        joined none (more, m, full) = (
          take w.limit rows ++ more,
          joined-IsShown w.query p up s stages h.1 w.limit zs k more e m,
          ground (arith, length-append (take w.limit rows) more, length-take w.limit rows),
        )
        joined (some more) (m, c) = (
          joined-IsShown w.query p up s stages h.1 w.limit zs k more e m,
          joined-IsComplete w.query p up s stages h.1 w.limit zs k more e c,
        )

    last_row_of :
        (zs : List Transaction) (k : Transaction) → take w.limit rows ≡ zs ++ k ∷ [] → IsRow k
    last_row_of zs k e =
        let page_rows : All IsRow (take w.limit rows) =
          All-take IsRow w.limit rows (
            All-filter IsRow p (listing w.query s.table)
              (listing-IsRow w.query s.table h.1.rows)) in
        (All-append_right IsRow zs (k ∷ []) (subst (All IsRow) e page_rows)).0

  walk_pages :
      (s : Stage) (stages : List Stage) (p : Transaction → Bool)
      → IsUpward w.query p
      → All IsStage (s ∷ stages)
      → IsTimely w.ttl (visits (s ∷ stages))
      → (token : Bytes)
      → list (service_at w s.visit) s.visit.clock (params_at w token)
        ≡ page_of
            (service_at w s.visit)
            s.visit.clock.at_issue
            (params_at w token)
            (take (w.limit + 1) (filter p (listing w.query s.table)))
      → Holds (IsEnd w.query p w.limit (s ∷ stages)) Never (walk w (visits (s ∷ stages)) token)
  walk_pages s [] p up (h, _) timely token page =
      let ys = filter p (listing w.query s.table) in
      elim (Bool-cases (ltb w.limit (length ys))) [
        | inr few ↦ last_page s [] p up h token page (ground arith)
        | inl many ↦
            let room : 0 < length (take w.limit ys) = ground (arith, length-take w.limit ys) in
            let (zs, k, e) = split_nonempty (take w.limit ys) room in
            page_before s [] p up h token page zs k (ground arith) e
              (unfold walk in ([], nothing-IsShown w.query (behind_row w.query k), omega arith))
      ]
  walk_pages s (u ∷ us) p up (h, hs) (seconds, fresh, timely) token page =
      let ys = filter p (listing w.query s.table) in
      elim (Bool-cases (ltb w.limit (length ys))) [
        | inr few ↦ last_page s (u ∷ us) p up h token page (ground arith)
        | inl many ↦
            let room : 0 < length (take w.limit ys) = ground (arith, length-take w.limit ys) in
            let (zs, k, e) = split_nonempty (take w.limit ys) room in
            let row = last_row_of s (u ∷ us) p up h token page zs k e in
            page_before s (u ∷ us) p up h token page zs k (ground arith) e (
              walk_pages u us (behind_row w.query k) (behind_row-IsUpward w.query k) hs timely
                (encode (cursor_after w.query k s.visit.clock.at_issue) w.key)
                (fetch_behind u k s.visit.clock.at_issue hs.0 row seconds fresh))
      ]

  -- A walk with one row a page at least and fewer than 2 ^ 63 - 1, over a database that answers
  -- each request from the table as it is then, never fails, if each token is used in time. What it
  -- shows are rows that stood in the table of a request, of the account and strictly in order, so
  -- that no row is shown twice. If it ends with one of these requests, each row of the account that
  -- is in the table at every request is shown; if not, each request has shown a full page.
  pub walk-IsEnd :
      (s : Stage) (stages : List Stage)
      → All IsStage (s ∷ stages)
      → IsTimely w.ttl (visits (s ∷ stages))
      → Holds
          (IsEnd w.query (λ _. true) w.limit (s ∷ stages))
          Never
          (walk w (visits (s ∷ stages)) [])
  walk-IsEnd s stages (h, hs) timely =
      walk_pages s stages (λ _. true) (λ _ _ _ _. refl) (h, hs) timely []
        (fetch_first w small s.table h.1 s.visit h.0
          ∙ rw (filter-true {A = Transaction} (listing w.query s.table)))
