-- ===== src/Service/Walk.antt =====
-- A walk over a table that does not change.
use concevoir_une_api_pagine.Prelude.{
  ℕ, suc, ◌+◌, ◌*◌, ◌≤◌, ◌<◌, ◌^◌, List, [], ◌∷◌, ◌++◌, append_assoc, false, ◌≡◌, refl, sym, ap,
  subst, ◌∙◌, arith, inl, inr, some, Bytes, text_eq, ltb, Bool-cases, length, length-drop, take,
  drop, take-append-drop, filter, All, All-append_right, All-filter, All-sort, sort-Sorted, Sorted,
  filter_after, length-take,
}
use mathlib.Core.Path.{fun_ext}
use concevoir_une_api_pagine.Errors.{ok}
use concevoir_une_api_pagine.Go.Time.{Time, Duration}
use concevoir_une_api_pagine.Go.Time.RoundTrip.{whole_seconds, HasSeconds}
use concevoir_une_api_pagine.Domain.{Transaction, ListQuery}
use concevoir_une_api_pagine.Cursor.{encode}
use concevoir_une_api_pagine.Cursor.RoundTrip.{is_expired}
use concevoir_une_api_pagine.Postgres.Database.{Serves}
use concevoir_une_api_pagine.Postgres.Order.{
  shown_before, shown_before-StrictOrder, after_bound-bound_of, bound_of, HasUniqueIds,
  HasUniqueIds-Distinct, HasUniqueIds-filter,
}
use concevoir_une_api_pagine.Postgres.Listing.{
  belongs, listing, listing_after, first_page-listing, next_page-listing,
}
use concevoir_une_api_pagine.Service.{cursor_after, list, page_of}
use concevoir_une_api_pagine.Service.Paging.{
  IsRow, fetch_one_more, split_nonempty, page_of_last, page_of_more, list_after,
}
use concevoir_une_api_pagine.Service.Client.{Visit, Walker, service_at, params_at, walk}

-- Each token is used before it expires, and is issued at an instant that a cursor can hold.
abbrev pub IsTimely : Duration → List Visit → Type 0
IsTimely ttl [] = Unit
IsTimely ttl (v ∷ []) = HasSeconds v.clock.at_issue
IsTimely ttl (v ∷ u ∷ vs) =
    HasSeconds v.clock.at_issue
    × (is_expired ttl u.clock.at_decode (whole_seconds v.clock.at_issue) ≡ false)
    × IsTimely ttl (u ∷ vs)

-- The table as its schema keeps it.
pub record IsTable (table : List Transaction) : Type 0 where
  pub rows : All IsRow table
  pub unique : HasUniqueIds table

pub listing-Sorted :
    (q : ListQuery) (table : List Transaction)
    → HasUniqueIds table
    → Sorted (shown_before q.sort) (listing q table)
unfolding listing
listing-Sorted q table u =
    sort-Sorted (shown_before-StrictOrder q.sort) (filter (belongs q.account_id) table)
      (HasUniqueIds-Distinct q.sort _ (HasUniqueIds-filter (belongs q.account_id) table u))

pub listing-IsRow :
    (q : ListQuery) (table : List Transaction) → All IsRow table → All IsRow (listing q table)
unfolding listing
listing-IsRow q table h =
    All-sort IsRow (shown_before q.sort) (filter (belongs q.account_id) table)
      (All-filter IsRow (belongs q.account_id) table h)

-- Behind a row of the listing stands the rest of the listing.
pub listing_after-split :
    (q : ListQuery) (table xs : List Transaction) (k : Transaction) (ys : List Transaction)
    → HasUniqueIds table
    → listing q table ≡ xs ++ k ∷ ys
    → listing_after q (bound_of k) table ≡ ys
listing_after-split q table xs k ys u e =
    let sorted = subst (Sorted (shown_before q.sort)) e (listing-Sorted q table u) in
    rw (fun_ext (after_bound-bound_of q.sort k), e)
      (filter_after (shown_before-StrictOrder q.sort) xs k ys sorted)

-- A listing cut behind the last row of a page.
cut_at :
    (n : ℕ) (xs ys zs : List Transaction) (k : Transaction) {l : List Transaction}
    → take n ys ≡ zs ++ k ∷ []
    → l ≡ xs ++ ys
    → l ≡ (xs ++ zs) ++ k ∷ drop n ys
cut_at n xs ys zs k split e =
    e
    ∙ (ap (◌++◌ xs) (sym (take-append-drop n ys))
        ∙ (rw (split, append_assoc zs (k ∷ []) (drop n ys))
            (sym (append_assoc xs zs (k ∷ drop n ys)))))

module _ (w : Walker) (small : w.limit + 1 < 2 ^ 63) (table : List Transaction)
    (t : IsTable table) where
  -- A request with no token fetches from the head of the listing.
  pub fetch_first :
      (v : Visit)
      → Serves v.database table
      → list (service_at w v) v.clock (params_at w [])
        ≡ page_of
            (service_at w v)
            v.clock.at_issue
            (params_at w [])
            (take (w.limit + 1) (listing w.query table))
  unfolding list text_eq
  fetch_first v s =
      rw (fetch_one_more w.limit small, first_page-listing v.database table s w.query (w.limit + 1))

  -- A request with the token of the row `k` fetches from what the listing shows behind it.
  fetch_next :
      (v : Visit) (xs : List Transaction) (k : Transaction) (ys : List Transaction) (issued : Time)
      → Serves v.database table
      → HasSeconds issued
      → is_expired w.ttl v.clock.at_decode (whole_seconds issued) ≡ false
      → listing w.query table ≡ xs ++ k ∷ ys
      → let token = encode (cursor_after w.query k issued) w.key in
        list (service_at w v) v.clock (params_at w token)
        ≡ page_of (service_at w v) v.clock.at_issue (params_at w token) (take (w.limit + 1) ys)
  fetch_next v xs k ys issued s h fresh e =
      let row =
        (All-append_right IsRow xs (k ∷ ys)
          (subst (All IsRow) e (listing-IsRow w.query table t.rows))).0 in
      list_after (service_at w v) w.query w.limit k issued v.clock.at_decode row h fresh
        v.clock.at_issue small
      ∙ rw (
        next_page-listing v.database table s w.query (bound_of k) (w.limit + 1) t.unique,
        listing_after-split w.query table xs k ys t.unique e,
      )

  walk_from :
      (v : Visit) (vs : List Visit) (xs ys : List Transaction) (token : Bytes)
      → 0 < w.limit
      → All (λ u. Serves u.database table) vs
      → IsTimely w.ttl (v ∷ vs)
      → list (service_at w v) v.clock (params_at w token)
        ≡ page_of (service_at w v) v.clock.at_issue (params_at w token) (take (w.limit + 1) ys)
      → listing w.query table ≡ xs ++ ys
      → length ys ≤ suc (length vs) * w.limit
      → walk w (v ∷ vs) token ≡ ok (some ys)
  unfolding walk
  walk_from v [] xs ys token pos_limit served timely page e enough =
      rw (
        page,
        page_of_last (service_at w v) v.clock.at_issue w.query w.limit token ys (omega arith),
      )
  walk_from v (u ∷ vs) xs ys token pos_limit (served, serves) (h, fresh, timely) page e enough =
      elim (Bool-cases (ltb w.limit (length ys))) [
        | inr last ↦ rw (
          page,
          page_of_last (service_at w v) v.clock.at_issue w.query w.limit token ys (ground arith),
        )
        | inl more ↦
            let some_left : 0 < length (take w.limit ys) = ground (arith, length-take w.limit ys) in
            let (zs, k, split) = split_nonempty (take w.limit ys) some_left in
            let rest = drop w.limit ys in
            let at_k : listing w.query table ≡ (xs ++ zs) ++ k ∷ rest =
              cut_at w.limit xs ys zs k split e in
            rw
              (
                page,
                page_of_more (service_at w v) v.clock.at_issue w.query w.limit token ys zs k
                    (ground arith) split,
                walk_from u vs (xs ++ zs ++ k ∷ []) rest
                    (encode (cursor_after w.query k v.clock.at_issue) w.key) pos_limit serves timely
                    (fetch_next u (xs ++ zs) k rest v.clock.at_issue served h fresh at_k)
                    (rw at_k (sym (append_assoc (xs ++ zs) (k ∷ []) rest)))
                    (omega (arith, length-drop w.limit ys)),
              )
              (ap (λ r. ok (some r)) (take-append-drop w.limit ys))
      ]

-- A walk with one row a page at least and fewer than 2 ^ 63 - 1, over a database that answers from
-- one table which does not change, returns the whole listing, each row once and in order, if there
-- are as many requests as the listing has pages and each token is used in time.
pub walk-listing :
    (w : Walker) (table : List Transaction) (v : Visit) (vs : List Visit)
    → 0 < w.limit
    → w.limit + 1 < 2 ^ 63
    → IsTable table
    → All (λ u. Serves u.database table) (v ∷ vs)
    → IsTimely w.ttl (v ∷ vs)
    → length (listing w.query table) ≤ length (v ∷ vs) * w.limit
    → walk w (v ∷ vs) [] ≡ ok (some (listing w.query table))
walk-listing w table v vs pos_limit small t (served, serves) timely enough =
    walk_from w small table t v vs [] (listing w.query table) [] pos_limit serves timely
      (fetch_first w small table t v served) refl enough
