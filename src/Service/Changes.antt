-- ===== src/Service/Changes.antt =====
-- A walk over a table that changes between its requests.
use concevoir_une_api_pagine.Prelude.{
  ℕ, ◌*◌, length, List, [], ◌∷◌, ◌++◌, Bool, true, Option, none, some, map, filter, take, drop,
  take-append-drop, All, All-map, All-append, All-append_right, All-take, All-filter, All-sort,
  Sorted, ◌≡◌, sym, subst, ◌⊎◌, Sorted-append_left, inl, inr, ◌∙◌,
}
use concevoir_une_api_pagine.Prelude.Members.{
  All-members, All-Mem, filter-All, Mem-filter, sort-Mem, Sorted-filter, Sorted-behind,
}
use mathlib.Core.List.{Memᴰ}
use mathlib.Core.List.Memᴰ
use concevoir_une_api_pagine.Domain.{Transaction, ListQuery}
use concevoir_une_api_pagine.Postgres.Database.{Serves}
use concevoir_une_api_pagine.Postgres.Order.{
  shown_before, shown_before-StrictOrder, after_bound, bound_of, after_bound-bound_of,
}
use concevoir_une_api_pagine.Postgres.Listing.{belongs, listing}
use concevoir_une_api_pagine.Service.Client.{Visit}
use concevoir_une_api_pagine.Service.Walk.{IsTable, listing-Sorted}

-- One request of a walk, and the table as it is then.
pub record Stage : Type 0 where
  pub visit : Visit
  pub table : List Transaction

abbrev pub visits : List Stage → List Visit
visits stages = map (λ s. s.visit) stages

abbrev pub IsStage : Stage → Type 0
IsStage s = Serves s.visit.database s.table × IsTable s.table

-- A row stands in the table of one of the requests.
abbrev pub InSome : List Stage → Transaction → Type 0
InSome [] t = ⊥
InSome (s ∷ stages) t = Memᴰ t s.table ⊎ InSome stages t

-- Rows that requests have shown: rows of their tables, all of the account and strictly in order, so
-- that none is shown twice.
pub record IsShown (q : ListQuery) (p : Transaction → Bool) (stages : List Stage)
    (rows : List Transaction) : Type 0 where
  pub of_account : All (λ t. belongs q.account_id t ≡ true) rows
  pub admitted : All (λ t. p t ≡ true) rows
  pub in_order : Sorted (shown_before q.sort) rows
  pub real : All (InSome stages) rows

-- A row of the account that is in the table at every request is among the rows.
abbrev pub IsComplete : ListQuery → (Transaction → Bool) → List Stage → List Transaction → Type 0
IsComplete q p stages rows =
    (t : Transaction)
    → p t ≡ true
    → belongs q.account_id t ≡ true
    → All (λ s. Memᴰ t s.table) stages
    → Memᴰ t rows

-- What a walk with so many rows a page comes to: it has ended with all its rows, or each request has
-- shown a full page.
abbrev pub IsEnd :
    ListQuery → (Transaction → Bool) → ℕ → List Stage → Option (List Transaction) → Type 0
IsEnd q p n stages none =
    (rows : List Transaction) × IsShown q p stages rows × (length rows ≡ length stages * n)
IsEnd q p n stages (some rows) = IsShown q p stages rows × IsComplete q p stages rows

-- With a row, a condition admits the rows that are shown behind it.
abbrev pub IsUpward : ListQuery → (Transaction → Bool) → Type 0
IsUpward q p = (x y : Transaction) → p x ≡ true → shown_before q.sort x y ≡ true → p y ≡ true

listing-belongs :
    (q : ListQuery) (table : List Transaction)
    → All (λ t. belongs q.account_id t ≡ true) (listing q table)
unfolding listing
listing-belongs q table =
    All-sort (λ t. belongs q.account_id t ≡ true) (shown_before q.sort)
      (filter (belongs q.account_id) table) (filter-All (belongs q.account_id) table)

pub listing-Mem :
    (q : ListQuery) (table : List Transaction) (t : Transaction)
    → belongs q.account_id t ≡ true
    → Memᴰ t table
    → Memᴰ t (listing q table)
unfolding listing
listing-Mem q table t h m =
    sort-Mem (shown_before q.sort) (filter (belongs q.account_id) table)
      (Mem-filter (belongs q.account_id) table h m)

-- The listing of a table has no other rows.
listing-within :
    (q : ListQuery) (table : List Transaction) → All (λ t. Memᴰ t table) (listing q table)
unfolding listing
listing-within q table =
    All-sort (λ t. Memᴰ t table) (shown_before q.sort) (filter (belongs q.account_id) table)
      (All-filter (λ t. Memᴰ t table) (belongs q.account_id) table (All-members table))

Sorted-join :
    (q : ListQuery) (xs : List Transaction) (k : Transaction) (ys : List Transaction)
    → Sorted (shown_before q.sort) (xs ++ k ∷ [])
    → Sorted (shown_before q.sort) ys
    → All (λ y. shown_before q.sort k y ≡ true) ys
    → Sorted (shown_before q.sort) ((xs ++ k ∷ []) ++ ys)
Sorted-join q [] k ys _ hs h = (h, hs)
Sorted-join q (x ∷ xs) k ys (hx, h) hs b =
    let o = shown_before-StrictOrder q.sort in
    let before : Transaction → Type 0 = λ y. shown_before q.sort x y ≡ true in
    let last = (All-append_right before xs (k ∷ []) hx).0 in
    (
      All-append before (xs ++ k ∷ []) ys hx (All-map ys (λ y l. o.trans x k y last l) b),
      Sorted-join q xs k ys h hs b,
    )

-- The condition of the token of a row.
abbrev pub behind_row : ListQuery → Transaction → Transaction → Bool
behind_row q k = after_bound q.sort (bound_of k)

pub behind_row-IsUpward : (q : ListQuery) (k : Transaction) → IsUpward q (behind_row q k)
behind_row-IsUpward q k x y h b =
    after_bound-bound_of q.sort k y
    ∙ (shown_before-StrictOrder q.sort).trans k x y (sym (after_bound-bound_of q.sort k x) ∙ h) b

module _ (q : ListQuery) (p : Transaction → Bool) (up : IsUpward q p) (s : Stage)
    (stages : List Stage) (t : IsTable s.table) where
  abbrev pub shown : List Transaction
  shown = filter p (listing q s.table)

  shown-Sorted : Sorted (shown_before q.sort) shown
  shown-Sorted =
      Sorted-filter (shown_before q.sort) p (listing q s.table) (listing-Sorted q s.table t.unique)

  shown-belongs : All (λ r. belongs q.account_id r ≡ true) shown
  shown-belongs =
      All-filter (λ r. belongs q.account_id r ≡ true) p (listing q s.table)
        (listing-belongs q s.table)

  shown-Mem :
      (r : Transaction) → p r ≡ true → belongs q.account_id r ≡ true → Memᴰ r s.table → Memᴰ r shown
  shown-Mem r h b m = Mem-filter p (listing q s.table) h (listing-Mem q s.table r b m)

  shown-InSome : All (InSome (s ∷ stages)) shown
  shown-InSome =
      All-filter (InSome (s ∷ stages)) p (listing q s.table)
        (All-map (listing q s.table) (λ r m. inl m) (listing-within q s.table))

  -- A page with nothing behind it ends the walk.
  pub last-IsShown : IsShown q p (s ∷ stages) shown
  last-IsShown = record {
    of_account = shown-belongs;
    admitted = filter-All p (listing q s.table);
    in_order = shown-Sorted;
    real = shown-InSome;
  }

  pub last-IsComplete : IsComplete q p (s ∷ stages) shown
  last-IsComplete r h b (m, _) = shown-Mem r h b m

  module _ (n : ℕ) (zs : List Transaction) (k : Transaction) (more : List Transaction)
      (e : take n shown ≡ zs ++ k ∷ []) where
    page_cut : Sorted (shown_before q.sort) ((zs ++ k ∷ []) ++ drop n shown)
    page_cut =
        subst (λ l. Sorted (shown_before q.sort) (l ++ drop n shown)) e
          (rw (take-append-drop n shown) shown-Sorted)

    -- A page, and behind it the walk from the token of its last row.
    pub joined-IsShown :
        IsShown q (behind_row q k) stages more → IsShown q p (s ∷ stages) (take n shown ++ more)
    joined-IsShown w =
        let behind_k : All (λ y. shown_before q.sort k y ≡ true) more =
          All-map more (λ y h. sym (after_bound-bound_of q.sort k y) ∙ h) w.admitted in
        let page_p : All (λ y. p y ≡ true) (take n shown) =
          All-take (λ y. p y ≡ true) n shown (filter-All p (listing q s.table)) in
        let k_p : p k ≡ true =
          (All-append_right (λ y. p y ≡ true) zs (k ∷ [])
            (subst (All (λ y. p y ≡ true)) e page_p)).0 in
        record {
          of_account =
              All-append (λ y. belongs q.account_id y ≡ true) (take n shown) more
                (All-take (λ y. belongs q.account_id y ≡ true) n shown shown-belongs) w.of_account;
          admitted =
              All-append (λ y. p y ≡ true) (take n shown) more page_p
                (All-map more (λ y b. up k y k_p b) behind_k);
          in_order = rw e (
              Sorted-join q zs k more
                (Sorted-append_left (shown_before-StrictOrder q.sort) (zs ++ k ∷ []) (drop n shown)
                  page_cut)
                w.in_order behind_k);
          real =
              All-append (InSome (s ∷ stages)) (take n shown) more
                (All-take (InSome (s ∷ stages)) n shown shown-InSome)
                (All-map more (λ y m. inr m) w.real);
        }

    pub joined-IsComplete :
        IsComplete q (behind_row q k) stages more
        → IsComplete q p (s ∷ stages) (take n shown ++ more)
    joined-IsComplete w r h b (m, ms) =
        placed (Sorted-behind (shown_before q.sort) zs k (drop n shown) page_cut)
          (Memᴰ.append_cases (take n shown) (rw (take-append-drop n shown) (shown-Mem r h b m)))
      where
        placed :
            All (λ y. shown_before q.sort k y ≡ true) (drop n shown)
            → Memᴰ r (take n shown) ⊎ Memᴰ r (drop n shown)
            → Memᴰ r (take n shown ++ more)
        placed after (inl m) = Memᴰ.append_left more m
        placed after (inr m) = Memᴰ.append_right (take n shown) (
            w r
              (after_bound-bound_of q.sort k r
                ∙ All-Mem (λ y. shown_before q.sort k y ≡ true) (drop n shown) after m)
              b ms)
