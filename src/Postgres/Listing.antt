-- ===== src/Postgres/Listing.antt =====
-- What the repository's methods return from a database that answers from a snapshot of the table:
-- pieces of one listing, the rows of the query in their order.
use concevoir_une_api_pagine.Prelude.{
  ℕ, List, [], ◌∷◌, ◌++◌, append_assoc, append-nil, Bool, true, false, ◌≡◌, refl, sym, ap, ◌∙◌, inl,
  inr, some, if◌then◌else◌, Bool-cases, ℤ, pos, negsuc, ltb_ℤ, eqb_ℤ, take, drop, filter, sort,
  filter-sort, text_eq, codes, map,
}
use mathlib.Core.Path.{fun_ext}
use concevoir_une_api_pagine.Errors.{ok, err, Error, wrapped}
use concevoir_une_api_pagine.Domain.{Transaction, ListQuery, Sort, Bound, sort_created_at_desc}
use concevoir_une_api_pagine.Postgres.Statements.{
  Select, queries_for, offset_page, offset_page_by_account,
}
use concevoir_une_api_pagine.Postgres.Database.{
  Arguments, Database, Serves, evaluate, tuple_less, tuple_greater,
}
use concevoir_une_api_pagine.Postgres.Repository.{
  collect, query, first_page, next_page, page_by_offset,
}
use concevoir_une_api_pagine.Postgres.Order.{
  is_newest_first, is_descending-is_newest_first, shown_before, after_bound, HasUniqueIds,
  HasUniqueIds-Distinct, HasUniqueIds-filter, shown_before-StrictOrder,
}

-- A row is of the tenant that is asked for; 0 asks for none.
unfoldable pub belongs : ℤ → Transaction → Bool
belongs account_id t = if ltb_ℤ (pos 0) account_id then eqb_ℤ t.account_id account_id else true

belongs_tenant : (a : ℤ) → ltb_ℤ (pos 0) a ≡ true → belongs a ≡ (λ t. eqb_ℤ t.account_id a)
unfolding belongs
belongs_tenant a e = fun_ext (λ t. rw e)

belongs_every : (a : ℤ) → ltb_ℤ (pos 0) a ≡ false → belongs a ≡ (λ t. true)
unfolding belongs
belongs_every a e = fun_ext (λ t. rw e)

pub filter-true : {A : Type 0} (xs : List A) → filter (λ x. true) xs ≡ xs
filter-true [] = refl
filter-true (x ∷ xs) = ap (◌∷◌ x) (filter-true xs)

after_bound_less :
    (s : Sort) (b : Bound)
    → is_newest_first s ≡ true
    → after_bound s b ≡ (λ t. tuple_less t b.created_at b.id)
unfolding after_bound
after_bound_less s b e = fun_ext (λ t. rw e)

after_bound_greater :
    (s : Sort) (b : Bound)
    → is_newest_first s ≡ false
    → after_bound s b ≡ (λ t. tuple_greater t b.created_at b.id)
unfolding after_bound
after_bound_greater s b e = fun_ext (λ t. rw e)

-- The whole listing, of which a page is a piece.
unfoldable pub listing : ListQuery → List Transaction → List Transaction
listing q table = sort (shown_before q.sort) (filter (belongs q.account_id) table)

collect-map : (rows done : List Transaction) → collect (map ok rows) done ≡ ok (done ++ rows)
unfolding collect
collect-map [] done = rw append-nil
collect-map (t ∷ rows) done = simp (collect-map rows (done ++ t ∷ []), append_assoc)

query-evaluate :
    (db : Database) (table : List Transaction)
    → Serves db table
    → (q : Select) (args : Arguments) (rows : List Transaction) → evaluate q args table ≡ some rows
    → query db q args ≡ ok rows
unfolding query
query-evaluate db table s q args rows e = rw (s.answers q args rows e, collect-map rows [])

-- The rows of the listing that are shown after a bound.
abbrev pub listing_after : ListQuery → Bound → List Transaction → List Transaction
listing_after q b table = filter (after_bound q.sort b) (listing q table)

abbrev pub offset_query : ℤ → ListQuery
offset_query account_id = record {
  account_id = account_id;
  status = [];
  sort = sort_created_at_desc;
}

module _ (table : List Transaction) (q : ListQuery) where
  evaluate_first :
      (n : ℕ)
      → ltb_ℤ (pos 0) q.account_id ≡ false
      → evaluate (queries_for q.sort).first_page (pos n ∷ []) table
        ≡ some (take n (listing q table))
  unfolding evaluate queries_for listing shown_before
  evaluate_first n every = elim (Bool-cases (is_newest_first q.sort)) [
    | inl d ↦ rw (
      is_descending-is_newest_first q.sort,
      d,
      belongs_every q.account_id every,
      filter-true,
      filter-true,
    )
    | inr d ↦ rw (
      is_descending-is_newest_first q.sort,
      d,
      belongs_every q.account_id every,
      filter-true,
      filter-true,
    )
  ]

  evaluate_first_by_account :
      (n : ℕ)
      → ltb_ℤ (pos 0) q.account_id ≡ true
      → evaluate (queries_for q.sort).first_page_by_account (q.account_id ∷ pos n ∷ []) table
        ≡ some (take n (listing q table))
  unfolding evaluate queries_for listing shown_before
  evaluate_first_by_account n tenant = elim (Bool-cases (is_newest_first q.sort)) [
    | inl d ↦
        rw
          (is_descending-is_newest_first q.sort, d, belongs_tenant q.account_id tenant, filter-true)
    | inr d ↦
        rw
          (is_descending-is_newest_first q.sort, d, belongs_tenant q.account_id tenant, filter-true)
  ]

  -- The bound may be put before the sort or behind it.
  bound_first :
      (b : Bound)
      → HasUniqueIds table
      → sort
          (shown_before q.sort)
          (filter (after_bound q.sort b) (filter (belongs q.account_id) table))
        ≡ listing_after q b table
  unfolding listing
  bound_first b u = sym (
      filter-sort (shown_before-StrictOrder q.sort) (after_bound q.sort b)
        (filter (belongs q.account_id) table)
        (HasUniqueIds-Distinct q.sort _ (HasUniqueIds-filter (belongs q.account_id) table u)))

  evaluate_next :
      (b : Bound) (n : ℕ)
      → HasUniqueIds table
      → ltb_ℤ (pos 0) q.account_id ≡ false
      → evaluate (queries_for q.sort).next_page (b.created_at ∷ b.id ∷ pos n ∷ []) table
        ≡ some (take n (listing_after q b table))
  evaluate_next b n u every = bare ∙ ap (λ l. some (take n l)) (bound_first b u)
    where
      bare :
          evaluate (queries_for q.sort).next_page (b.created_at ∷ b.id ∷ pos n ∷ []) table
          ≡ some (
              take n (
                sort
                  (shown_before q.sort)
                  (filter (after_bound q.sort b) (filter (belongs q.account_id) table))))
      bare =
          unfold evaluate queries_for shown_before in
          elim (Bool-cases (is_newest_first q.sort)) [
            | inl d ↦ rw (
              is_descending-is_newest_first q.sort,
              after_bound_less q.sort b d,
              d,
              belongs_every q.account_id every,
            )
            | inr d ↦ rw (
              is_descending-is_newest_first q.sort,
              after_bound_greater q.sort b d,
              d,
              belongs_every q.account_id every,
            )
          ]

  evaluate_next_by_account :
      (b : Bound) (n : ℕ)
      → HasUniqueIds table
      → ltb_ℤ (pos 0) q.account_id ≡ true
      → evaluate
          (queries_for q.sort).next_page_by_account
          (q.account_id ∷ b.created_at ∷ b.id ∷ pos n ∷ [])
          table
        ≡ some (take n (listing_after q b table))
  evaluate_next_by_account b n u tenant = bare ∙ ap (λ l. some (take n l)) (bound_first b u)
    where
      bare :
          evaluate
            (queries_for q.sort).next_page_by_account
            (q.account_id ∷ b.created_at ∷ b.id ∷ pos n ∷ [])
            table
          ≡ some (
              take n (
                sort
                  (shown_before q.sort)
                  (filter (after_bound q.sort b) (filter (belongs q.account_id) table))))
      bare =
          unfold evaluate queries_for shown_before in
          elim (Bool-cases (is_newest_first q.sort)) [
            | inl d ↦ rw (
              is_descending-is_newest_first q.sort,
              after_bound_less q.sort b d,
              d,
              belongs_tenant q.account_id tenant,
            )
            | inr d ↦ rw (
              is_descending-is_newest_first q.sort,
              after_bound_greater q.sort b d,
              d,
              belongs_tenant q.account_id tenant,
            )
          ]

module _ (db : Database) (table : List Transaction) (s : Serves db table) where
  -- Over a database that answers from a table, the first page is the head of the listing: the
  -- rows of the account, or all rows, in the order of the query.
  pub first_page-listing :
      (q : ListQuery) (n : ℕ) → first_page db q (pos n) ≡ ok (take n (listing q table))
  unfolding first_page
  first_page-listing q n = elim (Bool-cases (ltb_ℤ (pos 0) q.account_id)) [
    | inl tenant ↦
        rw tenant (query-evaluate db table s _ _ _ (evaluate_first_by_account table q n tenant))
    | inr every ↦ rw every (query-evaluate db table s _ _ _ (evaluate_first table q n every))
  ]

  -- Over a database that answers from a table with distinct ids, a next page is the head of what
  -- the listing shows after the bound.
  pub next_page-listing :
      (q : ListQuery) (b : Bound) (n : ℕ)
      → HasUniqueIds table
      → next_page db q b (pos n) ≡ ok (take n (listing_after q b table))
  unfolding next_page
  next_page-listing q b n u = elim (Bool-cases (ltb_ℤ (pos 0) q.account_id)) [
    | inl tenant ↦
        rw tenant (query-evaluate db table s _ _ _ (evaluate_next_by_account table q b n u tenant))
    | inr every ↦ rw every (query-evaluate db table s _ _ _ (evaluate_next table q b n u every))
  ]

  -- Over a database that answers from a table, a page by rank is a slice of the descending
  -- listing.
  pub page_by_offset-listing :
      (account_id : ℤ) (k n : ℕ)
      → page_by_offset db account_id (pos k) (pos n)
        ≡ ok (take n (drop k (listing (offset_query account_id) table)))
  unfolding page_by_offset
  page_by_offset-listing account_id k n = elim (Bool-cases (ltb_ℤ (pos 0) account_id)) [
    | inl tenant ↦ rw tenant (
        query-evaluate db table s offset_page_by_account _ _ (
          unfold evaluate listing shown_before is_newest_first text_eq in
          rw (belongs_tenant account_id tenant, filter-true)))
    | inr every ↦ rw every (
        query-evaluate db table s offset_page _ _ (
          unfold evaluate listing shown_before is_newest_first text_eq in
          rw (belongs_every account_id every, filter-true, filter-true)))
  ]

  -- A negative rank is an error of the database.
  pub page_by_offset_negative :
      (account_id : ℤ) (k n : ℕ)
      → (e : Error) × (page_by_offset db account_id (negsuc k) (pos n)
          ≡ err (wrapped (codes "selecting transactions") e))
  unfolding page_by_offset query
  page_by_offset_negative account_id k n = elim (Bool-cases (ltb_ℤ (pos 0) account_id)) [
    | inl tenant ↦
        let (e, refused) =
          s.refuses offset_page_by_account (account_id ∷ pos n ∷ negsuc k ∷ [])
            (unfold evaluate in refl) in
        (e, rw (tenant, refused))
    | inr every ↦
        let (e, refused) =
          s.refuses offset_page (pos n ∷ negsuc k ∷ []) (unfold evaluate in refl) in
        (e, rw (every, refused))
  ]
