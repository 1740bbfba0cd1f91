-- ===== src/Service/Fetched.antt =====
-- What a page of a listing says of the rows that stand behind it in the database.
use concevoir_une_api_pagine.Prelude.{
  ℕ, ◌+◌, ◌<◌, ◌^◌, List, [], ◌∷◌, ◌++◌, Bool, true, false, Bytes, text_eq, text_eq→eq, pos, ltb,
  leb, ltb_ℤ, length, take, take_of_length_le, length-take, Bool-cases, ◌≡◌, refl, sym, ◌⊎◌, inl,
  inr, arith,
}
use concevoir_une_api_pagine.Errors.{Result, ok, ◌>>=◌, sentinel, ensure, filter_mismatch}
use concevoir_une_api_pagine.Errors.Outcomes.{
  Holds, Holds->>=, Holds-map, Holds-ensure, Holds-returned,
}
use concevoir_une_api_pagine.Go.Time.{Time, Duration}
use concevoir_une_api_pagine.Domain.{Transaction, ListQuery, KeysetPage, is_descending}
use concevoir_une_api_pagine.Cursor.{encode, decode_at}
use concevoir_une_api_pagine.Cursor.Payload.{Cursor}
use concevoir_une_api_pagine.Postgres.Database.{Database}
use concevoir_une_api_pagine.Postgres.Repository.{first_page, next_page}
use concevoir_une_api_pagine.Postgres.Failures.{Any, IsDriver, first_page-Holds, next_page-Holds}
use concevoir_une_api_pagine.Service.{
  Readings, trim, last_row, page_of, query_fingerprint, same_direction, resume, list,
}
use concevoir_une_api_pagine.Service.Paging.{split_nonempty, last_row-append, fetch_one_more}
use concevoir_une_api_pagine.Service.Pages.{IsListError, service_over, decoded-Holds, foreign-Holds}

same_direction-eq : (a b : Bool) → same_direction a b ≡ true → a ≡ b
same_direction-eq true true h = refl
same_direction-eq true false h = cc
same_direction-eq false true h = cc
same_direction-eq false false h = refl

module _ (db : Database) (key : Bytes) (ttl : Duration) (q : ListQuery) (n : ℕ) where
  -- The position that a token holds: it is that of a token of the same filters and direction.
  abbrev pub IsPosition : Bytes → Time → Cursor → Type 0
  IsPosition token now c =
      (decode_at token key ttl now ≡ ok c)
      × (c.fingerprint ≡ query_fingerprint q)
      × (c.descending ≡ is_descending q.sort)

  -- The rows that the database has for n + 1 rows: the first ones, or those behind the position.
  abbrev pub IsFetched : Bytes → Time → List Transaction → Type 0
  IsFetched token now rows =
      ((token ≡ []) × (first_page db q (pos (n + 1)) ≡ ok rows))
      ⊎ ((c : Cursor) × IsPosition token now c
          × (next_page db q (record { created_at = c.created_at; id = c.id }) (pos (n + 1))
              ≡ ok rows))

  -- The page of some rows: all of them, the last, if there are n at most; else the first n and the
  -- token of the last of these.
  abbrev pub IsCut : Time → List Transaction → KeysetPage → Type 0
  IsCut now rows page =
      (page.transactions ≡ take n rows)
      × (page.has_more ≡ ltb n (length rows))
      × (((leb (length rows) n ≡ true) × (page.next ≡ []))
          ⊎ ((xs : List Transaction) × (k : Transaction) × (take n rows ≡ xs ++ k ∷ [])
              × (ltb n (length rows) ≡ true)
              × (page.next
                  ≡ encode
                      (record {
                        created_at = k.created_at;
                        id = k.id;
                        descending = is_descending q.sort;
                        fingerprint = query_fingerprint q;
                        issued_at = now;
                      })
                      key)))

  abbrev pub IsPageOf : Readings → Bytes → KeysetPage → Type 0
  IsPageOf clock token page =
      (rows : List Transaction) × IsFetched token clock.at_decode rows
      × IsCut clock.at_issue rows page

  page_of-IsCut :
      (now : Time) (token : Bytes) (rows : List Transaction)
      → 0 < n
      → Holds (IsCut now rows) IsListError (
          page_of
            (service_over db key ttl)
            now
            (record { query = q; limit = pos n; cursor = token })
            rows)
  unfolding page_of trim
  page_of-IsCut now token rows some_rows = elim (Bool-cases (ltb_ℤ (pos n) (pos (length rows)))) [
    | inl more ↦
        let room : 0 < length (take n rows) = ground (arith, length-take n rows) in
        let (xs, k, e) = split_nonempty (take n rows) room in
        let at_end : last_row (take n rows) ≡ ok k = rw e (last_row-append xs k) in
        let over : ltb n (length rows) ≡ true = ground arith in
        rw (more, at_end) (refl, sym over, inr (xs, k, e, over, refl))
    | inr done ↦
        let under : leb (length rows) n ≡ true = ground arith in
        let not_over : ltb n (length rows) ≡ false = ground arith in
        let whole : take n rows ≡ rows = take_of_length_le n rows (ground arith) in
        rw (done, whole) (refl, sym not_over, inl (under, refl))
  ]

  module _ (d : IsDriver db) where
    resume-IsFetched :
        (now : Time) (token : Bytes)
        → Holds (IsFetched token now) IsListError (
            resume
              (service_over db key ttl)
              now
              (record { query = q; limit = pos n; cursor = token })
              (pos (n + 1)))
    unfolding resume
    resume-IsFetched now token =
        let mismatch : IsListError (sentinel filter_mismatch) = inr (inr (inl refl)) in
        Holds->>= (λ c. decode_at token key ttl now ≡ ok c) IsListError (IsFetched token now)
          (decode_at token key ttl now) _
          (Holds-returned Any IsListError _ (decoded-Holds db d key ttl token now))
          (λ c decoded.
            Holds->>= (λ _. text_eq c.fingerprint (query_fingerprint q) ≡ true) IsListError
              (IsFetched token now)
              (ensure (text_eq c.fingerprint (query_fingerprint q)) filter_mismatch) _
              (Holds-ensure IsListError _ filter_mismatch mismatch)
              (λ _ filters.
                Holds->>= (λ _. same_direction c.descending (is_descending q.sort) ≡ true)
                  IsListError (IsFetched token now)
                  (ensure (same_direction c.descending (is_descending q.sort)) filter_mismatch) _
                  (Holds-ensure IsListError _ filter_mismatch mismatch)
                  (λ _ direction.
                    let rows =
                      next_page db q (record { created_at = c.created_at; id = c.id })
                        (pos (n + 1)) in
                    Holds-map (λ a. rows ≡ ok a) IsListError (IsFetched token now) IsListError rows
                      (λ a fetched. inr (
                        c,
                        (decoded, text_eq→eq _ _ filters, same_direction-eq _ _ direction),
                        fetched,
                      ))
                      (λ _ h. h)
                      (Holds-returned Any IsListError rows (
                        foreign-Holds db d key ttl rows
                          (next_page-Holds db d q _ (pos (n + 1))))))))

    -- Over a driver that always returns, a call for n rows, one at least and n + 1 within an int64,
    -- asks the database for n + 1: for the first rows of the query, or for those behind the position
    -- of the token, whose filters and direction are those of the query. It returns the first n of
    -- the rows that it gets; it says that there are more exactly if there are more than n; and only
    -- then there is a token, that of the last row returned. Otherwise it returns an error of the
    -- cursor's, or one of the driver's. It never panics.
    pub list-IsPageOf :
        (clock : Readings) (token : Bytes)
        → 0 < n
        → n + 1 < 2 ^ 63
        → Holds (IsPageOf clock token) IsListError (
            list
              (service_over db key ttl)
              clock
              (record { query = q; limit = pos n; cursor = token }))
    unfolding list
    list-IsPageOf clock token some_rows small =
        rw (fetch_one_more n small) (elim (Bool-cases (text_eq token [])) [
          | inl no_token ↦ rw no_token (
              let rows = first_page db q (pos (n + 1)) in
              paged rows (
                Holds-map (λ a. rows ≡ ok a) IsListError (IsFetched token clock.at_decode)
                  IsListError rows (λ a fetched. inl (text_eq→eq _ _ no_token, fetched)) (λ _ h. h)
                  (Holds-returned Any IsListError rows
                    (foreign-Holds db d key ttl rows (first_page-Holds db d q (pos (n + 1)))))))
          | inr some_token ↦ rw some_token (paged _ (resume-IsFetched clock.at_decode token))
        ])
      where
        paged :
            (m : Result (List Transaction))
            → Holds (IsFetched token clock.at_decode) IsListError m
            → Holds (IsPageOf clock token) IsListError (
                m
                >>= page_of
                    (service_over db key ttl)
                    clock.at_issue
                    (record { query = q; limit = pos n; cursor = token }))
        paged m h =
            Holds->>= (IsFetched token clock.at_decode) IsListError (IsPageOf clock token) m _ h
              (λ rows fetched.
                Holds-map (IsCut clock.at_issue rows) IsListError (IsPageOf clock token) IsListError
                  _ (λ page cut. (rows, fetched, cut)) (λ _ e. e)
                  (page_of-IsCut clock.at_issue token rows some_rows))
