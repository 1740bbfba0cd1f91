-- ===== src/Postgres/Failures.antt =====
-- The repository over a database that may fail: which errors it returns, and that it never panics.
use concevoir_une_api_pagine.Prelude.{
  List, [], ◌∷◌, ◌++◌, false, codes, ℤ, pos, ltb_ℤ, Bool-cases, Option, none, some, All, ◌≡◌, arith,
  inl, inr,
}
use concevoir_une_api_pagine.Errors.{wrap, Error, Result, ok, err, panicked}
use concevoir_une_api_pagine.Errors.Outcomes.{Holds, Holds->>=, IsForeign, IsForeign-wrapped}
use concevoir_une_api_pagine.Domain.{Transaction, ListQuery, Bound}
use concevoir_une_api_pagine.Postgres.Statements.{Select, Scalar, count_query, count_estimate}
use concevoir_une_api_pagine.Postgres.Database.{Database, Arguments, Rows}
use concevoir_une_api_pagine.Postgres.Repository.{
  collect, unless_failed, query, first_page, next_page, page_by_offset, count_rows, estimate_rows,
}

-- No condition on a value.
abbrev pub Any {ℓ} : {A : Type ℓ} → A → Type 0
Any a = Unit {0}

-- An error of the driver, where there is one, is none of the program's.
abbrev pub IsForeignFailure : Option Error → Type 0
IsForeignFailure none = Unit {0}
IsForeignFailure (some e) = IsForeign e

abbrev pub AreForeign : Rows → Type 0
AreForeign rows = All (Holds Any IsForeign) rows.scanned × IsForeignFailure rows.failure

-- Every call of the driver returns, with a value or with an error of its own, rows and scans included.
pub record IsDriver (db : Database) : Type 0 where
  pub selects : (q : Select) (args : Arguments) → Holds AreForeign IsForeign (db.select q args)
  pub scalars : (q : Scalar) → Holds Any IsForeign (db.scalar q)

wrap-Holds {ℓ} :
    {A : Type ℓ}
    → (P : A → Type 0) (m : Result A) (text : Prim.Native.String.String) → Holds P IsForeign m
    → Holds P IsForeign (wrap m text)
wrap-Holds P (ok a) text h = h
wrap-Holds P (err e) text h = IsForeign-wrapped (codes text) e h
wrap-Holds P panicked text h = h

collect-Holds :
    (rows : List (Result Transaction)) (transactions : List Transaction)
    → All (Holds Any IsForeign) rows
    → Holds Any IsForeign (collect rows transactions)
unfolding collect
collect-Holds [] transactions h = tt
collect-Holds (r ∷ rs) transactions (h, hs) =
    Holds->>= Any IsForeign Any (wrap r "scanning transaction") _
      (wrap-Holds Any r "scanning transaction" h)
      (λ t _. collect-Holds rs (transactions ++ t ∷ []) hs)

unless_failed-Holds :
    (failure : Option Error) (transactions : List Transaction)
    → IsForeignFailure failure
    → Holds Any IsForeign (unless_failed failure transactions)
unless_failed-Holds none transactions h = tt
unless_failed-Holds (some e) transactions h = IsForeign-wrapped _ e h

module _ (db : Database) (d : IsDriver db) where
  query-Holds : (sql : Select) (args : Arguments) → Holds Any IsForeign (query db sql args)
  unfolding query
  query-Holds sql args =
      Holds->>= AreForeign IsForeign Any (wrap (db.select sql args) "selecting transactions") _
        (wrap-Holds AreForeign (db.select sql args) "selecting transactions" (d.selects sql args))
        (λ rows (scans, failure).
          Holds->>= Any IsForeign Any (collect rows.scanned []) _
            (collect-Holds rows.scanned [] scans)
            (λ transactions _. unless_failed-Holds rows.failure transactions failure))

  pub first_page-Holds : (q : ListQuery) (limit : ℤ) → Holds Any IsForeign (first_page db q limit)
  unfolding first_page
  first_page-Holds q limit = elim (Bool-cases (ltb_ℤ (pos 0) q.account_id)) [
    | inl one ↦ rw one (query-Holds _ _)
    | inr all ↦ rw all (query-Holds _ _)
  ]

  pub next_page-Holds :
      (q : ListQuery) (after : Bound) (limit : ℤ) → Holds Any IsForeign (next_page db q after limit)
  unfolding next_page
  next_page-Holds q after limit = elim (Bool-cases (ltb_ℤ (pos 0) q.account_id)) [
    | inl one ↦ rw one (query-Holds _ _)
    | inr all ↦ rw all (query-Holds _ _)
  ]

  pub page_by_offset-Holds :
      (account_id offset limit : ℤ)
      → Holds Any IsForeign (page_by_offset db account_id offset limit)
  unfolding page_by_offset
  page_by_offset-Holds account_id offset limit = elim (Bool-cases (ltb_ℤ (pos 0) account_id)) [
    | inl one ↦ rw one (query-Holds _ _)
    | inr all ↦ rw all (query-Holds _ _)
  ]

  pub count_rows-Holds : Holds Any IsForeign (count_rows db)
  unfolding count_rows
  count_rows-Holds = wrap-Holds Any (db.scalar count_query) "counting rows" (d.scalars count_query)

  -- Over a driver that always returns, the estimate that is returned is not negative, and an error is
  -- none of the program's own.
  pub estimate_rows-Holds : Holds (λ n. ltb_ℤ n (pos 0) ≡ false) IsForeign (estimate_rows db)
  unfolding estimate_rows
  estimate_rows-Holds =
      Holds->>= Any IsForeign (λ n. ltb_ℤ n (pos 0) ≡ false)
        (wrap (db.scalar count_estimate) "estimating row count") _
        (wrap-Holds Any (db.scalar count_estimate) "estimating row count"
          (d.scalars count_estimate))
        (λ n _. elim (Bool-cases (ltb_ℤ n (pos 0))) [
          | inl below ↦ rw below (ground arith)
          | inr enough ↦ rw enough enough
        ])
