-- ===== src/Testutil/SeedTables.antt =====
-- What the seeded tables are: tables as the walk theorems want them.
use concevoir_une_api_pagine.Prelude.{
  ℕ, zero, suc, ◌+◌, ◌*◌, ◌/◌, ◌%◌, ◌^◌, ◌≤◌, ◌<◌, List, [], map, length, true, ℤ, pos, eqb_ℤ,
  eqb_ℤ_iff, All, ◌≡◌, ◌≢◌, refl, ap, ◌∙◌, ◌⊎◌, inl, inr, arith, ◌+ℤ◌, all_below, all_below_sound,
}
use concevoir_une_api_pagine.Errors.{Error}
use concevoir_une_api_pagine.Go.Calendar.{date_of_day}
use concevoir_une_api_pagine.Go.Time.{second}
use concevoir_une_api_pagine.Go.Time.RoundTrip.{IsYear, whole_micros}
use concevoir_une_api_pagine.Domain.{Transaction}
use concevoir_une_api_pagine.Postgres.Order.{HasUniqueIds}
use concevoir_une_api_pagine.Service.Paging.{IsRow}
use concevoir_une_api_pagine.Service.Walk.{IsTable}
use concevoir_une_api_pagine.Testutil.Seed.{
  series, series_to, spread_start, identical_instant, spread_row, identical_row, SeedStatement,
  truncate, vacuum_analyze, insert_spread, insert_identical, Exec, fatal, ◌>>=◌, seed_transactions,
  seed_identical_timestamps,
}

-- The days of 2015, counted from 1 January.
days_of_2015 : all_below 365 (λ d. eqb_ℤ (date_of_day (pos (16436 + d))).year (pos 2015)) ≡ true
unfolding all_below date_of_day ◌+ℤ◌
days_of_2015 = refl

spread-IsYear : (i : ℕ) → i ≤ 1_500_000 → IsYear (pos (spread_start + i * (20 * second))) 2015
spread-IsYear i h =
    let day : (spread_start + i * (20 * second)) / 86_400_000_000_000 ≡ 16436 + i / 4320 =
      omega arith in
    let d : i / 4320 < 365 = omega arith in
    let year : (date_of_day (pos (16436 + i / 4320))).year ≡ pos 2015 = (eqb_ℤ_iff _ (pos 2015)).0 (
      all_below_sound 365 (λ d. eqb_ℤ (date_of_day (pos (16436 + d))).year (pos 2015)) (i / 4320)
        days_of_2015 d) in
    (rw day year, omega arith)

spread-whole_micros :
    (i : ℕ)
    → whole_micros (pos (spread_start + i * (20 * second))) ≡ pos (spread_start + i * (20 * second))
spread-whole_micros i = ap pos (omega arith)

spread_row-IsRow : (accounts i : ℕ) → i ≤ 1_500_000 → IsRow (spread_row (pos accounts) i)
spread_row-IsRow accounts i h = record {
  year = 2015;
  created = spread-IsYear i h;
  precise = spread-whole_micros i;
  row = omega arith;
}

identical_row-IsRow : (i : ℕ) → i < 2 ^ 63 → IsRow (identical_row i)
unfolding date_of_day ◌+ℤ◌
identical_row-IsRow i h = record {
  year = 2020;
  created = (refl, omega arith);
  precise = refl;
  row = omega arith;
}

-- Rows made of a series, each with its number as its id.
module _ (row : ℕ → Transaction) (numbered : (i : ℕ) → (row i).id ≡ pos i) where
  all_later : (k j n : ℕ) → k < j → All (λ t. (row k).id ≢ t.id) (map row (series j n))
  all_later k j zero h = tt
  all_later k j (suc n) h =
      (λ e. absurd (ground (arith, numbered k, numbered j, e)), all_later k (suc j) n (omega arith))

  series-HasUniqueIds : (k n : ℕ) → HasUniqueIds (map row (series k n))
  series-HasUniqueIds k zero = tt
  series-HasUniqueIds k (suc n) =
      (all_later k (suc k) n (omega arith), series-HasUniqueIds (suc k) n)

  series-All :
      (P : Transaction → Type 0) (last k n : ℕ)
      → ((i : ℕ) → i ≤ last → P (row i))
      → k + n ≤ last + 1
      → All P (map row (series k n))
  series-All P last k zero f h = tt
  series-All P last k (suc n) f h = (f k (omega arith), series-All P last (suc k) n f (omega arith))

length-series : (row : ℕ → Transaction) (k n : ℕ) → length (map row (series k n)) ≡ n
length-series row k zero = refl
length-series row k (suc n) = omega (arith, length-series row (suc k) n)

-- As PostgreSQL documents the statements: TRUNCATE leaves no row and restarts the identity, INSERT
-- adds the rows that its SELECT makes, and VACUUM changes none.
pub record IsSeedServer (exec : Exec) : Type 0 where
  pub truncates : (t t' : List Transaction) → exec truncate t ≡ inr t' → t' ≡ []
  pub spreads :
      (rows accounts : ℤ) (t' : List Transaction)
      → exec (insert_spread rows accounts) [] ≡ inr t'
      → t' ≡ map (spread_row accounts) (series_to rows)
  pub repeats :
      (rows : ℤ) (t' : List Transaction)
      → exec (insert_identical rows) [] ≡ inr t'
      → t' ≡ map identical_row (series_to rows)
  pub analyses : (t t' : List Transaction) → exec vacuum_analyze t ≡ inr t' → t' ≡ t

-- A seeding that ends has made the table of its INSERT.
seeded :
    (exec : Exec)
    → IsSeedServer exec
    → (insert : SeedStatement) (made before after : List Transaction)
    → ((t' : List Transaction) → exec insert [] ≡ inr t' → t' ≡ made)
    → (fatal "truncating transactions" (exec truncate before) >>= λ empty.
        fatal "seeding transactions" (exec insert empty) >>= λ filled.
        fatal "analysing transactions" (exec vacuum_analyze filled))
      ≡ inr after
    → after ≡ made
seeded exec h insert made before after inserts e = truncated (exec truncate before) refl e
  where
    analysed :
        (filled : List Transaction) (r : Error ⊎ List Transaction)
        → exec vacuum_analyze filled ≡ r
        → fatal "analysing transactions" r ≡ inr after
        → after ≡ filled
    analysed filled (inl x) p e = cc
    analysed filled (inr t) p e = h.analyses filled after (ground (arith, p))

    inserted :
        (r : Error ⊎ List Transaction)
        → exec insert [] ≡ r
        → (fatal "seeding transactions" r >>= λ filled.
            fatal "analysing transactions" (exec vacuum_analyze filled))
          ≡ inr after
        → after ≡ made
    inserted (inl x) p e = cc
    inserted (inr t) p e = analysed t (exec vacuum_analyze t) refl e ∙ inserts t p

    truncated :
        (r : Error ⊎ List Transaction)
        → exec truncate before ≡ r
        → (fatal "truncating transactions" r >>= λ empty.
            fatal "seeding transactions" (exec insert empty) >>= λ filled.
            fatal "analysing transactions" (exec vacuum_analyze filled))
          ≡ inr after
        → after ≡ made
    truncated (inl x) p e = cc
    truncated (inr t) p e =
        let none_left = h.truncates before t p in inserted (exec insert []) refl (rw none_left at e)

-- Over a server that runs the statements as documented, `SeedTransactions` of at most 1,500,000 rows
-- over one account at least, where it ends, leaves a table such as the walks are proved for, with so
-- many rows, each of an account from 1 to the last.
pub seed_transactions-IsTable :
    (exec : Exec)
    → IsSeedServer exec
    → (rows accounts : ℕ) (before after : List Transaction) → rows ≤ 1_500_000
    → 0 < accounts
    → seed_transactions exec (pos rows) (pos accounts) before ≡ inr after
    → IsTable after
      × (length after ≡ rows)
      × All (λ t. (n : ℕ) × (t.account_id ≡ pos n) × (1 ≤ n) × (n ≤ accounts)) after
unfolding seed_transactions
seed_transactions-IsTable exec h rows accounts before after few some_account e =
    let made =
      seeded exec h (insert_spread (pos rows) (pos accounts))
        (map (spread_row (pos accounts)) (series 1 rows)) before after
        (h.spreads (pos rows) (pos accounts)) e in
    rw made (
      record {
        rows =
            series-All (spread_row (pos accounts)) (λ i. refl) IsRow rows 1 rows
              (λ i l. spread_row-IsRow accounts i (omega arith)) (omega arith);
        unique = series-HasUniqueIds (spread_row (pos accounts)) (λ i. refl) 1 rows;
      },
      length-series (spread_row (pos accounts)) 1 rows,
      series-All (spread_row (pos accounts)) (λ i. refl)
          (λ t. (n : ℕ) × (t.account_id ≡ pos n) × (1 ≤ n) × (n ≤ accounts)) rows 1 rows
          (λ i l. (1 + i % accounts, refl, omega arith, grind arith)) (omega arith),
    )

-- Over a server that runs the statements as documented, `SeedIdenticalTimestamps`, where it ends,
-- leaves a table such as the walks are proved for, although all its rows share one instant.
pub seed_identical_timestamps-IsTable :
    (exec : Exec)
    → IsSeedServer exec
    → (rows : ℕ) (before after : List Transaction) → rows + 1 < 2 ^ 63
    → seed_identical_timestamps exec (pos rows) before ≡ inr after
    → IsTable after × (length after ≡ rows) × All (λ t. t.created_at ≡ pos identical_instant) after
unfolding seed_identical_timestamps
seed_identical_timestamps-IsTable exec h rows before after few e =
    let made =
      seeded exec h (insert_identical (pos rows)) (map identical_row (series 1 rows)) before after
        (h.repeats (pos rows)) e in
    rw made (
      record {
        rows =
            series-All identical_row (λ i. refl) IsRow rows 1 rows
              (λ i l. identical_row-IsRow i (omega arith)) (omega arith);
        unique = series-HasUniqueIds identical_row (λ i. refl) 1 rows;
      },
      length-series identical_row 1 rows,
      series-All identical_row (λ i. refl) (λ t. t.created_at ≡ pos identical_instant) rows 1 rows
          (λ i l. refl) (omega arith),
    )
