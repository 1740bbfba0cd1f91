-- ===== src/Testutil/Seed.antt =====
-- go/internal/testutil/seed.go: the rows that the tests fill the table with.
use concevoir_une_api_pagine.Prelude.{
  ℕ, zero, suc, ◌+◌, ◌*◌, ◌/◌, ◌%◌, List, [], ◌∷◌, ◌++◌, Bytes, codes, ltb, if◌then◌else◌, ℤ, pos,
  negsuc, sub_ℕ, ◌⊎◌, inl, inr,
}
use Prim.Native.String.{String}
use concevoir_une_api_pagine.Errors.{Error, wrapped}
use concevoir_une_api_pagine.Go.Time.{second}
use concevoir_une_api_pagine.Domain.{Transaction}

-- `generate_series`, from a number on and so many.
abbrev pub series : ℕ → ℕ → List ℕ
series k zero = []
series k (suc n) = k ∷ series (suc k) n

-- `generate_series(1, n)`, which has no row where n is below 1.
abbrev pub series_to : ℤ → List ℕ
series_to (pos n) = series 1 n
series_to (negsuc n) = []

-- `%` of SQL for a positive number: the sign of the divisor does not count.
abbrev pub remainder : ℕ → ℤ → ℕ
remainder i (pos n) = i % n
remainder i (negsuc n) = i % suc n

-- `to_char(i, 'FM00000000')`: eight digits, or eight signs where they do not do.
abbrev digit : ℕ → ℕ
digit n = b'0' + n % 10

unfoldable pub to_char : ℕ → Bytes
to_char i =
    if ltb i 100_000_000
    then digit (i / 10_000_000)
      ∷ digit (i / 1_000_000)
      ∷ digit (i / 100_000)
      ∷ digit (i / 10_000)
      ∷ digit (i / 1_000)
      ∷ digit (i / 100)
      ∷ digit (i / 10)
      ∷ digit i
      ∷ []
    else codes "########"

-- 2015-01-01 00:00:00+00 and 2020-06-01 12:00:00+00.
abbrev pub spread_start : ℕ
spread_start = 1420070400 * second

abbrev pub identical_instant : ℕ
identical_instant = 1591012800 * second

-- Row `i` of `SeedTransactions`, whose id is that of a fresh identity.
abbrev pub spread_row : ℤ → ℕ → Transaction
spread_row accounts i = record {
  id = pos i;
  account_id = pos (1 + remainder i accounts);
  amount_cents = sub_ℕ (i * 37 % 500000) 250000;
  label = codes "VIREMENT " ++ to_char i;
  created_at = pos (spread_start + i * (20 * second));
}

-- Row `i` of `SeedIdenticalTimestamps`.
abbrev pub identical_row : ℕ → Transaction
identical_row i = record {
  id = pos i;
  account_id = pos 42;
  amount_cents = pos i;
  label = codes "CARTE " ++ to_char i;
  created_at = pos identical_instant;
}

pub data SeedStatement : Type 0 where
  truncate vacuum_analyze : SeedStatement
  insert_spread : ℤ → ℤ → SeedStatement
  insert_identical : ℤ → SeedStatement

-- `Pool.Exec`, which is not code of the repository: the table after a statement, or an error.
abbrev pub Exec : Type 0
Exec = SeedStatement → List Transaction → Error ⊎ List Transaction

-- A failed statement ends the test with a text.
abbrev pub fatal : String → Error ⊎ List Transaction → Error ⊎ List Transaction
fatal text (inl e) = inl (wrapped (codes text) e)
fatal text (inr table) = inr table

infixl 5 ◌>>=◌
abbrev pub ◌>>=◌ :
    Error ⊎ List Transaction
    → (List Transaction → Error ⊎ List Transaction)
    → Error ⊎ List Transaction
inl e >>= k = inl e
inr table >>= k = k table

unfoldable pub seed_transactions : Exec → ℤ → ℤ → List Transaction → Error ⊎ List Transaction
seed_transactions exec rows accounts before = do
  empty ← fatal "truncating transactions" (exec truncate before)
  filled ← fatal "seeding transactions" (exec (insert_spread rows accounts) empty)
  fatal "analysing transactions" (exec vacuum_analyze filled)

unfoldable pub seed_identical_timestamps : Exec → ℤ → List Transaction → Error ⊎ List Transaction
seed_identical_timestamps exec rows before = do
  empty ← fatal "truncating transactions" (exec truncate before)
  filled ← fatal "seeding transactions" (exec (insert_identical rows) empty)
  fatal "analysing transactions" (exec vacuum_analyze filled)
