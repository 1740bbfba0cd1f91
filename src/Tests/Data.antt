-- ===== src/Tests/Data.antt =====
-- A small table, a query and a clock.
use concevoir_une_api_pagine.Prelude.{
  ℕ, ◌*◌, ◌+◌, List, [], ◌∷◌, Bytes, codes, pos, negsuc, refl, arith, ◌+ℤ◌, ◌-ℤ◌,
}
use concevoir_une_api_pagine.Domain.{Transaction, ListQuery, sort_created_at_desc}
use concevoir_une_api_pagine.Go.Calendar.{date_of_day}
use concevoir_une_api_pagine.Go.Time.{Duration, sub, second}
use concevoir_une_api_pagine.Postgres.Snapshot.{snapshot}
use concevoir_une_api_pagine.Service.Client.{Visit, Walker}
use concevoir_une_api_pagine.Service.Changes.{Stage, visits}
use concevoir_une_api_pagine.Service.Walk.{IsTable, IsTimely}

abbrev pub start : ℕ
start = 1420070400 * 1_000_000_000

-- A row of tenant 42, some seconds after 1 January 2015.
abbrev pub row_at : ℕ → ℕ → Transaction
row_at id seconds = record {
  id = pos id;
  account_id = pos 42;
  amount_cents = negsuc 99;
  label = codes "CARTE";
  created_at = pos (start + seconds * second);
}

-- Two of the rows share an instant.
abbrev pub three_rows : List Transaction
three_rows = row_at 1 20 ∷ row_at 2 40 ∷ row_at 3 40 ∷ []

pub three_rows-IsTable : IsTable three_rows
unfolding date_of_day ◌+ℤ◌
three_rows-IsTable = record {
  rows = (
    record { year = 2015; created = (refl, omega arith); precise = refl; row = omega arith },
    (
      record { year = 2015; created = (refl, omega arith); precise = refl; row = omega arith },
      (
        record { year = 2015; created = (refl, omega arith); precise = refl; row = omega arith },
        tt,
      ),
    ),
  );
  unique = ((cc, (cc, tt)), ((cc, tt), (tt, tt)));
}

abbrev pub tenant_query : ListQuery
tenant_query = record { account_id = pos 42; status = []; sort = sort_created_at_desc }

abbrev pub test_key : Bytes
test_key = codes "concevoir-une-api-paginee-test-key"

abbrev pub three_days : Duration
three_days = pos (259_200 * 1_000_000_000)

abbrev pub walker : Walker
walker = record { key = test_key; ttl = three_days; query = tenant_query; limit = 2 }

abbrev pub noon : ℕ
noon = 1767225600 * 1_000_000_000

abbrev pub visit_at : List Transaction → ℕ → Visit
visit_at table seconds = record {
  database = snapshot table;
  clock = record {
    at_decode = pos (noon + seconds * second);
    at_issue = pos (noon + seconds * second + 5);
  };
}

abbrev pub two_visits : List Visit
two_visits = visit_at three_rows 0 ∷ visit_at three_rows 60 ∷ []

pub two_visits-IsTimely : IsTimely three_days two_visits
unfolding sub ◌-ℤ◌ ◌+ℤ◌
two_visits-IsTimely = (omega arith, refl, omega arith)

-- The table with one row more, newer than the others.
abbrev pub four_rows : List Transaction
four_rows = row_at 4 60 ∷ three_rows

pub four_rows-IsTable : IsTable four_rows
unfolding date_of_day ◌+ℤ◌
four_rows-IsTable = record {
  rows = (
    record { year = 2015; created = (refl, omega arith); precise = refl; row = omega arith },
    three_rows-IsTable.rows,
  );
  unique = ((cc, (cc, (cc, tt))), three_rows-IsTable.unique);
}

abbrev pub growing : List Stage
growing =
    record { visit = visit_at three_rows 0; table = three_rows }
    ∷ record { visit = visit_at four_rows 60; table = four_rows }
    ∷ []

pub growing-IsTimely : IsTimely three_days (visits growing)
unfolding sub ◌-ℤ◌ ◌+ℤ◌
growing-IsTimely = (omega arith, refl, omega arith)

-- With a third request the walk has room for all rows of `four_rows`.
abbrev pub three_stages : List Stage
three_stages =
    record { visit = visit_at three_rows 0; table = three_rows }
    ∷ record { visit = visit_at four_rows 60; table = four_rows }
    ∷ record { visit = visit_at four_rows 120; table = four_rows }
    ∷ []

pub three_stages-IsTimely : IsTimely three_days (visits three_stages)
unfolding sub ◌-ℤ◌ ◌+ℤ◌
three_stages-IsTimely = (omega arith, refl, (omega arith, refl, omega arith))
