-- ===== src/Go/Calendar.antt =====
-- `time`: the proleptic Gregorian calendar of `Time.Date` and of `time.Date`. A day is counted from
-- 1 January 1970, and a cycle of 400 years is counted from 1 March, so that the leap day is its
-- year's last.
pub mod RoundTrip
use concevoir_une_api_pagine.Prelude.{
  ℕ, ◌+◌, ◌-◌, ◌*◌, ◌/◌, ◌%◌, Bool, not, ◌&&◌, ◌||◌, ltb, leb, ◌==◌, if◌then◌else◌, ℤ, pos, ◌+ℤ◌,
  ◌-ℤ◌, sub_ℕ, div_floor, mod_floor, join_floor,
}
use Prim.Native.Nat.{min}

pub record Date : Type 0 where
  pub year : ℤ
  pub month : ℕ
  pub day : ℕ

unfoldable pub is_leap : ℕ → Bool
is_leap y = y % 4 == 0 && (not (y % 100 == 0) || y % 400 == 0)

unfoldable pub month_length : Bool → ℕ → ℕ
month_length leap m =
    if m == 2
    then (if leap then 29 else 28)
    else if (m == 4) || (m == 6) || (m == 9) || (m == 11)
    then 30
    else 31

-- `daysIn`
unfoldable pub days_in : ℕ → ℕ → ℕ
unfolding is_leap month_length
days_in m y = month_length (is_leap y) m

-- The days of a cycle are centuries, then four-year groups, then years; a century and a group are a
-- day longer at their end.
abbrev century : ℕ → ℕ
century doe = min (doe / 36524) 3

abbrev group : ℕ → ℕ
group doe = (doe - 36524 * century doe) / 1461

abbrev year_of_group : ℕ → ℕ
year_of_group doe = min ((doe - 36524 * century doe - 1461 * group doe) / 365) 3

unfoldable pub year_of_cycle : ℕ → ℕ
year_of_cycle doe = 100 * century doe + 4 * group doe + year_of_group doe

abbrev days_before : ℕ → ℕ
days_before yoe = 365 * yoe + yoe / 4 - yoe / 100

-- The day of the year that begins in March, and its month, counted from 0.
abbrev day_of_year : ℕ → ℕ
day_of_year doe = doe - days_before (year_of_cycle doe)

abbrev month_index : ℕ → ℕ
month_index doy = (5 * doy + 2) / 153

abbrev days_before_month : ℕ → ℕ
days_before_month mp = (153 * mp + 2) / 5

abbrev month_of : ℕ → ℕ
month_of mp = if ltb mp 10 then mp + 3 else mp - 9

abbrev epoch_days : ℕ
epoch_days = 719468

-- January and February are of the next civil year.
abbrev next_year : ℕ → ℤ → ℤ
next_year m y = if leb m 2 then y +ℤ pos 1 else y

unfoldable pub date_of_day : ℤ → Date
unfolding year_of_cycle
date_of_day n =
    let s = n +ℤ pos epoch_days in
    let doe = mod_floor s 146097 in
    let mp = month_index (day_of_year doe) in
    record {
      year = next_year (month_of mp) (join_floor (div_floor s 146097) 400 (year_of_cycle doe));
      month = month_of mp;
      day = day_of_year doe - days_before_month mp + 1;
    }

abbrev index_of_month : ℕ → ℕ
index_of_month m = if ltb 2 m then m - 3 else m + 9

unfoldable pub day_of_date : ℕ → ℕ → ℕ → ℤ
day_of_date y m d =
    let s = sub_ℕ y (if leb m 2 then 1 else 0) in
    let doy = days_before_month (index_of_month m) + d - 1 in
    join_floor (div_floor s 400) 146097 (days_before (mod_floor s 400) + doy) -ℤ pos epoch_days
