-- ===== src/Go/Calendar/RoundTrip.antt =====
-- A day's date is a date of the calendar, and it leads back to the day.
use concevoir_une_api_pagine.Prelude.{
  ℕ, ◌+◌, ◌-◌, ◌*◌, ◌%◌, ◌≤◌, ◌<◌, ◌≡◌, ◌∙◌, ap, subst, refl, arith, ◌⊎◌, leb, if◌then◌else◌, ℤ,
  sub_ℕ, pos, negsuc, ◌+ℤ◌, ◌-ℤ◌, +ℤ_cancel, div_floor, mod_floor, join_floor, Bool, true, false,
  all_below, all_below_sound, leb→le, Bool-cases, inl, inr,
}
use concevoir_une_api_pagine.Go.Calendar.{
  is_leap, month_length, days_in, next_year, century, group, year_of_group, year_of_cycle,
  days_before, day_of_year, month_index, days_before_month, month_of, index_of_month, date_of_day,
  day_of_date, epoch_days,
}

-- The day of a cycle by its century, group, year and day of the year.
record Splits (doe : ℕ) : Type 0 where
  whole : doe ≡ 36524 * century doe + 1461 * group doe + 365 * year_of_group doe + day_of_year doe
  centuries : century doe ≤ 3
  groups : group doe ≤ 24
  years : year_of_group doe ≤ 3
  days : day_of_year doe ≤ 365
  leap_year : day_of_year doe ≡ 365 → year_of_group doe ≡ 3
  leap_century : day_of_year doe ≡ 365 → (group doe < 24) ⊎ (century doe ≡ 3)

splits : (doe : ℕ) → doe < 146097 → Splits doe
unfolding year_of_cycle
splits doe h = record {
  whole = omega arith;
  centuries = omega arith;
  groups = omega arith;
  years = omega arith;
  days = omega arith;
  leap_year = omega arith;
  leap_century = omega arith;
}

abbrev day_of_month : ℕ → ℕ
day_of_month doy = doy - days_before_month (month_index doy) + 1

-- The month and the day of a day of the year.
record Months (doy : ℕ) : Type 0 where
  first : 1 ≤ month_of (month_index doy)
  last : month_of (month_index doy) ≤ 12
  day : 1 ≤ day_of_month doy
  index : index_of_month (month_of (month_index doy)) ≡ month_index doy
  back : days_before_month (month_index doy) + day_of_month doy - 1 ≡ doy

months : (doy : ℕ) → doy ≤ 365 → Months doy
months doy h = record {
  first = ground arith;
  last = ground arith;
  day = omega arith;
  index = ground arith;
  back = omega arith;
}

abbrev fits : Bool → ℕ → Bool
fits leap doy = leb (day_of_month doy) (month_length leap (month_of (month_index doy)))

fits_leap : all_below 366 (fits true) ≡ true
unfolding all_below month_length
fits_leap = refl

fits_common : all_below 365 (fits false) ≡ true
unfolding all_below month_length
fits_common = refl

-- The day is in the month of any year `y` that has the day.
day-le-days_in :
    (doy y : ℕ)
    → doy ≤ 365
    → (doy ≡ 365 → is_leap y ≡ true)
    → day_of_month doy ≤ days_in (month_of (month_index doy)) y
unfolding days_in
day-le-days_in doy y h leap = elim (Bool-cases (is_leap y)) [
  | inl long ↦ rw long (leb→le _ _ (all_below_sound 366 (fits true) doy fits_leap (omega arith)))
  | inr short ↦ rw short (
      leb→le _ _
        (all_below_sound 365 (fits false) doy fits_common (before_last doy y h leap short)))
]
  where
    before_last :
        (doy y : ℕ) → doy ≤ 365 → (doy ≡ 365 → is_leap y ≡ true) → is_leap y ≡ false → doy < 365
    before_last doy y h leap short = ground (arith, leap)

year_mod :
    (era : ℤ) (yoe y : ℕ)
    → yoe < 400
    → join_floor era 400 yoe +ℤ pos 1 ≡ pos y
    → y % 400 ≡ (yoe + 1) % 400
unfolding ◌+ℤ◌
year_mod (pos e) yoe y h same = let number : e * 400 + yoe + 1 ≡ y = ground arith in omega arith
year_mod (negsuc e) yoe y h same = ground arith

leap_mod :
    (y c g : ℕ)
    → y % 400 ≡ (100 * c + 4 * g + 3 + 1) % 400
    → c ≤ 3
    → g ≤ 24
    → (g < 24) ⊎ (c ≡ 3)
    → is_leap y ≡ true
unfolding is_leap
leap_mod y c g same hc g24 (inl hg) = ground arith
leap_mod y c g same hc g24 (inr hg) = ground arith

cycle_back :
    (doe : ℕ)
    → doe < 146097
    → (days_before (year_of_cycle doe) + day_of_year doe ≡ doe) × (year_of_cycle doe < 400)
unfolding year_of_cycle
cycle_back doe h = omega (arith)

year_back :
    (era : ℤ) (yoe y m : ℕ)
    → yoe < 400
    → next_year m (join_floor era 400 yoe) ≡ pos y
    → sub_ℕ y (if leb m 2 then 1 else 0) ≡ join_floor era 400 yoe
unfolding ◌+ℤ◌
year_back (pos e) yoe y m h same = ground arith
year_back (negsuc e) yoe y m h same = ground arith

div_join : (era : ℤ) (r : ℕ) → r < 400 → div_floor (join_floor era 400 r) 400 ≡ era
div_join (pos e) r h = ground arith
div_join (negsuc e) r h = ground arith

mod_join : (era : ℤ) (r : ℕ) → r < 400 → mod_floor (join_floor era 400 r) 400 ≡ r
mod_join (pos e) r h = ground arith
mod_join (negsuc e) r h = ground arith

join_self : (s : ℤ) → join_floor (div_floor s 146097) 146097 (mod_floor s 146097) ≡ s
join_self (pos n) = ground arith
join_self (negsuc n) = ground arith

mod-lt : (s : ℤ) → mod_floor s 146097 < 146097
mod-lt (pos n) = omega arith
mod-lt (negsuc n) = omega arith

day_of_date_at :
    (y m d : ℕ) (era : ℤ) (yoe doe : ℕ)
    → sub_ℕ y (if leb m 2 then 1 else 0) ≡ join_floor era 400 yoe
    → yoe < 400
    → days_before yoe + (days_before_month (index_of_month m) + d - 1) ≡ doe
    → day_of_date y m d ≡ join_floor era 146097 doe -ℤ pos epoch_days
unfolding day_of_date
day_of_date_at y m d era yoe doe same small whole =
    rw (same, div_join era yoe small, mod_join era yoe small, whole)

-- A date as `time.Parse` accepts it: of month 1 to 12, and of a day that the month has.
pub record IsDate (y m d : ℕ) : Type 0 where
  pub first_month : 1 ≤ m
  pub last_month : m ≤ 12
  pub first_day : 1 ≤ d
  pub last_day : d ≤ days_in m y

module _ (n : ℤ) (y : ℕ) (same : (date_of_day n).year ≡ pos y) where
  doe : ℕ
  doe = mod_floor (n +ℤ pos epoch_days) 146097

  doe_lt : doe < 146097
  unfolding doe
  doe_lt = mod-lt (n +ℤ pos epoch_days)

  leap_last : day_of_year doe ≡ 365 → is_leap y ≡ true
  unfolding date_of_day doe
  leap_last last =
      let z = splits doe doe_lt in
      let era = div_floor (n +ℤ pos epoch_days) 146097 in
      let february =
        subst
          (λ t.
            next_year (month_of (month_index t)) (join_floor era 400 (year_of_cycle doe)) ≡ pos y)
          last same in
      leap_mod y (century doe) (group doe)
        (year_mod era (year_of_cycle doe) y (cycle_back doe doe_lt).1 february
          ∙ ap (λ t. (100 * century doe + 4 * group doe + t + 1) % 400) (z.leap_year last))
        z.centuries z.groups (z.leap_century last)

  pub date_of_day-IsDate : IsDate y (date_of_day n).month (date_of_day n).day
  unfolding doe date_of_day
  date_of_day-IsDate =
      let z = months (day_of_year doe) (splits doe doe_lt).days in
      record {
        first_month = z.first;
        last_month = z.last;
        first_day = z.day;
        last_day = day-le-days_in (day_of_year doe) y (splits doe doe_lt).days leap_last;
      }

  pub day_of_date-date_of_day : day_of_date y (date_of_day n).month (date_of_day n).day ≡ n
  unfolding doe date_of_day
  day_of_date-date_of_day =
      let z = months (day_of_year doe) (splits doe doe_lt).days in
      let era = div_floor (n +ℤ pos epoch_days) 146097 in
      let (whole, small) = cycle_back doe doe_lt in
      let m = month_of (month_index (day_of_year doe)) in
      day_of_date_at y m (day_of_month (day_of_year doe)) era (year_of_cycle doe) doe
        (year_back era (year_of_cycle doe) y m small same) small
        (ap
            (λ t.
              days_before (year_of_cycle doe)
              + (days_before_month t + day_of_month (day_of_year doe) - 1))
            z.index
          ∙ (ap (◌+◌ (days_before (year_of_cycle doe))) z.back ∙ whole))
      ∙ (ap (λ t. t -ℤ pos epoch_days) (join_self (n +ℤ pos epoch_days))
          ∙ +ℤ_cancel n (pos epoch_days))
