-- ===== src/Go/Time/RoundTrip.antt =====
-- Reading back what `Format` writes with the six decimals of the cursor's layout.
use concevoir_une_api_pagine.Prelude.{
  ℕ, ◌+◌, ◌*◌, ◌/◌, ◌%◌, ◌≤◌, ◌<◌, [], ◌∷◌, ◌≡◌, refl, true, ◌&&◌, arith, ◌∙◌, ap, ap₂, some, Bytes,
  ltb, leb, pos, negsuc, div_floor, mod_floor, join_floor, ◌+ℤ◌, +ℤ_cancel, wrap64_of_InInt64,
  InInt64,
}
use concevoir_une_api_pagine.Go.Strconv.{scan}
use concevoir_une_api_pagine.Go.Calendar.{date_of_day, days_in}
use concevoir_une_api_pagine.Go.Calendar.RoundTrip.{
  IsDate, date_of_day-IsDate, day_of_date-date_of_day,
}
use concevoir_une_api_pagine.Go.Time.{
  Time, second, day_length, two, four, six, year_text, format_micro, expect, two_digits,
  one_or_two_digits, four_digits, decimals, micros, parse_micro, instant, unix, unix_seconds,
  unix_to_internal,
}

expect_self : (c : ℕ) (s : Bytes) → expect c (c ∷ s) ≡ some s
unfolding expect
expect_self c s = ground arith

two_digits-two : (n : ℕ) (s : Bytes) → n < 100 → two_digits (two n s) ≡ some (n, s)
unfolding two_digits
two_digits-two n s h = ground arith

one_or_two_digits-two : (n : ℕ) (s : Bytes) → n < 100 → one_or_two_digits (two n s) ≡ some (n, s)
unfolding one_or_two_digits
one_or_two_digits-two n s h = ground arith

four_digits-four : (n : ℕ) (s : Bytes) → n < 10000 → four_digits (four n s) ≡ some (n, s)
unfolding four_digits scan
four_digits-four n s h = ground arith

micros-six : (n : ℕ) (s : Bytes) → n < 1_000_000 → micros (b'.' ∷ six n s) ≡ some (n, s)
unfolding micros decimals scan
micros-six n s h = ground arith

-- A text of the layout.
abbrev pub stamp : ℕ → ℕ → ℕ → ℕ → ℕ → ℕ → ℕ → Bytes
stamp y m d hh mm ss us = four y (
    b'-'
    ∷ two m
        (b'-' ∷ two d (b'T' ∷ two hh (b':' ∷ two mm (b':' ∷ two ss (b'.' ∷ six us (b'Z' ∷ [])))))))

in_range : (lo hi n : ℕ) → lo ≤ n → n ≤ hi → (leb lo n && leb n hi) ≡ true
in_range lo hi n h k = ground arith

below : (n hi : ℕ) → n < hi → ltb n hi ≡ true
below n hi h = ground arith

parse_micro-stamp :
    (y m d hh mm ss us : ℕ)
    → IsDate y m d
    → d ≤ 31
    → y < 10000
    → hh < 24
    → mm < 60
    → ss < 60
    → us < 1_000_000
    → parse_micro (stamp y m d hh mm ss us) ≡ some (instant y m d hh mm ss us)
unfolding parse_micro
parse_micro-stamp y m d hh mm ss us v small fy fh fm fs fu =
    rw
      (
        four_digits-four y _ fy,
        expect_self b'-' _,
        two_digits-two m _ (omega arith),
        in_range 1 12 m v.first_month v.last_month,
        expect_self b'-' _,
        two_digits-two d _ (omega arith),
        expect_self b'T' _,
        one_or_two_digits-two hh _ (omega arith),
        below hh 24 fh,
        expect_self b':' _,
        two_digits-two mm _ (omega arith),
        below mm 60 fm,
        expect_self b':' _,
        two_digits-two ss _ (omega arith),
        below ss 60 fs,
        micros-six us _ fu,
        expect_self b'Z' _,
        in_range 1 (days_in m y) d v.first_day v.last_day,
      )
      refl

-- The year of an instant, if the layout has room for it.
abbrev pub IsYear : Time → ℕ → Type 0
IsYear t y = ((date_of_day (div_floor t day_length)).year ≡ pos y) × (y < 10000)

-- The instant without what is below a microsecond.
abbrev pub whole_micros : Time → Time
whole_micros t =
    join_floor (div_floor t day_length) day_length (mod_floor t day_length / 1000 * 1000)

pub mod_day-lt : (t : Time) → mod_floor t day_length < day_length
mod_day-lt (pos n) = omega arith
mod_day-lt (negsuc n) = omega arith

days_in-le : (m y : ℕ) → days_in m y ≤ 31
unfolding days_in
days_in-le m y = ground arith

abbrev pub stamp_of : Time → ℕ → Bytes
stamp_of t y =
    let date = date_of_day (div_floor t day_length) in
    let ns = mod_floor t day_length in
    stamp y date.month date.day (ns / 3_600_000_000_000) (ns / 60_000_000_000 % 60)
      (ns / second % 60) (ns / 1000 % 1_000_000)

-- Within the years of four digits the layout has a fixed width.
pub format_micro-stamp : (t : Time) (y : ℕ) → IsYear t y → format_micro t ≡ stamp_of t y
unfolding format_micro year_text
format_micro-stamp t y (same, fits) = rw (same, below y 10000 fits)

pub month_and_day :
    (t : Time) (y : ℕ)
    → IsYear t y
    → let date = date_of_day (div_floor t day_length) in (date.month < 100) × (date.day < 100)
month_and_day t y (same, _) =
    let v = date_of_day-IsDate (div_floor t day_length) y same in
    let date = date_of_day (div_floor t day_length) in
    (omega (arith, v.last_month), omega (arith, v.last_day, days_in-le date.month y))

clock :
    (ns : ℕ)
    → ns < day_length
    → ns / 3_600_000_000_000 * 3_600_000_000_000
        + ns / 60_000_000_000 % 60 * 60_000_000_000
        + ns / second % 60 * second
        + ns / 1000 % 1_000_000 * 1000
      ≡ ns / 1000 * 1000
clock ns h = omega arith

pub parse_micro-format_micro :
    (t : Time) (y : ℕ) → IsYear t y → parse_micro (format_micro t) ≡ some (whole_micros t)
parse_micro-format_micro t y (same, fits) =
    let day = div_floor t day_length in
    let ns = mod_floor t day_length in
    let date = date_of_day day in
    let v = date_of_day-IsDate day y same in
    let room : date.day ≤ 31 = omega (arith, days_in-le date.month y, v.last_day) in
    let lt = mod_day-lt t in
    rw (format_micro-stamp t y (same, fits)) (
      parse_micro-stamp y date.month date.day (ns / 3_600_000_000_000) (ns / 60_000_000_000 % 60)
        (ns / second % 60) (ns / 1000 % 1_000_000) v room fits (omega arith) (omega arith)
        (omega arith) (omega arith)
      ∙ ap some (
          ap₂ (λ a b. join_floor a day_length b) (day_of_date-date_of_day day y same)
            (clock ns lt)))

-- The instant without what is below a second.
abbrev pub whole_seconds : Time → Time
whole_seconds t = join_floor (div_floor t second) second 0

-- Seconds that an instant can hold, counted from either epoch.
abbrev pub HasSeconds : Time → Type 0
HasSeconds t = InInt64 (div_floor t second) × InInt64 (div_floor t second +ℤ unix_to_internal)

-- `time.Unix` of an instant's `Unix()` cuts it to the second.
pub unix-unix_seconds : (t : Time) → HasSeconds t → unix (unix_seconds t) ≡ whole_seconds t
unfolding unix unix_seconds
unix-unix_seconds t (near, far) =
    let s = div_floor t second in
    rw (
      wrap64_of_InInt64 s near,
      wrap64_of_InInt64 (s +ℤ unix_to_internal) far,
      +ℤ_cancel s unix_to_internal,
    )

pub unix_seconds-InInt64 : (t : Time) → HasSeconds t → InInt64 (unix_seconds t)
unfolding unix_seconds
unix_seconds-InInt64 t (near, far) = rw (wrap64_of_InInt64 (div_floor t second) near) near
