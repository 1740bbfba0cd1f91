-- ===== src/Go/Time.antt =====
-- `time`: an instant in UTC is its nanoseconds since 1 January 1970. The monotonic reading of a
-- clock is left out.
pub mod RoundTrip
use concevoir_une_api_pagine.Prelude.{
  ℕ, ◌+◌, ◌-◌, ◌*◌, ◌/◌, ◌%◌, ◌^◌, [], ◌∷◌, ◌++◌, ◌≡◌, refl, Bool, Option, none, some, ◌&&◌, ◌||◌,
  Bytes, codes, ltb, leb, ◌==◌, if◌then◌else◌, ℤ, pos, negsuc, ◌+ℤ◌, ◌-ℤ◌, div_floor, mod_floor,
  join_floor, ltb_ℤ, wrap64, drop, not,
}
use concevoir_une_api_pagine.Prelude.Options.{◌>>=◌, ◌>>◌, guard}
use concevoir_une_api_pagine.Go.Strconv.{format_nat, is_digit, scan}
use concevoir_une_api_pagine.Go.Calendar.{Date, date_of_day, day_of_date, days_in}

abbrev pub Time : Type 0
Time = ℤ

-- A `time.Duration` is an `int64` of nanoseconds.
abbrev pub Duration : Type 0
Duration = ℤ

abbrev pub second : ℕ
second = 1_000_000_000

abbrev pub day_length : ℕ
day_length = 86_400_000_000_000

-- An instant holds the seconds since year 1 in an `int64`.
abbrev pub unix_to_internal : ℤ
unix_to_internal = pos 62_135_596_800

-- `time.Unix(s, 0)`
unfoldable pub unix : ℤ → Time
unix s = join_floor (wrap64 (s +ℤ unix_to_internal) -ℤ unix_to_internal) second 0

-- `t.Unix()`
unfoldable pub unix_seconds : Time → ℤ
unix_seconds t = wrap64 (div_floor t second)

abbrev max_duration : Duration
max_duration = pos (2 ^ 63 - 1)

abbrev min_duration : Duration
min_duration = negsuc (2 ^ 63 - 1)

-- `t.Sub(u)` stops at the ends of the range of a duration.
unfoldable pub sub : Time → Time → Duration
sub t u =
    if ltb_ℤ (t -ℤ u) min_duration
    then min_duration
    else if ltb_ℤ max_duration (t -ℤ u)
    then max_duration
    else t -ℤ u

-- The digits of fixed width, in front of a text.
abbrev pub two : ℕ → Bytes → Bytes
two n rest = (b'0' + n / 10) ∷ (b'0' + n % 10) ∷ rest

abbrev pub four : ℕ → Bytes → Bytes
four n rest = two (n / 100) (two (n % 100) rest)

abbrev pub six : ℕ → Bytes → Bytes
six n rest = two (n / 10000) (four (n % 10000) rest)

abbrev at_least_four : ℕ → Bytes → Bytes
at_least_four n rest = if ltb n 10000 then four n rest else format_nat n ++ rest

unfoldable pub year_text : ℤ → Bytes → Bytes
year_text (pos n) rest = at_least_four n rest
year_text (negsuc n) rest = b'-' ∷ at_least_four (n + 1) rest

abbrev pub date_text : Date → Bytes → Bytes
date_text d rest = year_text d.year (b'-' ∷ two d.month (b'-' ∷ two d.day rest))

-- Nanoseconds of the day as hours, minutes and seconds.
abbrev pub clock_text : ℕ → Bytes → Bytes
clock_text ns rest =
    two (ns / 3_600_000_000_000)
      (b':' ∷ two (ns / 60_000_000_000 % 60) (b':' ∷ two (ns / second % 60) rest))

-- `t.UTC().Format("2006-01-02T15:04:05.000000Z")`: six decimals, the rest is cut off.
unfoldable pub format_micro : Time → Bytes
format_micro t =
    let ns = mod_floor t day_length in
    date_text (date_of_day (div_floor t day_length))
      (b'T' ∷ clock_text ns (b'.' ∷ six (ns / 1000 % 1_000_000) (b'Z' ∷ [])))

-- The decimals of RFC3339Nano: none for a whole second, and no zeros at the end.
unfoldable pub fraction_digits : ℕ → ℕ → Bytes
fraction_digits Prim.Native.Nat.zero n = []
fraction_digits (Prim.Native.Nat.suc k) n =
    let rest = fraction_digits k (n % 10 ^ k) in if n == 0 then [] else (b'0' + n / 10 ^ k) ∷ rest

abbrev fraction_text : ℕ → Bytes
fraction_text n = if n == 0 then b'Z' ∷ [] else b'.' ∷ (fraction_digits 9 n ++ b'Z' ∷ [])

-- `t.UTC().Format(time.RFC3339Nano)`
unfoldable pub format_rfc3339_nano : Time → Bytes
unfolding fraction_digits
format_rfc3339_nano t =
    let ns = mod_floor t day_length in
    date_text (date_of_day (div_floor t day_length))
      (b'T' ∷ clock_text ns (fraction_text (ns % second)))

unfoldable pub expect : ℕ → Bytes → Option Bytes
expect c [] = none
expect c (x ∷ s) = if x == c then some s else none

-- `getnum` with two digits.
unfoldable pub two_digits : Bytes → Option (ℕ × Bytes)
two_digits (a ∷ b ∷ s) =
    if is_digit a && is_digit b then some ((a - b'0') * 10 + (b - b'0'), s) else none
two_digits _ = none

-- `getnum` with one digit or two, as the hour of a layout is read.
unfoldable pub one_or_two_digits : Bytes → Option (ℕ × Bytes)
one_or_two_digits (a ∷ b ∷ s) =
    if not (is_digit a)
    then none
    else if is_digit b
    then some ((a - b'0') * 10 + (b - b'0'), s)
    else some (a - b'0', b ∷ s)
one_or_two_digits (a ∷ []) = if is_digit a then some (a - b'0', []) else none
one_or_two_digits [] = none

unfoldable pub four_digits : Bytes → Option (ℕ × Bytes)
four_digits (a ∷ b ∷ c ∷ d ∷ s) = do n ← scan (a ∷ b ∷ c ∷ d ∷ []) 0; some (n, s)
four_digits _ = none

-- `atoi` on the decimals: a sign may stand before the digits, but the number is not negative.
unfoldable pub decimals : Bytes → Option ℕ
decimals [] = none
decimals (c ∷ s) =
    if c == b'+'
    then scan s 0
    else if c == b'-'
    then (do n ← scan s 0; guard (n == 0); some 0)
    else scan (c ∷ s) 0

-- A point or a comma, and six characters.
unfoldable pub micros : Bytes → Option (ℕ × Bytes)
micros (p ∷ a ∷ b ∷ c ∷ d ∷ e ∷ f ∷ s) = do
  guard (p == b'.' || p == b',')
  n ← decimals (a ∷ b ∷ c ∷ d ∷ e ∷ f ∷ [])
  some (n, s)
micros _ = none

abbrev done : Bytes → Option (Unit {0})
done [] = some tt
done (_ ∷ _) = none

-- The instant of a date and a time of the day.
abbrev instant : ℕ → ℕ → ℕ → ℕ → ℕ → ℕ → ℕ → Time
instant y m d hh mm ss us =
    join_floor (day_of_date y m d) day_length
      (hh * 3_600_000_000_000 + mm * 60_000_000_000 + ss * second + us * 1000)

-- `time.Parse("2006-01-02T15:04:05.000000Z", s)`
unfoldable pub parse_micro : Bytes → Option Time
parse_micro s = do
  (y, s1) ← four_digits s
  s2 ← expect b'-' s1
  (m, s3) ← two_digits s2
  guard (leb 1 m && leb m 12)
  s4 ← expect b'-' s3
  (d, s5) ← two_digits s4
  s6 ← expect b'T' s5
  (hh, s7) ← one_or_two_digits s6
  guard (ltb hh 24)
  s8 ← expect b':' s7
  (mm, s9) ← two_digits s8
  guard (ltb mm 60)
  s10 ← expect b':' s9
  (ss, s11) ← two_digits s10
  guard (ltb ss 60)
  (us, s12) ← micros s11
  s13 ← expect b'Z' s12
  done s13
  guard (leb 1 d && leb d (days_in m y))
  some (instant y m d hh mm ss us)
