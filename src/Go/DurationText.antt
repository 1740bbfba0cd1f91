-- ===== src/Go/DurationText.antt =====
-- `time.Duration.String`: hours, minutes and seconds with their decimals, or the largest smaller unit.
use concevoir_une_api_pagine.Prelude.{
  ℕ, suc, ◌/◌, ◌%◌, [], ◌∷◌, ◌++◌, Bytes, codes, ltb, ◌==◌, if◌then◌else◌, pos, negsuc,
}
use concevoir_une_api_pagine.Go.Strconv.{format_nat}
use concevoir_une_api_pagine.Go.Time.{Duration, fraction_digits}

-- `fmtFrac`: the decimals with no zeros at the end, and no point if there is none.
abbrev decimals : ℕ → ℕ → Bytes
decimals precision n = if n == 0 then [] else b'.' ∷ fraction_digits precision n

-- A number of seconds in front of their decimals.
unfoldable pub clock_units : ℕ → Bytes → Bytes
clock_units s fraction =
    let seconds = format_nat (s % 60) ++ (fraction ++ codes "s") in
    if ltb s 60
    then seconds
    else if ltb s 3600
    then format_nat (s / 60) ++ (b'm' ∷ seconds)
    else format_nat (s / 3600) ++ (b'h' ∷ (format_nat (s / 60 % 60) ++ (b'm' ∷ seconds)))

unfoldable pub magnitude : ℕ → Bytes
magnitude ns =
    if ns == 0
    then codes "0s"
    else if ltb ns 1000
    then format_nat ns ++ codes "ns"
    else if ltb ns 1_000_000
    then format_nat (ns / 1000) ++ (decimals 3 (ns % 1000) ++ (0xC2 ∷ 0xB5 ∷ codes "s"))
    else if ltb ns 1_000_000_000
    then format_nat (ns / 1_000_000) ++ (decimals 6 (ns % 1_000_000) ++ codes "ms")
    else clock_units (ns / 1_000_000_000) (decimals 9 (ns % 1_000_000_000))

unfoldable pub format_duration : Duration → Bytes
format_duration (pos ns) = magnitude ns
format_duration (negsuc n) = b'-' ∷ magnitude (suc n)
