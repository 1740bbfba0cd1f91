-- ===== src/Cursor/PlainText.antt =====
-- The characters of a payload: nothing to escape, and bytes throughout.
use concevoir_une_api_pagine.Prelude.{
  ℕ, ◌/◌, ◌%◌, ◌≤◌, ◌<◌, [], ◌∷◌, ◌++◌, Bool, true, false, ◌≡◌, ◌⊎◌, arith, Bytes, All, All-append,
  ℤ, All-map, div_floor, mod_floor,
}
use concevoir_une_api_pagine.Go.Strconv.{format_int}
use concevoir_une_api_pagine.Go.Strconv.RoundTrip.{format_int-IsDigit}
use concevoir_une_api_pagine.Go.Time.{Time, format_micro, two, four, six, second, day_length}
use concevoir_une_api_pagine.Go.Time.RoundTrip.{
  IsYear, format_micro-stamp, stamp, month_and_day, mod_day-lt,
}
use concevoir_une_api_pagine.Go.Calendar.{date_of_day}
use concevoir_une_api_pagine.Go.Json.Strings.{IsPlain}
use concevoir_une_api_pagine.Go.Base64.RoundTrip.{IsByte}
use concevoir_une_api_pagine.Cursor.Payload.{version, format_bool}
use concevoir_une_api_pagine.Cursor.Written.{named, quoted, written}

two-IsPlain : (n : ℕ) (s : Bytes) → n < 100 → All IsPlain s → All IsPlain (two n s)
two-IsPlain n s h p = (omega arith, (omega arith, p))

four-IsPlain : (n : ℕ) (s : Bytes) → n < 10000 → All IsPlain s → All IsPlain (four n s)
four-IsPlain n s h p =
    two-IsPlain (n / 100) (two (n % 100) s) (omega arith) (two-IsPlain (n % 100) s (omega arith) p)

stamp-IsPlain :
    (y m d hh mm ss us : ℕ)
    → y < 10000
    → m < 100
    → d < 100
    → hh < 100
    → mm < 100
    → ss < 100
    → us < 1_000_000
    → All IsPlain (stamp y m d hh mm ss us)
stamp-IsPlain y m d hh mm ss us hy hm hd hh' hmm hss hus =
    let t7 : Bytes = b'.' ∷ six us (b'Z' ∷ []) in
    let p6 : All IsPlain (four (us % 10000) (b'Z' ∷ [])) =
      four-IsPlain (us % 10000) (b'Z' ∷ []) (omega arith) (omega arith, tt) in
    let p7 : All IsPlain t7 =
      (omega arith, two-IsPlain (us / 10000) (four (us % 10000) (b'Z' ∷ [])) (omega arith) p6) in
    let t5 : Bytes = b':' ∷ two ss t7 in
    let p5 : All IsPlain t5 = (omega arith, two-IsPlain ss t7 hss p7) in
    let t4 : Bytes = b':' ∷ two mm t5 in
    let p4 : All IsPlain t4 = (omega arith, two-IsPlain mm t5 hmm p5) in
    let t3 : Bytes = b'T' ∷ two hh t4 in
    let p3 : All IsPlain t3 = (omega arith, two-IsPlain hh t4 hh' p4) in
    let t2 : Bytes = b'-' ∷ two d t3 in
    let p2 : All IsPlain t2 = (omega arith, two-IsPlain d t3 hd p3) in
    let t1 : Bytes = b'-' ∷ two m t2 in
    let p1 : All IsPlain t1 = (omega arith, two-IsPlain m t2 hm p2) in four-IsPlain y t1 hy p1

-- A formatted instant needs no escape.
pub format_micro-IsPlain : (t : Time) (y : ℕ) → IsYear t y → All IsPlain (format_micro t)
format_micro-IsPlain t y h =
    let (m, d) = month_and_day t y h in
    let date = date_of_day (div_floor t day_length) in
    let ns = mod_floor t day_length in
    let lt = mod_day-lt t in
    rw (format_micro-stamp t y h) (
      stamp-IsPlain y date.month date.day (ns / 3_600_000_000_000) (ns / 60_000_000_000 % 60)
        (ns / second % 60) (ns / 1000 % 1_000_000) h.1 m d (omega arith) (omega arith) (omega arith)
        (omega arith))

plain-IsByte : (s : Bytes) → All IsPlain s → All IsByte s
plain-IsByte s p = All-map s (λ c q. small c q) p
  where
    small : (c : ℕ) → IsPlain c → IsByte c
    small c q = omega arith

int-IsByte : (z : ℤ) → All IsByte (format_int z)
int-IsByte z = All-map (format_int z) (λ c q. small c q) (format_int-IsDigit z)
  where
    small : (c : ℕ) → ((b'0' ≤ c) × (c ≤ b'9')) ⊎ (c ≡ b'-') → IsByte c
    small c q = omega arith

bool-IsByte : (d : Bool) → All IsByte (format_bool d)
bool-IsByte true = omega arith
bool-IsByte false = omega arith

-- A payload is a sequence of bytes.
pub written-IsByte :
    (c f : Bytes) (i t : ℤ) (d : Bool)
    → All IsPlain c
    → All IsPlain f
    → All IsByte (b'{' ∷ written c i d f t)
written-IsByte c f i t d pc pf =
    let text_t : Bytes = named b't' (format_int t ++ b'}' ∷ []) in
    let t1 : All IsByte (format_int t ++ b'}' ∷ []) =
      All-append IsByte (format_int t) (b'}' ∷ []) (int-IsByte t) (omega arith) in
    let t2 : All IsByte text_t = (omega arith, (omega arith, (omega arith, (omega arith, t1)))) in
    let text_f : Bytes = named b'f' (quoted f (b',' ∷ text_t)) in
    let f1 : All IsByte (f ++ b'"' ∷ b',' ∷ text_t) =
      All-append IsByte f (b'"' ∷ b',' ∷ text_t) (plain-IsByte f pf)
        (omega arith, (omega arith, t2)) in
    let f2 : All IsByte text_f =
      (omega arith, (omega arith, (omega arith, (omega arith, (omega arith, f1))))) in
    let text_d : Bytes = named b'd' (format_bool d ++ b',' ∷ text_f) in
    let d1 : All IsByte (format_bool d ++ b',' ∷ text_f) =
      All-append IsByte (format_bool d) (b',' ∷ text_f) (bool-IsByte d) (omega arith, f2) in
    let d2 : All IsByte text_d = (omega arith, (omega arith, (omega arith, (omega arith, d1)))) in
    let text_i : Bytes = named b'i' (format_int i ++ b',' ∷ text_d) in
    let i1 : All IsByte (format_int i ++ b',' ∷ text_d) =
      All-append IsByte (format_int i) (b',' ∷ text_d) (int-IsByte i) (omega arith, d2) in
    let i2 : All IsByte text_i = (omega arith, (omega arith, (omega arith, (omega arith, i1)))) in
    let text_c : Bytes = named b'c' (quoted c (b',' ∷ text_i)) in
    let c1 : All IsByte (c ++ b'"' ∷ b',' ∷ text_i) =
      All-append IsByte c (b'"' ∷ b',' ∷ text_i) (plain-IsByte c pc)
        (omega arith, (omega arith, i2)) in
    let c2 : All IsByte text_c =
      (omega arith, (omega arith, (omega arith, (omega arith, (omega arith, c1))))) in
    let v1 : All IsByte (format_int version ++ b',' ∷ text_c) =
      All-append IsByte (format_int version) (b',' ∷ text_c) (int-IsByte version)
        (omega arith, c2) in
    (omega arith, (omega arith, (omega arith, (omega arith, (omega arith, v1)))))
