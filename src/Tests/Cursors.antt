-- ===== src/Tests/Cursors.antt =====
-- The theorems on cursors at the cursor of the conformance vectors.
use concevoir_une_api_pagine.Prelude.{◌*◌, ◌≡◌, refl, arith, pos, ◌+ℤ◌, ◌-ℤ◌}
use concevoir_une_api_pagine.Errors.{ok}
use concevoir_une_api_pagine.Go.Calendar.{date_of_day}
use concevoir_une_api_pagine.Go.Time.{sub}
use concevoir_une_api_pagine.Cursor.{decode_at, encode}
use concevoir_une_api_pagine.Cursor.RoundTrip.{Encodable, stored, decode_at-encode}
use concevoir_une_api_pagine.Errors.Outcomes.{Holds}
use concevoir_une_api_pagine.Cursor.Authentic.{IsAccepted, IsRefusal, decode_at-Holds}
use concevoir_une_api_pagine.Tests.Data.{test_key, three_days}
use concevoir_une_api_pagine.Tests.Vectors.{vector_cursor}

pub vector_cursor-Encodable : Encodable vector_cursor
unfolding date_of_day ◌+ℤ◌
vector_cursor-Encodable = record {
  year = 2021;
  created = (refl, omega arith);
  row = omega arith;
  plain = (
    omega arith,
    (
      omega arith,
      (
        omega arith,
        (
          omega arith,
          (
            omega arith,
            (
              omega arith,
              (omega arith, (omega arith, (omega arith, (omega arith, (omega arith, tt))))),
            ),
          ),
        ),
      ),
    ),
  );
  issued = omega arith;
}

decode_at-encode_example :
    decode_at (encode vector_cursor test_key) test_key three_days (pos (1767225661 * 1_000_000_000))
    ≡ ok (stored vector_cursor)
unfolding sub ◌-ℤ◌ ◌+ℤ◌
decode_at-encode_example =
    decode_at-encode vector_cursor test_key three_days (pos (1767225661 * 1_000_000_000))
      vector_cursor-Encodable

decode_at-Holds_example :
    Holds
      (IsAccepted
        (encode vector_cursor test_key)
        test_key
        three_days
        (pos (1767225661 * 1_000_000_000)))
      (IsRefusal
        (encode vector_cursor test_key)
        test_key
        three_days
        (pos (1767225661 * 1_000_000_000)))
      (decode_at
        (encode vector_cursor test_key)
        test_key
        three_days
        (pos (1767225661 * 1_000_000_000)))
decode_at-Holds_example =
    decode_at-Holds (encode vector_cursor test_key) test_key three_days
      (pos (1767225661 * 1_000_000_000))
