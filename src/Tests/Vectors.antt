-- ===== src/Tests/Vectors.antt =====
-- Runs of the code on concrete inputs: the conformance vectors of spec/cursor-vectors.json.
use concevoir_une_api_pagine.Tests.Data.{test_key}
use concevoir_une_api_pagine.Prelude.{◌≡◌, refl, codes, pos, true, ◌*◌, ◌+ℤ◌, ◌-ℤ◌, wrap64}
use concevoir_une_api_pagine.Go.Strconv.{format_int}
use concevoir_une_api_pagine.Go.Base64
use concevoir_une_api_pagine.Go.Sha256.{sum256, hmac}
use concevoir_une_api_pagine.Go.Calendar.{date_of_day}
use concevoir_une_api_pagine.Go.Time
use concevoir_une_api_pagine.Go.Utf8.{runes, encode_rune, decode_rune}
use concevoir_une_api_pagine.Cursor.{fingerprint, filter_text, encode}
use concevoir_une_api_pagine.Cursor.Payload.{
  canonical_payload, built, write_json_string, write_runes, write_rune, Cursor,
}

running : Unit {0}
unfolding fingerprint filter_text encode canonical_payload built write_json_string write_runes
    write_rune format_int Base64.encode sum256 hmac Time.format_micro Time.year_text date_of_day
    ◌+ℤ◌ ◌-ℤ◌ wrap64 Time.unix_seconds runes decode_rune encode_rune
running = tt

fingerprint_vector :
    fingerprint
      (record { account_id = pos 42; status = codes "SETTLED"; sort = codes "created_at:asc" })
    ≡ codes "ysln4sD3H8g"
unfolding running
fingerprint_vector = refl

abbrev pub vector_cursor : Cursor
vector_cursor = record {
  created_at = pos (1620070360 * 1_000_000_000);
  id = pos 9999998;
  descending = true;
  fingerprint = codes "jlkDlANVKaQ";
  issued_at = pos (1767225600 * 1_000_000_000);
}

payload_vector :
    canonical_payload vector_cursor
    ≡ codes
        "{\"v\":1,\"c\":\"2021-05-03T19:32:40.000000Z\",\"i\":9999998,\"d\":true,\"f\":\"jlkDlANVKaQ\",\"t\":1767225600}"
unfolding running
payload_vector = refl

token_vector :
    encode vector_cursor test_key
    ≡ codes
        "Cx2NDdFZw7j48HeIZNFYvhd7JBksXIZuj8_okaPLgfl7InYiOjEsImMiOiIyMDIxLTA1LTAzVDE5OjMyOjQwLjAwMDAwMFoiLCJpIjo5OTk5OTk4LCJkIjp0cnVlLCJmIjoiamxrRGxBTlZLYVEiLCJ0IjoxNzY3MjI1NjAwfQ"
unfolding running
token_vector = refl
