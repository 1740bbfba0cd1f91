-- ===== src/Tests/Settings.antt =====
-- The theorems on settings at a small configuration.
use concevoir_une_api_pagine.Prelude.{
  [], ◌∷◌, ◌++◌, true, Bytes, arith, ◌≡◌, ◌↔◌, codes, pos, refl, ◌*◌, ◌+ℤ◌, ◌-ℤ◌, text_eq,
}
use concevoir_une_api_pagine.Errors.{ok, err, sentinel, cursor_expired}
use concevoir_une_api_pagine.Go.Time.{sub}
use concevoir_une_api_pagine.Cursor.{encode, decode_at}
use concevoir_une_api_pagine.Config.{Application, PostgresSettings, dsn, ssl_mode_of, validate}
use concevoir_une_api_pagine.Config.Connection.{IsSpaceless, dsn-injective}
use concevoir_une_api_pagine.Config.Validation.{IsUsable, validate-IsUsable, decode_at-validated}
use concevoir_une_api_pagine.Logger.{
  LoggingConfig, level_warn, level_error, slog_error, is_enabled, slog_number, slog_level,
  parse_level, text_value, number_value,
}
use concevoir_une_api_pagine.Logger.Sinks.{Fields, json_format, text_format, new, enabled, log}
use concevoir_une_api_pagine.Logger.Emission.{derived, log-derived}
use concevoir_une_api_pagine.Logger.Thresholds.{configured, log-level_name}
use concevoir_une_api_pagine.Tests.Data.{test_key, three_days}
use concevoir_une_api_pagine.Tests.Vectors.{vector_cursor}
use concevoir_une_api_pagine.Tests.Cursors.{vector_cursor-Encodable}

abbrev pub settings : Application
settings = record {
  server = record {
    host = [];
    port = pos 8080;
    mode = codes "release";
    shutdown_timeout = pos 10_000_000_000;
  };
  postgres = record {
    host = codes "localhost";
    port = pos 5432;
    database = codes "pagination";
    user = codes "demo";
    password = codes "demo";
    ssl_mode = [];
    min_conns = pos 1;
    max_conns = pos 4;
  };
  logging = record { level = codes "info"; format = codes "text" };
  cursor = record { key = test_key; ttl = three_days };
}

validate-IsUsable_example : (validate settings ≡ ok tt) ↔ IsUsable settings
validate-IsUsable_example = validate-IsUsable settings

pub settings-validated : validate settings ≡ ok tt
unfolding validate text_eq
settings-validated = refl

decode_at-validated_example :
    decode_at (encode vector_cursor test_key) test_key three_days (pos (1777225600 * 1_000_000_000))
    ≡ err (sentinel cursor_expired)
unfolding sub ◌-ℤ◌ ◌+ℤ◌
decode_at-validated_example =
    decode_at-validated settings vector_cursor (pos (1777225600 * 1_000_000_000)) settings-validated
      vector_cursor-Encodable refl

abbrev component_field : Fields
component_field = (codes "component", text_value (codes "http")) ∷ []

log-level_name_example :
    let l = new (configured (codes "warn")) in
    (enabled l level_error ≡ true)
    × (log l level_error (codes "failed") component_field
        ≡ record {
          format = text_format;
          level = slog_error;
          message = codes "failed";
          attributes = component_field;
        }
          ∷ [])
unfolding slog_level
log-level_name_example = log-level_name level_warn level_error (codes "failed") component_field

-- Two calls of `With` on a logger at level warn that writes JSON.
abbrev json_warn : LoggingConfig
json_warn = record { level = codes "warn"; format = codes "json" }

abbrev request_field : Fields
request_field = (codes "request", number_value (pos 7)) ∷ []

log-derived_example :
    let l = derived (new json_warn) (component_field ∷ request_field ∷ []) in
    (enabled l level_error ≡ true)
    × (log l level_error (codes "failed") []
        ≡ record {
          format = json_format;
          level = slog_error;
          message = codes "failed";
          attributes = component_field ++ request_field;
        }
          ∷ [])
unfolding is_enabled slog_number slog_level parse_level text_eq
log-derived_example =
    log-derived json_warn (component_field ∷ request_field ∷ []) level_error (codes "failed") []

-- The default of the ssl mode, written out.
abbrev disabled : PostgresSettings
disabled = record settings.postgres { ssl_mode = codes "disable" }

settings-IsSpaceless : IsSpaceless settings.postgres
settings-IsSpaceless = record {
  host = omega arith;
  port = omega arith;
  user = omega arith;
  password = omega arith;
  database = omega arith;
}

disabled-IsSpaceless : IsSpaceless disabled
disabled-IsSpaceless = record {
  host = omega arith;
  port = omega arith;
  user = omega arith;
  password = omega arith;
  database = omega arith;
}

dsn-injective_example :
    (settings.postgres.host ≡ disabled.host)
    × (settings.postgres.port ≡ disabled.port)
    × (settings.postgres.user ≡ disabled.user)
    × (settings.postgres.password ≡ disabled.password)
    × (settings.postgres.database ≡ disabled.database)
    × (ssl_mode_of settings.postgres ≡ ssl_mode_of disabled)
dsn-injective_example =
    dsn-injective settings.postgres disabled settings-IsSpaceless disabled-IsSpaceless
      (unfold dsn ssl_mode_of text_eq in refl)

-- A password with a space is read as further settings: it has the string of another database's name.
abbrev spaced : Bytes → Bytes → PostgresSettings
spaced password database = record {
  host = codes "localhost";
  port = pos 5432;
  database = database;
  user = codes "demo";
  password = password;
  ssl_mode = codes "disable";
  min_conns = pos 1;
  max_conns = pos 4;
}

dsn_of_spaced :
    dsn (spaced (codes "demo dbname=pagination") (codes "other"))
    ≡ dsn (spaced (codes "demo") (codes "pagination dbname=other"))
unfolding dsn ssl_mode_of text_eq
dsn_of_spaced = refl
