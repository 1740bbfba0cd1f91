-- ===== src/Tests/QueryLogs.antt =====
-- The theorem on the query log at two entries.
use concevoir_une_api_pagine.Prelude.{[], ◌∷◌, ◌≡◌, refl, codes, pos, ap, arith, length}
use mathlib.Core.List.{Permᴰ}
use concevoir_une_api_pagine.Logger.{text_value, number_value}
use concevoir_une_api_pagine.Postgres.QueryLog.{TraceData, trace_info, log_query}
use concevoir_une_api_pagine.Postgres.QueryLogOrder.{HasDistinctKeys, log_query-Perm}

abbrev sql_first : TraceData
sql_first =
    (codes "sql", text_value (codes "SELECT 1")) ∷ (codes "duration", number_value (pos 7)) ∷ []

abbrev duration_first : TraceData
duration_first =
    (codes "duration", number_value (pos 7)) ∷ (codes "sql", text_value (codes "SELECT 1")) ∷ []

sql_first-HasDistinctKeys : HasDistinctKeys sql_first
sql_first-HasDistinctKeys = ((λ e. absurd (omega (arith, ap length e)), tt), (tt, tt))

log_query-Perm_example :
    log_query trace_info (codes "Query") sql_first
    ≡ log_query trace_info (codes "Query") duration_first
log_query-Perm_example =
    log_query-Perm trace_info (codes "Query") sql_first duration_first sql_first-HasDistinctKeys
      (Permᴰ.swap refl refl)
