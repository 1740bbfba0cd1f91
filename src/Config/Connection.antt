-- ===== src/Config/Connection.antt =====
-- What the connection string of `Postgres.DSN` tells of the settings that it is made of.
use concevoir_une_api_pagine.Prelude.{
  ℕ, Bytes, codes, ℤ, InInt64, All, All-map, ◌≡◌, ◌≢◌, ◌⊎◌, inl, inr, sym, ap, ◌∙◌, some, arith,
}
use concevoir_une_api_pagine.Prelude.Cuts.{cut_front, cut_at}
use concevoir_une_api_pagine.Go.Strconv.{format_int, parse_int}
use concevoir_une_api_pagine.Go.Strconv.RoundTrip.{
  parse_int-format_int, format_int-IsDigit, IsDigit,
}
use concevoir_une_api_pagine.Config.{PostgresSettings, dsn, ssl_mode_of}

abbrev pub HasNoSpace : Bytes → Type 0
HasNoSpace s = All (λ c. c ≢ b' ') s

-- Settings with no space in a text.
pub record IsSpaceless (p : PostgresSettings) : Type 0 where
  pub host : HasNoSpace p.host
  pub port : InInt64 p.port
  pub user : HasNoSpace p.user
  pub password : HasNoSpace p.password
  pub database : HasNoSpace p.database

format_int-HasNoSpace : (z : ℤ) → HasNoSpace (format_int z)
format_int-HasNoSpace z = All-map (format_int z) plain (format_int-IsDigit z)
  where
    plain : (c : ℕ) → IsDigit c ⊎ (c ≡ b'-') → c ≢ b' '
    plain c (inl d) e = absurd (omega arith)
    plain c (inr d) e = absurd (omega arith)

format_int-injective : (x y : ℤ) → InInt64 x → InInt64 y → format_int x ≡ format_int y → x ≡ y
format_int-injective x y h k e =
    let read : some x ≡ some y =
      sym (parse_int-format_int x h) ∙ ap parse_int e ∙ parse_int-format_int y k in
    cc read

-- Two settings with no space in their host, user, password and database, and with a port of 64 bits
-- each, that have one connection string, have the same host, port, user, password and database, and
-- the same ssl mode once it is defaulted.
pub dsn-injective :
    (p q : PostgresSettings)
    → IsSpaceless p
    → IsSpaceless q
    → dsn p ≡ dsn q
    → (p.host ≡ q.host)
      × (p.port ≡ q.port)
      × (p.user ≡ q.user)
      × (p.password ≡ q.password)
      × (p.database ≡ q.database)
      × (ssl_mode_of p ≡ ssl_mode_of q)
unfolding dsn
dsn-injective p q h k e =
    let (host, e1) =
      cut_at b' ' p.host q.host _ _ h.host k.host (cut_front (codes "host=") _ _ e) in
    let (port, e2) =
      cut_at b' ' (format_int p.port) (format_int q.port) _ _ (format_int-HasNoSpace p.port)
        (format_int-HasNoSpace q.port) (cut_front (codes "port=") _ _ e1) in
    let (user, e3) =
      cut_at b' ' p.user q.user _ _ h.user k.user (cut_front (codes "user=") _ _ e2) in
    let (password, e4) =
      cut_at b' ' p.password q.password _ _ h.password k.password
        (cut_front (codes "password=") _ _ e3) in
    let (database, e5) =
      cut_at b' ' p.database q.database _ _ h.database k.database
        (cut_front (codes "dbname=") _ _ e4) in
    (
      host,
      format_int-injective p.port q.port h.port k.port port,
      user,
      password,
      database,
      cut_front (codes "sslmode=") _ _ e5,
    )
