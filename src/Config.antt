-- ===== src/Config.antt =====
-- The settings of go/internal/config/config.go, what is made of them, and their validation.
pub mod Validation
pub mod Environment
pub mod Load
pub mod Connection
use concevoir_une_api_pagine.Prelude.{
  ℕ, [], ◌∷◌, ◌++◌, List, Bool, ◌||◌, Bytes, codes, text_eq, ◌==◌, if◌then◌else◌, ℤ, pos, ltb_ℤ,
  false, not,
}
use concevoir_une_api_pagine.Errors.{Result, ok, err, other}
use concevoir_une_api_pagine.Go.Strconv.{format_int}
use concevoir_une_api_pagine.Go.Time.{Duration}
use concevoir_une_api_pagine.Go.DurationText.{format_duration}
use concevoir_une_api_pagine.Logger.{LoggingConfig}

pub record Server : Type 0 where
  pub host : Bytes
  pub port : ℤ
  pub mode : Bytes
  pub shutdown_timeout : Duration

pub record PostgresSettings : Type 0 where
  pub host : Bytes
  pub port : ℤ
  pub database : Bytes
  pub user : Bytes
  pub password : Bytes
  pub ssl_mode : Bytes
  pub min_conns : ℤ
  pub max_conns : ℤ

pub record CursorSettings : Type 0 where
  pub key : Bytes
  pub ttl : Duration

pub record Application : Type 0 where
  pub server : Server
  pub postgres : PostgresSettings
  pub logging : LoggingConfig
  pub cursor : CursorSettings

-- A byte stands in a text.
abbrev pub contains : Bytes → ℕ → Bool
contains [] c = false
contains (x ∷ s) c = x == c || contains s c

-- `net.JoinHostPort`: a host with a colon or a zone stands in brackets.
unfoldable pub join_host_port : Bytes → Bytes → Bytes
join_host_port host port =
    if contains host b':' || contains host b'%'
    then b'[' ∷ (host ++ (codes "]:" ++ port))
    else host ++ (b':' ∷ port)

-- `Server.Addr`
unfoldable pub addr : Server → Bytes
addr s = join_host_port s.host (format_int s.port)

-- `Postgres.sslMode`
unfoldable pub ssl_mode_of : PostgresSettings → Bytes
ssl_mode_of p = if text_eq p.ssl_mode [] then codes "disable" else p.ssl_mode

-- `Postgres.DSN`
unfoldable pub dsn : PostgresSettings → Bytes
dsn p =
    codes "host="
    ++ (p.host
        ++ (codes " port="
            ++ (format_int p.port
                ++ (codes " user="
                    ++ (p.user
                        ++ (codes " password="
                            ++ (p.password
                                ++ (codes " dbname="
                                    ++ (p.database ++ (codes " sslmode=" ++ ssl_mode_of p))))))))))

unfoldable pub validate : Application → Result (Unit {0})
validate a =
    if text_eq a.postgres.host []
    then err (other (codes "postgres.host is required"))
    else if text_eq a.postgres.database []
    then err (other (codes "postgres.database is required"))
    else if ltb_ℤ a.postgres.max_conns a.postgres.min_conns
    then err (
        other (
          codes "postgres.max_conns ("
          ++ (format_int a.postgres.max_conns
              ++ (codes ") is lower than postgres.min_conns ("
                  ++ (format_int a.postgres.min_conns ++ codes ")")))))
    else if not (ltb_ℤ (pos 0) a.server.port)
    then err (other (codes "server.port must be positive, got " ++ format_int a.server.port))
    else if text_eq a.cursor.key []
    then err (other (codes "cursor.key is required"))
    else if not (ltb_ℤ (pos 0) a.cursor.ttl)
    then err (other (codes "cursor.ttl must be positive, got " ++ format_duration a.cursor.ttl))
    else ok tt
