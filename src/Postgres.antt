-- ===== src/Postgres.antt =====
-- The repository of go/internal/postgres: its statements, the database that runs them, and the
-- methods that choose a statement and read its rows.
pub mod Statements
pub mod Database
pub mod Repository
pub mod Snapshot
pub mod Order
pub mod Listing
pub mod Failures
pub mod QueryLog
pub mod QueryLogOrder
pub mod Pool
pub mod PoolLifetime
