-- ===== src/Testutil.antt =====
-- The test utilities of go/internal/testutil: the rows of seed.go, and the container of postgres.go.
pub mod Seed
pub mod SeedTables
pub mod Root
pub mod Containers
pub mod Released
