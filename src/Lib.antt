-- ===== src/Lib.antt =====
-- The transaction listing service of this repository, its Go implementation (go/), as a model with
-- theorems. The service answers three endpoints over one PostgreSQL table: GET /v1/transactions, a
-- keyset walk with opaque signed cursors; GET /v1/transactions/offset, the same rows by rank; and
-- GET /v1/transactions/total, a count or an estimate.
--
-- A request goes through these parts, each with its file here:
--
-- * Handler (go/internal/handler): Requests.antt has the request structs and the methods
--   UnmarshalParam and value of requests.go; Replies.antt the envelope, statusFor and respondError
--   of errors.go; Handler.antt the handlers list, listByOffset and total of http_transaction.go with
--   their responses, and health and ginMode of http.go; Client.antt a client that follows page.next
--   over HTTP. A handler is a function of the service and of gin's context, and returns the response
--   with the records that it logs. Routing.antt has NewHTTPServer, setupRoutes, requestLogger and
--   ServeHTTP of http.go; Serving.antt Run, as steps of its two goroutines in any order. Children
--   with proofs: Binding, Bounds, Failures, Answers, Walk, Printed, QueryText, Served, Journey, and
--   Serving's Invariant, Outcome and Ending.
-- * Service (go/internal/service): Service.antt has List, ListByOffset, Total and trim of
--   transactions.go. The clock is two readings that a call takes as an argument. Client.antt is the
--   client of spec/contract.md that follows page.next, request by request. Children with proofs:
--   Paging, Walk, Pages, Fetched, Mismatch, Offsets, Changes, ChangingWalk, Ending,
--   Drift.
-- * Cursor (go/pkg/cursor/cursor.go): Cursor.antt has Fingerprint, Encode, Decode and DecodeAt;
--   Payload.antt canonicalPayload and writeJSONString; Wire.antt the struct wirePayload and its
--   unmarshalling. Children with proofs: Written, Unmarshalled, PlainText,
--   RoundTrip, Authentic, FilterText.
-- * Postgres (go/internal/postgres): Statements.antt has the statements of queries.go, each as its
--   clauses; Repository.antt the methods of transactions.go; QueryLog.antt the Log of query_log.go;
--   Pool.antt NewPool of pool.go, with what it opens and closes. Children with proofs: Order, Listing,
--   Failures, QueryLogOrder, PoolLifetime.
-- * Domain.antt (go/internal/domain): entities, sort values and limits. Errors.antt: the sentinel
--   errors of go/pkg/cursor and go/internal/domain, wrapping, errors.Is, and what a call returns: a
--   value, an error or a panic.
-- * Config.antt (go/internal/config/config.go): the settings, Addr, DSN and validate; Load.antt
--   has Load, and Environment.antt what it makes of the name of a variable. Children with proofs:
--   Validation, Connection.
-- * Logger.antt (go/pkg/logger): the levels; Sinks.antt has both loggers and their constructors, with
--   what they write. Children with proofs: Thresholds, Emission.
-- * Program.antt (go/main.go): run and main, as what they acquire, serve, log and give back in their
--   order. Child with proofs: Lifetime.
-- * Testutil (go/internal/testutil): Root.antt has RepositoryRoot, Containers.antt start and
--   RunWithPostgres of postgres.go, and Seed.antt the rows of seed.go. Children with proofs: Released,
--   SeedTables.
--
-- Go/ has the standard library as far as the program uses it, as executable functions: strconv,
-- encoding/base64, crypto/sha256 and crypto/hmac, time, unicode/utf8, encoding/json. Tests/Vectors
-- runs them on the vectors of spec/cursor-vectors.json. Prelude/ has the shared notation and lemmas:
-- numbers are native, an int64 is an integer with its wrap-around written out (wrap64), a text is the
-- list of its bytes, an instant is its nanoseconds since 1970.
--
-- Code that is not of the repository is a parameter. Database.antt has the database with its driver
-- as a record of calls; Serves says that it answers each statement from one snapshot of the table as
-- PostgreSQL documents SELECT, and IsDriver that every call returns, with a value or with an error
-- that is none of the program's own. Snapshot.antt is a database for which both hold. gin's
-- ShouldBindQuery is a field of Context, and Binds says that it assigns the fields in order. The rows
-- of the table have distinct ids and instants of whole microseconds in the years 0 to 9999 (IsTable).
--
-- What the answers are compared with is written out beside the theorems and not taken from the code:
-- the statuses, codes, paths and order of spec/contract.md (contract_status, contract_code and
-- IsWarned in Failures, contract_path in Served, is_newest_first in Order, documented_rows in the
-- Client of Handler) and the records of the log.
--
-- The other libraries are parameters in the same way: koanf (Koanf, with IsKoanf for what an
-- environment overrides), pgxpool (Pgxpool), gin's router (Router), the server of net/http (NetHttp,
-- with IsNetHttp for what ListenAndServe and Shutdown return and when), Docker, whose Run
-- may return a started container with an error, and the file system of the test utilities. Names of environment variables are ASCII texts, and the path that Load reads is
-- given to koanf as its directory and its file name.
--
-- Loops are structural, that of RepositoryRoot on the names of the path; the reading of a number's
-- digits has the fuel of the number itself, which is one round a digit at least. A walk is bounded by
-- the list of its requests.
--
-- Not modelled: the JSON that gin writes of a response and the text that slog writes of a record,
-- cancellation of a request by its context, the parsing of the program's flag, the mocks, and the
-- Spring Boot implementation.
pub mod Prelude
pub mod Go
pub mod Errors
pub mod Cursor
pub mod Domain
pub mod Postgres
pub mod Service
pub mod Logger
pub mod Config
pub mod Handler
pub mod Program
pub mod Testutil
mod Tests
