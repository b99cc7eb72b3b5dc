-- ===== src/Lib.antt =====
-- Bulk transfers: an HTTP service that books a batch of credit transfers against an organisation's
-- account in PostgreSQL, once for each idempotency key, and lists an account's transactions.
--
-- Prelude is what every file shares: native numbers, lists, integers (ℤ over the native ℕ) and
-- bytes. Go is what the program uses of Go's language and library: int64 with its wrap-around,
-- strconv, base64, little-endian bytes, error values, the values in a context, and a function that
-- reads and writes outside state and may fail (Go/Action).
--
-- Model is internal/transfer/model: ParseAmountCents and FormatAmountCents (Model/Money), TotalCents
-- (Model/Transfer), EncodeCursor and DecodeCursor (Model/Pagination). A string that the program
-- walks is a list of bytes, one that it only compares or stores is a String.
--
-- Database is not code of the program. Schema holds the tables of migrations/*.up.sql as lists of
-- rows; Engine is pgx with the server behind it, a parameter with an abstract state; Laws states as
-- hypotheses what they document of begin, commit, rollback and of each statement that the program
-- builds, failures included. Program/Memory is an engine that has these laws.
--
-- Txn is Atomic of pkg/txn/txn.go, Store is internal/transfer/store with one function for each
-- of its methods, and Service is internal/transfer/service: Submit is SubmitBulkTransfer over an
-- abstract repository and transactor, split at the points where the Go code goes on after a
-- call, and History is ListTransactionHistory. Service/Contract holds the laws that the service
-- relies on (filled by Store/Laws and Txn/Laws), Service/Outcome the specification of a
-- submission as a relation on tables, and Service/Once, Batches, Funds and Verdict what follows
-- from it for any sequence of submissions. Service/Task is the same function as a tree of the
-- calls that it makes of the repository. Program puts the service on the store and the
-- transaction as cmd/server does, Program/Runs follows any number of submissions on it, and
-- Program/Retry and Program/Listing follow a request from the handler to the tables.
--
-- Concurrency is any number of submissions at the same time, each in a session of PostgreSQL:
-- Session has one stage for each call of Service/Task (Calls), with what is read and locked by
-- then, System interleaves the sessions and lets each end at any time, Known and Invariant say what
-- a session's locks keep true for it, and Serial and Progress what follows.
--
-- Server is internal/transfer/server: both handlers, the conversion of a request, the tags of
-- its fields (Tags), the validation of amounts and what is counted. encoding/json, the
-- validator, SHA-256 and the format of a time are parameters.
--
-- Platform is what surrounds a request and a query: the recorder of pkg/server (Recorder), its
-- two middlewares (Middleware), the fan-out log handler of pkg/observability (Fanout), the
-- labels and calls of the query tracer of pkg/database (Tracer, Query), and the instruments of
-- all packages (Instruments). Instrumented code acts on a World: the state behind it, readings
-- of a clock, and the list of what was emitted to OpenTelemetry and slog. Middleware/Gauge
-- interleaves the lists of requests that are served side by side. Txn/Observed is Atomic with
-- its telemetry (Log and Status say what it leaves, Erasure that it does nothing else),
-- Database/Traced the engine as pgx documents that it calls the tracer, with the context and the
-- span that its caller passes (Sent compares what is emitted with what is sent), Store/Observed
-- the store with its histogram, Service/Observed the submission with the outcomes that it
-- records, Server/Http the mux and its middlewares. Program/Observed is a submission with this
-- telemetry and Program/Http the program behind its HTTP server.
--
-- Lifecycle is the process: cmd/server/main.go with pkg/observability/telemetry.go (Telemetry) and
-- the rest of pkg/database and pkg/server (Startup, HttpServer), as the tree of the calls that it
-- makes of its libraries (Flow), each of which may fail; Watch states which calls are in place, and
-- Release follows every path. Serve is RunWithContext of pkg/server/server.go with the goroutine
-- that it starts, as a step relation. Seed is seed/seed.go, LoadTest is cmd/loadtestgen, and TestUtil
-- is pkg/testutil, with the paths of Go's library in Go/Filepath.
--
-- Fuel and bounds: the padding of a fraction runs at most two rounds and gets two; the digits of a
-- number n are written in at most n rounds and get n; a walk over the pages of a history gets one
-- round more than there are rows, and the theorem on it shows that this is enough. Amounts, totals
-- and cursors are int64 with the wrap-around written out; PostgreSQL's BIGINT does not wrap, an
-- overflow there is one of the failures that a statement may have.
--
-- Not modelled: the kinds of spans, the samplers and resources of OpenTelemetry's providers,
-- what net/http does with the timeouts that it is given and how it matches a pattern, and the
-- generated mocks. In Concurrency a statement waits by not being possible yet: a lock that is
-- asked for while another session holds it, and the errors that PostgreSQL returns instead, are
-- the end of a session.
pub mod Prelude
pub mod Go
pub mod Model
pub mod Database
pub mod Txn
pub mod Store
pub mod Service
pub mod Server
pub mod Program
pub mod Tests
pub mod Concurrency
pub mod Lifecycle
pub mod LoadTest
pub mod Platform
pub mod Seed
pub mod TestUtil
