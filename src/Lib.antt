-- ===== src/Lib.antt =====
-- Verification of tinyobs, a metrics server in Go: clients send samples, which the server checks
-- and stores, compacts to coarser samples as they age, and answers queries over.
--
-- The parts, and how they interact:
-- * Ingestion (pkg/ingest). `HandleIngest` decodes a request, asks the storage checker for room,
--   validates each sample (limits.go), asks the cardinality tracker for each series
--   (cardinality.go), writes the samples to the storage and records them in the tracker.
--   Ingest/Limits, Ingest/Cardinality and Ingest/Handler model them: `validate_metric`, `check`,
--   `record_metric`, `cleanup_old_series`, `stats`, `handle_ingest`.
--   dashboard.go groups and thins out the samples of a metric: Ingest/Dashboard and its child
--   Handlers. Ingest/Handler/Queries has the handlers that read, and Ingest/Handler/Reading what a
--   query finds behind an ingestion. websocket.go is a hub that sends to clients: Ingest/Websocket is a step relation on
--   its map, its channels and the position of `Run`.
-- * Export and import (pkg/export). import.go writes the valid samples of a backup to the storage
--   in batches: Export. export.go writes the metrics of a range as JSON or CSV: Export/Exporter;
--   handler.go is Export/Handler. Export/Restore composes an export and an import.
-- * Storage (pkg/storage). interface.go names the calls of a backend; the record `StorageOps` has
--   those that the other parts make. Storage/Memory models the backend in memory,
--   pkg/storage/memory/memory.go: `write`, `query`, `delete`, `stats`, and `memory_ops`, which
--   fills `StorageOps`. Storage/Badger models pkg/storage/badger/badger.go: the keys
--   (Storage/Badger/Keys), `write` and `delete` (Storage/Badger), `query` (Storage/Badger/Reads),
--   `stats` (Storage/Badger/Statistics) and the options of `New` (Storage/Badger/Options). BadgerDB,
--   encoding/json and xxhash are a parameter, the record `Library`; Storage/Badger/Laws says what
--   the code relies on of them: a sorted map of keys, prefix scans, and that JSON gives back what it was
--   given, if it is valid UTF-8.
-- * Compaction (pkg/compaction). compactor.go groups raw samples into five-minute aggregates and
--   those into hours, writes them to the storage, and deletes what they stand for: `compact_5m`,
--   `compact_1h`, `compact_and_cleanup` in Compaction/Compactor. types.go stores an aggregate as a
--   sample with special labels: `to_metric` and `from_metric` in Compaction/Aggregate.
--   `calculate_percentile` is in Compaction/Percentile.
-- * Queries (pkg/query). lexer.go cuts a text into tokens (Query/Reader, Query/Keywords,
--   Query/Lexer), parser.go builds an expression by recursive descent (Query/Parser and its
--   children, Query/Duration), types.go has the tokens and the nodes (Query/Tokens).
--   executor.go evaluates an expression over a storage: series, keys and groups are in
--   Query/Executor/Series, aggregation in Aggregation, `rate` and `increase` in Rate, and
--   `execute` with all nodes in Evaluation; handler.go parses and executes a request's text:
--   Query/Handler. The configurations and the
--   result are in Query/Executor/Evaluation/Results. Sorting, Extremes and the other children of
--   Evaluation have proofs; Query/WellFormed
--   has the syntax of the expressions that the parser builds.
-- * The client library (pkg/sdk). Collectors keep values by label combination and send each new
--   value to the client (metrics/counter.go, gauge.go: Sdk/Collectors; histogram.go:
--   Sdk/Histogram; their labels: Sdk/Labels), which adds the service and hands it to the batcher
--   (client.go: Sdk/Client). batch/batch.go collects metrics and sends them from goroutines:
--   Sdk/Batcher is a step relation on the shared state, one rule for what a goroutine does between
--   two points where others may run. transport/transport.go posts them (Sdk/Transport), and
--   Sdk/Transport/Delivery runs it against `handle_ingest`; runtime/collector.go is Sdk/Runtime, and
--   httpx/middleware.go is Sdk/Middleware and Sdk/Paths.
-- * The server (pkg/server, cmd/server). tasks.go runs the compaction with retries and broadcasts
--   recent metrics (Server/Tasks and its child Broadcasting), monitor/ keeps its health and the
--   usage of the storage (Server/Monitor), which filesize_unix.go and filesize_windows.go compute
--   (Server/Monitor/Sizes), handlers.go has the health check, the routes and the CORS
--   middleware (Server/Handlers), setup.go the settings (Server/Setup). Server/Shutdown is a step
--   relation on the goroutines that cmd/server/main.go starts, and stops at its end. The answers of
--   pkg/httpx/response.go are in Httpx.
-- * The example (cmd/example): the query of its page, its traffic and a handler, in Example.
-- Base has the shared names and lemmas, Metric the samples of pkg/sdk/metrics/types.go, Float the
-- operations on float64, and Tests runs at concrete inputs.
--
-- State is passed explicitly: a method that changes its receiver returns the new one. A map of Go
-- is an association list `Dict` with `lookup`, `insert` and `delete`; a range over it takes the
-- list's order, and no theorem fixes that order. A text is the list of its bytes. An error is a
-- result without its message. A time is the count of nanoseconds since Go's zero Time; what reads
-- the clock takes the time as an argument. A uint64 counter and a time.Duration wrap at 2^64.
--
-- Float64 is a parameter: a type `V` and the record `FloatOps` of operations of the language and of
-- math, strconv and fmt. A theorem that relies on one of them names what it relies on: that `<` is
-- a strict order, that the text of a number is read back. The text of a time (RFC 3339), JSON and
-- the HTTP client are parameters too; what is relied on of JSON is that it gives back what it was
-- given, with an empty map of labels as nil, where all texts are valid UTF-8.
--
-- Bounds and fuel. The recursion of the parser and its loops take fuel; `parse` gives three more
-- than the bytes of the text, which is enough as each token but the last takes at least one byte.
-- A loop of the lexer takes two more than the bytes of the text, as each round reads one more.
-- A slice out of bounds is the outcome `panic`, an index out of range in the evaluation of a query
-- `panicked`. The loop of a number literal in a query takes fuel
-- that is given to `execute`; a range of n nanoseconds needs no more than n + 2 rounds with a
-- positive step. The batches of an import and the buckets of a thinned-out series take the length
-- of the list as fuel, as each takes at least one item. All other recursion is structural.
--
-- Contexts. A call of the Badger backend takes what it finds of its context: expired at the start,
-- cancelled at a check, or done before the answer; and whether its transaction commits.
--
-- Not modelled: contexts, timeouts and locks but for those named above; logs; HTTP headers but for
-- those of CORS, and the texts of answers; the websocket's own protocol; the matching of the router
-- and the files of the dashboard; the tickers, and the garbage collection of Badger, which is one
-- call of the library; the example's page, and its
-- answers, which are fixed texts.
pub mod Base
pub mod Float
pub mod Metric
pub mod Storage
pub mod Ingest
pub mod Compaction
pub mod Query
pub mod Sdk
pub mod Export
pub mod Server
pub mod Httpx
pub mod Example
mod Tests
