-- ===== src/Lib.antt =====
-- StratumStats: a collector of Stratum pool measurements, the endpoint that receives block samples from
-- regional probes, and the file in which observations are kept.
--
-- The program's parts. The collector (internal/probe) watches pools, verifies their jobs and records, for
-- each block, when each connection announced it. A regional probe forwards its samples to the endpoint
-- (internal/ingest), which authenticates the request, checks the envelope, derives one observation and
-- appends it to a JSONL file (internal/store). Both sides analyze coinbase transactions with the same code.
-- Reports (internal/report) are computed from the observations of the last 30 days: one for each endpoint
-- of a pool, globally and for a set of regions. The web dashboard (internal/web) shows them.
--
-- Files and code.
--   Base            shared helpers: lists over the native numbers, byte strings, association lists for
--                   Go's maps, results with an error, hex and decimal text.
--   Model           internal/model: the records, the regions (regions.go), the continents (location.go),
--                   the redaction of the worker's outputs and the fields of old records (observation_json.go).
--   Probe           internal/probe: Reader, CompactSize, Script and Coinbase are coinbase.go
--                   (AnalyzeCoinbaseSource is Source), Job is jobverify.go, Window and Block are the notify
--                   window and the block windows of collector.go, Retry is reconnect.go.
--   Ingest          internal/ingest: Limit is limit.go; Replay, Target, Envelope and Receiver are the replay
--                   guard, the eligible endpoints, validateBlockEnvelope and ServeHTTP of ingest.go.
--   Store           internal/store/jsonl.go: loading and compaction, over a file and a temporary file.
--   Report          internal/report: Keys and Prepare are the keys, retention, deduplication and the
--                   expansion of block samples; Accumulator and Cohort what is counted for an endpoint, and
--                   which regional cohorts are left out; Compute and Compute/Visit are computePrepared, its
--                   loop, Prepare and ComputeVantages; Metrics is the statistics, Evidence and Build are
--                   build, Timing and Score protocol.go and score.go. Model/Reports has
--                   the records that they fill.
--   Web             internal/web: Scheduler is dashboardRefreshScheduler as a transition system, whose steps
--                   are what happens under its mutex; Cache is snapshotCache, Status buildVantageStatuses
--                   (both in regional.go) and Page buildDashboardPage (dashboard.go).
--   Examples        tests, and the theorems applied at concrete inputs.
--
-- How code becomes definitions. A function that returns an error gives an Outcome; a method that changes
-- its receiver takes and gives its state; a loop is recursion over the list or the count that it runs
-- through, so no fuel is needed, but for the digits of a number, which are given as many steps as the value
-- can have digits (16 for 64 bits in hexadecimal).
-- A uint64 is a native number, with the wrap-around or the guard of the code written out. A time is a number
-- of nanoseconds since Go's zero time. A map that the code ranges over is an association list, and the order
-- of the range is a parameter `visit` or a permutation in the theorem; the reports are computed in the
-- order of the list. Accumulators that Go reaches through pointers are the values of a list, and a change is
-- put back under the key at which the accumulator was found.
--
-- Parameters. SHA-256 and HMAC, float64 arithmetic (Base/Floats), gzip and encoding/json, the media type
-- parser, bufio's scanner, and which system calls succeed. Theorems hold of every such parameter, or name
-- what they need of it (IsFaithful in Store/Compaction, TellsWorker in Probe/Coinbase/Digest, IsOrder in
-- Report/Metrics/Rank).
--
-- Not modelled: sockets, goroutines and the messages of a mining session (watchSession of collector.go), the
-- ticker of Collect, RandomIdentity, BuildProbeConfig, the routes, entity tags
-- and templates of the web server, and the service around it (internal/app). The rounding of float64 is not
-- modelled: the limiter counts tokens in billionths of one, for a whole rate.
mod Base
pub mod Model
pub mod Probe
pub mod Ingest
pub mod Store
pub mod Report
pub mod Web
mod Examples
