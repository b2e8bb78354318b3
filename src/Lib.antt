-- ===== src/Lib.antt =====
-- Crankfire: a load generator. A run paces requests along load patterns, retries them, shares their
-- clients and measures them; sets of runs are scheduled, executed in stages and judged by thresholds.
-- This library models the parts of the program that decide, and proves what makes them correct.
--
-- The parts, and where they are modelled:
--   Runner/Pattern   internal/runner/pattern_plan.go: `compilePatternPlan` is `compile_pattern_plan`, and
--                    `rateAt`, `maxBurst` and `totalDuration` read a plan. Pieces reads the load
--                    patterns directly, Schedule relates the two; Peak is about the highest rate.
--   Runner/Options   internal/runner/options.go: `Options.normalize` is `normalize`.
--   Runner/Retry     internal/runner/retry.go: `retryRequester.Do` is `retry_do`, `WithRetry` is
--                    `with_retry`, `WithLogging` is `with_logging`.
--   Runner/Arrival   internal/runner/arrival.go and `runPatternController` of runner.go: the pacing, and
--                    the controller that moves the rate along a plan.
--   Runner/Run       internal/runner/runner.go: `Runner.Run` as a step relation of the scheduler, the
--                    workers and the caller; `Reach` is a run with its moves. Progress is about
--                    runs that can go on, Drain about how they end.
--   Pool             internal/pool/pool.go: `Get`, `Put`, `RetryStaleConnection` and `Close` on explicit
--                    state, and histories of calls in Ownership.
--   Scheduler        internal/scheduler/manager.go: `AddOrReplace`, `Remove`, `Reload`, and `fire`, with its
--                    context, in Flight.
--   Sets             internal/store/sets.go and store.go: the data of sets and of their runs.
--   Sets/Thresholds  internal/setrunner/threshold.go; Sets/Aggregate, Sets/Items and Sets/Run
--                    internal/setrunner/runner.go; Sets/Compare compare.go; Sets/Diff diff.go;
--                    Sets/Overrides overrides.go.
--   Thresholds       internal/threshold/threshold.go: `Evaluate` and `compareValues`; Thresholds/Parsing is
--                    `Parse` and `ParseMultiple`, with the grammar of thresholds in Grammar.
--   Endpoints        internal/cli/endpoints.go: `newEndpointSelector`, `pickTemplate` and the requester
--                    that chooses; Weights reads the choice as a list with weights. Endpoints/Template is
--                    `buildEndpointTemplate`, with `NewRequestBuilder` and `NewBodySource` of
--                    internal/httpclient; Endpoints/Template/Accepted is about valid configurations.
--   Extraction       internal/extractor: `ExtractAll` over the parameters gjson and regexp.
--   Variables        internal/variables/store.go: the store of a worker.
--   Feeder           internal/feeder/json.go: `JSONFeeder.Next` is `next`; Rounds counts the calls.
--   Feeder/Csv       internal/feeder/csv.go: `CSVFeeder.Next` is `next_csv`, over the reader's rows.
--   ClientMetrics    internal/clientmetrics/metrics.go: the counters of a protocol client.
--   Metrics/Bucket   internal/metrics/collector.go: `statsBucket` with `record_one`, `merge` and `snapshot`;
--                    Metrics/Shards is `shardedStats`, Metrics/Collector the collector, with its snapshots
--                    in Metrics/Collector/History. The clock and the shard that a request falls into are
--                    arguments, the histogram library is the parameter `Histogram`. Metrics/Status is
--                    status.go: `FlattenStatusBuckets`.
--   Pool/Key         internal/pool/pool.go: `MakePoolKey`.
--   Config           internal/config/config.go: the configuration; Config/Validate is `Validate`,
--                    Config/Valid describes the configurations that are valid, and Config/Patterns is how
--                    internal/cli/run.go hands load patterns to the runner.
--   Sse              internal/sse/sse.go: `ReadEvent` over the lines of the stream.
--   TagFilter        internal/tagfilter: `Parse` of parser.go and `Matches` of matcher.go.
--   Placeholders     internal/placeholders/placeholders.go and internal/feeder/template.go.
--   Auth             internal/auth/oauth2.go: `Token` as a step relation of concurrent calls, with the
--                    lock, the condition variable and the fetch; Flight is about one fetch at a time.
--
-- The scheduler fires sets, a set runs its items stage by stage, each item's builder makes a run of the
-- runner, and the summaries of the items are aggregated and judged. An item's run and the summary that
-- it returns are a parameter of Sets, so the two halves meet at `Backend`. The configuration that
-- `Validate` accepts is what the runner's options and load patterns are made of, and the collector is what
-- the summaries are read from.
--
-- Conventions: Go's int, int64 and time.Duration are signed integers, with the wrap-around of 64 bits
-- written out where the code adds; float64 is the interface `Float64` of Prelude/Reals, whose laws hold
-- of all floats, NaN included; a map is an association list, in any order; a nil pointer or function is
-- `none`. Libraries (the rate limiter, cron) and the outside (store, builder, requests, timers) are
-- parameters. Loops are structural recursion, the retry loop on the attempts that are left, so no
-- definition needs fuel that could run out. The counters of a run of the runner are taken to stay below
-- 2^63, and a difference of clock readings below 2^63 ns (292 years), where Go saturates.
--
-- Not modelled: protocol clients, tracing, the terminal interface and the reports, which call libraries
-- or format text; the file store; the conversion of HAR files;
-- the loader, the flags and the parsers of the configuration, and the rest of the command line.
pub mod Prelude
pub mod Auth
pub mod ClientMetrics
pub mod Config
pub mod Endpoints
pub mod Extraction
pub mod Feeder
pub mod Metrics
pub mod Placeholders
pub mod Pool
pub mod Runner
pub mod Scheduler
pub mod Sets
pub mod Sse
pub mod TagFilter
pub mod Thresholds
pub mod Variables
