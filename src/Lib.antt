-- ===== src/Lib.antt =====
-- A model of replays-fetcher: it discovers replays page by page at a source, stores their bytes in S3,
-- stages them in PostgreSQL for a parser, and keeps a checkpoint from which a run resumes.
--
-- A run (src/run/run-once.ts) reads the checkpoint, loops over the pages (src/run/run-once-page.ts)
-- and assembles a summary with an exit code (src/run/run-once-summary.ts, src/run/summary.ts). For each
-- page it waits for the pacer (src/source/pacing.ts), discovers the candidates, stores and stages them
-- concurrently under a limiter (src/run/ingest-page.ts), and writes the checkpoint
-- (src/run/run-once-checkpoint.ts, src/checkpoint). The throttle (src/source/throttle.ts) sets the
-- limiter's concurrency. Reads of the source go through withRetry (src/source/retry.ts) and the
-- classifier of errors (src/source/classify-failure.ts).
--
-- The files:
--   Base        helpers: Boolean tests, lists over native numbers, strings as code units, results
--   Time        src/time, and the timestamps read by src/staging/payload.ts and src/discovery/html.ts;
--               Calendar is what is used of `Date`
--   Source      src/source: Throttle, Pacing, Backoff, Failure and Classify, Retry
--   Config      src/config.ts: Defs has the settings of the source, App those of a whole run
--   Client      src/discovery/source-client.ts with its errors and its wiring of the retries
--   ByteClient  src/storage/replay-byte-client.ts with its errors and its wiring of the retries
--   Types       src/types and the types of src/discovery, src/storage and src/staging
--   Keys        src/storage/object-key.ts, src/checkpoint/object-key.ts, src/evidence/object-key.ts
--   Checkpoint  src/checkpoint/checkpoint.ts; its Store is src/checkpoint/s3-checkpoint-store.ts
--   Discovery   src/discovery: Dedup is the pass for duplicates, Report and Candidates are
--               discover-diagnostics.ts and discover-candidate.ts, Extract is html.ts, Page and
--               Pages are the loops over the rows and the pages
--   ContractCheck  src/contract-check/contract-check.ts
--   Storage     src/storage/store-raw-replay.ts and src/storage/s3-raw-storage.ts; Bytes joins
--               them with the byte client
--   Staging     src/staging/postgres-staging-repository.ts; Table has the contract over a
--               table, Repeat what follows when a payload comes again; Payload is
--               src/staging/payload.ts and src/staging/stage-raw-replay.ts, Promotion joins the two
--   Run         Summary is src/run/summary.ts, Ingest is src/run/ingest-page.ts, and Once is
--               src/run/run-once.ts with the files run-once-*.ts beside it, and Watch is
--               src/run/watch-loop.ts
--   Examples    concrete inputs on which the theorems are applied
--
-- How code becomes definitions: a function keeps its name in snake_case, a method its object as an
-- argument. What lies outside (the S3 client, the database, clocks, timers, the source) is a state `W`
-- that every call passes on, and the calls are fields of the records that the code is given. A call
-- that may throw returns a `Result`; an optional field is an `Option`. Strings are lists of code units.
-- The tasks of a page run under a schedule, a list that says which task makes its next step, up to its
-- next await; a theorem for every schedule is one for every interleaving.
--
-- Fuel: `with_retry` runs on one round more than its attempts, the last of which gives up; `write_checkpoint`
-- has the five rounds of the code; `run_page_loop` takes fuel, and with a cap on the pages any fuel
-- above the distance to the cap is enough, while without a cap the code's loop has no bound either;
-- `run_watch_loop` needs as many rounds as there are sleeps before the signal to stop.
--
-- Not modelled: logging, rates and ETA (floating point), the evidence writes after a run, the
-- redaction of settings, the command line and the connectivity checks. JSON, zod, URL, the patterns with back
-- references that take HTML apart, fetch, ssh, S3, PostgreSQL, the hash and p-limit are parameters; where a theorem relies on
-- what S3 or PostgreSQL documents, that is a named record of laws (IsObjectStore, IsUnreadable,
-- IsStagingTable).
pub mod Base
pub mod Time
pub mod Source
pub mod Config
pub mod Client
pub mod ByteClient
pub mod Types
pub mod Keys
pub mod Checkpoint
pub mod Discovery
pub mod ContractCheck
pub mod Storage
pub mod Staging
pub mod Run
pub mod Examples
