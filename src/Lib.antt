-- ===== src/Lib.antt =====
-- A model of the delegation backend, which takes block producers' proofs that they are up, and of
-- the program that measures uptime from what it has stored. Paths are from the repository's root.
--
-- A block producer posts a submission to /v1/submit. The handler checks its length, fields, key,
-- time and signature, asks the attempt counter, and hands two objects, metadata and block, to
-- `Save`, which writes them to every configured backend. Registered keys come from a spreadsheet
-- and are refreshed beside the server. The analyzer lists what was stored and finds the producers.
--
--   Submit            src/delegation_backend/submit.go and signer.go: ServeHTTP. `admit` is the part
--                     before the attempt counter, `accept` the part from it on; `serve_http` both.
--   Limiter           src/delegation_backend/time_heap.go: AttemptCounter; Limiter/Heap is the heap
--                     with the functions of container/heap that it calls.
--   Request, Keys     src/delegation_backend/data.go: requests, payloads, metadata; keys, signatures.
--   Whitelist         src/delegation_backend/whitelist.go and sheets.go, and the refresh loop of
--                     src/cmd/delegation_backend/main_bpu.go.
--   Backoff           src/delegation_backend/operation.go: ExponentialBackoff.
--   Paths, Storage    src/delegation_backend/submit.go (makePaths), submission.go, and the backends
--                     of submit.go, aws_keyspaces.go and postgres.go; Storage/Backends/Save is the
--                     `Save` of main_bpu.go, Storage/Backends/Session the sessions and migrations
--                     of aws_keyspaces.go and src/cmd/db_migration/main.go, Dropping the tables'
--                     end, Opening the connection to PostgreSQL.
--   Config            src/delegation_backend/app_config.go and constants.go.
--   Server            src/cmd/delegation_backend/main_bpu.go, src/delegation_backend/health.go and
--                     s3_options.go: the start, and submissions beside rounds of the refresh loop.
--   Analyzer          src/itn_uptime_analyzer: time.go (Period), identity.go (Identity), uptime.go
--                     (Uptime) and app_config.go (Options); Report is the program of
--                     src/cmd/itn_uptime_analyzer/main_itn_uptime_analyzer.go. Uptime/Greedy is
--                     what the count should be, Uptime/Times what it is taken of.
--   Integration       src/integration_tests: Waiting for what is stored, Emptying it, the
--                     configuration Files, Setup before the test, the Postgres container, the tables
--                     of Keyspaces, and the Network with the test itself.
--   Base, Clock       Lists, integers, texts and dictionaries; Go's package time, as far as it is used.
--   Externals         The libraries that the code calls, as a record of functions with their laws.
--   Samples           Concrete libraries and a request, for the tests.
--
-- State is passed on: a handler returns the counter that it leaves, an operation the world. `none`
-- is a run-time panic where a definition says so. An instant is a number of nanoseconds since the
-- year 1, and a Duration has 64 bits where the code computes with one. A map is an association
-- list; where the code ranges over a map, its order is an argument. Locks make calls single steps.
--
-- Fuel: `evict` takes one more than the heap's length, each round but the last drops an element;
-- `sift_up` and `sift_down` take the heap's length, and the index halves or grows. A loop that waits
-- goes over the events that it receives. Other loops are structural.
--
-- Bounds: `max_capacity` is the number of instants, of 24 bytes each, in the 2^48 bytes that Go's
-- `make` allows on a 64-bit machine; beyond it, and below 0, the attempt counter panics. That a
-- smaller capacity can be had is taken for granted, as is all other memory.
--
-- Not modelled: logging, the HTTP server, the time at which a timeout is due, and the text of the
-- SQL schema of the integration tests. The signature check, BLAKE2b, base58check, JSON, base64,
-- MD5, files, S3, the databases, gpg and minimina are parameters.
pub mod Base
mod Samples
pub mod Clock
pub mod Externals
pub mod Integration
pub mod Keys
pub mod Request
pub mod Whitelist
pub mod Paths
pub mod Submit
pub mod Server
pub mod Storage
pub mod Limiter
pub mod Backoff
pub mod Config
pub mod Analyzer
