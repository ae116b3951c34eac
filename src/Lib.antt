-- ===== src/Lib.antt =====
-- gokue, a job queue for Go: clients submit jobs to a queue, whose dispatcher runs them on a pool of
-- worker goroutines with retries, and a job store keeps job records.
--
-- The parts and how they interact. `NewQueue` (gokue.go) applies its options to the default
-- configuration (config/config.go), validates it, and starts a dispatcher (dispatcher/dispatcher.go)
-- that shares a collector of statistics (stats/stats.go) with the queue. `Submit` and `TrySubmit`
-- name the job (job/job.go) and send a task through a channel to the workers, each of which executes
-- one task after another: `execute` calls the job, and after an error waits for `retryDelay` and
-- tries again. `CloseWithMode` closes the channel, and either waits for the workers or tells them to
-- abandon their waits. All of these send entries to a logger (internal/logger/events.go). Not yet used
-- by the queue are the job stores, which keep jobs as records with a payload: backend/backend.go
-- is their interface, backend/memory.go and backend/mongodb are two stores, and the codec of
-- backend/codec.go turns jobs into payloads and back.
--
-- Which file models which part:
--   Stats                stats/stats.go: the collector, a record of counters modulo 2^64
--   Job                  job/job.go: jobs, their errors, `NameOf`
--   Logger               internal/logger/events.go: each helper as the entries it sends; Logger.Zap:
--                        zap-logger.go and the closer of logger.go
--   Config               config/config.go: `Config`, `Default`, `Validate`
--   Float, Backoff       `retryDelay` of dispatcher/dispatcher.go on float64 values
--   Dispatcher           the types and `NewDispatcher` of dispatcher/dispatcher.go
--   Execute              `execute` and `runJob`: a function of the counters and the log
--   Submission           `Submit` and `TrySubmit`: functions of the dispatcher
--   Shutdown             `CloseWithMode` in its two parts, `signalQuit`, and `worker`
--   System               all of them interleaved: a step relation on the dispatcher, the running
--                        tasks, the lost ones and the workers that died
--   System.Locking       the lock `submitMu`, which a submission holds to its return
--   Programs             the programs under examples: `Process` and `main` of each
--   Queue, Queue.Options gokue.go: the queue, its options and methods
--   RecordMap            Go's map `map[job.ID]V` as an association list
--   Record               backend/backend.go: records, filters, errors; `cloneRecord`
--   JobStore             the interface of backend/backend.go: a relation between the contents
--                        before and after a call and its answer, and the record that stores fill
--   MemoryStore          backend/memory.go: each method as a function of the store
--   Mongo                backend/mongodb: the documents, the connection, each method as a function
--                        of the store and the collection, and the laws of the driver
--   Codec                backend/codec.go: the registry as a function from names to types
--   Prelude              tests, lists, integers and byte strings over the native numbers
--   Examples             the theorems at concrete inputs
-- The modules below a part hold its theorems.
--
-- What the program does not decide is an argument: the clock, which ready case a `select` takes,
-- how each call of `Process` ends, where the logger or a retry predicate panics in a worker, the
-- number that `math/rand` draws, the state of a context, the result of `runtime.GOMAXPROCS`, and
-- what the implementation makes of a float64 that no int64 holds. So are package encoding/json,
-- the methods of zap's logger, the operations of the MongoDB driver on a collection, and the laws
-- that its manuals promise of them. Integers are exact, with `int64` and `uint64` written out
-- where the code can wrap around; times and durations are in nanoseconds. A map is visited in the
-- order of the list.
--
-- Bounds and fuel. The loop of `execute` recurs on the rounds left, maxRetries + 1 at the start,
-- so it needs no fuel; its `int` counter is taken to stay below its limit, which holds for every
-- maxRetries below the greatest `int`. Rounding to 53 bits counts the excess bits of n with fuel n,
-- which is more than n has bits.
--
-- A worker that dies of a panic outside the job (of the delay, the logger or the predicate) is a step
-- like the others. The send of a submission and the count behind it are two steps, between which
-- the workers and other submissions go on.
--
-- Not modelled: the moments within an execution (it takes effect when it ends), a call of a job, a
-- logger or a predicate that never ends, a panic of the logger in the call of a client (it goes to
-- that client) or in the entry of a worker's panic (it ends the program), the set-up of the zap
-- library, and job/job-details.go, a type that nothing uses.
pub mod Prelude
pub mod Stats
pub mod Job
pub mod Logger
pub mod Config
pub mod Float
pub mod Backoff
pub mod Dispatcher
pub mod Execute
pub mod Submission
pub mod Shutdown
pub mod System
pub mod Queue
pub mod Programs
pub mod RecordMap
pub mod Record
pub mod JobStore
pub mod Mongo
pub mod MemoryStore
pub mod Codec
pub mod Examples
