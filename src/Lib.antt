-- ===== src/Lib.antt =====
-- Zolt, a scheduler of jobs: an HTTP API that stores jobs, a scheduler process that claims what is due and
-- publishes it to a BullMQ queue, and workers that execute the entries of the queue and keep their leases
-- alive with a heartbeat. All share one PostgreSQL database and one queue.
--
-- The parts, with the files of the repository that they model:
--   Schema         the rows and statuses of the tables of migrations/
--   Migrations     migrations/, each with its operations up and down (Tables, Changes, History, Statuses;
--                  Tracking, Restored and Checks are proofs)
--   Jobs           src/modules/jobs: jobs.repository.ts (Repository, Listing), jobs.service.ts and the
--                  POST handler of jobs.controller.ts (Service; Rows, Pages, Deduplication and
--                  Submission are proofs)
--   Http           the replies of the API (Reply), appError.ts and error.middleware.ts (Errors),
--                  asyncHandler.ts, validate.middleware.ts, not-found.middleware.ts and the log level of
--                  requestLogger.middlewares.ts (Middleware), job.schema.ts (JobSchema), the other
--                  handlers of jobs.controller.ts (Controllers), jobs.routes.ts (Routes),
--                  metrics.middleware.ts (InFlight), health.service.ts with the probe of
--                  src/bootstrap/routes.ts (Health); Codes, Answers, Replies and RoundTrip are proofs
--   Executions     src/modules/executions: execution.repository.ts (Repository), execution.service.ts
--                  (Service for executeExistingExecution and createNewExecution, Recovery for
--                  recoverExpiredExecution; Lifecycle, Success, Closing, Attempts, Faults and Crashes are
--                  proofs)
--   Idempotency    src/modules/idempotency/idempotency.repository.ts (Locks is what it
--                  promises; Exclusive and the parts of Locks are proofs)
--   Leases         src/modules/leases/leases.repository.ts
--   Outbox         src/modules/outbox/outbox.repository.ts
--   Scheduler      src/modules/scheduler: scheduler.repository.ts (Repository) and the tick of
--                  scheduler.service.ts (Service; Lifecycle, Tick, Claimed, Publishing,
--                  Queueing and Delivery are proofs)
--   Reconciliation src/modules/queue-reconciliation
--   Queue          src/infrastructure/queue/queue.ts (Ids has its texts)
--   Worker         the processor of src/workers/worker.ts
--   Heartbeat      src/workers/heartbeat.ts
--   Handlers       src/handlers/handler.registry.ts, handlerBehaviour.ts (Simulation)
--   Retry          src/utils/retry.utils.ts with src/config/retry.config.ts
--   Config         src/config/env.config.ts (Checks is a proof)
--   Shutdown       the shutdown of src/app/server.ts (Order is a proof)
--   Timers         the timers of src/workers/heartbeat.ts and scheduler.service.ts (Single is a proof)
--   Processes      the start of src/app/server.ts and the shutdown of src/app/scheduler-runner.ts (Ends
--                  is a proof)
--   Infrastructure src/shared/metrics/metrics.server.ts and the back-off of src/infrastructure/redis/redis.ts
--   Metrics        src/shared/metrics/execution.metrics.ts and the counters of jobs.metrics.ts
-- The names are those of the code in snake case: executeExistingExecution is execute_existing_execution.
-- A branch of a long function is a definition of its own, with the rows that were read before it as
-- arguments.
--
-- Monad is the setting: a handler takes a World, which is the database, the database as it was when the
-- open transaction began, and the memory of the process (clock, random numbers, owned executions,
-- gauges, counters, connections that are taken from the pool, queue). Each round trip to the database
-- takes one flag of a list that says whether it fails, so that a theorem about all worlds is one about
-- failures at any place. Prelude has the tables as lists of rows, Lifecycle the relations between a row
-- and what it may become, System the steps of all processes, Balance and Transactions what holds of the
-- handlers at any failure, Tests a concrete system.
--
-- How the model stands to the code:
--   * Ids of rows and of workers are numbers, since they are only compared; an insert takes the next
--     number where PostgreSQL makes up a UUID. Times are whole milliseconds from the earliest
--     timestamp of PostgreSQL on, so that they are natural numbers; new Date() of the processes and NOW() of the
--     database are one clock. A text is a list of characters, each of one UTF-16 unit and none of them the
--     character 0, which PostgreSQL does not store.
--   * A failing round trip has done nothing, but for a COMMIT, of which only the reply may be lost. The same loss
--     for a single statement outside a transaction is left out.
--   * A handler runs in one piece. Where sessions interleave it is said so: what others commit while the
--     handler of a job runs is a parameter of the step, rows that others lock (SKIP LOCKED) are a
--     parameter of the claims, and a process may die with its transaction open.
--   * A statement that a unique, length or status constraint or the type of a column refuses throws. Foreign
--     keys are left out.
--   * What node-pg-migrate and PostgreSQL make of a migration is a parameter, with laws on constraints.
--   * ORDER BY is a stable sort, so rows that compare equal keep the order of the table.
--   * BullMQ is a parameter: functions from the entries of the queue, with no law assumed but those
--     of Accepts in Scheduler/Delivery: what is added is there, and nothing goes.
--   * zod and Express are parameters: what zod makes of the fields of a body, of a query, of an id or of
--     the environment, what next(error) leads to, and what a later reading of req.query gives. The
--     theorems on replies put the error handler of the code behind next(error), as
--     src/bootstrap/error-handler.ts registers it.
--   * Every loop is over a list that is at hand, so no fuel is needed.
--
-- Not modelled: log entries, the labels and the histogram of the HTTP metrics, the order in which
-- src/bootstrap registers the layers with Express, configureQueue and closeQueue, the clients of
-- PostgreSQL and Redis, the script src/utils/spawn-jobs.ts, and the rounding of doubles in the back-off: these
-- are input and output, wiring, or code of other packages. The shutdown of src/workers/worker.ts, which drains
-- the worker while its heartbeat goes on, is left out too.
pub mod Prelude
pub mod Schema
pub mod Migrations
pub mod Monad
pub mod Jobs
pub mod Executions
pub mod Lifecycle
pub mod Config
pub mod Http
pub mod Idempotency
pub mod Shutdown
pub mod Leases
pub mod Outbox
pub mod Retry
pub mod Metrics
pub mod Heartbeat
pub mod Handlers
pub mod Queue
pub mod Reconciliation
pub mod Scheduler
pub mod Worker
pub mod System
pub mod Balance
pub mod Timers
pub mod Processes
pub mod Infrastructure
pub mod Transactions
pub mod Tests
