-- ===== src/Lib.antt =====
-- The runtime subsystems of codegen-patterns, by their in-memory backends, and its entity graph.
--
-- The repository generates NestJS back ends from entity definitions and ships the runtime that the
-- generated code uses (runtime/subsystems). This library models the parts of that runtime that carry
-- state and decisions of their own, and proves properties of them.
--
-- Jobs (runtime/subsystems/jobs, module Jobs)
--   Types       the rows, enums, policies and options of job-orchestration.schema.ts,
--               job-handler.base.ts, job-orchestrator.protocol.ts, jobs-errors.ts
--   Template    `evaluateKeyTemplate`, the regular expression written out as a matcher
--   Keys        `keySelectorToTemplate`, `resolveKey`
--   Retry       `classifyError`, `computeBackoff`, `serialiseError`
--   Steps       `MemoryJobStepService` and `ctx.step`; StepOn: `ctx.step` for a work that uses the
--               whole orchestrator
--   State       the state of `MemoryJobOrchestrator` with its `MemoryJobStore`, registration, `cancel`
--   Start       `start`: dedupe, collision, lineage, insertion
--   Claim       `claimNext`
--   Lifecycle   `markCompleted`, `markFailed`, `rescheduleForRetry`, `tick`, `replay`
--   Spawn       `ctx.spawnChild`
--   RunService  `MemoryJobRunService`, which reads the same store and cancels through the orchestrator;
--               Listing and Sorted have the order and the filters of a page in other terms
--   Pools       `loadPoolConfig` from the content of the file on
--   Queue, Change, Reach, Cascade   the predicates on states, the changes that every operation is made
--               of, the states that are reached, and what a cancellation reaches
-- Events (runtime/subsystems/events, module Events)
--   Types       the events that the bus and the bridge share; Bus: `MemoryEventBus`
-- Cache (runtime/subsystems/cache, module Cache)
--   `MemoryCacheService`; Refines, Writes, Prefix and Reach compare it with a map without timers
-- Integration (runtime/subsystems/integration, module Integration)
--   Values      canonical values and `isEqual`; Differ: `DeepEqualDiffer`
--   Recorder    `MemoryRunRecorder`: the rows of runs and of their items
--   Cursors     `ICursorStore` as an interface, and `MemoryCursorStore`
--   Execute     `ExecuteIntegrationUseCase`: `processChange` and `emitChange`; Loop: `execute`, which reads
--               the cursor, runs over the changes of a source and writes the cursor and the run
-- Bridge (runtime/subsystems/bridge, module Bridge)
--   Deliveries  `MemoryBridgeDeliveryRepo`
--   Registry    the triggers that the bridge reads, `assertTenantId`
--   Drain       `BridgeOutboxDrainHook.processEvent`, which writes a delivery and a wrapper run for each
--               trigger of a drained event
--   Handler     `BridgeDeliveryHandler.run`, which a wrapper run executes: it starts the user's run through
--               the orchestrator of Jobs and marks the delivery
--   Flow        `EventFlowService`, which publishes an event and starts a run at once, and writes the
--               deliveries that the drain then finds
-- Analyzer (src/analyzer/graph-builder.ts)
--   the graph of entities and the search for related ones (Neighbours, Related, Complete), and the
--   marks of its edges (Reverse)
-- Base          lists, tests, the order of texts, and the association list `Dict` for a JavaScript `Map`
--
-- How the code is read. A body under the orchestrator's mutex is one function from state to state, and
-- a run of the program is a sequence of such steps in any order (Jobs.Reach), so the interleavings of
-- handlers are sequences of steps. Exceptions are values of `Result` or `Outcome`. A clock is an
-- argument: an operation runs at one instant in milliseconds, and ids from `randomUUID` are arguments
-- that are new. Priorities, delays and limits are natural numbers; a negative `baseMs` is 0 to the code.
-- A payload field is missing or a value by its text. Handlers are functions of the whole state. All
-- recursion is structural, but for the search of Analyzer on fuel. It gets 2 + 2 e (2 e + 1) rounds for e
-- edges: each of the 2 e + 1 names is expanded once at most and then pushes at most 2 e names.
-- `Array.sort` is a stable insertion sort. `markFailed` is two sections, and other steps may run between
-- them. A timer of the cache has the delay that `setTimeout` makes of the one it is given: 1 ms for one
-- of more than 2147483647 ms.
--
-- Parameters: `JsNumber` (equality of JavaScript numbers and `Number(text)`), `CursorText` (the text
-- of a page's cursor), `DrainTx` and `FlowTx` (the statements and services inside a database
-- transaction, with the laws that the bridge relies on; Bridge/Drain/Tables and Bridge/Flow/Memory are
-- instances by the memory backends; nothing is assumed of an insert that breaks the foreign key to
-- `job_run`, nor of the state behind an exception in a transaction), the lookup of an event by id, `Handlers` (what the subscribers of an event do), and `Ports`
-- (the sink, the emitter, the differ and the check of a diff that the use case is given). A source is a
-- function from a cursor to a finite list of changes with the exception that may follow them.
--
-- Not modelled: the columns for waiting on signals, which are always null here; invalid dates; objects
-- shared between the two sides of a comparison; the backends on Postgres, Redis and BullMQ; handlers of
-- events that call the bus again; a histogram over a part of an hour; template fields that an object
-- inherits, such as `constructor`, which count as missing here; the command line, the emitters and the
-- parsers; modules of the framework's dependency injection.
pub mod Base
pub mod Jobs
pub mod Events
pub mod Cache
pub mod Integration
pub mod Bridge
pub mod Analyzer
