-- ===== src/Lib.antt =====
-- jubs: a library of background jobs over a queue. A job has a definition (its name, its queue, the
-- schema of its payload, its versions and its policies); a client composes it into an envelope with a
-- delivery and hands both to a driver; a runtime runs a handler for every delivery that a driver
-- makes. This library models the code of src/ that decides what happens to a job, and proves what that
-- code promises. Paths are those of the repository.
--
-- The parts, and the files that model them:
--   src/JobId.ts        JobId.antt: the ids that name a job on a queue and a child of a flow
--   src/Definition.ts   Definition.antt: what a job declares; Definition/Checks.antt: `defineJob`
--   src/Delivery.ts     Delivery.antt: the policy of one enqueue, out of a definition and the defaults
--   src/Schedule.ts     Schedule.antt: intervals, times of the day and patterns
--   src/Envelope.ts     Envelope.antt: what is written for a job and read back
--   src/Migration.ts, src/Payload.ts, src/Result.ts
--                       Migration.antt: the steps from an old version, and the two schemas
--   src/Idempotency.ts  Idempotency.antt: a body under a key; Idempotency/Contract.antt and Laws.antt: what a
--                       store promises about a key; Idempotency/Runs.antt: what follows for a body
--   src/Driver.ts       Driver.antt: the interface to the storage
--   src/Flow.ts         Flow.antt: what a parent reads of its children; Flow/Filled.antt: when its slots are
--                       full; Flow/Compose.antt: the tree of jobs
--   src/Dead.ts, src/Failure.ts
--                       Dead.antt: which failure buries a job; Dead/Names.antt: dead queues and their ids (with
--                       `readDeadJobId` and `readLiveJobId` of src/Client.ts); Dead/Record.antt: the records
--   src/Atomic.ts       Atomic.antt: a block that holds its enqueues
--   src/Outbox.ts       Outbox.antt: the rows of an outbox and a cycle of the relay
--   src/Runtime.ts, src/Hooks.ts
--                       Handlers.antt: configuration, handlers and hooks; Runtime.antt: a delivery, from its
--                       envelope to its report; Runtime/Start.antt: the checks of a start, and the
--                       schedules that it reconciles; Runtime/Consumers.antt: the consumers that it
--                       opens; Runtime/Live.antt: the deliveries that run, and the aborts of their signals
--   src/testing/index.ts
--                       Memory/Keys.antt: the idempotency store of the driver in memory; Memory/Jobs.antt and
--                       Memory/Queue.antt: its jobs, its line and its operations; Memory/Run.antt: `runNext` and
--                       `drain`; Memory/Driver.antt: the driver
--   src/Client.ts       Client.antt: enqueues, blocks and the calls on live jobs; Client/Dead.antt: dead jobs and
--                       keys
--   src/RedisDriver.ts  Redis.antt: the commands of Redis; Redis/Keys.antt: the scripts and the store of keys;
--                       Redis/Options.antt: what BullMQ is asked for; Redis/Flow.antt: what is read of a flow;
--                       Redis/Cancel.antt: the marks of cancelled deliveries; Redis/Bull.antt: the calls of
--                       BullMQ; Redis/Cancelling.antt, Redis/Schedules.antt and Redis/Driver.antt: the driver;
--                       Redis/Worker.antt: what a worker does with a delivery; Redis/Connection.antt:
--                       the check of a connection, and what a worker is opened with
--   src/dashboard/Board.ts
--                       Board.antt: the queues of a board
-- Common, Text, Value, Fault, Result, Effects and Assoc are what these share: lists and tests, texts,
-- JSON values, errors, code that throws, code that throws and changes a state, and `Map`. Examples runs
-- the definitions at concrete inputs.
--
-- How they interact: a runtime takes a handler by the name in the envelope, migrates and validates the
-- payload, reads the children of a flow, and runs the handler under its key. What the driver, the
-- hooks and the handlers do is a parameter: an action on a state `S` (`Exec S A`), which may throw and
-- keeps what it wrote before. What the code reads from its surroundings is in `Environment`: the
-- wording of messages, stacks, the size of a JSON text, whether a timer runs out, and the reason that
-- the signal of a delivery is aborted with, and whether an error is that very object. A store of keys is a parameter of `run_under_key` with the
-- laws in `StoreLaws`, which the store in memory has. The client asks a driver, within the scope of an
-- atomic block, which is a part of its state; both drivers are given to the client and the runtime as a
-- `JobDriver`. Redis and BullMQ are parameters: what the scripts rely on is in `RedisLaws`, what a
-- reconciliation relies on in `SchedulerLaws`.
--
-- Choices. A text is the list of its UTF-16 code units. A number of JSON is a whole one, a fraction by the
-- whole number below it, an infinity or not a number. An error keeps its data; the wording of
-- its message is a parameter where it is stored. An object has each key once. Every
-- version that the driver in memory copies is finite, as those are that the library writes. Functions of a
-- definition return, but for migrations. Loops are structural recursion: a
-- migration runs for the difference of two versions. `drain` alone is given a number of rounds, and one
-- more than the jobs in the line are enough. A job in memory is an object that two lists refer to, and has
-- a reference of its own; what a consumer runs may change the driver meanwhile. No key expires between
-- two steps. What runs concurrently in the source (the
-- slots of a flow, the schedules of a start) is taken in order, so the first error in that order is
-- the one reported.
--
-- Not modelled: timers, the loop of the relay, deliveries that begin or end while a sweep of the
-- runtime waits for the driver, the worker of BullMQ, the handles of queues that are opened once, the
-- mounting of the board on a web server (src/dashboard/index.ts), and whatever only prints.
pub mod Common
pub mod Text
pub mod Value
pub mod Fault
pub mod Result
pub mod Effects
pub mod Definition
pub mod JobId
pub mod Envelope
pub mod Delivery
pub mod Dead
pub mod Schedule
pub mod Migration
pub mod Assoc
pub mod Atomic
pub mod Board
pub mod Client
pub mod Idempotency
pub mod Driver
pub mod Flow
pub mod Handlers
pub mod Runtime
pub mod Examples
pub mod Memory
pub mod Outbox
pub mod Redis
