-- ===== src/Lib.antt =====
-- VoxelSteward: a bot that works in a Minecraft world on weekdays, within the operating windows of a
-- Tokyo working day, and stops for good when another player comes. This library models the core
-- of its logic, the domain and the coordinators that carry out the work, and the outbox through which
-- it tells its operators what happened.
--
-- How the parts interact. The scheduler turns readings of the clock into start and stop requests.
-- The controller of the runtime records them in the state store, which holds one immutable snapshot
-- of the runtime, the connection to Minecraft, the current task and the schedule; every change is a
-- command, and every change that is accepted makes an event with the snapshots before and after it.
-- The safety policy reads a snapshot and decides whether work may start or go on. Tasks wait in a
-- queue, are claimed, carried out and finished; their instructions are movements, single block
-- placements and simple work, each with its validation. Notifications of what happened are kept in
-- an outbox, where a worker takes a lease on a record, delivers it and marks it.
--
-- Files and sources:
--   Base (Lists, Int, Text, Numbers, Calendar): the values of the language that the program computes
--     with, and their laws.
--   Scheduler: src/domain/scheduler/ (evaluateWeekdayWindow, InMemoryWeekdayScheduler.evaluate).
--     Windows is about the window of an instant, Requests about successive evaluations.
--   Movement, Movement.Plan: src/domain/movement/ (validateMovementPosition, validateMovementLimits,
--     createMovementPlan, isWithinArrivalTolerance). Laws is about the steps of a plan.
--   BlockOperation: src/domain/block-operation/ (validateBlockOperationInstruction,
--     validateBlockObservation, blockOperationInstructionEquals).
--   SimpleWork: src/domain/simple-work/ (validateSimpleWorkInstruction).
--   TaskQueue: src/domain/task-queue/ (createQueuedTask, claimTask, cancelTask, releaseTask,
--     markTaskDeliveryStarted, markTaskVerified, finishTask, taskRecoveryDisposition). Life is the
--     step relation of a task, Invariant what holds of it between two steps, Terminal how it ends.
--     Equality is taskInstructionEquals; Audit is auditTaskRecovery of
--     src/application/task-queue/task-recovery-audit.ts, with the repository's list as a parameter.
--     Service is TaskQueueService of src/application/task-queue/task-queue-service.ts.
--   SafetyQueue: src/application/safety/safety-controlled-task-queue.ts (claimNext,
--     enforceContinuation, #stopOnce), over the service.
--   State: src/domain/state/. State holds the types and the transition tables, Command, Schedule,
--     Runtime, Minecraft and Task the cases of `#apply`, Apply their composition, Dispatch the whole
--     of `dispatch`. Consistency, Invariant, History and Finality are about runs of commands.
--   Safety: src/domain/safety/ (DefaultWorkSafetyPolicy.evaluate) and
--     src/domain/player-detection-policy.ts (PlayerDetectionPolicy.decide).
--   Outbox: src/adapters/persistence/in-memory-notification-outbox-repository.ts (claimNext,
--     markDelivered, markFailed, close). Select is about the choice of a record, Invariant about
--     every operation, Lease about concurrent workers.
--
--   Program, Program.Protocol: programs of effects, whose calls the environment answers, and what it
--     means that every run of one follows a protocol.
--   Coordinator: the calls and the steps that the coordinators of movements and of block operations
--     share (#invoke and #executeStep, #finalize, #stopPortOnce). Promise is the protocol of the
--     shared flags and of the end of a task, Steps and Log are about the shared steps and about the
--     log of the calls of a run.
--   BlockCoordinator: src/application/block-operation/block-operation-coordinator.ts (execute,
--     cancel, close). Promise is the protocol of a placement; Steps, Stages and Laws show that it is
--     kept.
--   MovementCoordinator: src/application/movement/movement-coordinator.ts (execute, cancel), with the
--     same modules. Its protocol names the plan, which is made from the first snapshot that is read;
--     Route and Walk are about the way along its steps.
--   WorldObservation: src/domain/world-observation/. Commands holds the cases of `dispatch`, Store the
--     whole of it with getBlock and getItemNetworkId. Blocks is about the list of the blocks,
--     Invariant and Runs are about what every dispatch keeps, Loss and Laws about look-ups.
--   Notification: src/application/notifications/notification-mapper.ts (mapStateChangeToNotification),
--     Notification.Subscriber: notification-subscriber.ts beside it (subscribe, accept). Once is about
--     what is sent for the events of the state store, SafetyStop about a detected player.
--   OutboxDispatcher: src/application/notifications/outbox-dispatcher.ts (dispatchAvailable, #deliver)
--     over Outbox. A turn of the loop is given by what the clock, the port and the error codes answer
--     and by what the other workers and the writers do to the outbox while the loop awaits. Count is
--     about the number of open records, Settles about one delivery, Laws about the loop.
--   SimpleWorkCoordinator: src/application/simple-work/simple-work-coordinator.ts (execute), over the
--     validation and the answer of MovementCoordinator.
--   TaskExecutor: src/application/task-executor/readonly-task-executor.ts (processNext, close), a
--     program of effects too. Promise is its protocol, Laws shows that it is kept.
--
-- How code becomes definitions. A method of a class takes the state of the object and gives the new
-- one with its result; a `throw` is an error of a `Result`, and leaves the state as it was. Objects
-- are values here, so `Object.freeze` and the copies of the source change nothing. The optional
-- fields are `Option`; where the source takes an `unknown` value, the field `keys` stands for what
-- `Object.keys` returns. A number is a whole part in ℤ with a fraction below one, in units of
-- 2^-1074, or NaN or an infinity; comparisons of numbers are exact. A text of an instant is `iso t`,
-- the text that `toISOString` gives for `t` milliseconds after 1970, or another text. A date is such
-- a count, or none for Invalid Date; instants before 1970 are not modelled.
--
-- The coordinators are asynchronous: a call of the state store, of the queue, of a port, and a
-- reading of a field that a cancellation or the listener on the state may write, is a step of a
-- program, and any answer may come to it. So the theorems hold whatever runs between two steps. The
-- race of a request with its wait is one step, answered by how it ended.
--
-- Parameters. The arithmetic on floating-point numbers of a movement plan (FloatOps: addition,
-- subtraction, multiplication, division, `Math.hypot`, `Math.ceil`, `Math.max`) and `localeCompare` (collate) are
-- parameters: the theorems hold for any functions in their place. So is the repository of tasks
-- (TaskQueueRepository), whose operations give its state and a result or an error; the calls of the
-- queue under the safety policy are modelled one after the other, not interleaved.
--
-- Fuel. The loop that makes the steps of a plan runs on a fuel of 10001. A plan whose step count is
-- over `maxSteps` is refused before the loop, and `maxSteps` is at most 10000, so the loop ends by
-- its own test. The loop of `dispatchAvailable` runs on a fuel of one more than there are open
-- records, since every turn but the last closes one; this counts on nobody enqueueing a record during
-- the call, since a writer that enqueues as fast as the loop delivers keeps it running, in the source
-- too. Nothing else needs fuel.
--
-- Invalid dates. `toISOString` throws on Invalid Date and, in the dispatcher, on a date after the last
-- instant that a `Date` holds: a claim then makes `dispatchAvailable` reject, a delivery is taken for
-- failed, and a failure that cannot be written leaves its record leased. The other parts take the
-- instants that they compute from a reading, such as the end of a lease, as unbounded.
--
-- Not modelled: the subscribers that the two stores notify and the errors that they raise; the
-- controller of the runtime of src/application/scheduling/; the timers and the polling loops of the
-- outbox dispatcher and of the executor; the persistence of the state; the adapters to Minecraft,
-- Discord and MySQL; configuration, sessions, supervision and entry points.
pub mod Base
pub mod Program
pub mod Scheduler
pub mod Movement
pub mod BlockOperation
pub mod SimpleWork
pub mod TaskQueue
pub mod State
pub mod Safety
pub mod Outbox
pub mod Coordinator
pub mod BlockCoordinator
pub mod WorldObservation
pub mod Notification
pub mod OutboxDispatcher
pub mod SimpleWorkCoordinator
pub mod TaskExecutor
pub mod MovementCoordinator
pub mod SafetyQueue
