-- ===== src/TaskExecutor.antt =====
-- `ReadonlyTaskExecutor` of src/application/task-executor/readonly-task-executor.ts: `processNext`,
-- `#execute` and `close`, as programs whose calls the environment answers.
pub mod Promise
pub mod Laws
mod Tests
use voxel_steward.Base.{
  String, Bool, true, false, Option, none, some, List, [], ◌∷◌, if◌then◌else◌, nat, Result, ok, err,
}
use voxel_steward.Program.{Program, done, effect, bind, ask, return, throw, ◌>>=◌, ◌>>◌, catching}
use voxel_steward.State.{
  StateSnapshot, StateCommand, TaskState, TaskTarget, task_prepare, task_transition, task_reset,
  task_progress_update,
}
use voxel_steward.State.Command.{is_terminal_task}
use voxel_steward.TaskQueue.{
  TaskQueueItem, TaskDetails, DetailInstruction, verify_arrival, record_position,
  TaskQueueTerminalStatus,
}
use voxel_steward.SimpleWork.{SimpleWorkInstruction}
use voxel_steward.SimpleWorkCoordinator.{
  SimpleWorkResult, navigated, arrival, recorded, work_stopped, work_failed,
}

pub data ExecutorError : Type 0 where
  task_execution_failed task_state_update_failed : ExecutorError

-- `claim_next` is `claimNext` for the two task types, with the worker and the lease of the executor;
-- `enforce` is `enforceContinuation`, and `stop_task` is `stop`, of the queue under the safety policy.
pub data Op : Type 0 where
  read_closed : Op
  set_closed : Op
  read_active : Op
  write_active : Option String → Op
  claim_next : Op
  get_state : Op
  dispatch_state : StateCommand → Op
  enforce : String → Op
  stop_task : String → Op
  work : SimpleWorkInstruction → Op
  finish : String → TaskQueueTerminalStatus → Op
  report : ExecutorError → Op

-- A call that may throw or reject is answered by none or false where it does. `enforce` is answered
-- by whether its decision is to stop.
abbrev pub Answer : Op → Type 0
Answer read_closed = Bool
Answer set_closed = Unit
Answer read_active = Option String
Answer (write_active id) = Unit
Answer claim_next = Option (Option TaskQueueItem)
Answer get_state = TaskState
Answer (dispatch_state command) = Bool
Answer (enforce id) = Option Bool
Answer (stop_task id) = Bool
Answer (work instruction) = Option SimpleWorkResult
Answer (finish id outcome) = Bool
Answer (report code) = Unit

-- A thrown error; what it is does not matter to any of its handlers.
pub data Thrown : Type 0 where
  thrown : Thrown

abbrev pub Code : Type 0 → Type 0
Code A = Program Op Answer (Result Thrown A)

-- `#instruction`
abbrev pub instruction_of : Option TaskDetails → Option SimpleWorkInstruction
instruction_of none = none
instruction_of (some d) = elim d.instruction [
  | verify_arrival i ↦ some i
  | record_position i ↦ some i
  | _ ↦ none
]

-- `#dispatch`
unfoldable pub dispatch : StateCommand → Code (Unit {0})
dispatch command = do
  accepted ← ask (dispatch_state command)
  (if accepted then return tt else (ask (report task_state_update_failed) >> throw thrown))

-- `#transitionTask`; each of its targets is terminal, so the second test takes in the first.
unfoldable pub transition_task : TaskTarget → Code (Unit {0})
transition_task to = do
  current ← ask get_state
  (if is_terminal_task current then return tt else dispatch (task_transition to))

unfoldable pub finish_in_queue : String → TaskQueueTerminalStatus → Code (Unit {0})
finish_in_queue id outcome = do
  accepted ← ask (finish id outcome)
  (if accepted then return tt else throw thrown)

abbrev pub message_of : Bool → String
message_of arrived = if arrived then "arrival_verified" else "arrival_not_verified"

unfoldable pub complete_with : String → String → Code (Unit {0})
complete_with id message = do
  dispatch (task_progress_update (nat 1) (some message))
  finish_in_queue id TaskQueueTerminalStatus.completed
  transition_task TaskTarget.completed

unfoldable pub fail_task : String → Code (Unit {0})
fail_task id =
    finish_in_queue id TaskQueueTerminalStatus.failed >> transition_task TaskTarget.failed

-- From `result.outcome === "completed"` on. Work that completes but does not verify an arrival counts
-- as a recorded position.
unfoldable pub settle_work : String → SimpleWorkResult → Code (Unit {0})
settle_work id (navigated p n) = complete_with id "position_recorded"
settle_work id (arrival p arrived) = complete_with id (message_of arrived)
settle_work id (recorded p) = complete_with id "position_recorded"
settle_work id (work_stopped reason n) = fail_task id
settle_work id (work_failed type reason n) = fail_task id

-- `enforceContinuation` and the return on a stop.
unfoldable pub unless_stopped : String → Code (Unit {0}) → Code (Unit {0})
unless_stopped id rest = do
  decision ← ask (enforce id)
  elim decision [
    | none ↦ throw thrown
    | some must_stop ↦ if must_stop then transition_task TaskTarget.stopped else rest
  ]

unfoldable pub work_on : String → SimpleWorkInstruction → Code (Unit {0})
work_on id instruction = do
  result ← ask (work instruction)
  elim result [ none ↦ throw thrown | some r ↦ unless_stopped id (settle_work id r) ]

-- The `try` block of `#execute`, with the instruction.
unfoldable pub prepare_and_work : TaskQueueItem → SimpleWorkInstruction → Code (Unit {0})
prepare_and_work item instruction = do
  current ← ask get_state
  (if is_terminal_task current then dispatch task_reset else return tt)
  dispatch (task_prepare item.task_id item.task_type)
  dispatch (task_transition TaskTarget.running)
  unless_stopped item.task_id (work_on item.task_id instruction)

unfoldable pub try_task : TaskQueueItem → Code (Unit {0})
try_task item = elim (instruction_of item.details) [
  | none ↦ throw thrown
  | some instruction ↦ prepare_and_work item instruction
]

-- The `catch` block: the refusal of the finish is swallowed, an error of the transition is not.
unfoldable pub recover : String → Thrown → Code (Unit {0})
recover id e = do
  ask (finish id TaskQueueTerminalStatus.failed)
  transition_task TaskTarget.failed
  ask (report task_execution_failed)

-- `#execute`
unfoldable pub execute_task : TaskQueueItem → Code (Unit {0})
execute_task item = do
  ask (write_active (some item.task_id))
  bind (catching (try_task item) (recover item.task_id))
      λ result. (ask (write_active none) >> done result)

unfoldable pub process_next : Code Bool
process_next = do
  is_closed ← ask read_closed
  (if is_closed then return false else do
    claimed ← ask claim_next
    elim claimed [
      | none ↦ throw thrown
      | some none ↦ return false
      | some (some item) ↦ execute_task item >> return true
    ])

-- `close`, up to its wait for the loop.
unfoldable pub close : Code (Unit {0})
close = do
  is_closed ← ask read_closed
  (if is_closed then return tt else do
    ask set_closed
    active ← ask read_active
    elim active [
      | none ↦ return tt
      | some id ↦ do
        is_stopped ← ask (stop_task id)
        (if is_stopped then return tt else ask (report task_execution_failed))
        transition_task TaskTarget.stopped
    ])
