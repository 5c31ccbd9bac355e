-- ===== src/Coordinator.antt =====
-- What the coordinators of movements and of block operations ask of the parts around them, and the
-- steps that they share: src/application/movement/movement-coordinator.ts and
-- src/application/block-operation/block-operation-coordinator.ts.
pub mod Promise
pub mod Steps
pub mod Log
use voxel_steward.Base.{
  String, Bool, true, false, Option, none, some, if◌then◌else◌, str_eq, ◌&&◌, Result, ok, err,
}
use voxel_steward.Program.{Program, done, effect, bind, ask, return, throw, ◌>>=◌, ◌>>◌}
use voxel_steward.Movement.{MovementPosition}
use voxel_steward.Movement.Plan.{MovementStep}
use voxel_steward.BlockOperation.{BlockPosition, BlockObservation, PlaceSingleBlockInstruction}
use voxel_steward.State.{
  StateSnapshot, StateCommand, TaskProgressState, TaskState, TaskTarget, task_transition,
}
use voxel_steward.TaskQueue.{TaskQueueItem, TaskQueueTerminalStatus}
use voxel_steward.TaskQueue.Service.{TaskQueueCommand, finish}

-- The fields that a cancellation, a close or the listener on the state may write while the
-- coordinator waits. `aborted` is `controller.signal.aborted`.
pub data Flag : Type 0 where
  closed port_stopped safety_stopped aborted : Flag

-- The error of a port: the three codes of `BlockOperationPortError`, or another error.
pub data PortError : Type 0 where
  unsupported disconnected operation_failed other : PortError

-- How a request raced against the wait: it was fulfilled or rejected, or the wait ended first, by
-- its time or by the signal.
pub data Raced (A : Type 0) : Type 0 where
  settled : A → Raced A
  rejected : PortError → Raced A
  elapsed : Raced A

pub data BlockOperationProgress : Type 0 where
  validated observing placing completed stopped failed : BlockOperationProgress

pub data Op : Type 0 where
  find_task : String → Op
  get_snapshot : Op
  dispatch_state : StateCommand → Op
  dispatch_task : TaskQueueCommand → Op
  read : Flag → Op
  write : Flag → Bool → Op
  read_active : Op
  write_active : Option String → Op
  stop_port : Op
  read_capability : Op
  observe : BlockPosition → Op
  place : PlaceSingleBlockInstruction → Op
  move : MovementStep → Op
  report : BlockOperationProgress → Op

-- A call that may throw or reject is answered by whether it did not; one that gives a value by
-- `none` where it did. An error of `port.stop` or of the progress listener is swallowed.
abbrev pub Answer : Op → Type 0
Answer (find_task id) = Option (Option TaskQueueItem)
Answer get_snapshot = StateSnapshot
Answer (dispatch_state command) = Bool
Answer (dispatch_task command) = Bool
Answer (read flag) = Bool
Answer (write flag value) = Unit
Answer read_active = Option String
Answer (write_active id) = Unit
Answer stop_port = Unit
Answer read_capability = Bool
Answer (observe position) = Raced BlockObservation
Answer (place instruction) = Raced (Unit {0})
Answer (move s) = Raced MovementPosition
Answer (report progress) = Unit

-- `["preparing", "running", "paused"].includes(state)`
abbrev pub is_unfinished : TaskState → Bool
is_unfinished TaskState.preparing = true
is_unfinished TaskState.running = true
is_unfinished TaskState.paused = true
is_unfinished _ = false

abbrev pub has_id : Option String → String → Bool
has_id none id = false
has_id (some i) id = str_eq i id

abbrev pub to_target : TaskQueueTerminalStatus → TaskTarget
to_target TaskQueueTerminalStatus.completed = TaskTarget.completed
to_target TaskQueueTerminalStatus.failed = TaskTarget.failed
to_target TaskQueueTerminalStatus.stopped = TaskTarget.stopped

abbrev pub is_idle : TaskState → Bool
is_idle TaskState.idle = true
is_idle _ = false

-- A code that may throw an `E`.
abbrev pub Code : Type 0 → Type 0 → Type 0
Code E A = Program Op Answer (Result E A)

-- How a call of a port ended: `PortResult`, and `StepOutcome`.
pub data PortResult (A : Type 0) : Type 0 where
  value : A → PortResult A
  timed_out call_cancelled : PortResult A
  call_failed : PortError → PortResult A

module _ {E : Type 0} where
  unfoldable pub commit_state : E → StateCommand → Code E (Unit {0})
  commit_state e command = do
    accepted ← ask (dispatch_state command)
    (if accepted then return tt else throw e)

  unfoldable pub commit_task : E → TaskQueueCommand → Code E (Unit {0})
  commit_task e command = do
    accepted ← ask (dispatch_task command)
    (if accepted then return tt else throw e)

  -- The rejection of `find` is thrown.
  unfoldable pub or_throw : E → Option (Option TaskQueueItem) → Code E (Option TaskQueueItem)
  or_throw e none = throw e
  or_throw e (some item) = return item

  -- `#stopPortOnce`
  unfoldable pub stop_port_once : Code E (Unit {0})
  stop_port_once = do
    was_stopped ← ask (read port_stopped)
    (if was_stopped then return tt else (ask (write port_stopped true) >> ask stop_port))

  -- `#finalize`, which throws `e`.
  unfoldable pub finalize : E → String → TaskQueueTerminalStatus → Code E (Unit {0})
  finalize e id outcome = do
    snapshot ← ask get_snapshot
    (if has_id snapshot.task.id id && is_unfinished snapshot.task.state
        then commit_state e (task_transition (to_target outcome))
        else return tt)
    commit_task e (finish id outcome)

  module _ {A : Type 0} where
    -- The outcome of the race, with the signal as it is then.
    unfoldable pub settle_race : Raced A → Code E (PortResult A)
    settle_race (settled a) = return (value a)
    settle_race (rejected e) = do
      is_aborted ← ask (read aborted)
      return (if is_aborted then call_cancelled else call_failed e)
    settle_race elapsed = do
      is_aborted ← ask (read aborted)
      return (if is_aborted then call_cancelled else timed_out)

    -- `#invoke`, and `#executeStep`: the signal is read at the call and again when the request
    -- starts.
    unfoldable pub invoke : Code E (Raced A) → Code E (PortResult A)
    invoke operation = do
      is_aborted ← ask (read aborted)
      (if is_aborted then return call_cancelled else do
        is_late ← ask (read aborted)
        raced ← if is_late then return (rejected operation_failed) else operation
        settle_race raced)
