-- ===== src/BlockCoordinator.antt =====
-- The coordinator that carries out one placement,
-- src/application/block-operation/block-operation-coordinator.ts. Its early returns are branches;
-- a stage is what `execute` does from one check on.
pub mod Promise
pub mod Steps
pub mod Stages
pub mod Laws
mod Tests
use voxel_steward.Base.{
  String, Bool, true, false, not, ◌&&◌, ◌||◌, Option, none, some, if◌then◌else◌, str_eq, is_some,
  Number, infinity, nat, num_eq, num_lt, Result, ok, err, ◌==◌,
}
use voxel_steward.Program.{Program, done, effect, bind, ask, return, throw, ◌>>=◌, ◌>>◌, catching}
use voxel_steward.Movement.{MovementPosition}
use voxel_steward.Movement.Plan.{FloatOps}
use voxel_steward.BlockOperation.{
  BlockPosition, BlockObservation, PlaceSingleBlockInstruction, validate_block_observation,
  validate_block_operation_instruction, block_operation_instruction_equals,
}
use voxel_steward.State.{
  StateSnapshot, Position, TaskState, TaskTarget, task_prepare, task_transition,
}
use voxel_steward.Safety.{start, continue, evaluate}
use voxel_steward.SafetyQueue.{allows}
use voxel_steward.TaskQueue.{
  TaskQueueItem, TaskDetails, DetailInstruction, place_single_dirt, TaskQueueTerminalStatus,
  is_claimed, is_not_started, accepts,
}
use voxel_steward.TaskQueue.Service.{mark_delivery_started, mark_verified}
use voxel_steward.Coordinator.{
  Flag, closed, port_stopped, safety_stopped, aborted, PortError, unsupported, operation_failed,
  other, Raced, rejected, PortResult, value, timed_out, call_cancelled, call_failed,
  BlockOperationProgress, Op, find_task, get_snapshot, read, write, read_active, write_active,
  read_capability, observe, place, report, Answer, Code, commit_state, commit_task, or_throw,
  stop_port_once, finalize, invoke, has_id, is_idle,
}

-- The reasons of a `PortResult` of kind `error`.
pub data PortFailure : Type 0 where
  unsupported_adapter disconnected port_error : PortFailure

pub data FailureReason : Type 0 where
  invalid_instruction task_not_claimed task_state_conflict invalid_position out_of_reach
        unexpected_before unsupported_support unexpected_after timeout finalization_error :
      FailureReason
  port_failure : PortFailure → FailureReason

pub data StopReason : Type 0 where
  safety_stop cancelled : StopReason

pub data BlockOperationResult : Type 0 where
  completed : BlockObservation → BlockOperationResult
  stopped : StopReason → BlockOperationResult
  failed : FailureReason → BlockOperationResult

-- A thrown error, with `finalizationAttempted` as it is when the error is caught: `execute` returns
-- right after a finalization, so it is set exactly for an error from within one.
pub data Thrown : Type 0 where
  before_finalization in_finalization : Thrown

abbrev pub Body : Type 0 → Type 0
Body A = Code Thrown A

-- How the promise of `execute` rejects; `escaped` is an error that its handler would let through.
pub data CallError : Type 0 where
  block_operation_closed block_operation_already_active : CallError
  escaped : Thrown → CallError

-- `finalize(outcome)` and the return after it.
abbrev pub stop_with : String → StopReason → Body BlockOperationResult
stop_with id reason = do
  finalize in_finalization id TaskQueueTerminalStatus.stopped
  return (stopped reason)

abbrev pub fail_with : String → FailureReason → Body BlockOperationResult
fail_with id reason = do
  finalize in_finalization id TaskQueueTerminalStatus.failed
  return (failed reason)

abbrev pub stop_port_and : String → StopReason → Body BlockOperationResult
stop_port_and id reason = stop_port_once >> stop_with id reason

abbrev pub failure_of : PortError → PortFailure
failure_of unsupported = unsupported_adapter
failure_of PortError.disconnected = PortFailure.disconnected
failure_of operation_failed = port_error
failure_of other = port_error

-- `#portFailure`, and the rest for a value.
unfoldable pub on_value :
    {A : Type 0}
    → String
    → PortResult A
    → (A → Body BlockOperationResult)
    → Body BlockOperationResult
on_value id (value a) rest = rest a
on_value id timed_out rest = stop_port_once >> fail_with id timeout
on_value id call_cancelled rest = do
  stop_port_once
  finalize in_finalization id TaskQueueTerminalStatus.stopped
  is_unsafe ← ask (read safety_stopped)
  return (stopped (if is_unsafe then safety_stop else cancelled))
on_value id (call_failed e) rest = stop_port_once >> fail_with id (port_failure (failure_of e))

-- `#matches`
unfoldable pub matches : BlockObservation → BlockPosition → Bool
matches o p =
    num_eq o.position.x p.x
    && num_eq o.position.y p.y
    && num_eq o.position.z p.z
    && str_eq o.position.dimension p.dimension

-- The observation is valid, of this position and with an accepted type of block.
unfoldable pub is_observed : BlockObservation → BlockPosition → Bool → Bool
is_observed o p has_type = accepts (validate_block_observation o) && matches o p && has_type

-- The operation of the third `#invoke`: the last checks before the one call that changes the world.
unfoldable pub send : PlaceSingleBlockInstruction → Body (Raced (Unit {0}))
send command = do
  is_aborted ← ask (read aborted)
  (if is_aborted then return (rejected operation_failed) else do
    snapshot ← ask get_snapshot
    (if allows (evaluate snapshot continue) then ask (place command) else do
      ask (write safety_stopped true)
      ask (write aborted true)
      stop_port_once
      return (rejected operation_failed)))

abbrev pub is_placement_of : PlaceSingleBlockInstruction → TaskDetails → Bool
is_placement_of command d = num_eq d.version (nat 1) && elim d.instruction [
  | place_single_dirt i ↦ block_operation_instruction_equals i command
  | _ ↦ false
]

-- The task was claimed for this command, and nothing was delivered for it yet.
unfoldable pub is_claimed_for : PlaceSingleBlockInstruction → Option TaskQueueItem → Bool
is_claimed_for command none = false
is_claimed_for command (some item) =
    is_claimed item.status
    && str_eq item.task_type command.task_type
    && num_eq item.max_attempts (nat 1)
    && item.attempts == 1
    && is_not_started item.execution_phase
    && elim item.details [ none ↦ false | some d ↦ is_placement_of command d ]

-- From the observation after the placement on.
unfoldable pub verify : PlaceSingleBlockInstruction → BlockObservation → Body BlockOperationResult
verify command after =
    if is_observed after command.target (str_eq after.block_type command.expected_after)
    then (do
      commit_task before_finalization (mark_verified command.task_id)
      finalize in_finalization command.task_id TaskQueueTerminalStatus.completed
      ask (report BlockOperationProgress.completed)
      return (completed after))
    else fail_with command.task_id unexpected_after

-- From the answer to the placement on.
unfoldable pub confirm : PlaceSingleBlockInstruction → Body BlockOperationResult
confirm command = do
  is_aborted ← ask (read aborted)
  (if is_aborted then stop_port_and command.task_id cancelled else do
    snapshot ← ask get_snapshot
    (if allows (evaluate snapshot continue)
        then (do
          after ← invoke (ask (observe command.target))
          on_value command.task_id after (verify command))
        else stop_port_and command.task_id safety_stop))

-- From the last check of safety before the placement on.
unfoldable pub deliver : PlaceSingleBlockInstruction → Body BlockOperationResult
deliver command = do
  snapshot ← ask get_snapshot
  (if allows (evaluate snapshot continue)
      then (do
        commit_state before_finalization (task_prepare command.task_id command.task_type)
        commit_state before_finalization (task_transition TaskTarget.running)
        ask (report BlockOperationProgress.placing)
        commit_task before_finalization (mark_delivery_started command.task_id)
        placed ← invoke (send command)
        on_value command.task_id placed (λ _. confirm command))
      else stop_port_and command.task_id safety_stop)

abbrev pub is_solid : BlockObservation → Bool
is_solid o = not (str_eq o.block_type "air")

unfoldable pub check_support :
    PlaceSingleBlockInstruction → BlockObservation → Body BlockOperationResult
check_support command support =
    if is_observed support command.support.position (is_solid support)
    then deliver command
    else fail_with command.task_id unsupported_support

unfoldable pub check_before :
    PlaceSingleBlockInstruction → BlockObservation → Body BlockOperationResult
check_before command before =
    if is_observed before command.target (str_eq before.block_type command.expected_before)
    then (do
      support ← invoke (ask (observe command.support.position))
      on_value command.task_id support (check_support command))
    else fail_with command.task_id unexpected_before

-- From the two progress reports on.
unfoldable pub observe_before : PlaceSingleBlockInstruction → Body BlockOperationResult
observe_before command = do
  ask (report BlockOperationProgress.validated)
  ask (report BlockOperationProgress.observing)
  before ← invoke (ask (observe command.target))
  on_value command.task_id before (check_before command)

module _ (ops : FloatOps) where
  -- `blockDistance`
  unfoldable pub block_distance : MovementPosition → BlockPosition → Number
  block_distance a b =
      if str_eq a.dimension b.dimension
      then ops.hypot (ops.sub a.x b.x) (ops.sub a.y b.y) (ops.sub a.z b.z)
      else infinity

  unfoldable pub is_out_of_reach : PlaceSingleBlockInstruction → Position → String → Bool
  is_out_of_reach command p dimension =
      not (str_eq command.target.dimension dimension)
      || num_lt command.max_reach (
          block_distance (record { x = p.x; y = p.y; z = p.z; dimension = dimension })
            command.target)

  -- From the position of the player on.
  unfoldable pub check_position :
      PlaceSingleBlockInstruction → Option Position → Option String → Body BlockOperationResult
  check_position command none dimension = fail_with command.task_id invalid_position
  check_position command (some p) none = fail_with command.task_id invalid_position
  check_position command (some p) (some dimension) =
      if is_out_of_reach command p dimension then fail_with command.task_id out_of_reach else do
        is_supported ← ask read_capability
        (if is_supported
            then observe_before command
            else fail_with command.task_id (port_failure unsupported_adapter))

  unfoldable pub check_start : PlaceSingleBlockInstruction → Body BlockOperationResult
  check_start command = do
    snapshot ← ask get_snapshot
    (if not (is_idle snapshot.task.state)
        then fail_with command.task_id task_state_conflict
        else if allows (evaluate snapshot start)
        then check_position command snapshot.minecraft.position snapshot.minecraft.dimension
        else stop_port_and command.task_id safety_stop)

  -- The `try` block.
  unfoldable pub carry_out : PlaceSingleBlockInstruction → Body BlockOperationResult
  carry_out command = do
    found ← ask (find_task command.task_id)
    claimed ← or_throw before_finalization found
    (if is_claimed_for command claimed
        then check_start command
        else return (failed task_not_claimed))

-- The `catch` block.
unfoldable pub recover : String → Thrown → Body BlockOperationResult
recover id in_finalization = do
  stop_port_once
  ask (report BlockOperationProgress.failed)
  return (failed finalization_error)
recover id before_finalization = do
  stop_port_once
  reason ←
      catching
        (finalize in_finalization id TaskQueueTerminalStatus.failed
          >> return (port_failure port_error))
        (λ _. return finalization_error)
  ask (report BlockOperationProgress.failed)
  return (failed reason)

-- The `finally` block; only one execution is active, so `#active` is this one's.
unfoldable pub clean_up : String → Body (Unit {0})
clean_up id = do
  ask (write aborted true)
  active ← ask read_active
  (if has_id active id then ask (write_active none) else return tt)

-- From `new AbortController()` to the end of `finally`.
unfoldable pub supervise :
    String → Body BlockOperationResult → Program Op Answer (Result CallError BlockOperationResult)
supervise id body = do
  ask (write_active (some id))
  ask (write aborted false)
  ask (write port_stopped false)
  ask (write safety_stopped false)
  bind (catching body (recover id))
      λ result. bind (clean_up id) λ _. elim result [ ok r ↦ return r | err e ↦ throw (escaped e) ]

unfoldable pub execute :
    FloatOps
    → PlaceSingleBlockInstruction
    → Program Op Answer (Result CallError BlockOperationResult)
execute ops command = do
  is_closed ← ask (read closed)
  active ← ask read_active
  (if is_closed
      then throw block_operation_closed
      else if is_some active
      then throw block_operation_already_active
      else if accepts (validate_block_operation_instruction command)
      then supervise command.task_id (carry_out ops command)
      else (ask (report BlockOperationProgress.failed) >> return (failed invalid_instruction)))

-- The listener on the state store while an execution runs.
unfoldable pub on_state_change : Body (Unit {0})
on_state_change = do
  snapshot ← ask get_snapshot
  (if allows (evaluate snapshot continue)
      then return tt
      else (ask (write safety_stopped true) >> ask (write aborted true) >> stop_port_once))

unfoldable pub cancel : Body (Unit {0})
cancel = do
  active ← ask read_active
  is_aborted ← ask (read aborted)
  (if is_some active && not is_aborted
      then (ask (write aborted true) >> stop_port_once)
      else return tt)

unfoldable pub close : Body (Unit {0})
close = do
  is_closed ← ask (read closed)
  (if is_closed then return tt else do
    ask (write closed true)
    active ← ask read_active
    is_aborted ← ask (read aborted)
    (if is_some active && not is_aborted then ask (write aborted true) else return tt)
    stop_port_once)
