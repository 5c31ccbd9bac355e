-- ===== src/MovementCoordinator.antt =====
-- The coordinator that carries out one movement, src/application/movement/movement-coordinator.ts.
-- Its early returns are branches; `completed`, the count of the steps made, is a parameter of the
-- parts, and an error that is thrown carries the count at its throw.
pub mod Promise
mod Route
pub mod Steps
pub mod Walk
pub mod Stages
pub mod Laws
mod Tests
use voxel_steward.Base.{
  ℕ, ◌+◌, String, Bool, true, false, not, ◌&&◌, Option, none, some, List, [], ◌∷◌, length,
  if◌then◌else◌, str_eq, is_some, Number, nat, Result, ok, err,
}
use voxel_steward.Program.{Program, done, effect, bind, ask, return, throw, ◌>>=◌, ◌>>◌, catching}
use voxel_steward.Movement.{
  MovementPosition, MovementLimits, MovementError, invalid_movement_position,
  validate_movement_position,
}
use voxel_steward.Movement.Plan.{
  FloatOps, MovementStep, MovementPlan, create_movement_plan, is_within_arrival_tolerance,
}
use voxel_steward.State.{
  StateSnapshot, Position, Telemetry, TaskTarget, task_prepare, task_transition,
  task_progress_update, minecraft_telemetry_update,
}
use voxel_steward.Safety.{start, continue, evaluate}
use voxel_steward.SafetyQueue.{allows}
use voxel_steward.TaskQueue.{TaskQueueItem, TaskQueueTerminalStatus, is_claimed, accepts}
use voxel_steward.Coordinator.{
  port_stopped, aborted, PortResult, value, timed_out, call_cancelled, call_failed, Op, find_task,
  get_snapshot, read, write, read_active, write_active, move, Answer, Code, commit_state, or_throw,
  stop_port_once, finalize, invoke, has_id, is_idle,
}

pub record MovementCommand : Type 0 where
  pub task_id : String
  pub task_type : String
  pub target : MovementPosition
  pub limits : MovementLimits

pub data StopReason : Type 0 where
  safety_stop cancelled : StopReason

pub data FailureReason : Type 0 where
  invalid_position invalid_plan task_not_claimed task_state_conflict step_timeout
        movement_port_error target_not_reached finalization_error :
      FailureReason

-- Each with `stepsCompleted`.
pub data MovementResult : Type 0 where
  completed : ℕ → MovementPosition → MovementResult
  stopped : StopReason → ℕ → MovementResult
  failed : FailureReason → ℕ → MovementResult

-- A thrown error, with `finalizationAttempted` and `completed` as they are when it is caught:
-- `execute` returns right after a finalization, so the former is set exactly for an error from
-- within one.
pub data Thrown : Type 0 where
  before_finalization in_finalization : ℕ → Thrown

-- How the promise of `execute` rejects; `escaped` is an error that its handler would let through.
pub data CallError : Type 0 where
  movement_already_active : CallError
  escaped : Thrown → CallError

abbrev pub Body : Type 0 → Type 0
Body A = Code Thrown A

-- `finalize(outcome)` and the return after it.
abbrev pub stop_with : String → StopReason → ℕ → Body MovementResult
stop_with id reason n = do
  finalize (in_finalization n) id TaskQueueTerminalStatus.stopped
  return (stopped reason n)

abbrev pub fail_with : String → FailureReason → ℕ → Body MovementResult
fail_with id reason n = do
  finalize (in_finalization n) id TaskQueueTerminalStatus.failed
  return (failed reason n)

abbrev pub stop_port_and_stop : String → StopReason → ℕ → Body MovementResult
stop_port_and_stop id reason n = stop_port_once >> stop_with id reason n

abbrev pub stop_port_and_fail : String → FailureReason → ℕ → Body MovementResult
stop_port_and_fail id reason n = stop_port_once >> fail_with id reason n

-- The outcome of a step, and the rest for a position.
unfoldable pub on_position :
    String
    → ℕ
    → (MovementPosition → Body MovementResult)
    → PortResult MovementPosition
    → Body MovementResult
on_position id n rest (value p) = rest p
on_position id n rest timed_out = stop_port_and_fail id step_timeout n
on_position id n rest call_cancelled = stop_port_and_stop id cancelled n
on_position id n rest (call_failed e) = stop_port_and_fail id movement_port_error n

abbrev pub position_telemetry : MovementPosition → Telemetry
position_telemetry p = record {
  position = some (record { x = p.x; y = p.y; z = p.z });
  dimension = some p.dimension;
  health = none;
  hunger = none;
}

abbrev pub at : Position → String → MovementPosition
at p dimension = record { x = p.x; y = p.y; z = p.z; dimension = dimension }

module _ (ops : FloatOps) (command : MovementCommand) where
  abbrev pub is_near : MovementPosition → MovementPosition → Bool
  is_near p target = is_within_arrival_tolerance ops p target command.limits.arrival_tolerance

  -- `completed / plan.steps.length`, of a plan with a step.
  abbrev pub progress_of : ℕ → ℕ → Number
  progress_of n total = ops.div (nat n) (nat total)

  -- From the two dispatches after a step on.
  unfoldable pub advance : ℕ → ℕ → MovementPosition → Body MovementResult → Body MovementResult
  advance total n position next = do
    commit_state (before_finalization n) (minecraft_telemetry_update (position_telemetry position))
    commit_state (before_finalization (n + 1))
        (task_progress_update (progress_of (n + 1) total) none)
    snapshot ← ask get_snapshot
    (if allows (evaluate snapshot continue)
        then next
        else stop_port_and_stop command.task_id safety_stop (n + 1))

  -- From the position that a step gave on.
  unfoldable pub check_step :
      ℕ → ℕ → MovementStep → Body MovementResult → MovementPosition → Body MovementResult
  check_step total n s next position = do
    is_aborted ← ask (read aborted)
    (if is_aborted
        then stop_port_and_stop command.task_id cancelled n
        else if not (accepts (validate_movement_position position))
        then stop_port_and_fail command.task_id invalid_position n
        else if is_near position s.target
        then advance total n position next
        else stop_port_and_fail command.task_id target_not_reached n)

  -- The body of the loop; `next` is what comes after it.
  unfoldable pub take_step : ℕ → ℕ → MovementStep → Body MovementResult → Body MovementResult
  take_step total n s next = do
    snapshot ← ask get_snapshot
    (if allows (evaluate snapshot continue)
        then (do
          outcome ← invoke (ask (move s))
          on_position command.task_id n (check_step total n s next) outcome)
        else stop_port_and_stop command.task_id safety_stop n)

  -- After the loop, with the position and dimension of the last snapshot. The last step's target is
  -- defined where there is a step, so `finalPosition` always is.
  unfoldable pub arrive : ℕ → Option Position → Option String → Body MovementResult
  arrive n none dimension = stop_port_and_fail command.task_id target_not_reached n
  arrive n (some p) none = stop_port_and_fail command.task_id target_not_reached n
  arrive n (some p) (some dimension) =
      if is_near (at p dimension) command.target
      then (do
        is_aborted ← ask (read aborted)
        (if is_aborted then stop_port_and_stop command.task_id cancelled n else do
          finalize (in_finalization n) command.task_id TaskQueueTerminalStatus.completed
          return (completed n (at p dimension))))
      else stop_port_and_fail command.task_id target_not_reached n

  -- The loop over the steps, and what follows it.
  unfoldable pub walk : ℕ → ℕ → List MovementStep → Body MovementResult
  walk total n [] = do
    snapshot ← ask get_snapshot
    arrive n snapshot.minecraft.position snapshot.minecraft.dimension
  walk total n (s ∷ rest) = take_step total n s (walk total (n + 1) rest)

  abbrev pub plan_failure : MovementError → FailureReason
  plan_failure invalid_movement_position = invalid_position
  plan_failure _ = invalid_plan

  unfoldable pub follow : Result MovementError MovementPlan → Body MovementResult
  follow (err e) = fail_with command.task_id (plan_failure e) 0
  follow (ok plan) = do
    commit_state (before_finalization 0) (task_prepare command.task_id command.task_type)
    commit_state (before_finalization 0) (task_transition TaskTarget.running)
    walk (length plan.steps) 0 plan.steps

  -- From the position of the player on.
  unfoldable pub check_position : Option Position → Option String → Body MovementResult
  check_position none dimension = fail_with command.task_id invalid_position 0
  check_position (some p) none = fail_with command.task_id invalid_position 0
  check_position (some p) (some dimension) =
      follow (create_movement_plan ops (at p dimension) command.target command.limits)

  abbrev pub is_claimed_for : Option TaskQueueItem → Bool
  is_claimed_for none = false
  is_claimed_for (some item) = is_claimed item.status && str_eq item.task_type command.task_type

  unfoldable pub check_start : Body MovementResult
  check_start = do
    snapshot ← ask get_snapshot
    (if not (is_idle snapshot.task.state)
        then return (failed task_state_conflict 0)
        else if allows (evaluate snapshot start)
        then check_position snapshot.minecraft.position snapshot.minecraft.dimension
        else stop_with command.task_id safety_stop 0)

  -- The `try` block.
  unfoldable pub carry_out : Body MovementResult
  carry_out = do
    found ← ask (find_task command.task_id)
    claimed ← or_throw (before_finalization 0) found
    (if is_claimed_for claimed then check_start else return (failed task_not_claimed 0))

-- The `catch` block.
unfoldable pub recover : String → Thrown → Body MovementResult
recover id (in_finalization n) = stop_port_once >> return (failed finalization_error n)
recover id (before_finalization n) = do
  stop_port_once
  reason ←
      catching
        (finalize (in_finalization n) id TaskQueueTerminalStatus.failed
          >> return movement_port_error)
        (λ _. return finalization_error)
  return (failed reason n)

-- The `finally` block, and the return or the throw.
unfoldable pub clean_up :
    String → Result Thrown MovementResult → Program Op Answer (Result CallError MovementResult)
clean_up id result = do
  active ← ask read_active
  (if has_id active id then ask (write_active none) else return tt)
  elim result [ ok r ↦ return r | err e ↦ throw (escaped e) ]

-- From `new AbortController()` to the end of `finally`.
unfoldable pub supervise :
    String → Body MovementResult → Program Op Answer (Result CallError MovementResult)
supervise id body = do
  ask (write aborted false)
  ask (write_active (some id))
  ask (write port_stopped false)
  bind (catching body (recover id)) (clean_up id)

unfoldable pub execute :
    FloatOps → MovementCommand → Program Op Answer (Result CallError MovementResult)
execute ops command = do
  active ← ask read_active
  (if is_some active
      then throw movement_already_active
      else supervise command.task_id (carry_out ops command))

unfoldable pub cancel : Body (Unit {0})
cancel = do
  active ← ask read_active
  is_aborted ← ask (read aborted)
  (if is_some active && not is_aborted
      then (ask (write aborted true) >> stop_port_once)
      else return tt)
