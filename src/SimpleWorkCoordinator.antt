-- ===== src/SimpleWorkCoordinator.antt =====
-- `SimpleWorkCoordinator` of src/application/simple-work/simple-work-coordinator.ts. What
-- `readPosition` gives and how the movement coordinator answers a command are arguments. The result
-- comes with the progress that is reported on the way; it is none where `execute` would reject.
pub mod Laws
mod Tests
use voxel_steward.Base.{
  ℕ, zero, ◌-◌, ◌^◌, String, Bool, true, false, not, ◌&&◌, ◌||◌, Option, none, some, List, [], ◌∷◌,
  ◌++◌, if◌then◌else◌, str_eq, Number, num, pos, negsuc, num_lt, Result, ok, err,
}
use voxel_steward.Movement.{MovementPosition, validate_movement_position}
use voxel_steward.Movement.Plan.{FloatOps, is_within_arrival_tolerance}
use voxel_steward.MovementCoordinator.{
  MovementCommand, MovementResult, StopReason, FailureReason, movement_port_error,
}
use voxel_steward.SimpleWork.{
  SimpleWorkInstruction, PositionShape, LimitsShape, validate_simple_work_instruction,
}
use voxel_steward.TaskQueue.{accepts}

pub data ProgressPhase : Type 0 where
  validated executing completed stopped failed : ProgressPhase

-- The `progress` of a phase is 1 for `completed` and 0 for the others.
pub record SimpleWorkProgress : Type 0 where
  pub phase : ProgressPhase
  pub steps_completed : Option ℕ

pub data WorkFailure : Type 0 where
  invalid_instruction position_unavailable invalid_observed_position unsupported_navigation :
      WorkFailure
  movement_failure : FailureReason → WorkFailure

pub data SimpleWorkResult : Type 0 where
  navigated : MovementPosition → ℕ → SimpleWorkResult
  arrival : MovementPosition → Bool → SimpleWorkResult
  recorded : MovementPosition → SimpleWorkResult
  work_stopped : StopReason → ℕ → SimpleWorkResult
  work_failed : String → WorkFailure → Option ℕ → SimpleWorkResult

abbrev pub Work : Type 0
Work = Option (SimpleWorkResult × List SimpleWorkProgress)

abbrev pub at_phase : ProgressPhase → SimpleWorkProgress
at_phase phase = record { phase = phase; steps_completed = none }

abbrev after_steps : ProgressPhase → ℕ → SimpleWorkProgress
after_steps phase n = record { phase = phase; steps_completed = some n }

-- What is reported before a result.
unfoldable pub ends_with : List SimpleWorkProgress → SimpleWorkProgress → SimpleWorkResult → Work
ends_with before last result = some (result, before ++ last ∷ [])

unfoldable pub fails : List SimpleWorkProgress → String → WorkFailure → Work
fails before task_type reason =
    ends_with before (at_phase ProgressPhase.failed) (work_failed task_type reason none)

-- 2^-52, in units of 2^-1074, and its negation.
abbrev epsilon : Number
epsilon = num (pos 0) (2 ^ 1022)

abbrev minus_epsilon : Number
minus_epsilon = num (negsuc 0) (2 ^ 1074 - 2 ^ 1022)

-- `Math.abs(difference) > Number.EPSILON`
unfoldable pub exceeds_epsilon : Number → Bool
exceeds_epsilon difference = num_lt epsilon difference || num_lt difference minus_epsilon

-- From the answer of the movement on; none where its promise rejects.
unfoldable pub navigation_result : List SimpleWorkProgress → Option MovementResult → Work
navigation_result before none =
    ends_with before (after_steps ProgressPhase.failed 0)
      (work_failed "navigate_to" (movement_failure movement_port_error) (some 0))
navigation_result before (some (MovementResult.completed n p)) =
    ends_with before (at_phase ProgressPhase.completed) (navigated p n)
navigation_result before (some (MovementResult.stopped reason n)) =
    ends_with before (after_steps ProgressPhase.stopped n) (work_stopped reason n)
navigation_result before (some (MovementResult.failed reason n)) =
    ends_with before (after_steps ProgressPhase.failed n)
      (work_failed "navigate_to" (movement_failure reason) (some n))

abbrev pub just_validated : List SimpleWorkProgress
just_validated = at_phase ProgressPhase.validated ∷ []

module _ (ops : FloatOps) (movement : MovementCommand → Option MovementResult) where
  abbrev pub is_unsupported : MovementPosition → MovementPosition → Bool
  is_unsupported origin target =
      not (str_eq origin.dimension target.dimension) || exceeds_epsilon (ops.sub origin.y target.y)

  -- With a position that was read and is valid.
  unfoldable pub navigate_from :
      SimpleWorkInstruction → PositionShape → LimitsShape → MovementPosition → Work
  navigate_from i target limits origin =
      if is_unsupported origin target.position
      then fails just_validated "navigate_to" unsupported_navigation
      else navigation_result
          (at_phase ProgressPhase.validated ∷ at_phase ProgressPhase.executing ∷ [])
          (movement (record {
            task_id = i.task_id;
            task_type = i.task_type;
            target = target.position;
            limits = limits.limits;
          }))

  -- A target or limits that are missing would be a `TypeError`.
  unfoldable pub navigate : SimpleWorkInstruction → MovementPosition → Work
  navigate i origin = elim i.target [
    | none ↦ none
    | some target ↦ elim i.limits [
      | none ↦ none
      | some limits ↦ navigate_from i target limits origin
    ]
  ]

  unfoldable pub verify_arrival : SimpleWorkInstruction → MovementPosition → Work
  verify_arrival i position = elim i.expected [
    | none ↦ none
    | some expected ↦ elim i.tolerance [
      | none ↦ none
      | some tolerance ↦
          ends_with just_validated (at_phase ProgressPhase.completed) (
            arrival position (is_within_arrival_tolerance ops position expected.position tolerance))
    ]
  ]

  -- The work with a valid position.
  unfoldable pub work_at : SimpleWorkInstruction → MovementPosition → Work
  work_at i position =
      if str_eq i.task_type "navigate_to"
      then navigate i position
      else if str_eq i.task_type "verify_arrival"
      then verify_arrival i position
      else ends_with just_validated (at_phase ProgressPhase.completed) (recorded position)

  unfoldable pub work_from : SimpleWorkInstruction → Option MovementPosition → Work
  work_from i none = fails just_validated i.task_type position_unavailable
  work_from i (some position) =
      if accepts (validate_movement_position position)
      then work_at i position
      else fails just_validated i.task_type invalid_observed_position

  unfoldable pub execute_work : SimpleWorkInstruction → Option MovementPosition → Work
  execute_work i position =
      if accepts (validate_simple_work_instruction i)
      then work_from i position
      else fails [] i.task_type invalid_instruction
