-- ===== src/SimpleWorkCoordinator/Tests.antt =====
-- A walk of one block as simple work.
use voxel_steward.Base.{none, some, [], ◌∷◌, Option}
use voxel_steward.Movement.Tests.{unit_ops, origin, beside, limits}
use voxel_steward.MovementCoordinator.{MovementCommand, MovementResult}
use voxel_steward.SimpleWork.{SimpleWorkInstruction}
use voxel_steward.SimpleWorkCoordinator.{execute_work}
use voxel_steward.SimpleWorkCoordinator.Laws.{IsReported, execute_work-IsReported}

abbrev walk : SimpleWorkInstruction
walk = record {
  keys = "taskId" ∷ "taskType" ∷ "target" ∷ "limits" ∷ [];
  task_id = "task-1";
  task_type = "navigate_to";
  target = some (record { keys = "x" ∷ "y" ∷ "z" ∷ "dimension" ∷ []; position = beside });
  limits = some (record {
    keys = "maxStepDistance" ∷ "maxSteps" ∷ "stepTimeoutMs" ∷ "arrivalTolerance" ∷ [];
    limits = limits;
  });
  expected = none;
  tolerance = none;
}

abbrev arrives : MovementCommand → Option MovementResult
arrives c = some (MovementResult.completed 1 c.target)

execute_work-IsReported_example : IsReported (execute_work unit_ops arrives walk (some origin))
execute_work-IsReported_example = execute_work-IsReported unit_ops arrives walk (some origin)
