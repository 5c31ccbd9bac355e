-- ===== src/TaskExecutor/Tests.antt =====
-- A run of the executor that records a position.
use voxel_steward.Base.{true, false, none, some, nat, [], ◌∷◌}
use voxel_steward.Program.{run}
use voxel_steward.Program.Protocol.{Accepts}
use voxel_steward.Movement.Tests.{origin}
use voxel_steward.State.{TaskState}
use voxel_steward.SimpleWork.{SimpleWorkInstruction}
use voxel_steward.TaskQueue.{TaskQueueItem, record_position}
use voxel_steward.TaskQueue.Tests.{taken}
use voxel_steward.SimpleWorkCoordinator.{recorded}
use voxel_steward.TaskExecutor.{
  Op, read_closed, set_closed, read_active, write_active, claim_next, get_state, dispatch_state,
  enforce, stop_task, work, finish, report, Answer, process_next,
}
use voxel_steward.TaskExecutor.Promise.{Phase, fresh, execution}
use voxel_steward.TaskExecutor.Laws.{process_next-Accepts}

abbrev instruction : SimpleWorkInstruction
instruction = record {
  keys = "taskId" ∷ "taskType" ∷ [];
  task_id = "inspect-1";
  task_type = "record_position";
  target = none;
  limits = none;
  expected = none;
  tolerance = none;
}

abbrev item : TaskQueueItem
item = record taken {
  task_type = "record_position";
  details = some (record {
    keys = "version" ∷ "kind" ∷ "instruction" ∷ [];
    version = nat 1;
    instruction = record_position instruction;
  });
}

-- Every call succeeds, and the policy lets the work go on.
abbrev reply : Unit {0} → (o : Op) → Answer o × Unit {0}
reply w read_closed = (false, w)
reply w set_closed = (tt, w)
reply w read_active = (none, w)
reply w (write_active id) = (tt, w)
reply w claim_next = (some (some item), w)
reply w get_state = (TaskState.idle, w)
reply w (dispatch_state command) = (true, w)
reply w (enforce id) = (some false, w)
reply w (stop_task id) = (true, w)
reply w (work i) = (some (recorded origin), w)
reply w (finish id outcome) = (true, w)
reply w (report code) = (tt, w)

process_next-Accepts_example : (q : Phase) × Accepts execution fresh (run reply process_next tt).2 q
process_next-Accepts_example = process_next-Accepts reply tt
