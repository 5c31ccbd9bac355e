-- ===== src/MovementCoordinator/Tests.antt =====
-- A movement of one step that succeeds.
use voxel_steward.Base.{ℕ, ◌+◌, true, false, none, some, nat}
use voxel_steward.Program.{run}
use voxel_steward.Program.Protocol.{Accepts}
use voxel_steward.Movement.Tests.{unit_ops, origin, beside, limits}
use voxel_steward.State.{StateSnapshot}
use voxel_steward.Safety.Tests.{at_work}
use voxel_steward.TaskQueue.Tests.{taken}
use voxel_steward.Coordinator.{
  Op, find_task, get_snapshot, dispatch_state, dispatch_task, read, write, read_active,
  write_active, stop_port, read_capability, observe, place, move, report, Answer, settled, elapsed,
}
use voxel_steward.Coordinator.Promise.{Phase, fresh}
use voxel_steward.MovementCoordinator.{MovementCommand, execute}
use voxel_steward.MovementCoordinator.Promise.{movement_protocol, OutcomeTells}
use voxel_steward.MovementCoordinator.Laws.{execute_movement-Accepts}

abbrev walk_beside : MovementCommand
walk_beside = record {
  task_id = "inspect-1";
  task_type = "inspect";
  target = beside;
  limits = record limits { arrival_tolerance = nat 1 };
}

abbrev standing : StateSnapshot
standing = record at_work {
  minecraft = record at_work.minecraft {
    position = some (record { x = nat 10; y = nat 64; z = nat 7 });
    dimension = some "overworld";
  };
}

-- The world counts the steps.
abbrev answering : ℕ → (o : Op) → Answer o × ℕ
answering n (find_task id) = (some (some taken), n)
answering n get_snapshot = (standing, n)
answering n (dispatch_state command) = (true, n)
answering n (dispatch_task command) = (true, n)
answering n (read flag) = (false, n)
answering n (write flag value) = (tt, n)
answering n read_active = (none, n)
answering n (write_active id) = (tt, n)
answering n stop_port = (tt, n)
answering n read_capability = (true, n)
answering n (observe position) = (elapsed, n)
answering n (place instruction) = (elapsed, n)
answering n (move s) = (settled origin, n + 1)
answering n (report progress) = (tt, n)

execute_movement-Accepts_example :
    (q : Phase) × Accepts
      (movement_protocol unit_ops walk_beside)
      fresh
      (run answering (execute unit_ops walk_beside) 0).2
      q
    × OutcomeTells unit_ops walk_beside (run answering (execute unit_ops walk_beside) 0).0 q
execute_movement-Accepts_example = execute_movement-Accepts unit_ops walk_beside answering 0
