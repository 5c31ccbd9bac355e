-- ===== src/BlockCoordinator/Tests.antt =====
-- A placement that succeeds: the task is claimed, the bot is at work beside the target, and the port
-- shows air, then the supporting block, then dirt.
use voxel_steward.Base.{
  ℕ, ◌+◌, ◌≡◌, refl, true, false, none, some, nat, [], ◌∷◌, ok, if◌then◌else◌, ◌==◌,
}
use voxel_steward.Base.Calendar.{iso}
use voxel_steward.Program.{run}
use voxel_steward.Program.Protocol.{Accepts}
use voxel_steward.Movement.Tests.{unit_ops}
use voxel_steward.BlockOperation.{
  BlockObservation, validate_block_observation, validate_block_operation_instruction,
  has_fixed_fields, has_fixed_support, is_under, has_bounds, validate_block_position, exact_keys,
  is_task_id, block_operation_instruction_equals, same_block_position,
}
use voxel_steward.BlockOperation.Tests.{placement, at_height}
use voxel_steward.State.{StateSnapshot}
use voxel_steward.Safety.Tests.{at_work}
use voxel_steward.TaskQueue.{TaskQueueItem, TaskQueueStatus, place_single_dirt, not_started}
use voxel_steward.Coordinator.{
  Op, find_task, get_snapshot, dispatch_state, dispatch_task, read, write, read_active,
  write_active, stop_port, read_capability, observe, place, move, report, Answer, settled, elapsed,
  or_throw, finalize, commit_state, commit_task, invoke, settle_race,
}
use voxel_steward.Coordinator.Promise.{Phase, fresh}
use voxel_steward.Coordinator.Log.{is_place, count_asked}
use voxel_steward.Safety.{evaluate, evaluate_body, telemetry_reason}
use voxel_steward.Movement.{validate_movement_position, finite_within}
use voxel_steward.BlockCoordinator.{
  execute, completed, supervise, carry_out, check_start, check_position, is_out_of_reach,
  block_distance, observe_before, check_before, check_support, deliver, send, confirm, verify,
  is_observed, matches, on_value, is_claimed_for, clean_up,
}
use voxel_steward.BlockCoordinator.Promise.{placement_protocol, OutcomeTells}
use voxel_steward.BlockCoordinator.Laws.{execute-Accepts}

abbrev claimed_placement : TaskQueueItem
claimed_placement = record {
  task_id = "place-1";
  task_type = "place_single_dirt";
  priority = nat 5;
  max_attempts = nat 1;
  details = some (record {
    keys = "version" ∷ "kind" ∷ "instruction" ∷ [];
    version = nat 1;
    instruction = place_single_dirt placement;
  });
  status = TaskQueueStatus.claimed;
  attempts = 1;
  created_at = iso 10;
  updated_at = iso 20;
  claimed_at = some (iso 20);
  finished_at = none;
  execution_phase = not_started;
}

abbrev beside_target : StateSnapshot
beside_target = record at_work {
  minecraft = record at_work.minecraft {
    position = some (record { x = nat 11; y = nat 65; z = nat 7 });
    dimension = some "overworld";
  };
}

abbrev seen : ℕ → BlockObservation
seen n = record {
  keys = "position" ∷ "blockType" ∷ [];
  position = if n == 1 then at_height 64 else at_height 65;
  block_type = if n == 0 then "air" else "dirt";
}

-- The world counts the observations.
abbrev answering : ℕ → (o : Op) → Answer o × ℕ
answering n (find_task id) = (some (some claimed_placement), n)
answering n get_snapshot = (beside_target, n)
answering n (dispatch_state command) = (true, n)
answering n (dispatch_task command) = (true, n)
answering n (read flag) = (false, n)
answering n (write flag value) = (tt, n)
answering n read_active = (none, n)
answering n (write_active id) = (tt, n)
answering n stop_port = (tt, n)
answering n read_capability = (true, n)
answering n (observe position) = (settled (seen n), n + 1)
answering n (place instruction) = (settled tt, n)
answering n (move s) = (elapsed, n)
answering n (report progress) = (tt, n)

execute-Accepts_example :
    (q : Phase) × Accepts
      (placement_protocol placement)
      fresh
      (run answering (execute unit_ops placement) 0).2
      q
    × OutcomeTells placement (run answering (execute unit_ops placement) 0).0 q
execute-Accepts_example = execute-Accepts placement unit_ops answering 0

succeeds :
    let r = run answering (execute unit_ops placement) 0 in
    (r.0 ≡ ok (completed (seen 2))) × (count_asked is_place r.2 ≡ 1) × (r.1 ≡ 3)
unfolding run execute supervise carry_out check_start check_position is_out_of_reach block_distance
    observe_before check_before check_support deliver send confirm verify is_observed matches
    on_value is_claimed_for clean_up or_throw finalize commit_state commit_task invoke settle_race
    evaluate evaluate_body telemetry_reason validate_block_observation
    validate_block_operation_instruction has_fixed_fields has_fixed_support is_under has_bounds
    validate_block_position exact_keys is_task_id validate_movement_position finite_within
    block_operation_instruction_equals same_block_position
succeeds = (refl, refl, refl)
