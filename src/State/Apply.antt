-- ===== src/State/Apply.antt =====
-- The `switch` of `#apply` of src/domain/state/state-store.ts.
use voxel_steward.State.{
  StateSnapshot, StateCommand, schedule_intent_record, runtime_transition,
  minecraft_connection_transition, minecraft_spawn_update, minecraft_telemetry_update,
  minecraft_telemetry_invalidate, safety_other_player_detected, task_prepare, task_transition,
  task_progress_update, task_reset, runtime_stop_reason_record, runtime_error_record,
}
use voxel_steward.State.Command.{Applied}
use voxel_steward.State.Runtime.{
  apply_schedule, apply_runtime, apply_detection, apply_stop_reason, apply_error,
}
use voxel_steward.State.Minecraft.{apply_connection, apply_spawn, apply_telemetry, apply_invalidate}
use voxel_steward.State.Task.{
  apply_task_prepare, apply_task_transition, apply_task_progress, apply_task_reset,
}

-- The `switch` of `#apply`.
unfoldable pub apply : StateSnapshot → StateCommand → Applied
apply s (schedule_intent_record phase intent) = apply_schedule s phase intent
apply s (runtime_transition to) = apply_runtime s to
apply s (minecraft_connection_transition to) = apply_connection s to
apply s (minecraft_spawn_update completed) = apply_spawn s completed
apply s (minecraft_telemetry_update telemetry) = apply_telemetry s telemetry
apply s minecraft_telemetry_invalidate = apply_invalidate s
apply s safety_other_player_detected = apply_detection s
apply s (task_prepare task_id task_type) = apply_task_prepare s task_id task_type
apply s (task_transition to) = apply_task_transition s to
apply s (task_progress_update progress message) = apply_task_progress s progress message
apply s task_reset = apply_task_reset s
apply s (runtime_stop_reason_record reason) = apply_stop_reason s reason
apply s (runtime_error_record error) = apply_error s error
