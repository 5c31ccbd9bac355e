-- ===== src/State/Runtime.antt =====
-- `#apply` of src/domain/state/state-store.ts: the commands on the runtime and the schedule.
use voxel_steward.Base.{String, Bool, true, false, ◌&&◌, some, [], ◌∷◌, if◌then◌else◌, ok, err}
use voxel_steward.Scheduler.{SchedulePhase, ScheduleIntent}
use voxel_steward.State.{
  RuntimeState, StateSnapshot, SanitizedError, invalid_state_command, invalid_state_transition,
  ◌>>◌, require, assert_runtime_transition, assert_non_empty,
}
use voxel_steward.State.Schedule.{
  intent_window, intent_evaluated_at, intent_type, is_valid_intent, is_recorded,
}
use voxel_steward.State.Command.{Applied, same_text}

abbrev pub same_runtime : RuntimeState → RuntimeState → Bool
same_runtime RuntimeState.starting RuntimeState.starting = true
same_runtime RuntimeState.connecting RuntimeState.connecting = true
same_runtime RuntimeState.ready RuntimeState.ready = true
same_runtime RuntimeState.reconnecting RuntimeState.reconnecting = true
same_runtime RuntimeState.stopping RuntimeState.stopping = true
same_runtime RuntimeState.stopped RuntimeState.stopped = true
same_runtime RuntimeState.failed RuntimeState.failed = true
same_runtime _ _ = false

-- The runtime states that a player's detection rules out.
abbrev pub is_active_runtime : RuntimeState → Bool
is_active_runtime RuntimeState.connecting = true
is_active_runtime RuntimeState.ready = true
is_active_runtime RuntimeState.reconnecting = true
is_active_runtime _ = false

unfoldable pub apply_schedule : StateSnapshot → SchedulePhase → ScheduleIntent → Applied
apply_schedule s phase intent =
    require (is_valid_intent intent) invalid_state_command
    >> (if is_recorded s.schedule phase intent
        then ok (s, [])
        else ok (
          record s {
            schedule = some (record {
              phase = phase;
              intent = intent_type intent;
              window = intent_window intent;
              evaluated_at = intent_evaluated_at intent;
            });
          },
          "schedule" ∷ [],
        ))

unfoldable pub apply_runtime : StateSnapshot → RuntimeState → Applied
unfolding assert_runtime_transition
apply_runtime s to =
    if same_runtime s.runtime to
    then ok (s, [])
    else if s.minecraft.other_player_detected && is_active_runtime to
    then err (invalid_state_transition "runtime after player detection")
    else assert_runtime_transition s.runtime to >> ok (record s { runtime = to }, "runtime" ∷ [])

abbrev pub can_detect : RuntimeState → Bool
can_detect RuntimeState.connecting = true
can_detect RuntimeState.ready = true
can_detect _ = false

unfoldable pub apply_detection : StateSnapshot → Applied
apply_detection s =
    if s.minecraft.other_player_detected
    then ok (s, [])
    else require (can_detect s.runtime) (invalid_state_transition "player detection")
      >> ok (
        record s {
          runtime = RuntimeState.stopping;
          minecraft = record s.minecraft { other_player_detected = true };
          stop_reason = some "other_player_detected";
        },
        "minecraft.otherPlayerDetected" ∷ "stopReason" ∷ "runtime" ∷ [],
      )

unfoldable pub apply_stop_reason : StateSnapshot → String → Applied
unfolding assert_non_empty
apply_stop_reason s reason =
    assert_non_empty reason
    >> (if same_text s.stop_reason (some reason)
        then ok (s, [])
        else ok (record s { stop_reason = some reason }, "stopReason" ∷ []))

unfoldable pub apply_error : StateSnapshot → SanitizedError → Applied
unfolding assert_non_empty
apply_error s error = assert_non_empty error.message >> ok (s, "lastError" ∷ [])
