-- ===== src/State/Consistency.antt =====
-- Consistent snapshots, and what each command of `#apply` of src/domain/state/state-store.ts keeps.
use voxel_steward.Base.{
  ℕ, ◌≡◌, ◌≢◌, String, Bool, true, false, not, ◌&&◌, Option, none, some, List, Number, nat,
  is_finite, num_lt, is_some, ok, arith,
}
use voxel_steward.Base.Calendar.{DateText}
use voxel_steward.State.{
  RuntimeState, MinecraftConnectionState, TaskState, TelemetryStatus, Position, MinecraftState,
  TaskProgressState, StateSnapshot, StateCommand, schedule_intent_record,
}
use voxel_steward.State.Command.{is_terminal_task}
use voxel_steward.State.Runtime.{
  apply_schedule, apply_runtime, apply_detection, apply_stop_reason, apply_error,
}
use voxel_steward.State.Minecraft.{apply_connection, apply_spawn, apply_telemetry, apply_invalidate}
use voxel_steward.State.Task.{
  apply_task_prepare, apply_task_transition, apply_task_progress, apply_task_reset,
}
use voxel_steward.State.Apply.{apply}
use voxel_steward.State.Dispatch.{initial_snapshot, stamp_task}

-- Whether every number that is there is finite.
abbrev pub finite_number : Option Number → Bool
finite_number none = true
finite_number (some n) = is_finite n

abbrev pub finite_position : Option Position → Bool
finite_position none = true
finite_position (some p) = is_finite p.x && is_finite p.y && is_finite p.z

-- From 0 through 1, where it is there.
abbrev pub is_share : Option Number → Bool
is_share none = true
is_share (some n) = is_finite n && not (num_lt n (nat 0)) && not (num_lt (nat 1) n)

abbrev pub is_shut_down : RuntimeState → Bool
is_shut_down RuntimeState.stopping = true
is_shut_down RuntimeState.stopped = true
is_shut_down RuntimeState.failed = true
is_shut_down _ = false

abbrev pub has_run : TaskState → Bool
has_run TaskState.running = true
has_run TaskState.paused = true
has_run TaskState.completed = true
has_run _ = false

abbrev pub is_idle : TaskState → Bool
is_idle TaskState.idle = true
is_idle _ = false

pub record MinecraftIsConsistent (m : MinecraftState) : Type 0 where
  pub spawned : m.spawn_completed ≡ true → m.connection ≡ MinecraftConnectionState.spawned
  pub blank :
      m.telemetry_status ≢ TelemetryStatus.valid
      → (m.position ≡ none) × (m.dimension ≡ none) × (m.health ≡ none) × (m.hunger ≡ none)
  pub position_finite : finite_position m.position ≡ true
  pub health_finite : finite_number m.health ≡ true
  pub hunger_finite : finite_number m.hunger ≡ true

pub record TaskIsConsistent (t : TaskProgressState) : Type 0 where
  pub named : is_some t.id ≡ not (is_idle t.state)
  pub finished : is_some t.finished_at ≡ is_terminal_task t.state
  pub started : has_run t.state ≡ true → is_some t.started_at ≡ true
  pub share : is_share t.progress ≡ true

-- A detected player keeps the runtime on its way down, with a reason on record.
abbrev pub DetectionIsKept : StateSnapshot → Type 0
DetectionIsKept s =
    s.minecraft.other_player_detected ≡ true
    → (is_shut_down s.runtime ≡ true) × (is_some s.stop_reason ≡ true)

pub record IsConsistent (s : StateSnapshot) : Type 0 where
  pub minecraft : MinecraftIsConsistent s.minecraft
  pub task : TaskIsConsistent s.task
  pub detection : DetectionIsKept s

pub initial_snapshot-IsConsistent : (t : ℕ) → IsConsistent (initial_snapshot t)
unfolding initial_snapshot
initial_snapshot-IsConsistent t = ground arith

-- An accepted command keeps the connection's part consistent.
pub apply-MinecraftIsConsistent :
    (s : StateSnapshot) (c : StateCommand) (t : StateSnapshot) (fields : List String)
    → apply s c ≡ ok (t, fields)
    → MinecraftIsConsistent s.minecraft
    → MinecraftIsConsistent t.minecraft
unfolding apply apply_schedule apply_runtime apply_detection apply_stop_reason apply_error
    apply_connection apply_spawn apply_telemetry apply_invalidate apply_task_prepare
    apply_task_transition apply_task_progress apply_task_reset
apply-MinecraftIsConsistent s (schedule_intent_record phase intent) t fields e w = ground arith
apply-MinecraftIsConsistent s _ t fields e w = ground arith

-- So it does with a detection.
pub apply-DetectionIsKept :
    (s : StateSnapshot) (c : StateCommand) (t : StateSnapshot) (fields : List String)
    → apply s c ≡ ok (t, fields)
    → DetectionIsKept s
    → DetectionIsKept t
unfolding apply apply_schedule apply_runtime apply_detection apply_stop_reason apply_error
    apply_connection apply_spawn apply_telemetry apply_invalidate apply_task_prepare
    apply_task_transition apply_task_progress apply_task_reset
apply-DetectionIsKept s (schedule_intent_record phase intent) t fields e w = ground arith
apply-DetectionIsKept s _ t fields e w = ground arith

-- So it does with the task, once its times are stamped.
pub apply-TaskIsConsistent :
    (s : StateSnapshot) (c : StateCommand) (t : StateSnapshot) (fields : List String)
    (now : DateText)
    → apply s c ≡ ok (t, fields)
    → TaskIsConsistent s.task
    → TaskIsConsistent (stamp_task t.task c s.task.started_at now)
unfolding apply apply_schedule apply_runtime apply_detection apply_stop_reason apply_error
    apply_connection apply_spawn apply_telemetry apply_invalidate apply_task_prepare
    apply_task_transition apply_task_progress apply_task_reset stamp_task
apply-TaskIsConsistent s (schedule_intent_record phase intent) t fields now e w = ground arith
apply-TaskIsConsistent s _ t fields now e w = ground arith
