-- ===== src/State.antt =====
-- The state of the runtime: src/domain/state/types.ts, commands.ts and transitions.ts.
pub mod Schedule
pub mod Command
pub mod Runtime
pub mod Minecraft
pub mod Task
pub mod Apply
pub mod Dispatch
pub mod Invariant
pub mod Consistency
pub mod History
pub mod Finality
mod Tests
use voxel_steward.Base.{
  ℕ, String, Bool, true, false, not, ◌||◌, Option, none, some, List, if◌then◌else◌, Number, nat,
  is_finite, num_lt, is_blank, Result, ok, err,
}
use voxel_steward.Base.Calendar.{DateText}
use voxel_steward.Scheduler.{OperatingWindow, SchedulePhase, ScheduleIntent}

pub data RuntimeState : Type 0 where
  starting connecting ready reconnecting stopping stopped failed : RuntimeState

pub data MinecraftConnectionState : Type 0 where
  disconnected connecting connected spawned : MinecraftConnectionState

pub data TaskState : Type 0 where
  idle preparing running paused completed failed stopped : TaskState

pub data TelemetryStatus : Type 0 where
  unknown valid invalid : TelemetryStatus

pub record Position : Type 0 where
  pub x : Number
  pub y : Number
  pub z : Number

pub record MinecraftState : Type 0 where
  pub connection : MinecraftConnectionState
  pub spawn_completed : Bool
  pub telemetry_status : TelemetryStatus
  pub position : Option Position
  pub dimension : Option String
  pub health : Option Number
  pub hunger : Option Number
  pub other_player_detected : Bool

pub record TaskProgressState : Type 0 where
  pub id : Option String
  pub type : Option String
  pub state : TaskState
  pub started_at : Option DateText
  pub updated_at : DateText
  pub finished_at : Option DateText
  pub progress : Option Number
  pub progress_message : Option String

pub data IntentType : Type 0 where
  start_requested stop_requested : IntentType

pub record ScheduleRuntimeState : Type 0 where
  pub phase : SchedulePhase
  pub intent : IntentType
  pub window : OperatingWindow
  pub evaluated_at : DateText

pub data SanitizedErrorCode : Type 0 where
  connection_error reconnect_exhausted internal_error : SanitizedErrorCode

pub record SanitizedError : Type 0 where
  pub code : SanitizedErrorCode
  pub message : String

pub record RecordedError : Type 0 where
  pub error : SanitizedError
  pub occurred_at : DateText

pub record StateSnapshot : Type 0 where
  pub revision : ℕ
  pub updated_at : DateText
  pub runtime : RuntimeState
  pub minecraft : MinecraftState
  pub task : TaskProgressState
  pub schedule : Option ScheduleRuntimeState
  pub stop_reason : Option String
  pub last_error : Option RecordedError

pub record Telemetry : Type 0 where
  pub position : Option Position
  pub dimension : Option String
  pub health : Option Number
  pub hunger : Option Number

-- `Exclude<TaskState, "idle" | "preparing">`
pub data TaskTarget : Type 0 where
  running paused completed failed stopped : TaskTarget

pub data StateCommand : Type 0 where
  schedule_intent_record : SchedulePhase → ScheduleIntent → StateCommand
  runtime_transition : RuntimeState → StateCommand
  minecraft_connection_transition : MinecraftConnectionState → StateCommand
  minecraft_spawn_update : Bool → StateCommand
  minecraft_telemetry_update : Telemetry → StateCommand
  minecraft_telemetry_invalidate : StateCommand
  safety_other_player_detected : StateCommand
  task_prepare : String → String → StateCommand
  task_transition : TaskTarget → StateCommand
  task_progress_update : Number → Option String → StateCommand
  task_reset : StateCommand
  runtime_stop_reason_record : String → StateCommand
  runtime_error_record : SanitizedError → StateCommand

-- The two error classes of errors.ts, with the machine that refused a transition.
pub data StateError : Type 0 where
  invalid_state_command : StateError
  invalid_state_transition : String → StateError

infixl 5 ◌>>◌
abbrev pub ◌>>◌ {ℓ} :
    {B : Type ℓ} → Result StateError (Unit {0}) → Result StateError B → Result StateError B
err e >> k = err e
ok _ >> k = k

-- `runtimeTransitions[from].has(to)`
abbrev pub runtime_allows : RuntimeState → RuntimeState → Bool
runtime_allows RuntimeState.starting RuntimeState.connecting = true
runtime_allows RuntimeState.starting RuntimeState.stopping = true
runtime_allows RuntimeState.connecting RuntimeState.ready = true
runtime_allows RuntimeState.connecting RuntimeState.reconnecting = true
runtime_allows RuntimeState.connecting RuntimeState.stopping = true
runtime_allows RuntimeState.connecting RuntimeState.failed = true
runtime_allows RuntimeState.ready RuntimeState.reconnecting = true
runtime_allows RuntimeState.ready RuntimeState.stopping = true
runtime_allows RuntimeState.ready RuntimeState.failed = true
runtime_allows RuntimeState.reconnecting RuntimeState.connecting = true
runtime_allows RuntimeState.reconnecting RuntimeState.stopping = true
runtime_allows RuntimeState.reconnecting RuntimeState.failed = true
runtime_allows RuntimeState.stopping RuntimeState.stopped = true
runtime_allows RuntimeState.stopping RuntimeState.failed = true
runtime_allows _ _ = false

-- `minecraftTransitions[from].has(to)`
abbrev pub minecraft_allows : MinecraftConnectionState → MinecraftConnectionState → Bool
minecraft_allows MinecraftConnectionState.disconnected MinecraftConnectionState.connecting = true
minecraft_allows MinecraftConnectionState.connecting MinecraftConnectionState.connected = true
minecraft_allows MinecraftConnectionState.connecting MinecraftConnectionState.disconnected = true
minecraft_allows MinecraftConnectionState.connected MinecraftConnectionState.spawned = true
minecraft_allows MinecraftConnectionState.connected MinecraftConnectionState.disconnected = true
minecraft_allows MinecraftConnectionState.spawned MinecraftConnectionState.disconnected = true
minecraft_allows _ _ = false

-- `taskTransitions[from].has(to)`
abbrev pub task_allows : TaskState → TaskState → Bool
task_allows TaskState.idle TaskState.preparing = true
task_allows TaskState.preparing TaskState.running = true
task_allows TaskState.preparing TaskState.failed = true
task_allows TaskState.preparing TaskState.stopped = true
task_allows TaskState.running TaskState.paused = true
task_allows TaskState.running TaskState.completed = true
task_allows TaskState.running TaskState.failed = true
task_allows TaskState.running TaskState.stopped = true
task_allows TaskState.paused TaskState.running = true
task_allows TaskState.paused TaskState.failed = true
task_allows TaskState.paused TaskState.stopped = true
task_allows _ _ = false

abbrev pub require : Bool → StateError → Result StateError (Unit {0})
require holds e = if holds then ok tt else err e

unfoldable pub assert_runtime_transition :
    RuntimeState → RuntimeState → Result StateError (Unit {0})
assert_runtime_transition from to =
    require (runtime_allows from to) (invalid_state_transition "runtime")

unfoldable pub assert_minecraft_transition :
    MinecraftConnectionState → MinecraftConnectionState → Result StateError (Unit {0})
assert_minecraft_transition from to =
    require (minecraft_allows from to) (invalid_state_transition "minecraft")

unfoldable pub assert_task_transition : TaskState → TaskState → Result StateError (Unit {0})
assert_task_transition from to = require (task_allows from to) (invalid_state_transition "task")

unfoldable pub assert_progress : Number → Result StateError (Unit {0})
assert_progress progress =
    require (not (not (is_finite progress) || num_lt progress (nat 0) || num_lt (nat 1) progress))
      invalid_state_command

unfoldable pub assert_non_empty : String → Result StateError (Unit {0})
assert_non_empty value = require (not (is_blank value)) invalid_state_command

unfoldable pub assert_finite_telemetry : Option Number → Result StateError (Unit {0})
assert_finite_telemetry none = ok tt
assert_finite_telemetry (some value) = require (is_finite value) invalid_state_command
