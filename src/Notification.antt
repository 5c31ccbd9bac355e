-- ===== src/Notification.antt =====
-- Which change of state becomes which notification,
-- src/application/notifications/notification-mapper.ts.
pub mod Subscriber
pub mod Once
pub mod SafetyStop
mod Tests
use voxel_steward.Base.{
  ℕ, String, Bool, true, false, not, ◌&&◌, ◌||◌, Option, none, some, is_some, if◌then◌else◌, str_eq,
  ◌==◌,
}
use voxel_steward.Base.Calendar.{DateText, iso, other}
use voxel_steward.State.{
  StateSnapshot, RuntimeState, MinecraftConnectionState, TaskState, RecordedError,
  SanitizedErrorCode,
}
use voxel_steward.State.Command.{same_text}
use voxel_steward.State.Schedule.{same_date_text}
use voxel_steward.State.Dispatch.{StateChangeEvent}
use voxel_steward.Outbox.{
  NotificationType, minecraft_connecting, minecraft_connected, minecraft_spawned,
  minecraft_disconnected, reconnect_started, runtime_stopped, stop_requested, runtime_failed,
  reconnect_exhausted, other_player_safety_stop, task_preparing, task_started, task_paused,
  task_resumed, task_completed, task_failed, task_stopped, NotificationSeverity, info, warning,
  error, critical,
}

pub record Template : Type 0 where
  pub type : NotificationType
  pub severity : NotificationSeverity
  pub title : String
  pub body : String

abbrev template : NotificationType → NotificationSeverity → String → String → Template
template type severity title body = record {
  type = type;
  severity = severity;
  title = title;
  body = body;
}

-- `` `state:${revision}:${type}` ``, which its two parts determine.
pub record NotificationId : Type 0 where
  pub revision : ℕ
  pub type : NotificationType

-- The text of a type.
unfoldable pub type_text : NotificationType → String
type_text minecraft_connecting = "minecraft_connecting"
type_text minecraft_connected = "minecraft_connected"
type_text minecraft_spawned = "minecraft_spawned"
type_text minecraft_disconnected = "minecraft_disconnected"
type_text reconnect_started = "reconnect_started"
type_text runtime_stopped = "runtime_stopped"
type_text stop_requested = "stop_requested"
type_text runtime_failed = "runtime_failed"
type_text reconnect_exhausted = "reconnect_exhausted"
type_text other_player_safety_stop = "other_player_safety_stop"
type_text task_preparing = "task_preparing"
type_text task_started = "task_started"
type_text task_paused = "task_paused"
type_text task_resumed = "task_resumed"
type_text task_completed = "task_completed"
type_text task_failed = "task_failed"
type_text task_stopped = "task_stopped"

-- Two identifiers are one text: the revision is written in digits, and no type holds a colon.
unfoldable pub same_id : NotificationId → NotificationId → Bool
same_id a b = a.revision == b.revision && str_eq (type_text a.type) (type_text b.type)

-- `NotificationMessage`, with its identifier in parts and the text of its time.
pub record StateNotification : Type 0 where
  pub notification_id : NotificationId
  pub source_revision : ℕ
  pub occurred_at : DateText
  pub template : Template

unfoldable pub message_from : StateChangeEvent → Template → StateNotification
message_from event t = record {
  notification_id = record { revision = event.revision; type = t.type };
  source_revision = event.revision;
  occurred_at = event.occurred_at;
  template = t;
}

-- From `after === "preparing"` on, where the state has changed.
abbrev pub template_of_change : TaskState → TaskState → Option Template
template_of_change before TaskState.preparing =
    some (template task_preparing info "作業準備を開始" "作業の準備状態へ移行しました。")
template_of_change TaskState.paused TaskState.running =
    some (template task_resumed info "作業を再開" "一時停止していた作業を再開しました。")
template_of_change before TaskState.running =
    some (template task_started info "作業を開始" "準備が完了し、作業を開始しました。")
template_of_change before TaskState.paused =
    some (template task_paused warning "作業を一時停止" "作業を一時停止しました。")
template_of_change before TaskState.completed =
    some (template task_completed info "作業が完了" "作業が正常に完了しました。")
template_of_change before TaskState.failed =
    some (template task_failed error "作業が失敗" "作業を正常に完了できませんでした。")
template_of_change before TaskState.stopped =
    some (template task_stopped warning "作業を停止" "作業を安全に停止しました。")
template_of_change before TaskState.idle = none

abbrev pub same_task_state : TaskState → TaskState → Bool
same_task_state TaskState.idle TaskState.idle = true
same_task_state TaskState.preparing TaskState.preparing = true
same_task_state TaskState.running TaskState.running = true
same_task_state TaskState.paused TaskState.paused = true
same_task_state TaskState.completed TaskState.completed = true
same_task_state TaskState.failed TaskState.failed = true
same_task_state TaskState.stopped TaskState.stopped = true
same_task_state _ _ = false

unfoldable pub task_template : TaskState → TaskState → Option Template
task_template before after =
    if same_task_state before after then none else template_of_change before after

abbrev same_code : SanitizedErrorCode → SanitizedErrorCode → Bool
same_code SanitizedErrorCode.connection_error SanitizedErrorCode.connection_error = true
same_code SanitizedErrorCode.reconnect_exhausted SanitizedErrorCode.reconnect_exhausted = true
same_code SanitizedErrorCode.internal_error SanitizedErrorCode.internal_error = true
same_code _ _ = false

-- `!errorChanged`
unfoldable pub same_error : Option RecordedError → Option RecordedError → Bool
same_error none none = true
same_error (some a) (some b) =
    same_code a.error.code b.error.code
    && str_eq a.error.message b.error.message
    && same_date_text a.occurred_at b.occurred_at
same_error _ _ = false

abbrev is_exhausted_error : Option RecordedError → Bool
is_exhausted_error none = false
is_exhausted_error (some e) = same_code e.error.code SanitizedErrorCode.reconnect_exhausted

abbrev has_reason : Option String → String → Bool
has_reason none r = false
has_reason (some s) r = str_eq s r

abbrev is_stop_request : Option String → Bool
is_stop_request reason =
    has_reason reason "signal_sigint"
    || has_reason reason "signal_sigterm"
    || has_reason reason "stop_requested"
    || has_reason reason "schedule_window_ended"

abbrev is_reconnecting : RuntimeState → Bool
is_reconnecting RuntimeState.reconnecting = true
is_reconnecting _ = false

abbrev is_stopped : RuntimeState → Bool
is_stopped RuntimeState.stopped = true
is_stopped _ = false

abbrev is_disconnected : MinecraftConnectionState → Bool
is_disconnected MinecraftConnectionState.disconnected = true
is_disconnected _ = false

abbrev is_connecting : MinecraftConnectionState → Bool
is_connecting MinecraftConnectionState.connecting = true
is_connecting _ = false

abbrev is_connected : MinecraftConnectionState → Bool
is_connected MinecraftConnectionState.connected = true
is_connected _ = false

-- `runtime === "connecting" || runtime === "ready"`
abbrev is_up : RuntimeState → Bool
is_up RuntimeState.connecting = true
is_up RuntimeState.ready = true
is_up _ = false

-- `if (test) template = t; else rest`
unfoldable pub template_if : Bool → Template → Option Template → Option Template
template_if test t rest = if test then some t else rest

-- The branches after those on a detection and on an error.
unfoldable pub progress_template : StateSnapshot → StateSnapshot → Option Template
progress_template before after =
    template_if
      (not (same_text before.stop_reason after.stop_reason) && is_stop_request after.stop_reason)
      (template stop_requested info "通常運転の停止要求" "シグナルまたは明示的な停止要求を受け付けました。")
      (template_if (not (is_reconnecting before.runtime) && is_reconnecting after.runtime)
        (template reconnect_started warning "Minecraftへ再接続" "一時的な切断後の再接続処理を開始しました。")
        (template_if
          (is_disconnected before.minecraft.connection && is_connecting after.minecraft.connection)
          (template minecraft_connecting info "Minecraftへ接続開始" "Minecraftへの読み取り専用接続を開始しました。")
          (template_if
            (is_connecting before.minecraft.connection && is_connected after.minecraft.connection)
            (template minecraft_connected info "Minecraftへ接続完了" "Minecraftへのloginが完了しました。")
            (template_if (not before.minecraft.spawn_completed && after.minecraft.spawn_completed)
              (template minecraft_spawned info "Minecraftでspawn完了" "spawnが完了し、読み取り専用の待機状態へ移行しました。")
              (template_if
                (not (is_disconnected before.minecraft.connection)
                  && is_disconnected after.minecraft.connection
                  && is_up after.runtime)
                (template minecraft_disconnected warning "Minecraft接続が一時切断"
                  "Minecraftとの接続が一時的に切断されました。")
                (template_if
                  (not (is_stopped before.runtime)
                    && is_stopped after.runtime
                    && not (has_reason after.stop_reason "other_player_detected"))
                  (template runtime_stopped info "通常運転を終了" "通常運転を安全に終了しました。")
                  (task_template before.task.state after.task.state)))))))

unfoldable pub template_for : StateSnapshot → StateSnapshot → Option Template
template_for before after =
    let changed = not (same_error before.last_error after.last_error) in
    template_if
      (not before.minecraft.other_player_detected && after.minecraft.other_player_detected)
      (template other_player_safety_stop critical "他プレイヤー検知による安全停止" "他プレイヤーを検知したため、安全切断を開始しました。")
      (template_if (changed && is_exhausted_error after.last_error)
        (template reconnect_exhausted error "再接続上限に到達" "再接続の上限回数に到達したため、通常運転を終了します。")
        (template_if (changed && is_some after.last_error)
          (template runtime_failed error "通常運転で回復不能なエラー" "回復不能なエラーにより通常運転を終了します。")
          (progress_template before after)))

abbrev pub map_template : StateChangeEvent → Option Template → Option StateNotification
map_template event none = none
map_template event (some t) = some (message_from event t)

unfoldable pub map_state_change_to_notification : StateChangeEvent → Option StateNotification
map_state_change_to_notification event = map_template event (template_for event.before event.after)
