-- ===== src/State/Dispatch.antt =====
-- `dispatch` of src/domain/state/state-store.ts and the initial snapshot. A refused command throws
-- before the store is written, so its model has no new snapshot.
use voxel_steward.Base.{
  ℕ, ◌+◌, String, Bool, true, false, ◌&&◌, not, Option, none, some, List, [], ◌∷◌, if◌then◌else◌,
  is_some, Result, ok, err,
}
use voxel_steward.Base.Calendar.{Date, DateText, iso}
use voxel_steward.State.{
  RuntimeState, MinecraftConnectionState, TaskState, TelemetryStatus, StateSnapshot,
  TaskProgressState, RecordedError, TaskTarget, StateCommand, task_prepare, task_transition,
  task_progress_update, task_reset, runtime_error_record, StateError, invalid_state_command,
}
use voxel_steward.State.Apply.{apply}
use voxel_steward.State.Command.{target_state, is_terminal_task}

pub record StateChangeEvent : Type 0 where
  pub revision : ℕ
  pub occurred_at : DateText
  pub cause : StateCommand
  pub before : StateSnapshot
  pub after : StateSnapshot
  pub changed_fields : List String

-- The snapshot that the constructor makes at an instant.
unfoldable pub initial_snapshot : ℕ → StateSnapshot
initial_snapshot t = record {
  revision = 0;
  updated_at = iso t;
  runtime = RuntimeState.starting;
  minecraft = record {
    connection = MinecraftConnectionState.disconnected;
    spawn_completed = false;
    telemetry_status = TelemetryStatus.unknown;
    position = none;
    dimension = none;
    health = none;
    hunger = none;
    other_player_detected = false;
  };
  task = record {
    id = none;
    type = none;
    state = TaskState.idle;
    started_at = none;
    updated_at = iso t;
    finished_at = none;
    progress = none;
    progress_message = none;
  };
  schedule = none;
  stop_reason = none;
  last_error = none;
}

-- `#utcNow()`
abbrev pub utc_now : Date → Result StateError DateText
utc_now none = err invalid_state_command
utc_now (some t) = ok (iso t)

-- `command.type.startsWith("task.")`
abbrev pub is_task_command : StateCommand → Bool
is_task_command (task_prepare task_id task_type) = true
is_task_command (task_transition to) = true
is_task_command (task_progress_update progress message) = true
is_task_command task_reset = true
is_task_command _ = false

abbrev pub starts_task : StateCommand → Bool
starts_task (task_transition TaskTarget.running) = true
starts_task _ = false

abbrev pub ends_task : StateCommand → Bool
ends_task (task_transition to) = is_terminal_task (target_state to)
ends_task _ = false

-- The times of the task, which `dispatch` writes after `#apply`.
unfoldable pub stamp_task :
    TaskProgressState → StateCommand → Option DateText → DateText → TaskProgressState
stamp_task task command started_before now = record task {
  updated_at = if is_task_command command then now else task.updated_at;
  started_at =
      if starts_task command && not (is_some started_before) then some now else task.started_at;
  finished_at = if ends_task command then some now else task.finished_at;
}

abbrev pub stamp_error : Option RecordedError → StateCommand → DateText → Option RecordedError
stamp_error last (runtime_error_record error) now =
    some (record { error = error; occurred_at = now })
stamp_error last _ now = last

unfoldable pub stamp : StateSnapshot → StateSnapshot → StateCommand → DateText → StateSnapshot
unfolding stamp_task
stamp before draft command now = record draft {
  revision = before.revision + 1;
  updated_at = now;
  task = stamp_task draft.task command before.task.started_at now;
  last_error = stamp_error draft.last_error command now;
}

-- After `#apply`: nothing if no field changed, and else the event, whose `after` is the new state.
unfoldable pub commit :
    StateSnapshot
    → StateSnapshot
    → List String
    → StateCommand
    → Date
    → Result StateError (Option StateChangeEvent)
commit before draft [] command clock = ok none
commit before draft (field ∷ fields) command clock = elim (utc_now clock) [
  | err e ↦ err e
  | ok now ↦ ok (
      some (record {
        revision = (stamp before draft command now).revision;
        occurred_at = now;
        cause = command;
        before = before;
        after = stamp before draft command now;
        changed_fields = field ∷ fields;
      }))
]

unfoldable pub dispatch :
    StateSnapshot → StateCommand → Date → Result StateError (Option StateChangeEvent)
dispatch before command clock = elim (apply before command) [
  | err e ↦ err e
  | ok (draft, fields) ↦ commit before draft fields command clock
]

-- The snapshot that the store holds afterwards.
unfoldable pub next_snapshot : StateSnapshot → StateCommand → Date → StateSnapshot
next_snapshot before command clock = elim (dispatch before command clock) [
  | err e ↦ before
  | ok none ↦ before
  | ok (some event) ↦ event.after
]
