-- ===== src/State/Task.antt =====
-- `#apply` of src/domain/state/state-store.ts: the commands on the task.
use voxel_steward.Base.{
  String, Bool, true, false, ◌&&◌, Option, none, some, [], ◌∷◌, if◌then◌else◌, Number, nat, ok,
}
use voxel_steward.State.{
  TaskState, StateSnapshot, TaskTarget, invalid_state_command, invalid_state_transition, ◌>>◌,
  require, assert_task_transition, assert_progress, assert_non_empty,
}
use voxel_steward.State.Command.{Applied, same_number, same_text, is_terminal_task, target_state}

abbrev pub is_running_or_paused : TaskState → Bool
is_running_or_paused TaskState.running = true
is_running_or_paused TaskState.paused = true
is_running_or_paused _ = false

unfoldable pub apply_task_prepare : StateSnapshot → String → String → Applied
unfolding assert_task_transition assert_non_empty
apply_task_prepare s task_id task_type =
    assert_task_transition s.task.state TaskState.preparing
    >> (assert_non_empty task_id
        >> (assert_non_empty task_type
            >> ok (
              record s {
                task = record {
                  id = some task_id;
                  type = some task_type;
                  state = TaskState.preparing;
                  started_at = none;
                  updated_at = s.task.updated_at;
                  finished_at = none;
                  progress = some (nat 0);
                  progress_message = none;
                };
              },
              "task" ∷ [],
            )))

unfoldable pub apply_task_transition : StateSnapshot → TaskTarget → Applied
unfolding assert_task_transition
apply_task_transition s to =
    assert_task_transition s.task.state (target_state to)
    >> ok (record s { task = record s.task { state = target_state to } }, "task.state" ∷ [])

unfoldable pub apply_task_progress : StateSnapshot → Number → Option String → Applied
unfolding assert_progress
apply_task_progress s progress message =
    assert_progress progress
    >> (require (is_running_or_paused s.task.state) invalid_state_command
        >> (if same_number s.task.progress (some progress)
              && same_text s.task.progress_message message
            then ok (s, [])
            else ok (
              record s {
                task = record s.task { progress = some progress; progress_message = message };
              },
              "task.progress" ∷ [],
            )))

unfoldable pub apply_task_reset : StateSnapshot → Applied
apply_task_reset s =
    require (is_terminal_task s.task.state) (invalid_state_transition "task reset")
    >> ok (
      record s {
        task = record {
          id = none;
          type = none;
          state = TaskState.idle;
          started_at = none;
          updated_at = s.task.updated_at;
          finished_at = none;
          progress = none;
          progress_message = none;
        };
      },
      "task" ∷ [],
    )
