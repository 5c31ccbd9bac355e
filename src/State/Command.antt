-- ===== src/State/Command.antt =====
-- What a command gives in `#apply` of src/domain/state/state-store.ts: the changed draft and the names of
-- the changed fields, or an error. With no name the draft is dropped.
use voxel_steward.Base.{
  String, Bool, true, false, not, Option, none, some, List, str_eq, Number, num_eq, Result,
}
use voxel_steward.State.{TaskState, StateSnapshot, TaskTarget, StateError}

abbrev pub Applied : Type 0
Applied = Result StateError (StateSnapshot × List String)

-- `===` on values that may be undefined.
abbrev pub same_number : Option Number → Option Number → Bool
same_number none none = true
same_number (some a) (some b) = num_eq a b
same_number _ _ = false

abbrev pub same_text : Option String → Option String → Bool
same_text none none = true
same_text (some a) (some b) = str_eq a b
same_text _ _ = false

abbrev pub same_bool : Bool → Bool → Bool
same_bool true b = b
same_bool false b = not b

-- `terminalTaskStates.has(state)`
abbrev pub is_terminal_task : TaskState → Bool
is_terminal_task TaskState.completed = true
is_terminal_task TaskState.failed = true
is_terminal_task TaskState.stopped = true
is_terminal_task _ = false

abbrev pub target_state : TaskTarget → TaskState
target_state TaskTarget.running = TaskState.running
target_state TaskTarget.paused = TaskState.paused
target_state TaskTarget.completed = TaskState.completed
target_state TaskTarget.failed = TaskState.failed
target_state TaskTarget.stopped = TaskState.stopped
