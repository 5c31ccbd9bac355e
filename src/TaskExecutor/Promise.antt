-- ===== src/TaskExecutor/Promise.antt =====
-- The protocol of the executor of src/application/task-executor/readonly-task-executor.ts.
use voxel_steward.Base.{ℕ, ◌+◌, ◌≡◌, Bool, true, false, ◌&&◌, not, Option, none, some}
use voxel_steward.Program.Protocol.{Protocol}
use voxel_steward.TaskQueue.{TaskQueueTerminalStatus}
use voxel_steward.SimpleWorkCoordinator.{SimpleWorkResult, navigated, arrival, recorded}
use voxel_steward.TaskExecutor.{Op, enforce, work, finish, Answer}

abbrev pub is_completed : Option SimpleWorkResult → Bool
is_completed (some (navigated p n)) = true
is_completed (some (arrival p arrived)) = true
is_completed (some (recorded p)) = true
is_completed _ = false

abbrev pub goes_on : Option Bool → Bool
goes_on (some must_stop) = not must_stop
goes_on none = false

-- `worked`: the last work completed. `cleared`: since then the policy was asked and let it go on.
pub record Phase : Type 0 where
  pub works : ℕ
  pub worked : Bool
  pub cleared : Bool
  pub completions : ℕ

abbrev pub fresh : Phase
fresh = record { works = 0; worked = false; cleared = false; completions = 0 }

abbrev pub after_op : Phase → (o : Op) → Answer o → Phase
after_op p (work instruction) r = record p {
  works = p.works + 1;
  worked = is_completed r;
  cleared = false;
}
after_op p (enforce id) decision = record p { cleared = p.worked && goes_on decision }
after_op p (finish id TaskQueueTerminalStatus.completed) accepted = record p {
  completions = p.completions + 1;
}
after_op p _ _ = p

-- Work is done once; a task is completed once, after it was worked on and the policy let it go on; and
-- no task is finished as stopped but through the queue under the policy.
abbrev pub MayAsk : Phase → Op → Type 0
MayAsk p (work instruction) = p.works ≡ 0
MayAsk p (finish id TaskQueueTerminalStatus.completed) = (p.cleared ≡ true) × (p.completions ≡ 0)
MayAsk p (finish id TaskQueueTerminalStatus.stopped) = ⊥
MayAsk p _ = Unit

abbrev pub execution : Protocol Op Answer Phase
execution = record { allows = MayAsk; next = after_op }
