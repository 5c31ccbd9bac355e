-- ===== src/TaskQueue/Life.antt =====
-- The life of a queued task: any sequence of the operations of src/domain/task-queue/task-queue.ts.
use voxel_steward.Base.{ℕ, suc, ◌≡◌, ok}
use voxel_steward.Base.Calendar.{Date}
use voxel_steward.TaskQueue.{
  TaskQueueItem, TaskQueueTerminalStatus, claim_task, cancel_task, release_task,
  mark_task_delivery_started, mark_task_verified, finish_task,
}

-- One accepted operation, at any reading of the clock.
pub data TaskStep (i j : TaskQueueItem) : Type 0 where
  claims : (clock : Date) → claim_task i clock ≡ ok j → TaskStep i j
  cancels : (clock : Date) → cancel_task i clock ≡ ok j → TaskStep i j
  releases : (clock : Date) → release_task i clock ≡ ok j → TaskStep i j
  starts_delivery : (clock : Date) → mark_task_delivery_started i clock ≡ ok j → TaskStep i j
  verifies : (clock : Date) → mark_task_verified i clock ≡ ok j → TaskStep i j
  finishes :
      (outcome : TaskQueueTerminalStatus) (clock : Date)
      → finish_task i outcome clock ≡ ok j
      → TaskStep i j

pub data TaskReach (i : TaskQueueItem) : TaskQueueItem → Type 0 where
  here : TaskReach i i
  next : {j k : TaskQueueItem} → TaskReach i j → TaskStep j k → TaskReach i k

-- How often the task was claimed on the way.
unfoldable pub claim_count : {i j : TaskQueueItem} → TaskReach i j → ℕ
claim_count here = 0
claim_count (next r (claims clock e)) = suc (claim_count r)
claim_count (next r _) = claim_count r
