-- ===== src/TaskQueue/Terminal.antt =====
-- How the life of a task can go on and end.
use voxel_steward.Base.{
  ℕ, ◌≤◌, ◌<◌, ◌≡◌, ◌≢◌, refl, ◌∙◌, true, nat, none, some, Bool-cases, inl, inr, ok, err, arith,
}
use voxel_steward.Base.Calendar.{Date, iso}
use voxel_steward.TaskQueue.{
  TaskQueueStatus, is_exhausted, queued, claimed, failed, not_started, TaskInstruction,
  TaskQueueItem, TaskQueueTerminalStatus, invalid_task_transition, claimable,
  task_recovery_disposition, create_queued_task, transition, claim_task, cancel_task, release_task,
  mark_task_delivery_started, mark_task_verified, finish_task,
}
use voxel_steward.TaskQueue.Life.{TaskReach, here, next, claim_count}
use voxel_steward.TaskQueue.Invariant.{
  IsWellFormed, is_terminal, create_queued_task-IsWellFormed, TaskReach-IsWellFormed,
  claim_count-attempts, kept_by_step,
}

kept_started :
    {i j : TaskQueueItem}
    → TaskReach i j
    → i.execution_phase ≢ not_started
    → j.execution_phase ≢ not_started
kept_started here h = h
kept_started (next r st) h = (kept_by_step st).3 (kept_started r h)

kept_max_attempts : {i j : TaskQueueItem} → TaskReach i j → j.max_attempts ≡ i.max_attempts
kept_max_attempts here = refl
kept_max_attempts (next r st) = (kept_by_step st).1 ∙ kept_max_attempts r

not_claimable :
    (j : TaskQueueItem)
    → IsWellFormed j
    → j.execution_phase ≢ not_started
    → task_recovery_disposition j ≢ claimable
unfolding task_recovery_disposition
not_claimable j w h e = ground arith

not_startable :
    (j : TaskQueueItem) (clock : Date)
    → j.execution_phase ≢ not_started
    → mark_task_delivery_started j clock ≡ err invalid_task_transition
unfolding mark_task_delivery_started
not_startable j clock h = ground arith

-- A well-formed task whose execution left the phase `not_started` is never claimable again, whatever
-- operations follow, and its delivery is never started again: at any reading of the clock,
-- `markTaskDeliveryStarted` refuses it as a transition.
pub started-never_claimable :
    (i j : TaskQueueItem) (clock : Date)
    → IsWellFormed i
    → i.execution_phase ≢ not_started
    → TaskReach i j
    → (task_recovery_disposition j ≢ claimable)
      × (mark_task_delivery_started j clock ≡ err invalid_task_transition)
started-never_claimable i j clock w h r = (
  not_claimable j (TaskReach-IsWellFormed r w) (kept_started r h),
  not_startable j clock (kept_started r h),
)

-- A task that was created with `n` as its `max_attempts` is claimed at most `n` times in its life,
-- and at most ten times.
pub claim_count-le :
    (instruction : TaskInstruction) (clock : Date) (i j : TaskQueueItem) (n : ℕ)
    → create_queued_task instruction clock ≡ ok i
    → i.max_attempts ≡ nat n
    → (r : TaskReach i j) → (claim_count r ≤ n) × (claim_count r ≤ 10)
claim_count-le instruction clock i j n created same r =
    let w =
      TaskReach-IsWellFormed r (create_queued_task-IsWellFormed instruction clock i created) in
    ground (
      arith,
      claim_count-attempts r,
      w.attempts_le,
      w.limit_le,
      w.max_attempts,
      kept_max_attempts r,
    )

-- A finished or cancelled task is final: at a valid reading of the clock, every operation on it is
-- refused as a transition.
pub terminal-refuses :
    (i : TaskQueueItem) (outcome : TaskQueueTerminalStatus) (t : ℕ)
    → is_terminal i.status ≡ true
    → (claim_task i (some t) ≡ err invalid_task_transition)
      × (cancel_task i (some t) ≡ err invalid_task_transition)
      × (release_task i (some t) ≡ err invalid_task_transition)
      × (mark_task_delivery_started i (some t) ≡ err invalid_task_transition)
      × (mark_task_verified i (some t) ≡ err invalid_task_transition)
      × (finish_task i outcome (some t) ≡ err invalid_task_transition)
unfolding claim_task cancel_task release_task mark_task_delivery_started mark_task_verified
    finish_task transition
terminal-refuses i outcome t h = ground arith

-- At a valid reading of the clock, releasing a well-formed claimed task succeeds: it puts the task
-- back while it has attempts left, and fails it after the last one.
pub release_task-outcome :
    (i : TaskQueueItem) (n t : ℕ)
    → IsWellFormed i
    → i.max_attempts ≡ nat n
    → i.status ≡ claimed
    → (j : TaskQueueItem) × (release_task i (some t) ≡ ok j)
      × (i.attempts < n → (j.status ≡ queued) × (j.claimed_at ≡ none))
      × (i.attempts ≡ n → (j.status ≡ failed) × (j.finished_at ≡ some (iso t)))
unfolding release_task transition
release_task-outcome i n t w m c = elim (Bool-cases (is_exhausted i)) [
  | inl spent ↦ (
    record i { status = TaskQueueStatus.failed; finished_at = some (iso t); updated_at = iso t },
    ground arith,
    λ more. absurd (ground arith),
    λ e. ground arith,
  )
  | inr left ↦ (
    record i { status = queued; claimed_at = none; finished_at = none; updated_at = iso t },
    ground arith,
    λ more. ground arith,
    λ e. absurd (ground arith),
  )
]
