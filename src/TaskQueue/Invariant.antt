-- ===== src/TaskQueue/Invariant.antt =====
-- What holds of every task between two operations.
use voxel_steward.Base.{
  ℕ, ◌≤◌, ◌+◌, ◌≡◌, ◌≢◌, Bool, true, false, none, some, Number, nat, num, nan, infinity,
  neg_infinity, pos, negsuc, is_safe_integer, num_lt, is_some, ok, arith, Bool-cases, inl, inr,
}
use voxel_steward.Base.Calendar.{Date}
use voxel_steward.TaskQueue.{
  TaskQueueStatus, queued, claimed, cancelled, not_started, TaskInstruction, TaskQueueItem,
  TaskQueueTerminalStatus, is_placement, has_fields_in_range, validate_task_instruction,
  create_queued_task, transition, claim_task, cancel_task, release_task, mark_task_delivery_started,
  mark_task_verified, finish_task,
}
use voxel_steward.TaskQueue.Life.{
  TaskStep, claims, cancels, releases, starts_delivery, verifies, finishes, TaskReach, here, next,
  claim_count,
}

abbrev pub is_terminal : TaskQueueStatus → Bool
is_terminal queued = false
is_terminal claimed = false
is_terminal _ = true

-- Whether a task of this status has the time of a claim.
abbrev pub has_claim : TaskQueueStatus → Bool
has_claim queued = false
has_claim cancelled = false
has_claim _ = true

pub record IsWellFormed (i : TaskQueueItem) : Type 0 where
  pub limit : ℕ
  pub max_attempts : i.max_attempts ≡ nat limit
  pub limit_le : limit ≤ 10
  pub attempts_le : i.attempts ≤ limit
  pub queued_budget : i.status ≡ queued → i.attempts + 1 ≤ limit
  pub claimed_once : i.status ≡ claimed → 1 ≤ i.attempts
  pub finished : is_some i.finished_at ≡ is_terminal i.status
  pub has_claim_time : is_some i.claimed_at ≡ has_claim i.status
  pub unstarted : has_claim i.status ≡ false → i.execution_phase ≡ not_started
  pub started : i.execution_phase ≢ not_started → (limit ≡ 1) × (is_placement i.details ≡ true)

whole_in_range :
    (n : Number)
    → is_safe_integer n ≡ true
    → num_lt n (nat 1) ≡ false
    → num_lt (nat 10) n ≡ false
    → (k : ℕ) × (n ≡ nat k) × (1 ≤ k) × (k ≤ 10)
whole_in_range (num (pos k) r) s l u = (k, ground arith, ground arith, ground arith)
whole_in_range (num (negsuc k) r) s l u = absurd (ground arith)
whole_in_range nan s l u = absurd (ground arith)
whole_in_range infinity s l u = absurd (ground arith)
whole_in_range neg_infinity s l u = absurd (ground arith)

attempts_in_range :
    (i : TaskInstruction)
    → has_fields_in_range i ≡ true
    → (k : ℕ) × (i.max_attempts ≡ nat k) × (1 ≤ k) × (k ≤ 10)
unfolding has_fields_in_range
attempts_in_range i h = whole_in_range i.max_attempts (ground arith) (ground arith) (ground arith)

-- A task that `create_queued_task` makes is well formed.
pub create_queued_task-IsWellFormed :
    (i : TaskInstruction) (d : Date) (j : TaskQueueItem)
    → create_queued_task i d ≡ ok j
    → IsWellFormed j
unfolding create_queued_task validate_task_instruction
create_queued_task-IsWellFormed i none j e = absurd (ground arith)
create_queued_task-IsWellFormed i (some t) j e = elim (Bool-cases (has_fields_in_range i)) [
  | inr out ↦ absurd (ground arith)
  | inl h ↦
      let (k, same, low, high) = attempts_in_range i h in
      record {
        limit = k;
        max_attempts = ground arith;
        limit_le = high;
        attempts_le = ground arith;
        queued_budget = ground arith;
        claimed_once = ground arith;
        finished = ground arith;
        has_claim_time = ground arith;
        unstarted = ground arith;
        started = ground arith;
      }
]

pub claim_task-IsWellFormed :
    (i j : TaskQueueItem) (d : Date) → claim_task i d ≡ ok j → IsWellFormed i → IsWellFormed j
unfolding claim_task transition
claim_task-IsWellFormed i j d e w = ground arith

pub cancel_task-IsWellFormed :
    (i j : TaskQueueItem) (d : Date) → cancel_task i d ≡ ok j → IsWellFormed i → IsWellFormed j
unfolding cancel_task transition
cancel_task-IsWellFormed i j d e w = ground arith

pub release_task-IsWellFormed :
    (i j : TaskQueueItem) (d : Date) → release_task i d ≡ ok j → IsWellFormed i → IsWellFormed j
unfolding release_task transition
release_task-IsWellFormed i j d e w = ground arith

pub mark_task_delivery_started-IsWellFormed :
    (i j : TaskQueueItem) (d : Date)
    → mark_task_delivery_started i d ≡ ok j
    → IsWellFormed i
    → IsWellFormed j
unfolding mark_task_delivery_started
mark_task_delivery_started-IsWellFormed i j d e w = ground arith

pub mark_task_verified-IsWellFormed :
    (i j : TaskQueueItem) (d : Date)
    → mark_task_verified i d ≡ ok j
    → IsWellFormed i
    → IsWellFormed j
unfolding mark_task_verified
mark_task_verified-IsWellFormed i j d e w = ground arith

pub finish_task-IsWellFormed :
    (i j : TaskQueueItem) (o : TaskQueueTerminalStatus) (d : Date)
    → finish_task i o d ≡ ok j
    → IsWellFormed i
    → IsWellFormed j
unfolding finish_task transition
finish_task-IsWellFormed i j o d e w = ground arith

pub TaskStep-IsWellFormed : {i j : TaskQueueItem} → TaskStep i j → IsWellFormed i → IsWellFormed j
TaskStep-IsWellFormed {i} {j} (claims d e) w = claim_task-IsWellFormed i j d e w
TaskStep-IsWellFormed {i} {j} (cancels d e) w = cancel_task-IsWellFormed i j d e w
TaskStep-IsWellFormed {i} {j} (releases d e) w = release_task-IsWellFormed i j d e w
TaskStep-IsWellFormed {i} {j} (starts_delivery d e) w =
    mark_task_delivery_started-IsWellFormed i j d e w
TaskStep-IsWellFormed {i} {j} (verifies d e) w = mark_task_verified-IsWellFormed i j d e w
TaskStep-IsWellFormed {i} {j} (finishes o d e) w = finish_task-IsWellFormed i j o d e w

-- Any operations keep a well-formed task well formed.
pub TaskReach-IsWellFormed : {i j : TaskQueueItem} → TaskReach i j → IsWellFormed i → IsWellFormed j
TaskReach-IsWellFormed here w = w
TaskReach-IsWellFormed (next r st) w = TaskStep-IsWellFormed st (TaskReach-IsWellFormed r w)

claim_count-attempts_step :
    {i j k : TaskQueueItem} (r : TaskReach i j) (st : TaskStep j k)
    → i.attempts + claim_count r ≡ j.attempts
    → i.attempts + claim_count (next r st) ≡ k.attempts
unfolding claim_count claim_task cancel_task release_task mark_task_delivery_started
    mark_task_verified finish_task transition
claim_count-attempts_step r (claims d e) h = ground arith
claim_count-attempts_step r (cancels d e) h = ground arith
claim_count-attempts_step r (releases d e) h = ground arith
claim_count-attempts_step r (starts_delivery d e) h = ground arith
claim_count-attempts_step r (verifies d e) h = ground arith
claim_count-attempts_step r (finishes o d e) h = ground arith

-- `attempts` counts the claims.
pub claim_count-attempts :
    {i j : TaskQueueItem} (r : TaskReach i j) → i.attempts + claim_count r ≡ j.attempts
unfolding claim_count
claim_count-attempts here = omega arith
claim_count-attempts (next r st) = claim_count-attempts_step r st (claim_count-attempts r)

-- The operations leave alone what the task is, and a started delivery stays started.
pub kept_by_step :
    {i j : TaskQueueItem}
    → TaskStep i j
    → (j.task_id ≡ i.task_id)
      × (j.max_attempts ≡ i.max_attempts)
      × (j.details ≡ i.details)
      × (i.execution_phase ≢ not_started → j.execution_phase ≢ not_started)
unfolding claim_task cancel_task release_task mark_task_delivery_started mark_task_verified
    finish_task transition
kept_by_step (claims d e) = ground arith
kept_by_step (cancels d e) = ground arith
kept_by_step (releases d e) = ground arith
kept_by_step (starts_delivery d e) = ground arith
kept_by_step (verifies d e) = ground arith
kept_by_step (finishes o d e) = ground arith
