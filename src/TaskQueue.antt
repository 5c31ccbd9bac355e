-- ===== src/TaskQueue.antt =====
-- Queued tasks, src/domain/task-queue/types.ts and task-queue.ts: the instruction and its
-- validation, and the life of an item. Values are immutable here, so `freezeInstruction` and
-- `freezeItem` copy nothing; a field that they leave out is `none`.
pub mod Life
pub mod Invariant
pub mod Terminal
pub mod Audit
pub mod Equality
pub mod Service
pub mod Tests
use voxel_steward.Base.{
  ℕ, ◌-◌, ◌+◌, String, Bool, true, false, not, ◌&&◌, ◌||◌, Option, none, some, List, [], ◌∷◌, ◌==◌,
  if◌then◌else◌, str_eq, is_some, Number, nat, is_safe_integer, num_lt, num_le, num_eq, includes,
  all, length, codes, matches_token, is_lower, is_digit, is_joiner, Result, ok, err,
}
use voxel_steward.Base.Calendar.{Date, DateText, iso}
use voxel_steward.BlockOperation.{
  PlaceSingleBlockInstruction, validate_block_operation_instruction, exact_keys,
}
use voxel_steward.SimpleWork.{SimpleWorkInstruction, validate_simple_work_instruction}

pub data TaskQueueStatus : Type 0 where
  queued claimed completed failed stopped cancelled : TaskQueueStatus

pub data TaskExecutionPhase : Type 0 where
  not_started delivery_started verified : TaskExecutionPhase

-- The instruction of `details`, by its `kind`; `unknown_kind` is a kind that the type does not have.
pub data DetailInstruction : Type 0 where
  place_single_dirt : PlaceSingleBlockInstruction → DetailInstruction
  verify_arrival record_position : SimpleWorkInstruction → DetailInstruction
  unknown_kind : String → SimpleWorkInstruction → DetailInstruction

pub record TaskDetails : Type 0 where
  pub keys : List String
  pub version : Number
  pub instruction : DetailInstruction

pub record TaskInstruction : Type 0 where
  pub keys : List String
  pub task_id : String
  pub task_type : String
  pub priority : Number
  pub max_attempts : Number
  pub details : Option TaskDetails

pub record TaskQueueItem : Type 0 where
  pub task_id : String
  pub task_type : String
  pub priority : Number
  pub max_attempts : Number
  pub details : Option TaskDetails
  pub status : TaskQueueStatus
  pub attempts : ℕ
  pub created_at : DateText
  pub updated_at : DateText
  pub claimed_at : Option DateText
  pub finished_at : Option DateText
  pub execution_phase : TaskExecutionPhase

-- `task_not_found` is the queue service's. `range_error` is that of `toISOString` at Invalid Date.
pub data TaskQueueError : Type 0 where
  invalid_task_instruction invalid_task_transition task_not_found range_error : TaskQueueError

infixl 5 ◌>>=◌ ◌>>◌
abbrev pub ◌>>=◌ {ℓ κ} :
    {A : Type ℓ} {B : Type κ}
    → Result TaskQueueError A
    → (A → Result TaskQueueError B)
    → Result TaskQueueError B
err e >>= k = err e
ok a >>= k = k a

abbrev pub ◌>>◌ {ℓ} :
    {B : Type ℓ}
    → Result TaskQueueError (Unit {0})
    → Result TaskQueueError B
    → Result TaskQueueError B
m >> k = m >>= λ _. k

abbrev pub require : Bool → TaskQueueError → Result TaskQueueError (Unit {0})
require holds e = if holds then ok tt else err e

-- `clock().toISOString()`
abbrev pub to_iso : Date → Result TaskQueueError DateText
to_iso none = err range_error
to_iso (some t) = ok (iso t)

-- `/^[a-z0-9][a-z0-9._-]{0,63}$/`
unfoldable pub is_identifier : String → Bool
unfolding matches_token codes
is_identifier s =
    matches_token (λ c. is_lower c || is_digit c) (λ c. is_lower c || is_digit c || is_joiner c) 63
      (codes s)

abbrev pub kind : DetailInstruction → String
kind (place_single_dirt i) = "place_single_dirt"
kind (verify_arrival i) = "verify_arrival"
kind (record_position i) = "record_position"
kind (unknown_kind k i) = k

abbrev pub detail_task_id : DetailInstruction → String
detail_task_id (place_single_dirt i) = i.task_id
detail_task_id (verify_arrival i) = i.task_id
detail_task_id (record_position i) = i.task_id
detail_task_id (unknown_kind k i) = i.task_id

abbrev pub accepts {ℓ} : {E : Type ℓ} → Result E (Unit {0}) → Bool
accepts (ok _) = true
accepts (err _) = false

-- The `try` block of `validateTaskInstruction`: whether it throws nothing.
unfoldable pub accepts_detail : Number → DetailInstruction → Bool
accepts_detail max_attempts (place_single_dirt i) =
    accepts (validate_block_operation_instruction i) && num_eq max_attempts (nat 1)
accepts_detail max_attempts (verify_arrival i) = accepts (validate_simple_work_instruction i)
accepts_detail max_attempts (record_position i) = accepts (validate_simple_work_instruction i)
accepts_detail max_attempts (unknown_kind k i) = false

unfoldable pub has_fields_in_range : TaskInstruction → Bool
has_fields_in_range i =
    all (includes ("taskId" ∷ "taskType" ∷ "priority" ∷ "maxAttempts" ∷ "details" ∷ [])) i.keys
    && length i.keys == (if is_some i.details then 5 else 4)
    && is_identifier i.task_id
    && is_identifier i.task_type
    && is_safe_integer i.priority
    && not (num_lt i.priority (nat 0))
    && not (num_lt (nat 100) i.priority)
    && is_safe_integer i.max_attempts
    && not (num_lt i.max_attempts (nat 1))
    && not (num_lt (nat 10) i.max_attempts)

unfoldable pub accepts_details : TaskInstruction → Option TaskDetails → Bool
accepts_details i none = not (
    str_eq i.task_type "place_single_dirt"
    || str_eq i.task_type "verify_arrival"
    || str_eq i.task_type "record_position")
accepts_details i (some d) =
    num_eq d.version (nat 1)
    && exact_keys d.keys ("version" ∷ "kind" ∷ "instruction" ∷ [])
    && str_eq i.task_id (detail_task_id d.instruction)
    && str_eq i.task_type (kind d.instruction)
    && accepts_detail i.max_attempts d.instruction

unfoldable pub validate_task_instruction : TaskInstruction → Result TaskQueueError (Unit {0})
unfolding accepts_details
validate_task_instruction i = do
  require (has_fields_in_range i) invalid_task_instruction
  require (accepts_details i i.details) invalid_task_instruction

unfoldable pub create_queued_task : TaskInstruction → Date → Result TaskQueueError TaskQueueItem
create_queued_task i clock = do
  validate_task_instruction i
  now ← to_iso clock
  ok (record {
    task_id = i.task_id;
    task_type = i.task_type;
    priority = i.priority;
    max_attempts = i.max_attempts;
    details = i.details;
    status = queued;
    attempts = 0;
    created_at = now;
    updated_at = now;
    claimed_at = none;
    finished_at = none;
    execution_phase = not_started;
  })

-- `allowedTransitions[from].includes(to)`
abbrev pub allowed_transition : TaskQueueStatus → TaskQueueStatus → Bool
allowed_transition queued claimed = true
allowed_transition queued cancelled = true
allowed_transition claimed queued = true
allowed_transition claimed completed = true
allowed_transition claimed failed = true
allowed_transition claimed stopped = true
allowed_transition _ _ = false

-- The source's `{ ...item, ...fields, status, updatedAt: now }`; `fields` is given as the changed item.
unfoldable pub transition :
    TaskQueueItem → TaskQueueStatus → Date → TaskQueueItem → Result TaskQueueError TaskQueueItem
transition item status clock changed = do
  require (allowed_transition item.status status) invalid_task_transition
  now ← to_iso clock
  ok (record changed { status = status; updated_at = now })

abbrev pub is_claimed : TaskQueueStatus → Bool
is_claimed claimed = true
is_claimed _ = false

abbrev pub is_not_started : TaskExecutionPhase → Bool
is_not_started not_started = true
is_not_started _ = false

abbrev pub is_delivery_started : TaskExecutionPhase → Bool
is_delivery_started delivery_started = true
is_delivery_started _ = false

abbrev pub is_placement : Option TaskDetails → Bool
is_placement none = false
is_placement (some d) = elim d.instruction [ place_single_dirt i ↦ true | _ ↦ false ]

unfoldable pub mark_task_delivery_started :
    TaskQueueItem → Date → Result TaskQueueError TaskQueueItem
mark_task_delivery_started item clock = do
  require
      (is_claimed item.status
        && is_not_started item.execution_phase
        && is_placement item.details
        && num_eq item.max_attempts (nat 1))
      invalid_task_transition
  now ← to_iso clock
  ok (record item { execution_phase = delivery_started; updated_at = now })

unfoldable pub mark_task_verified : TaskQueueItem → Date → Result TaskQueueError TaskQueueItem
mark_task_verified item clock = do
  require (is_claimed item.status && is_delivery_started item.execution_phase)
      invalid_task_transition
  now ← to_iso clock
  ok (record item { execution_phase = verified; updated_at = now })

pub data RecoveryDisposition : Type 0 where
  claimable manual_review terminal : RecoveryDisposition

unfoldable pub task_recovery_disposition : TaskQueueItem → RecoveryDisposition
task_recovery_disposition item = elim item.status [
  | queued ↦ claimable
  | claimed ↦ manual_review
  | _ ↦ terminal
]

unfoldable pub claim_task : TaskQueueItem → Date → Result TaskQueueError TaskQueueItem
claim_task item clock = do
  claimed_at ← to_iso clock
  transition item claimed clock (record item {
    attempts = item.attempts + 1;
    claimed_at = some claimed_at;
    finished_at = none;
  })

unfoldable pub cancel_task : TaskQueueItem → Date → Result TaskQueueError TaskQueueItem
cancel_task item clock = do
  finished_at ← to_iso clock
  transition item cancelled clock (record item { finished_at = some finished_at })

-- `item.attempts >= item.maxAttempts`
abbrev pub is_exhausted : TaskQueueItem → Bool
is_exhausted item = num_le item.max_attempts (nat item.attempts)

unfoldable pub release_task : TaskQueueItem → Date → Result TaskQueueError TaskQueueItem
release_task item clock = do
  require (is_claimed item.status) invalid_task_transition
  now ← to_iso clock
  (if is_exhausted item
      then transition item failed clock (record item { finished_at = some now })
      else transition item queued clock (record item { claimed_at = none; finished_at = none }))

pub data TaskQueueTerminalStatus : Type 0 where
  completed failed stopped : TaskQueueTerminalStatus

abbrev pub terminal_status : TaskQueueTerminalStatus → TaskQueueStatus
terminal_status TaskQueueTerminalStatus.completed = TaskQueueStatus.completed
terminal_status TaskQueueTerminalStatus.failed = TaskQueueStatus.failed
terminal_status TaskQueueTerminalStatus.stopped = TaskQueueStatus.stopped

unfoldable pub finish_task :
    TaskQueueItem → TaskQueueTerminalStatus → Date → Result TaskQueueError TaskQueueItem
finish_task item outcome clock = do
  finished_at ← to_iso clock
  transition item (terminal_status outcome) clock (record item { finished_at = some finished_at })
