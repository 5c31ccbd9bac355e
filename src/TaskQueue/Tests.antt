-- ===== src/TaskQueue/Tests.antt =====
-- The life of a placement and of a task with three attempts, an audit and a repeated request.
use voxel_steward.Base.{
  ℕ, ◌≤◌, ◌<◌, ◌≡◌, ◌≢◌, refl, nat, none, some, [], ◌∷◌, ◌+◌, length, ok, err, arith,
}
use voxel_steward.Base.Calendar.{iso}
use voxel_steward.TaskQueue.{
  TaskQueueStatus, queued, claimed, not_started, delivery_started, place_single_dirt,
  TaskInstruction, TaskDetails, is_claimed, TaskQueueItem, TaskQueueTerminalStatus,
  invalid_task_transition, claimable, task_recovery_disposition, has_fields_in_range, is_identifier,
  validate_task_instruction, create_queued_task, transition, claim_task, cancel_task, release_task,
  mark_task_delivery_started, mark_task_verified, finish_task,
}
use voxel_steward.TaskQueue.Life.{TaskReach, here, next, claims, releases, claim_count}
use voxel_steward.TaskQueue.Invariant.{
  is_terminal, IsWellFormed, create_queued_task-IsWellFormed, TaskReach-IsWellFormed,
}
use voxel_steward.TaskQueue.Terminal.{
  started-never_claimable, claim_count-le, terminal-refuses, release_task-outcome,
}
use voxel_steward.TaskQueue.Audit.{
  TaskRecoveryAudit, count_item, count_items, audit_task_recovery, is_queued, count_status,
  audit_task_recovery-counts,
}
use voxel_steward.TaskQueue.Equality.{
  AskForSame, same_instruction, same_fields, compare_details, task_instruction_equals,
  task_instruction_equals-AskForSame,
}
use voxel_steward.BlockOperation.{block_operation_instruction_equals, same_block_position}
use voxel_steward.BlockOperation.Tests.{placement}

abbrev inspection : TaskInstruction
inspection = record {
  keys = "taskId" ∷ "taskType" ∷ "priority" ∷ "maxAttempts" ∷ [];
  task_id = "inspect-1";
  task_type = "inspect";
  priority = nat 5;
  max_attempts = nat 3;
  details = none;
}

abbrev pub waiting : TaskQueueItem
waiting = record {
  task_id = "inspect-1";
  task_type = "inspect";
  priority = nat 5;
  max_attempts = nat 3;
  details = none;
  status = queued;
  attempts = 0;
  created_at = iso 10;
  updated_at = iso 10;
  claimed_at = none;
  finished_at = none;
  execution_phase = not_started;
}

created : create_queued_task inspection (some 10) ≡ ok waiting
unfolding create_queued_task validate_task_instruction has_fields_in_range is_identifier
created = refl

create_queued_task-IsWellFormed_example : IsWellFormed waiting
create_queued_task-IsWellFormed_example =
    create_queued_task-IsWellFormed inspection (some 10) waiting created

abbrev pub taken : TaskQueueItem
taken = record waiting {
  status = claimed;
  attempts = 1;
  updated_at = iso 20;
  claimed_at = some (iso 20);
}

takes : claim_task waiting (some 20) ≡ ok taken
unfolding claim_task transition
takes = refl

abbrev put_back : TaskQueueItem
put_back = record waiting { attempts = 1; updated_at = iso 30 }

puts_back : release_task taken (some 30) ≡ ok put_back
unfolding release_task transition
puts_back = refl

abbrev history : TaskReach waiting put_back
history = next (next here (claims (some 20) takes)) (releases (some 30) puts_back)

claim_count-le_example : (claim_count history ≤ 3) × (claim_count history ≤ 10)
claim_count-le_example = claim_count-le inspection (some 10) waiting put_back 3 created refl history

TaskReach-IsWellFormed_example : IsWellFormed put_back
TaskReach-IsWellFormed_example =
    TaskReach-IsWellFormed {i = waiting} {j = put_back} history
      (create_queued_task-IsWellFormed inspection (some 10) waiting created)

abbrev done_item : TaskQueueItem
done_item = record taken {
  status = TaskQueueStatus.completed;
  updated_at = iso 40;
  finished_at = some (iso 40);
}

terminal-refuses_example :
    (claim_task done_item (some 50) ≡ err invalid_task_transition)
    × (cancel_task done_item (some 50) ≡ err invalid_task_transition)
    × (release_task done_item (some 50) ≡ err invalid_task_transition)
    × (mark_task_delivery_started done_item (some 50) ≡ err invalid_task_transition)
    × (mark_task_verified done_item (some 50) ≡ err invalid_task_transition)
    × (finish_task done_item TaskQueueTerminalStatus.failed (some 50) ≡ err invalid_task_transition)
terminal-refuses_example = terminal-refuses done_item TaskQueueTerminalStatus.failed 50 refl

taken-IsWellFormed : IsWellFormed taken
taken-IsWellFormed =
    TaskReach-IsWellFormed {i = waiting} {j = taken} (next here (claims (some 20) takes))
      (create_queued_task-IsWellFormed inspection (some 10) waiting created)

release_task-outcome_example :
    (j : TaskQueueItem) × (release_task taken (some 30) ≡ ok j)
    × (1 < 3 → (j.status ≡ queued) × (j.claimed_at ≡ none))
    × (◌≡◌ {A = ℕ} 1 3 → (j.status ≡ TaskQueueStatus.failed) × (j.finished_at ≡ some (iso 30)))
release_task-outcome_example = release_task-outcome taken 3 30 taken-IsWellFormed refl refl

abbrev placing : TaskQueueItem
placing = record {
  task_id = "place-1";
  task_type = "place_single_dirt";
  priority = nat 5;
  max_attempts = nat 1;
  details = some (record {
    keys = "version" ∷ "kind" ∷ "instruction" ∷ [];
    version = nat 1;
    instruction = place_single_dirt placement;
  });
  status = claimed;
  attempts = 1;
  created_at = iso 10;
  updated_at = iso 30;
  claimed_at = some (iso 20);
  finished_at = none;
  execution_phase = delivery_started;
}

abbrev lost : TaskQueueItem
lost = record placing {
  status = TaskQueueStatus.failed;
  updated_at = iso 40;
  finished_at = some (iso 40);
}

loses : release_task placing (some 40) ≡ ok lost
unfolding release_task transition
loses = refl

placing-IsWellFormed : IsWellFormed placing
placing-IsWellFormed = record {
  limit = 1;
  max_attempts = refl;
  limit_le = omega arith;
  attempts_le = omega arith;
  queued_budget = λ e. cc;
  claimed_once = λ e. omega arith;
  finished = refl;
  has_claim_time = refl;
  unstarted = λ e. cc;
  started = λ e. (refl, refl);
}

started-never_claimable_example :
    (task_recovery_disposition lost ≢ claimable)
    × (mark_task_delivery_started lost (some 50) ≡ err invalid_task_transition)
started-never_claimable_example =
    started-never_claimable placing lost (some 50) placing-IsWellFormed (λ e. cc)
      (next here (releases (some 40) loses))

abbrev audited : TaskRecoveryAudit
audited = record { claimable = 1; manual_review = 2; terminal = 1 }

audit_task_recovery-counts_example :
    (1 ≡ count_status is_queued (waiting ∷ taken ∷ lost ∷ placing ∷ []))
    × (2 ≡ count_status is_claimed (waiting ∷ taken ∷ lost ∷ placing ∷ []))
    × (1 ≡ count_status is_terminal (waiting ∷ taken ∷ lost ∷ placing ∷ []))
    × (1 + 2 + 1 ≡ length (waiting ∷ taken ∷ lost ∷ placing ∷ []))
unfolding audit_task_recovery count_items count_item task_recovery_disposition
audit_task_recovery-counts_example =
    audit_task_recovery-counts (waiting ∷ taken ∷ lost ∷ placing ∷ []) audited refl

abbrev placing_details : TaskDetails
placing_details = record {
  keys = "version" ∷ "kind" ∷ "instruction" ∷ [];
  version = nat 1;
  instruction = place_single_dirt placement;
}

abbrev place_it : TaskInstruction
place_it = record {
  keys = "taskId" ∷ "taskType" ∷ "priority" ∷ "maxAttempts" ∷ "details" ∷ [];
  task_id = "place-1";
  task_type = "place_single_dirt";
  priority = nat 5;
  max_attempts = nat 1;
  details = some placing_details;
}

task_instruction_equals-AskForSame_example :
    (place_it.task_id ≡ place_it.task_id)
    × (place_it.task_type ≡ place_it.task_type)
    × (place_it.priority ≡ place_it.priority)
    × (place_it.max_attempts ≡ place_it.max_attempts)
    × AskForSame (place_single_dirt placement) (place_single_dirt placement)
unfolding task_instruction_equals compare_details same_fields same_instruction
    block_operation_instruction_equals same_block_position
task_instruction_equals-AskForSame_example =
    task_instruction_equals-AskForSame place_it place_it placing_details placing_details refl refl
      refl
