-- ===== src/SafetyQueue/Tests.antt =====
-- A store of one task under the control of the safety policy: a claim, and a stop that is repeated.
use voxel_steward.Base.{
  ◌≡◌, refl, true, false, Option, none, some, [], ◌∷◌, ok, err, str_eq, if◌then◌else◌,
}
use voxel_steward.Base.Calendar.{iso}
use voxel_steward.Safety.{allow, safe, evaluate, evaluate_body, telemetry_reason}
use voxel_steward.Safety.Laws.{IsWorkable}
use voxel_steward.Safety.Tests.{at_work}
use voxel_steward.TaskQueue.{TaskQueueStatus, TaskQueueItem, claim_task, finish_task, transition}
use voxel_steward.TaskQueue.Service.{
  TaskQueueRepository, queue, repository, dispatch, perform, change, lease_expires_at,
}
use voxel_steward.TaskQueue.Tests.{waiting, taken}
use voxel_steward.SafetyQueue.{
  SafetyControlledTaskQueue, SafetyClaimResult, stop_once, settle_stop, claim_safely, settle_claim,
  hand_out,
}
use voxel_steward.SafetyQueue.Laws.{claim_safely-IsWorkable, stop_once-once}

-- A repository that holds one task at most.
abbrev one_slot : TaskQueueRepository (Option TaskQueueItem)
one_slot = record {
  insert = λ s item. (some item, ok item);
  find = λ s id. elim s [
    | none ↦ (none, ok none)
    | some item ↦ (some item, ok (if str_eq item.task_id id then some item else none))
  ];
  claim_next = λ s at types owner expires. elim s [
    | none ↦ (none, ok none)
    | some item ↦ elim at [
      | iso t ↦ elim (claim_task item (some t)) [
        | ok claimed ↦ (some claimed, ok (some claimed))
        | err e ↦ (some item, err (queue e))
      ]
      | _ ↦ (some item, err (repository "unreadable time"))
    ]
  ];
  replace = λ s expected item. (some item, ok tt);
}

abbrev before : SafetyControlledTaskQueue (Option TaskQueueItem)
before = record { store = some waiting; stopped_task_ids = [] }

abbrev holding : SafetyControlledTaskQueue (Option TaskQueueItem)
holding = record { store = some taken; stopped_task_ids = [] }

abbrev given : SafetyClaimResult
given = record {
  decision = record { disposition = allow; reason = safe; resumable = true };
  item = some taken;
}

claim_safely-IsWorkable_example : IsWorkable at_work × IsWorkable at_work
unfolding claim_safely settle_claim hand_out dispatch perform lease_expires_at claim_task transition
    evaluate evaluate_body telemetry_reason
claim_safely-IsWorkable_example =
    claim_safely-IsWorkable one_slot before holding none none at_work at_work (some 20) (some 21)
      given taken refl refl

abbrev stopped_queue : SafetyControlledTaskQueue (Option TaskQueueItem)
stopped_queue = record {
  store = some (record taken {
    status = TaskQueueStatus.stopped;
    updated_at = iso 30;
    finished_at = some (iso 30);
  });
  stopped_task_ids = "inspect-1" ∷ [];
}

stop_once-once_example :
    stop_once one_slot stopped_queue "inspect-1" (some 31) ≡ (stopped_queue, ok false)
unfolding stop_once settle_stop dispatch perform change finish_task transition
stop_once-once_example =
    stop_once-once one_slot holding stopped_queue "inspect-1" (some 30) (some 31) refl
