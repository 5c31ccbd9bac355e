-- ===== src/SafetyQueue.antt =====
-- The task queue under the control of the safety policy,
-- src/application/safety/safety-controlled-task-queue.ts. The two snapshots of a claim are what
-- `getSnapshot` gives before and after the queue was asked, and the clock is read at each dispatch.
pub mod Laws
mod Tests
use voxel_steward.Base.{
  String, Bool, true, false, Option, none, some, List, ◌∷◌, if◌then◌else◌, includes, Number, Result,
  ok, err,
}
use voxel_steward.Base.Calendar.{Date}
use voxel_steward.State.{StateSnapshot}
use voxel_steward.Safety.{
  WorkSafetyIntent, start, continue, WorkSafetyDecision, Disposition, allow, stop, evaluate,
}
use voxel_steward.TaskQueue.{TaskQueueItem, TaskQueueTerminalStatus}
use voxel_steward.TaskQueue.Service.{
  TaskQueueRepository, ServiceError, TaskQueueEvent, dispatch, claim_next, finish,
}

pub record SafetyClaimResult : Type 0 where
  pub decision : WorkSafetyDecision
  pub item : Option TaskQueueItem

pub record SafetyContinuationResult : Type 0 where
  pub decision : WorkSafetyDecision
  pub stopped : Bool

-- The state of the queue behind the service, and `#stoppedTaskIds`.
pub record SafetyControlledTaskQueue (S : Type 0) : Type 0 where
  pub store : S
  pub stopped_task_ids : List String

abbrev pub allows : WorkSafetyDecision → Bool
allows d = elim d.disposition [ allow ↦ true | _ ↦ false ]

abbrev pub stops : WorkSafetyDecision → Bool
stops d = elim d.disposition [ stop ↦ true | _ ↦ false ]

-- `claim`: the owner and the duration of the lease.
abbrev pub claim_owner : Option (String × Number) → Option String
claim_owner none = none
claim_owner (some c) = some c.0

abbrev pub claim_lease : Option (String × Number) → Option Number
claim_lease none = none
claim_lease (some c) = some c.1

module _ {S : Type 0} (repo : TaskQueueRepository S) where
  -- `#stopOnce` after the queue answered: a failure takes the identifier out of the set again.
  unfoldable pub settle_stop :
      SafetyControlledTaskQueue S
      → String
      → S × Result ServiceError TaskQueueEvent
      → SafetyControlledTaskQueue S × Result ServiceError Bool
  settle_stop q id (s, err e) = (record q { store = s }, err e)
  settle_stop q id (s, ok event) =
      (record q { store = s; stopped_task_ids = id ∷ q.stopped_task_ids }, ok true)

  unfoldable pub stop_once :
      SafetyControlledTaskQueue S
      → String
      → Date
      → SafetyControlledTaskQueue S × Result ServiceError Bool
  stop_once q id clock =
      if includes q.stopped_task_ids id
      then (q, ok false)
      else settle_stop q id
          (dispatch repo q.store (finish id TaskQueueTerminalStatus.stopped) clock)

  -- After a claimed task was stopped because the policy denied the work.
  abbrev pub withhold :
      WorkSafetyDecision
      → SafetyControlledTaskQueue S × Result ServiceError Bool
      → SafetyControlledTaskQueue S × Result ServiceError SafetyClaimResult
  withhold decision (q, err e) = (q, err e)
  withhold decision (q, ok _) = (q, ok (record { decision = decision; item = none }))

  unfoldable pub hand_out :
      SafetyControlledTaskQueue S
      → TaskQueueItem
      → WorkSafetyDecision
      → Date
      → SafetyControlledTaskQueue S × Result ServiceError SafetyClaimResult
  hand_out q item after_claim clock =
      if allows after_claim
      then (q, ok (record { decision = after_claim; item = some item }))
      else withhold after_claim (stop_once q item.task_id clock)

  unfoldable pub settle_claim :
      SafetyControlledTaskQueue S
      → S × Result ServiceError TaskQueueEvent
      → WorkSafetyDecision
      → WorkSafetyDecision
      → Date
      → SafetyControlledTaskQueue S × Result ServiceError SafetyClaimResult
  settle_claim q (s, err e) decision after_claim clock = (record q { store = s }, err e)
  settle_claim q (s, ok event) decision after_claim clock = elim event.item [
    | none ↦ (record q { store = s }, ok (record { decision = decision; item = none }))
    | some item ↦ hand_out (record q { store = s }) item after_claim clock
  ]

  -- `claimNext`
  unfoldable pub claim_safely :
      SafetyControlledTaskQueue S
      → Option (List String)
      → Option (String × Number)
      → StateSnapshot
      → StateSnapshot
      → Date
      → Date
      → SafetyControlledTaskQueue S × Result ServiceError SafetyClaimResult
  claim_safely q types claim before after clock later =
      let decision = evaluate before start in
      if allows decision
      then settle_claim q
          (dispatch repo q.store (claim_next types (claim_owner claim) (claim_lease claim)) clock)
          decision (evaluate after start) later
      else (q, ok (record { decision = decision; item = none }))

  abbrev pub report_stop :
      WorkSafetyDecision
      → SafetyControlledTaskQueue S × Result ServiceError Bool
      → SafetyControlledTaskQueue S × Result ServiceError SafetyContinuationResult
  report_stop decision (q, err e) = (q, err e)
  report_stop decision (q, ok stopped) = (q, ok (record { decision = decision; stopped = stopped }))

  unfoldable pub enforce_continuation :
      SafetyControlledTaskQueue S
      → String
      → StateSnapshot
      → Date
      → SafetyControlledTaskQueue S × Result ServiceError SafetyContinuationResult
  enforce_continuation q id snapshot clock =
      let decision = evaluate snapshot continue in
      if stops decision
      then report_stop decision (stop_once q id clock)
      else (q, ok (record { decision = decision; stopped = false }))
