-- ===== src/TaskQueue/Service.antt =====
-- The task queue service, src/application/task-queue/task-queue-service.ts, over the repository of
-- src/ports/task-queue-repository.ts. The repository is a parameter: its state is a type, and an
-- operation gives the state after it, with all that others wrote to it meanwhile.
use voxel_steward.Base.{
  ℕ, ◌+◌, String, ◌&&◌, Option, none, some, List, if◌then◌else◌, leb, Number, num, pos, Result, ok,
  err, ◌==◌,
}
use voxel_steward.Base.Calendar.{Date, DateText, iso}
use voxel_steward.TaskQueue.{
  TaskInstruction, TaskQueueItem, TaskQueueTerminalStatus, TaskQueueError, invalid_task_instruction,
  task_not_found, range_error, create_queued_task, cancel_task, release_task,
  mark_task_delivery_started, mark_task_verified, finish_task,
}

-- An error of the domain, or one that the repository raises.
pub data ServiceError : Type 0 where
  queue : TaskQueueError → ServiceError
  repository : String → ServiceError

-- The operations that the service calls.
pub record TaskQueueRepository (S : Type 0) : Type 0 where
  pub insert : S → TaskQueueItem → S × Result ServiceError TaskQueueItem
  pub find : S → String → S × Result ServiceError (Option TaskQueueItem)
  pub claim_next :
      S
      → DateText
      → Option (List String)
      → Option String
      → Option DateText
      → S × Result ServiceError (Option TaskQueueItem)
  pub replace : S → TaskQueueItem → TaskQueueItem → S × Result ServiceError (Unit {0})

pub data TaskQueueCommand : Type 0 where
  enqueue : TaskInstruction → TaskQueueCommand
  claim_next : Option (List String) → Option String → Option Number → TaskQueueCommand
  cancel release mark_delivery_started mark_verified : String → TaskQueueCommand
  finish : String → TaskQueueTerminalStatus → TaskQueueCommand

-- The event holds the type of its command, which is left out: the caller has the command.
pub record TaskQueueEvent : Type 0 where
  pub occurred_at : DateText
  pub item : Option TaskQueueItem

-- The lease, where it is a safe integer from 1 through 300000.
abbrev pub lease_ms : Number → Option ℕ
lease_ms (num (pos n) r) = if r == 0 && leb 1 n && leb n 300000 then some n else none
lease_ms _ = none

-- The time at which the lease ends; an error where the command has an owner and no lease, or a lease
-- and no owner, or one that is out of range.
unfoldable pub lease_expires_at :
    ℕ → Option String → Option Number → Result ServiceError (Option DateText)
lease_expires_at now none none = ok none
lease_expires_at now (some owner) (some ms) = elim (lease_ms ms) [
  | some n ↦ ok (some (iso (now + n)))
  | none ↦ err (queue invalid_task_instruction)
]
lease_expires_at now _ _ = err (queue invalid_task_instruction)

abbrev pub from_domain {ℓ} : {A : Type ℓ} → Result TaskQueueError A → Result ServiceError A
from_domain (ok a) = ok a
from_domain (err e) = err (queue e)

-- An `await`: the rest runs on what the operation gives, and an error ends the whole.
abbrev pub await {ℓ κ} :
    {S : Type 0} {A : Type ℓ} {B : Type κ}
    → S × Result ServiceError A
    → (S → A → S × Result ServiceError B)
    → S × Result ServiceError B
await (s, ok a) rest = rest s a
await (s, err e) rest = (s, err e)

abbrev pub lift {ℓ} :
    {S : Type 0} {A : Type ℓ} → S → Result ServiceError A → S × Result ServiceError A
lift s r = (s, r)

-- `#required`, after `find`.
abbrev pub required : Option TaskQueueItem → Result ServiceError TaskQueueItem
required none = err (queue task_not_found)
required (some item) = ok item

module _ {S : Type 0} (repo : TaskQueueRepository S) where
  -- The five commands that change the task of an identifier.
  unfoldable pub change :
      S
      → String
      → (TaskQueueItem → Result TaskQueueError TaskQueueItem)
      → S × Result ServiceError (Option TaskQueueItem)
  change s id operation = await (repo.find s id) λ s found.
      await (lift s (required found)) λ s current.
        await (lift s (from_domain (operation current)))
          λ s item. await (repo.replace s current item) λ s _. (s, ok (some item))

  unfoldable pub perform : S → TaskQueueCommand → ℕ → S × Result ServiceError (Option TaskQueueItem)
  perform s (enqueue i) now =
      await (lift s (from_domain (create_queued_task i (some now))))
        λ s item. await (repo.insert s item) λ s inserted. (s, ok (some inserted))
  perform s (claim_next types owner ms) now =
      await (lift s (lease_expires_at now owner ms))
        λ s expires. repo.claim_next s (iso now) types owner expires
  perform s (cancel id) now = change s id λ item. cancel_task item (some now)
  perform s (release id) now = change s id λ item. release_task item (some now)
  perform s (mark_delivery_started id) now =
      change s id λ item. mark_task_delivery_started item (some now)
  perform s (mark_verified id) now = change s id λ item. mark_task_verified item (some now)
  perform s (finish id outcome) now = change s id λ item. finish_task item outcome (some now)

  unfoldable pub dispatch : S → TaskQueueCommand → Date → S × Result ServiceError TaskQueueEvent
  dispatch s command none = (s, err (queue range_error))
  dispatch s command (some now) =
      await (perform s command now)
        λ s item. (s, ok (record { occurred_at = iso now; item = item }))
