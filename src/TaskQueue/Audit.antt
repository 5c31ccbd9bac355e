-- ===== src/TaskQueue/Audit.antt =====
-- The audit of tasks before a start, src/application/task-queue/task-recovery-audit.ts. The
-- repository's `list` is a parameter: its items, or none where it fails.
use voxel_steward.Base.{
  ℕ, ◌+◌, ◌≡◌, Bool, true, false, Option, none, some, List, [], ◌∷◌, length, Result, ok, err, arith,
  if◌then◌else◌,
}
use voxel_steward.TaskQueue.{
  TaskQueueItem, TaskQueueStatus, queued, claimable, manual_review, terminal,
  task_recovery_disposition, is_claimed,
}
use voxel_steward.TaskQueue.Invariant.{is_terminal}

pub record TaskRecoveryAudit : Type 0 where
  pub claimable : ℕ
  pub manual_review : ℕ
  pub terminal : ℕ

pub data TaskRecoveryAuditError : Type 0 where
  task_recovery_audit_failed : TaskRecoveryAuditError

-- The body of the loop.
unfoldable pub count_item : TaskQueueItem → TaskRecoveryAudit → TaskRecoveryAudit
count_item item a = elim (task_recovery_disposition item) [
  | claimable ↦ record a { claimable = a.claimable + 1 }
  | manual_review ↦ record a { manual_review = a.manual_review + 1 }
  | terminal ↦ record a { terminal = a.terminal + 1 }
]

unfoldable pub count_items : List TaskQueueItem → TaskRecoveryAudit → TaskRecoveryAudit
count_items [] a = a
count_items (item ∷ items) a = count_items items (count_item item a)

unfoldable pub audit_task_recovery :
    Option (List TaskQueueItem) → Result TaskRecoveryAuditError TaskRecoveryAudit
audit_task_recovery none = err task_recovery_audit_failed
audit_task_recovery (some items) =
    ok (count_items items (record { claimable = 0; manual_review = 0; terminal = 0 }))

abbrev pub is_queued : TaskQueueStatus → Bool
is_queued queued = true
is_queued _ = false

-- How many of the items have a status that the test accepts.
unfoldable pub count_status : (TaskQueueStatus → Bool) → List TaskQueueItem → ℕ
count_status test [] = 0
count_status test (item ∷ items) =
    let rest = count_status test items in if test item.status then rest + 1 else rest

abbrev pub one_if : Bool → ℕ
one_if test = if test then 1 else 0

count_item-counts :
    (item : TaskQueueItem) (a : TaskRecoveryAudit)
    → ((count_item item a).claimable ≡ a.claimable + one_if (is_queued item.status))
      × ((count_item item a).manual_review ≡ a.manual_review + one_if (is_claimed item.status))
      × ((count_item item a).terminal ≡ a.terminal + one_if (is_terminal item.status))
unfolding count_item task_recovery_disposition
count_item-counts item a = (ground arith, ground arith, ground arith)

count_items-counts :
    (items : List TaskQueueItem) (a : TaskRecoveryAudit)
    → ((count_items items a).claimable ≡ a.claimable + count_status is_queued items)
      × ((count_items items a).manual_review ≡ a.manual_review + count_status is_claimed items)
      × ((count_items items a).terminal ≡ a.terminal + count_status is_terminal items)
unfolding count_items count_status
count_items-counts [] a = (omega arith, omega arith, omega arith)
count_items-counts (item ∷ items) a =
    let (c, m, t) = count_item-counts item a in
    let (cs, ms, ts) = count_items-counts items (count_item item a) in
    (ground arith, ground arith, ground arith)

count_status-length :
    (items : List TaskQueueItem)
    → count_status is_queued items + count_status is_claimed items + count_status is_terminal items
      ≡ length items
unfolding count_status
count_status-length [] = omega arith
count_status-length (item ∷ items) = let rest = count_status-length items in ground arith

-- An audit that succeeds counts the queued tasks as claimable, the claimed ones for a manual review
-- and the finished or cancelled ones as terminal, and counts every task once.
pub audit_task_recovery-counts :
    (items : List TaskQueueItem) (a : TaskRecoveryAudit)
    → audit_task_recovery (some items) ≡ ok a
    → (a.claimable ≡ count_status is_queued items)
      × (a.manual_review ≡ count_status is_claimed items)
      × (a.terminal ≡ count_status is_terminal items)
      × (a.claimable + a.manual_review + a.terminal ≡ length items)
unfolding audit_task_recovery
audit_task_recovery-counts items a e =
    let none_yet : TaskRecoveryAudit = record { claimable = 0; manual_review = 0; terminal = 0 } in
    let (c, m, t) = count_items-counts items none_yet in
    let l = count_status-length items in (ground arith, ground arith, ground arith, ground arith)
