-- ===== src/BlockCoordinator/Promise.antt =====
-- What a coordinator of placements promises: the order in which it asks for things, and what its
-- result says of what was done.
use voxel_steward.Base.{◌≡◌, true, none, some, Result, ok, err}
use voxel_steward.Program.Protocol.{Protocol}
use voxel_steward.BlockOperation.{PlaceSingleBlockInstruction}
use voxel_steward.TaskQueue.{TaskQueueTerminalStatus}
use voxel_steward.TaskQueue.Service.{TaskQueueCommand, mark_delivery_started, mark_verified}
use voxel_steward.Coordinator.{Op, dispatch_task, place, Answer}
use voxel_steward.Coordinator.Promise.{Phase, coordination}
use voxel_steward.BlockCoordinator.{
  BlockOperationResult, completed, stopped, failed, FailureReason, invalid_instruction,
  task_not_claimed, finalization_error, CallError, escaped, matches,
}

module _ (command : PlaceSingleBlockInstruction) where
  abbrev pub MayMark : Phase → TaskQueueCommand → Type 0
  MayMark p (mark_delivery_started id) = (id ≡ command.task_id) × (p.placements ≡ 0)
  MayMark p (mark_verified id) = (id ≡ command.task_id) × (p.placements ≡ 1)
  MayMark p _ = ⊥

  -- A placement is asked for at most once, for this command, after the delivery was marked, and
  -- with nothing asked for between it and a snapshot that allows the work to go on, but whether the
  -- signal is aborted.
  abbrev pub MayPlace : Phase → Op → Type 0
  MayPlace p (dispatch_task c) = MayMark p c
  MayPlace p (place c) =
      (c ≡ command) × (p.safe ≡ true) × (p.delivery_marked ≡ true) × (p.placements ≡ 0)
  MayPlace p _ = ⊥

  abbrev pub placement_protocol : Protocol Op Answer Phase
  placement_protocol = coordination command.task_id MayPlace

  -- Success tells that the block was asked for once and seen in its place, and the task is
  -- completed; any other end leaves the task finished accordingly, unless it was not claimed for
  -- this command or finishing it failed.
  abbrev pub FailureTells : FailureReason → Phase → Type 0
  FailureTells invalid_instruction p = (p.finishes ≡ 0) × (p.placements ≡ 0)
  FailureTells task_not_claimed p = (p.finishes ≡ 0) × (p.placements ≡ 0)
  FailureTells finalization_error p = p.finished ≡ none
  FailureTells _ p = p.finished ≡ some TaskQueueTerminalStatus.failed

  abbrev pub ResultTells : BlockOperationResult → Phase → Type 0
  ResultTells (completed o) p =
      (p.finished ≡ some TaskQueueTerminalStatus.completed)
      × (p.verified ≡ true)
      × (p.placements ≡ 1)
      × (matches o command.target ≡ true)
      × (o.block_type ≡ command.expected_after)
  ResultTells (stopped reason) p = p.finished ≡ some TaskQueueTerminalStatus.stopped
  ResultTells (failed reason) p = FailureTells reason p

  abbrev pub OutcomeTells : Result CallError BlockOperationResult → Phase → Type 0
  OutcomeTells (ok r) p = ResultTells r p
  OutcomeTells (err (escaped e)) p = ⊥
  OutcomeTells (err _) p = (p.finishes ≡ 0) × (p.placements ≡ 0)
