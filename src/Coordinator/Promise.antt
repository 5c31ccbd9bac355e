-- ===== src/Coordinator/Promise.antt =====
-- The protocol of the coordinators: what is recorded of the operations that one asks for, and which
-- it may ask for next.
use voxel_steward.Base.{ℕ, ◌+◌, ◌≡◌, Bool, false, Option, none, some, if◌then◌else◌, String}
use voxel_steward.Program.Protocol.{Protocol}
use voxel_steward.State.{StateSnapshot}
use voxel_steward.Safety.{continue, evaluate}
use voxel_steward.SafetyQueue.{allows}
use voxel_steward.TaskQueue.{TaskQueueTerminalStatus}
use voxel_steward.TaskQueue.Service.{TaskQueueCommand, mark_delivery_started, mark_verified, finish}
use voxel_steward.Coordinator.{Op, get_snapshot, dispatch_task, read, aborted, place, move, Answer}

-- `safe`: the last thing asked for was a snapshot that allows the work to go on, or after it only
-- whether the signal is aborted. `first` is the first snapshot that was read, `finished` the outcome of a finish that the
-- queue accepted.
pub record Phase : Type 0 where
  pub first : Option StateSnapshot
  pub safe : Bool
  pub delivery_marked : Bool
  pub placements : ℕ
  pub moves : ℕ
  pub verified : Bool
  pub finishes : ℕ
  pub finished : Option TaskQueueTerminalStatus

abbrev pub fresh : Phase
fresh = record {
  first = none;
  safe = false;
  delivery_marked = false;
  placements = 0;
  moves = 0;
  verified = false;
  finishes = 0;
  finished = none;
}

-- The first snapshot, once this one is read too.
abbrev pub first_of : Option StateSnapshot → StateSnapshot → Option StateSnapshot
first_of none s = some s
first_of (some t) s = some t

abbrev pub after_task : Phase → TaskQueueCommand → Bool → Phase
after_task p (mark_delivery_started id) accepted = record p {
  safe = false;
  delivery_marked = accepted;
}
after_task p (mark_verified id) accepted = record p { safe = false; verified = accepted }
after_task p (finish id outcome) accepted = record p {
  safe = false;
  finishes = p.finishes + 1;
  finished = if accepted then some outcome else none;
}
after_task p _ accepted = record p { safe = false }

abbrev pub after_op : Phase → (o : Op) → Answer o → Phase
after_op p get_snapshot s = record p {
  first = first_of p.first s;
  safe = allows (evaluate s continue);
}
after_op p (dispatch_task command) accepted = after_task p command accepted
after_op p (place command) raced = record p { safe = false; placements = p.placements + 1 }
after_op p (move s) raced = record p { safe = false; moves = p.moves + 1 }
after_op p (read aborted) _ = p
after_op p _ _ = record p { safe = false }

-- The task of this identifier is finished at most once; `may` says when the task is marked, a block
-- is placed and a step is moved.
module _ (id : String) (may : Phase → Op → Type 0) where
  abbrev pub MayDispatch : Phase → TaskQueueCommand → Type 0
  MayDispatch p (finish i outcome) = (i ≡ id) × (p.finishes ≡ 0)
  MayDispatch p command = may p (dispatch_task command)

  abbrev pub MayAsk : Phase → Op → Type 0
  MayAsk p (dispatch_task command) = MayDispatch p command
  MayAsk p (place command) = may p (place command)
  MayAsk p (move s) = may p (move s)
  MayAsk p _ = Unit

  abbrev pub coordination : Protocol Op Answer Phase
  coordination = record { allows = MayAsk; next = after_op }
