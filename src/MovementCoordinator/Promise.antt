-- ===== src/MovementCoordinator/Promise.antt =====
-- What a coordinator of movements promises: the order in which it asks for steps, and what its
-- result says of what was done.
use voxel_steward.Base.{
  ℕ, zero, suc, ◌+◌, ◌≤◌, ◌≡◌, true, Option, none, some, Result, ok, err, String, List, [], ◌∷◌,
}
use voxel_steward.Program.Protocol.{Protocol}
use voxel_steward.Movement.Plan.{FloatOps, MovementStep, MovementPlan, create_movement_plan}
use voxel_steward.State.{Position, StateSnapshot}
use voxel_steward.TaskQueue.{TaskQueueTerminalStatus}
use voxel_steward.Coordinator.{Op, move, Answer}
use voxel_steward.Coordinator.Promise.{Phase, coordination}
use voxel_steward.MovementCoordinator.{
  MovementCommand, MovementResult, completed, stopped, failed, FailureReason, task_not_claimed,
  task_state_conflict, finalization_error, CallError, at, escaped, is_near,
}

-- The step at a place of a plan, from 0 on.
unfoldable pub step_at : List MovementStep → ℕ → Option MovementStep
step_at [] n = none
step_at (s ∷ rest) zero = some s
step_at (s ∷ rest) (suc n) = step_at rest n

-- All but at most the last of the steps asked for were completed.
abbrev pub Completes : ℕ → Phase → Type 0
Completes n p = (n ≤ p.moves) × (p.moves ≤ n + 1)

abbrev pub FailureTells : FailureReason → ℕ → Phase → Type 0
FailureTells task_not_claimed n p = (p.finishes ≡ 0) × (p.moves ≡ 0)
FailureTells task_state_conflict n p = (p.finishes ≡ 0) × (p.moves ≡ 0)
FailureTells finalization_error n p = (p.finished ≡ none) × Completes n p
FailureTells _ n p = (p.finished ≡ some TaskQueueTerminalStatus.failed) × Completes n p

module _ (ops : FloatOps) (command : MovementCommand) where
  -- What is found at place `n`, from 0 on, of the plan that is made, for the target and the limits of
  -- the command, from the position of the player in the first snapshot that was read.
  pub record PlanHas (first : Option StateSnapshot) (n : ℕ) (found : Option MovementStep)
      : Type 0 where
    pub snapshot : StateSnapshot
    pub is_first : first ≡ some snapshot
    pub position : Position
    pub dimension : String
    pub is_position : snapshot.minecraft.position ≡ some position
    pub is_dimension : snapshot.minecraft.dimension ≡ some dimension
    pub plan : MovementPlan
    pub is_plan :
        create_movement_plan ops (at position dimension) command.target command.limits ≡ ok plan
    pub is_found : step_at plan.steps n ≡ found

  -- The steps of the plan are asked for in their order, each after a snapshot that allows the work to
  -- go on, with nothing asked for in between but whether the signal is aborted.
  abbrev pub MayMove : Phase → Op → Type 0
  MayMove p (move s) = (p.safe ≡ true) × PlanHas p.first p.moves (some s) × (s.index ≡ p.moves + 1)
  MayMove p _ = ⊥

  abbrev pub movement_protocol : Protocol Op Answer Phase
  movement_protocol = coordination command.task_id MayMove

  -- Success tells that every step asked for was completed and none of the plan is left, that the
  -- position reported is near the target, and that the task is completed; any other end leaves the task
  -- finished accordingly, unless it was not claimed, another task was under way, or finishing it failed.
  abbrev pub ResultTells : MovementResult → Phase → Type 0
  ResultTells (completed n position) p =
      (p.finished ≡ some TaskQueueTerminalStatus.completed)
      × (p.moves ≡ n)
      × PlanHas p.first n none
      × (is_near ops command position command.target ≡ true)
  ResultTells (stopped reason n) p =
      (p.finished ≡ some TaskQueueTerminalStatus.stopped) × Completes n p
  ResultTells (failed reason n) p = FailureTells reason n p

  abbrev pub OutcomeTells : Result CallError MovementResult → Phase → Type 0
  OutcomeTells (ok r) p = ResultTells r p
  OutcomeTells (err (escaped e)) p = ⊥
  OutcomeTells (err _) p = (p.finishes ≡ 0) × (p.moves ≡ 0)
