-- ===== src/MovementCoordinator/Stages.antt =====
-- That each stage of the coordinator, up to its `try` block as a whole, keeps its promise.
use voxel_steward.Base.{
  ℕ, ◌+◌, ◌≡◌, refl, none, some, Option, Result, ok, err, arith, not, String, length,
}
use voxel_steward.Program.{◌>>=◌}
use voxel_steward.Program.Protocol.{ends, asks}
use voxel_steward.Movement.{
  MovementError, invalid_movement_position, invalid_movement_limits, movement_plan_too_large,
}
use voxel_steward.Movement.Plan.{
  FloatOps, MovementStep, MovementPlan, create_movement_plan, step_count,
}
use voxel_steward.Movement.Laws.{create_movement_plan-steps}
use voxel_steward.State.{StateSnapshot, Position, TaskTarget, task_prepare, task_transition}
use voxel_steward.Safety.{start, evaluate}
use voxel_steward.SafetyQueue.{allows}
use voxel_steward.TaskQueue.{TaskQueueItem, TaskQueueTerminalStatus}
use voxel_steward.Coordinator.{or_throw, is_idle}
use voxel_steward.Coordinator.Promise.{Phase}
use voxel_steward.Coordinator.Steps.{IsOpen, later, on_test, commit_state-then}
use voxel_steward.MovementCoordinator.{
  before_finalization, Body, MovementCommand, MovementResult, invalid_position, safety_stop, at,
  plan_failure, follow, check_position, is_claimed_for, check_start, carry_out,
}
use voxel_steward.MovementCoordinator.Promise.{PlanHas, MayMove, Completes, FailureTells, step_at}
use voxel_steward.MovementCoordinator.Route.{steps_from-zero, AreNumbered-step_at, first_of-none}
use voxel_steward.MovementCoordinator.Steps.{
  Since, Under, Keeps, BodyTells, stop_with-tells, fail_with-tells,
}
use voxel_steward.MovementCoordinator.Walk.{walk-tells}

module _ (ops : FloatOps) (command : MovementCommand) where
  plan_failure-tells :
      (e : MovementError) (q : Phase)
      → q.finished ≡ some TaskQueueTerminalStatus.failed
      → Completes 0 q
      → FailureTells (plan_failure ops command e) 0 q
  plan_failure-tells invalid_movement_position q f c = (f, c)
  plan_failure-tells invalid_movement_limits q f c = (f, c)
  plan_failure-tells movement_plan_too_large q f c = (f, c)

  module _ (began : StateSnapshot) (a : Position) (d : String)
      (position : began.minecraft.position ≡ some a)
      (dimension : began.minecraft.dimension ≡ some d) where
    planned-step :
        (plan : MovementPlan)
        → create_movement_plan ops (at a d) command.target command.limits ≡ ok plan
        → (k : ℕ) (found : Option MovementStep) → step_at plan.steps k ≡ found
        → PlanHas ops command (some began) k found
    planned-step plan made k found e = record {
      snapshot = began;
      is_first = refl;
      position = a;
      dimension = d;
      is_position = position;
      is_dimension = dimension;
      plan = plan;
      is_plan = made;
      is_found = e;
    }

    planned-index :
        (plan : MovementPlan)
        → create_movement_plan ops (at a d) command.target command.limits ≡ ok plan
        → (k : ℕ) (s : MovementStep) → step_at plan.steps k ≡ some s
        → s.index ≡ k + 1
    planned-index plan made k s e =
        let (_, _, numbered, _, _, _) =
          create_movement_plan-steps ops (at a d) command.target command.limits plan made in
        let count = step_count ops (at a d) command.target command.limits in
        omega (arith, AreNumbered-step_at (at a d) count plan.steps 0 k s numbered e)

    follow-tells :
        (p : Phase) (plan : Result MovementError MovementPlan)
        → create_movement_plan ops (at a d) command.target command.limits ≡ plan
        → IsOpen p
        → Since ops command began 0 p
        → Keeps ops command (BodyTells ops command) p (follow ops command plan)
    unfolding follow
    follow-tells p (err e) made o (m, f) =
        fail_with-tells ops command p (plan_failure ops command e) 0 (o, (omega arith, omega arith))
          (plan_failure-tells e)
    follow-tells p (ok plan) made o (m, f) =
        commit_state-then command.task_id (MayMove ops command) p (before_finalization 0)
          (task_prepare command.task_id command.task_type)
          (commit_state-then command.task_id (MayMove ops command) (later p) (before_finalization 0)
            (task_transition TaskTarget.running)
            (walk-tells ops command began plan.steps (planned-step plan made)
              (planned-index plan made) (length plan.steps) 0 plan.steps
              (steps_from-zero plan.steps) (later p) o (m, f))
            (o, (omega arith, omega arith)))
          (o, (omega arith, omega arith))

  check_position-tells :
      (began : StateSnapshot) (p : Phase) (position : Option Position) (dimension : Option String)
      → began.minecraft.position ≡ position
      → began.minecraft.dimension ≡ dimension
      → IsOpen p
      → Since ops command began 0 p
      → Keeps ops command (BodyTells ops command) p (check_position ops command position dimension)
  unfolding check_position
  check_position-tells began p none dimension ep ed o (m, f) =
      fail_with-tells ops command p invalid_position 0 (o, (omega arith, omega arith))
        λ q f c. (f, c)
  check_position-tells began p (some a) none ep ed o (m, f) =
      fail_with-tells ops command p invalid_position 0 (o, (omega arith, omega arith))
        λ q f c. (f, c)
  check_position-tells began p (some a) (some d) ep ed o m =
      follow-tells began a d ep ed p _ refl o m

  check_start-tells :
      (p : Phase)
      → IsOpen p
      → p.moves ≡ 0
      → p.first ≡ none
      → Keeps ops command (BodyTells ops command) p (check_start ops command)
  unfolding check_start
  check_start-tells p o m f = asks tt λ s.
      on_test command.task_id (MayMove ops command) (not (is_idle s.task.state))
        (λ _. ends (o.0, m))
        λ _.
          on_test command.task_id (MayMove ops command) (allows (evaluate s start))
            (λ _.
              check_position-tells s _ s.minecraft.position s.minecraft.dimension refl refl o
                (m, first_of-none p.first s f))
            (λ _. stop_with-tells ops command _ safety_stop 0 (o, (omega arith, omega arith)))

  found-tells :
      (p : Phase) (found : Option (Option TaskQueueItem))
      (k : Option TaskQueueItem → Body MovementResult)
      → Under 0 p
      → ((item : Option TaskQueueItem) → Keeps ops command (BodyTells ops command) p (k item))
      → Keeps ops command (BodyTells ops command) p (or_throw (before_finalization 0) found >>= k)
  unfolding or_throw
  found-tells p none k u h = ends u
  found-tells p (some item) k u h = h item

  pub carry_out-tells :
      (p : Phase)
      → IsOpen p
      → p.moves ≡ 0
      → p.first ≡ none
      → Keeps ops command (BodyTells ops command) p (carry_out ops command)
  unfolding carry_out
  carry_out-tells p o m f = asks tt λ found.
      found-tells _ found _ (o, (omega arith, omega arith))
        λ item.
          on_test command.task_id (MayMove ops command) (is_claimed_for ops command item)
            (λ _. check_start-tells _ o m f) (λ _. ends (o.0, m))
