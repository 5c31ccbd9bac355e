-- ===== src/MovementCoordinator/Walk.antt =====
-- That the loop over the steps of a plan, of src/application/movement/movement-coordinator.ts, keeps the
-- promise.
use voxel_steward.Base.{ℕ, ◌+◌, ◌≡◌, none, some, Option, arith, not, String, List, [], ◌∷◌}
use voxel_steward.Program.Protocol.{ends, asks}
use voxel_steward.Movement.{MovementPosition, validate_movement_position}
use voxel_steward.Movement.Plan.{FloatOps, MovementStep}
use voxel_steward.State.{StateSnapshot, Position, minecraft_telemetry_update, task_progress_update}
use voxel_steward.Safety.{continue, evaluate}
use voxel_steward.SafetyQueue.{allows}
use voxel_steward.TaskQueue.{TaskQueueTerminalStatus, accepts}
use voxel_steward.Coordinator.Promise.{Phase}
use voxel_steward.Coordinator.Steps.{first_of-some, IsOpen, later, on_test, commit_state-then}
use voxel_steward.MovementCoordinator.{
  before_finalization, Body, MovementCommand, MovementResult, invalid_position, target_not_reached,
  safety_stop, cancelled, position_telemetry, progress_of, at, is_near, advance, check_step,
  take_step, arrive, walk,
}
use voxel_steward.MovementCoordinator.Promise.{PlanHas, MayMove, step_at}
use voxel_steward.MovementCoordinator.Route.{steps_from, steps_from-step_at, steps_from-end}
use voxel_steward.MovementCoordinator.Steps.{
  Since, Under, Keeps, BodyTells, finalize-then, stop_port_and_stop-tells, stop_port_and_fail-tells,
  move-then,
}

module _ (ops : FloatOps) (command : MovementCommand) where
  module _ (began : StateSnapshot) where
    arrive-tells :
        (p : Phase) (n : ℕ) (position : Option Position) (dimension : Option String)
        → IsOpen p
        → Since ops command began n p
        → PlanHas ops command (some began) n none
        → Keeps ops command (BodyTells ops command) p (arrive ops command n position dimension)
    unfolding arrive
    arrive-tells p n none dimension o (m, first) over =
        stop_port_and_fail-tells ops command p target_not_reached n (o, (omega arith, omega arith))
          λ q f c. (f, c)
    arrive-tells p n (some a) none o (m, first) over =
        stop_port_and_fail-tells ops command p target_not_reached n (o, (omega arith, omega arith))
          λ q f c. (f, c)
    arrive-tells p n (some a) (some d) o (m, first) over =
        let under : Under n p = (o, (omega arith, omega arith)) in
        on_test command.task_id (MayMove ops command) (is_near ops command (at a d) command.target)
          (λ near. asks tt λ b.
            on_test command.task_id (MayMove ops command) b
              (λ _. stop_port_and_stop-tells ops command p cancelled n under)
              (λ _.
                finalize-then ops command p n TaskQueueTerminalStatus.completed _ under
                  λ q f (_, k, _, same). ends (f, omega arith, rw (same began first) over, near)))
          (λ _. stop_port_and_fail-tells ops command p target_not_reached n under λ q f c. (f, c))

    advance-tells :
        (p : Phase) (total n : ℕ) (position : MovementPosition) (next : Body MovementResult)
        → IsOpen p
        → Since ops command began (n + 1) p
        → ((q : Phase)
            → IsOpen q
            → Since ops command began (n + 1) q
            → Keeps ops command (BodyTells ops command) q next)
        → Keeps ops command (BodyTells ops command) p (advance ops command total n position next)
    unfolding advance
    advance-tells p total n position next o (m, f) k =
        commit_state-then command.task_id (MayMove ops command) p (before_finalization n)
          (minecraft_telemetry_update (position_telemetry position))
          (commit_state-then command.task_id (MayMove ops command) (later p)
            (before_finalization (n + 1))
            (task_progress_update (progress_of ops command (n + 1) total) none)
            (asks tt λ s.
              on_test command.task_id (MayMove ops command) (allows (evaluate s continue))
                (λ _. k _ o (m, first_of-some p.first began s f))
                (λ _.
                  stop_port_and_stop-tells ops command _ safety_stop (n + 1)
                    (o, (omega arith, omega arith))))
            (o, (omega arith, omega arith)))
          (o, (omega arith, omega arith))

    check_step-tells :
        (total n : ℕ) (s : MovementStep) (next : Body MovementResult)
        → ((q : Phase)
            → IsOpen q
            → Since ops command began (n + 1) q
            → Keeps ops command (BodyTells ops command) q next)
        → (position : MovementPosition) (p : Phase) → IsOpen p
        → Since ops command began (n + 1) p
        → Keeps ops command
            (BodyTells ops command)
            p
            (check_step ops command total n s next position)
    unfolding check_step
    check_step-tells total n s next k position p o (m, f) =
        let under : Under n p = (o, (omega arith, omega arith)) in
        asks tt λ b.
          on_test command.task_id (MayMove ops command) b
            (λ _. stop_port_and_stop-tells ops command p cancelled n under)
            λ _.
              on_test command.task_id (MayMove ops command)
                (not (accepts (validate_movement_position position)))
                (λ _.
                  stop_port_and_fail-tells ops command p invalid_position n under λ q f c. (f, c))
                λ _.
                  on_test command.task_id (MayMove ops command)
                    (is_near ops command position s.target)
                    (λ _. advance-tells p total n position next o (m, f) k)
                    (λ _.
                      stop_port_and_fail-tells ops command p target_not_reached n under
                        λ q f c. (f, c))

    take_step-tells :
        (total n : ℕ) (s : MovementStep) (next : Body MovementResult)
        → ((q : Phase)
            → IsOpen q
            → Since ops command began (n + 1) q
            → Keeps ops command (BodyTells ops command) q next)
        → PlanHas ops command (some began) n (some s)
        → s.index ≡ n + 1
        → (p : Phase) → IsOpen p
        → Since ops command began n p
        → Keeps ops command (BodyTells ops command) p (take_step ops command total n s next)
    unfolding take_step
    take_step-tells total n s next k planned i p o (m, f) = asks tt λ snapshot.
        on_test command.task_id (MayMove ops command) (allows (evaluate snapshot continue))
          (λ safe.
            move-then ops command began n (check_step ops command total n s next)
              (check_step-tells total n s next k) _ s o (m, first_of-some p.first began snapshot f)
              safe planned i)
          (λ _.
            stop_port_and_stop-tells ops command _ safety_stop n (o, (omega arith, omega arith)))

    -- The loop asks for the steps that are left of the plan, whatever their number.
    module _ (plan : List MovementStep)
        (planned : (k : ℕ) (found : Option MovementStep)
          → step_at plan k ≡ found
          → PlanHas ops command (some began) k found)
        (numbered : (k : ℕ) (s : MovementStep) → step_at plan k ≡ some s → s.index ≡ k + 1) where
      pub walk-tells :
          (total n : ℕ) (steps : List MovementStep)
          → steps_from plan n ≡ steps
          → (p : Phase) → IsOpen p
          → Since ops command began n p
          → Keeps ops command (BodyTells ops command) p (walk ops command total n steps)
      unfolding walk
      walk-tells total n [] left p o (m, f) = asks tt λ s.
          arrive-tells _ n s.minecraft.position s.minecraft.dimension o
            (m, first_of-some p.first began s f) (planned n none (steps_from-end plan n left))
      walk-tells total n (s ∷ rest) left p o m =
          let (here, after) = steps_from-step_at plan n s rest left in
          take_step-tells total n s (walk ops command total (n + 1) rest)
            (walk-tells total (n + 1) rest after) (planned n (some s) here) (numbered n s here) p o
            m
