-- ===== src/BlockCoordinator/Stages.antt =====
-- That each stage of the coordinator, up to its `try` block as a whole, keeps its promise.
use voxel_steward.Base.{◌≡◌, refl, true, Option, none, some, String, str_eq, eq_iff, arith, ◌∙◌}
use voxel_steward.Program.{◌>>=◌}
use voxel_steward.Program.Protocol.{ends, asks}
use voxel_steward.Movement.Plan.{FloatOps}
use voxel_steward.BlockOperation.{PlaceSingleBlockInstruction, BlockObservation, BlockPosition}
use voxel_steward.State.{Position, TaskTarget, task_prepare, task_transition}
use voxel_steward.Safety.{start, continue, evaluate}
use voxel_steward.SafetyQueue.{allows}
use voxel_steward.TaskQueue.{TaskQueueItem, TaskQueueTerminalStatus}
use voxel_steward.TaskQueue.Service.{mark_delivery_started, mark_verified}
use voxel_steward.Coordinator.{or_throw}
use voxel_steward.Coordinator.Promise.{Phase}
use voxel_steward.Coordinator.Steps.{IsOpen, on_test, commit_state-then, commit_task-then}
use voxel_steward.BlockCoordinator.{
  before_finalization, Body, BlockOperationResult, cancelled, safety_stop, task_state_conflict,
  invalid_position, out_of_reach, unexpected_before, unsupported_support, unexpected_after,
  unsupported_adapter, port_failure, matches, is_observed, verify, confirm, deliver, check_support,
  check_before, observe_before, is_out_of_reach, check_position, check_start, is_claimed_for,
  carry_out,
}
use voxel_steward.BlockCoordinator.Promise.{MayPlace}
use voxel_steward.BlockCoordinator.Steps.{
  Keeps, BodyTells, finalize-then, fail_with-tells, stop_port_and-tells, invoke-then, observe-tells,
  send-tells,
}

module _ (command : PlaceSingleBlockInstruction) where
  observed_after :
      (o : BlockObservation) (p : BlockPosition) (type : String)
      → is_observed o p (str_eq o.block_type type) ≡ true
      → (matches o p ≡ true) × (o.block_type ≡ type)
  unfolding is_observed
  observed_after o p type e = (ground arith, (eq_iff o.block_type type).0 (ground arith))

  verify-tells :
      (p : Phase) (after : BlockObservation)
      → IsOpen p
      → p.placements ≡ 1
      → Keeps command (BodyTells command) p (verify command after)
  unfolding verify
  verify-tells p after o n =
      on_test command.task_id (MayPlace command) _
        (λ seen.
          commit_task-then command.task_id (MayPlace command) p before_finalization
            (mark_verified command.task_id) (refl, n)
            (finalize-then command _ TaskQueueTerminalStatus.completed _ o λ q f (m, _, v, _).
              asks tt λ _. ends (
                let (match, type) =
                  observed_after after command.target command.expected_after seen in
                (f, v, m ∙ n, match, type)))
            o)
        (λ _. fail_with-tells command p unexpected_after o λ q f. f)

  confirm-tells :
      (p : Phase)
      → IsOpen p
      → p.placements ≡ 1
      → Keeps command (BodyTells command) p (confirm command)
  unfolding confirm
  confirm-tells p o n = asks tt λ b.
      on_test command.task_id (MayPlace command) b (λ _. stop_port_and-tells command _ cancelled o)
        λ _. asks tt λ s.
          on_test command.task_id (MayPlace command) (allows (evaluate s continue))
            (λ _.
              invoke-then command _ _ _ _ o (observe-tells command _ command.target o)
                λ a q o m. verify-tells q a o (m ∙ n))
            (λ _. stop_port_and-tells command _ safety_stop o)

  deliver-tells :
      (p : Phase)
      → IsOpen p
      → p.placements ≡ 0
      → Keeps command (BodyTells command) p (deliver command)
  unfolding deliver
  deliver-tells p o n = asks tt λ s.
      on_test command.task_id (MayPlace command) (allows (evaluate s continue))
        (λ _.
          commit_state-then command.task_id (MayPlace command) _ before_finalization
            (task_prepare command.task_id command.task_type)
            (commit_state-then command.task_id (MayPlace command) _ before_finalization
              (task_transition TaskTarget.running)
              (asks tt λ _.
                commit_task-then command.task_id (MayPlace command) _ before_finalization
                  (mark_delivery_started command.task_id) (refl, n)
                  (invoke-then command _ _ _ _ o (send-tells command _ o refl n)
                    λ _ q o m. confirm-tells q o m)
                  o)
              o)
            o)
        (λ _. stop_port_and-tells command _ safety_stop o)

  check_support-tells :
      (p : Phase) (support : BlockObservation)
      → IsOpen p
      → p.placements ≡ 0
      → Keeps command (BodyTells command) p (check_support command support)
  unfolding check_support
  check_support-tells p support o n =
      on_test command.task_id (MayPlace command) _ (λ _. deliver-tells p o n)
        (λ _. fail_with-tells command p unsupported_support o λ q f. f)

  check_before-tells :
      (p : Phase) (before : BlockObservation)
      → IsOpen p
      → p.placements ≡ 0
      → Keeps command (BodyTells command) p (check_before command before)
  unfolding check_before
  check_before-tells p before o n =
      on_test command.task_id (MayPlace command) _
        (λ _.
          invoke-then command _ _ _ _ o (observe-tells command _ command.support.position o)
            λ a q o m. check_support-tells q a o (m ∙ n))
        (λ _. fail_with-tells command p unexpected_before o λ q f. f)

  observe_before-tells :
      (p : Phase)
      → IsOpen p
      → p.placements ≡ 0
      → Keeps command (BodyTells command) p (observe_before command)
  unfolding observe_before
  observe_before-tells p o n = asks tt λ _. asks tt λ _.
      invoke-then command _ _ _ _ o (observe-tells command _ command.target o)
        λ a q o m. check_before-tells q a o (m ∙ n)

  module _ (ops : FloatOps) where
    check_position-tells :
        (p : Phase) (position : Option Position) (dimension : Option String)
        → IsOpen p
        → p.placements ≡ 0
        → Keeps command (BodyTells command) p (check_position ops command position dimension)
    unfolding check_position
    check_position-tells p none dimension o n =
        fail_with-tells command p invalid_position o λ q f. f
    check_position-tells p (some a) none o n = fail_with-tells command p invalid_position o λ q f. f
    check_position-tells p (some a) (some d) o n =
        on_test command.task_id (MayPlace command) (is_out_of_reach ops command a d)
          (λ _. fail_with-tells command p out_of_reach o λ q f. f)
          (λ _. asks tt λ b.
            on_test command.task_id (MayPlace command) b (λ _. observe_before-tells _ o n)
              (λ _. fail_with-tells command _ (port_failure unsupported_adapter) o λ q f. f))

    check_start-tells :
        (p : Phase)
        → IsOpen p
        → p.placements ≡ 0
        → Keeps command (BodyTells command) p (check_start ops command)
    unfolding check_start
    check_start-tells p o n = asks tt λ s.
        on_test command.task_id (MayPlace command) _
          (λ _. fail_with-tells command _ task_state_conflict o λ q f. f)
          (λ _.
            on_test command.task_id (MayPlace command) (allows (evaluate s start))
              (λ _. check_position-tells _ s.minecraft.position s.minecraft.dimension o n)
              (λ _. stop_port_and-tells command _ safety_stop o))

    found-tells :
        (p : Phase) (found : Option (Option TaskQueueItem))
        (k : Option TaskQueueItem → Body BlockOperationResult)
        → IsOpen p
        → ((item : Option TaskQueueItem) → Keeps command (BodyTells command) p (k item))
        → Keeps command (BodyTells command) p (or_throw before_finalization found >>= k)
    unfolding or_throw
    found-tells p none k o h = ends o
    found-tells p (some item) k o h = h item

    pub carry_out-tells :
        (p : Phase)
        → IsOpen p
        → p.placements ≡ 0
        → Keeps command (BodyTells command) p (carry_out ops command)
    unfolding carry_out
    carry_out-tells p o n = asks tt λ found. found-tells _ found _ o λ item.
        on_test command.task_id (MayPlace command) (is_claimed_for command item)
          (λ _. check_start-tells _ o n) (λ _. ends (o.0, n))
