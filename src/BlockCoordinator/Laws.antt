-- ===== src/BlockCoordinator/Laws.antt =====
-- That the coordinator keeps its promise: its handler, its clean-up and every run of it.
use voxel_steward.Base.{refl, Result, ok, err, arith, is_some}
use voxel_steward.Program.{done, bind, ask, return, throw, ◌>>=◌, ◌>>◌, catching, run}
use voxel_steward.Program.Protocol.{Meets, ends, asks, Meets-bind, Accepts, run-Accepts}
use voxel_steward.Movement.Plan.{FloatOps}
use voxel_steward.BlockOperation.{PlaceSingleBlockInstruction, validate_block_operation_instruction}
use voxel_steward.TaskQueue.{TaskQueueTerminalStatus, accepts}
use voxel_steward.Coordinator.{Op, Answer, BlockOperationProgress, report, has_id}
use voxel_steward.Coordinator.Promise.{Phase, fresh}
use voxel_steward.Coordinator.Steps.{
  later, FinalizeTells, on_test, bind-then, stop-then, finalize-tells,
}
use voxel_steward.BlockCoordinator.{
  Thrown, before_finalization, in_finalization, Body, BlockOperationResult, FailureReason, escaped,
  completed, stopped, failed, invalid_instruction, task_not_claimed, port_error, finalization_error,
  port_failure, carry_out, recover, clean_up, supervise, execute,
}
use voxel_steward.BlockCoordinator.Promise.{
  MayPlace, placement_protocol, FailureTells, ResultTells, OutcomeTells,
}
use voxel_steward.BlockCoordinator.Steps.{Keeps, BodyTells}
use voxel_steward.BlockCoordinator.Stages.{carry_out-tells}

module _ (command : PlaceSingleBlockInstruction) where
  -- What the handler leaves behind: it lets no error through.
  abbrev HandledTells : Result Thrown BlockOperationResult → Phase → Type 0
  HandledTells (ok r) p = ResultTells command r p
  HandledTells (err e) p = ⊥

  abbrev ReasonTells : Result Thrown FailureReason → Phase → Type 0
  ReasonTells (ok r) p = FailureTells command r p
  ReasonTells (err e) p = ⊥

  handle : Result Thrown FailureReason → Body FailureReason
  handle r = elim r [ ok a ↦ return a | err e ↦ return finalization_error ]

  finished_or_not :
      (p : Phase) (r : Result Thrown (Unit {0})) (q : Phase)
      → FinalizeTells in_finalization TaskQueueTerminalStatus.failed p r q
      → Keeps command
          (λ a q. Keeps command ReasonTells q (handle a))
          q
          (done r >> return (port_failure port_error))
  unfolding handle
  finished_or_not p (ok _) q (f, _) = ends (ends f)
  finished_or_not p (err in_finalization) q (_, u, _) = ends (ends u)
  finished_or_not p (err before_finalization) q (e, _, _) = absurd (ground arith)

  FailureTells-later :
      (reason : FailureReason) (q : Phase)
      → FailureTells command reason q
      → FailureTells command reason (later q)
  FailureTells-later invalid_instruction q t = t
  FailureTells-later task_not_claimed q t = t
  FailureTells-later finalization_error q t = t
  FailureTells-later _ q t = t

  reported :
      (r : Result Thrown FailureReason) (q : Phase)
      → ReasonTells r q
      → Keeps command HandledTells q (
          done r >>= λ reason. ask (report BlockOperationProgress.failed) >> return (failed reason))
  reported (ok reason) q t = asks tt λ _. ends (FailureTells-later reason q t)
  reported (err e) q t = absurd t

  recover-tells :
      (e : Thrown) (p : Phase)
      → BodyTells command (err e) p
      → Keeps command HandledTells p (recover command.task_id e)
  unfolding recover handle
  recover-tells in_finalization p u =
      stop-then command.task_id (MayPlace command) p (asks tt λ _. ends u)
  recover-tells before_finalization p o = stop-then command.task_id (MayPlace command) p (
      bind-then command.task_id (MayPlace command)
        (Meets-bind (placement_protocol command) (
          bind-then command.task_id (MayPlace command)
            (finalize-tells command.task_id (MayPlace command) (later p) in_finalization
              TaskQueueTerminalStatus.failed o)
            (finished_or_not (later p))))
        reported)

  caught :
      (r : Result Thrown BlockOperationResult) (q : Phase)
      → BodyTells command r q
      → Keeps command HandledTells q (catching (done r) (recover command.task_id))
  caught (ok r) q t = ends t
  caught (err e) q t = recover-tells e q t

  ResultTells-later :
      (r : BlockOperationResult) (q : Phase)
      → ResultTells command r q
      → ResultTells command r (later q)
  ResultTells-later (completed o) q t = t
  ResultTells-later (stopped reason) q t = t
  ResultTells-later (failed reason) q t = FailureTells-later reason q t

  cleaned :
      (result : Result Thrown BlockOperationResult) (q : Phase)
      → HandledTells result q
      → Keeps command (OutcomeTells command) q (
          bind
            (clean_up command.task_id)
            λ _. elim result [ ok r ↦ return r | err e ↦ throw (escaped e) ])
  unfolding clean_up
  cleaned (ok r) q t = asks tt λ _. asks tt λ active. Meets-bind (placement_protocol command) (
      on_test command.task_id (MayPlace command) (has_id active command.task_id)
        (λ _. asks tt λ _. ends (ends (ResultTells-later r q t)))
        (λ _. ends (ends (ResultTells-later r q t))))
  cleaned (err e) q t = absurd t

  supervise-tells :
      (p : Phase) (body : Body BlockOperationResult)
      → Keeps command (BodyTells command) (later p) body
      → Keeps command (OutcomeTells command) p (supervise command.task_id body)
  unfolding supervise
  supervise-tells p body h = asks tt λ _. asks tt λ _. asks tt λ _. asks tt λ _.
      bind-then command.task_id (MayPlace command)
        (bind-then command.task_id (MayPlace command) h caught) cleaned

  pub execute-Meets :
      (ops : FloatOps)
      → Meets (placement_protocol command) (OutcomeTells command) fresh (execute ops command)
  unfolding execute
  execute-Meets ops = asks tt λ b. asks tt λ active.
      on_test command.task_id (MayPlace command) b (λ _. ends (refl, refl))
        λ _.
          on_test command.task_id (MayPlace command) (is_some active) (λ _. ends (refl, refl))
            λ _.
              on_test command.task_id (MayPlace command)
                (accepts (validate_block_operation_instruction command))
                (λ _.
                  supervise-tells fresh (carry_out ops command)
                    (carry_out-tells command ops fresh (refl, refl) refl))
                (λ _. asks tt λ _. ends (refl, refl))

  -- In every run, whatever the parts around the coordinator answer, `execute` asks for at most one
  -- placement, of this instruction, after the delivery was marked and after a snapshot that allows
  -- the work to go on, with nothing asked for in between but whether the signal is aborted; it
  -- finishes the task at most once; and its result tells what was done, as `OutcomeTells` says.
  pub execute-Accepts :
      (ops : FloatOps) {W : Type 0} (reply : W → (o : Op) → Answer o × W) (w : W)
      → (q : Phase) × Accepts
          (placement_protocol command)
          fresh
          (run reply (execute ops command) w).2
          q
        × OutcomeTells command (run reply (execute ops command) w).0 q
  execute-Accepts ops reply w = run-Accepts (placement_protocol command) reply w (execute-Meets ops)
