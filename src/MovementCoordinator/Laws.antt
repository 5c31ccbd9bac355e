-- ===== src/MovementCoordinator/Laws.antt =====
-- That the coordinator keeps its promise: its handler, its clean-up and every run of it.
use voxel_steward.Base.{ℕ, refl, Result, ok, err, arith, is_some}
use voxel_steward.Program.{done, return, ◌>>=◌, ◌>>◌, catching, run}
use voxel_steward.Program.Protocol.{Meets, ends, asks, Meets-bind, Accepts, run-Accepts}
use voxel_steward.Movement.Plan.{FloatOps}
use voxel_steward.TaskQueue.{TaskQueueTerminalStatus}
use voxel_steward.Coordinator.{Op, Answer, has_id}
use voxel_steward.Coordinator.Promise.{Phase, fresh}
use voxel_steward.Coordinator.Steps.{
  later, FinalizeTells, on_test, bind-then, stop-then, finalize-tells,
}
use voxel_steward.MovementCoordinator.{
  Thrown, before_finalization, in_finalization, Body, MovementCommand, MovementResult, completed,
  stopped, failed, FailureReason, task_not_claimed, task_state_conflict, movement_port_error,
  finalization_error, recover, clean_up, supervise, execute,
}
use voxel_steward.MovementCoordinator.Promise.{
  MayMove, movement_protocol, Completes, FailureTells, ResultTells, OutcomeTells,
}
use voxel_steward.MovementCoordinator.Steps.{Keeps, BodyTells}
use voxel_steward.MovementCoordinator.Stages.{carry_out-tells}

module _ (ops : FloatOps) (command : MovementCommand) where
  -- What the handler leaves behind: it lets no error through.
  abbrev HandledTells : Result Thrown MovementResult → Phase → Type 0
  HandledTells (ok r) p = ResultTells ops command r p
  HandledTells (err e) p = ⊥

  abbrev ReasonTells : ℕ → Result Thrown FailureReason → Phase → Type 0
  ReasonTells n (ok r) p = FailureTells r n p
  ReasonTells n (err e) p = ⊥

  handle : Result Thrown FailureReason → Body FailureReason
  handle r = elim r [ ok a ↦ return a | err e ↦ return finalization_error ]

  finished_or_not :
      (n : ℕ) (p : Phase)
      → Completes n p
      → (r : Result Thrown (Unit {0})) (q : Phase)
      → FinalizeTells (in_finalization n) TaskQueueTerminalStatus.failed p r q
      → Keeps ops command
          (λ a q. Keeps ops command (ReasonTells n) q (handle a))
          q
          (done r >> return movement_port_error)
  unfolding handle
  finished_or_not n p c (ok _) q (f, (_, m, _, _)) = ends (ends (f, (omega arith, omega arith)))
  finished_or_not n p c (err e) q (_, u, (_, m, _, _)) = ends (ends (u, (omega arith, omega arith)))

  reported :
      (n : ℕ) (r : Result Thrown FailureReason) (q : Phase)
      → ReasonTells n r q
      → Keeps ops command HandledTells q (done r >>= λ reason. return (failed reason n))
  reported n (ok reason) q t = ends t
  reported n (err e) q t = absurd t

  recover-tells :
      (e : Thrown) (p : Phase)
      → BodyTells ops command (err e) p
      → Keeps ops command HandledTells p (recover command.task_id e)
  unfolding recover handle
  recover-tells (in_finalization n) p u = stop-then command.task_id (MayMove ops command) p (ends u)
  recover-tells (before_finalization n) p (o, c) =
      stop-then command.task_id (MayMove ops command) p (
        bind-then command.task_id (MayMove ops command)
          (Meets-bind (movement_protocol ops command) (
            bind-then command.task_id (MayMove ops command)
              (finalize-tells command.task_id (MayMove ops command) (later p) (in_finalization n)
                TaskQueueTerminalStatus.failed o)
              (finished_or_not n (later p) c)))
          (reported n))

  caught :
      (r : Result Thrown MovementResult) (q : Phase)
      → BodyTells ops command r q
      → Keeps ops command HandledTells q (catching (done r) (recover command.task_id))
  caught (ok r) q t = ends t
  caught (err e) q t = recover-tells e q t

  FailureTells-later :
      (reason : FailureReason) (n : ℕ) (q : Phase)
      → FailureTells reason n q
      → FailureTells reason n (later q)
  FailureTells-later task_not_claimed n q t = t
  FailureTells-later task_state_conflict n q t = t
  FailureTells-later finalization_error n q t = t
  FailureTells-later _ n q t = t

  ResultTells-later :
      (r : MovementResult) (q : Phase)
      → ResultTells ops command r q
      → ResultTells ops command r (later q)
  ResultTells-later (completed n position) q t = t
  ResultTells-later (stopped reason n) q t = t
  ResultTells-later (failed reason n) q t = FailureTells-later reason n q t

  cleaned :
      (result : Result Thrown MovementResult) (q : Phase)
      → HandledTells result q
      → Keeps ops command (OutcomeTells ops command) q (clean_up command.task_id result)
  unfolding clean_up
  cleaned (ok r) q t = asks tt λ active. Meets-bind (movement_protocol ops command) (
      on_test command.task_id (MayMove ops command) (has_id active command.task_id)
        (λ _. asks tt λ _. ends (ends (ResultTells-later r q t)))
        (λ _. ends (ends (ResultTells-later r q t))))
  cleaned (err e) q t = absurd t

  pub execute-Meets :
      Meets (movement_protocol ops command) (OutcomeTells ops command) fresh (execute ops command)
  unfolding execute supervise
  execute-Meets = asks tt λ active.
      on_test command.task_id (MayMove ops command) (is_some active) (λ _. ends (refl, refl))
        λ _. asks tt λ _. asks tt λ _. asks tt λ _.
          bind-then command.task_id (MayMove ops command)
            (bind-then command.task_id (MayMove ops command)
              (carry_out-tells ops command fresh (refl, refl) refl refl) caught)
            cleaned

  -- In every run, whatever the parts around the coordinator answer, the steps that `execute` asks for
  -- are those of the plan from the position in the first snapshot that it read to the target, in their
  -- order from the first one on, each after a snapshot that allows the work to go on, with nothing asked
  -- for in between but whether the signal is aborted; it asks for the end of the task at most once; and
  -- its result tells what was done, as `OutcomeTells` says: a success, that all the steps of the plan
  -- were asked for, and the task is completed.
  pub execute_movement-Accepts :
      {W : Type 0} (reply : W → (o : Op) → Answer o × W) (w : W)
      → (q : Phase) × Accepts
          (movement_protocol ops command)
          fresh
          (run reply (execute ops command) w).2
          q
        × OutcomeTells ops command (run reply (execute ops command) w).0 q
  execute_movement-Accepts reply w =
      run-Accepts (movement_protocol ops command) reply w execute-Meets
