-- ===== src/MovementCoordinator/Steps.antt =====
-- What the ends of a movement and its steps leave behind.
use voxel_steward.Base.{ℕ, ◌+◌, ◌≡◌, true, none, some, Result, ok, err, arith}
use voxel_steward.Program.{Program, done, ask, return, ◌>>=◌, ◌>>◌}
use voxel_steward.Program.Protocol.{ends, asks}
use voxel_steward.Movement.{MovementPosition}
use voxel_steward.Movement.Plan.{FloatOps, MovementStep}
use voxel_steward.State.{StateSnapshot}
use voxel_steward.TaskQueue.{TaskQueueTerminalStatus}
use voxel_steward.Coordinator.{
  Op, Answer, Raced, settled, rejected, elapsed, PortResult, value, timed_out, call_cancelled,
  call_failed, move, finalize, invoke,
}
use voxel_steward.Coordinator.Promise.{Phase}
use voxel_steward.Coordinator.Steps as Shared
use voxel_steward.Coordinator.Steps.{
  IsOpen, later, IsIdleSince, FinalizeTells, CallTells, RaceTells, bind-then, stop-then,
  finalize-tells, invoke-tells,
}
use voxel_steward.MovementCoordinator.{
  Thrown, before_finalization, in_finalization, Body, MovementCommand, MovementResult, stopped,
  failed, FailureReason, step_timeout, movement_port_error, StopReason, cancelled, stop_with,
  fail_with, stop_port_and_stop, stop_port_and_fail, on_position,
}
use voxel_steward.MovementCoordinator.Promise.{
  PlanHas, MayMove, Completes, FailureTells, ResultTells,
}

-- The task is not finished yet, and this many steps are completed.
abbrev pub Under : ℕ → Phase → Type 0
Under n p = IsOpen p × Completes n p

module _ (ops : FloatOps) (command : MovementCommand) where
  abbrev pub Keeps : {A : Type 0} → (A → Phase → Type 0) → Phase → Program Op Answer A → Type 0
  Keeps Q p m = Shared.Keeps command.task_id (MayMove ops command) Q p m

  -- What the body of the `try` leaves behind.
  abbrev pub BodyTells : Result Thrown MovementResult → Phase → Type 0
  BodyTells (ok r) p = ResultTells ops command r p
  BodyTells (err (before_finalization n)) p = Under n p
  BodyTells (err (in_finalization n)) p = (p.finished ≡ none) × Completes n p

  finalized :
      (p : Phase) (n : ℕ) (outcome : TaskQueueTerminalStatus) (k : Body MovementResult)
      → Completes n p
      → ((q : Phase) → q.finished ≡ some outcome → IsIdleSince p q → Keeps BodyTells q k)
      → (r : Result Thrown (Unit {0})) (q : Phase) → FinalizeTells (in_finalization n) outcome p r q
      → Keeps BodyTells q (done r >> k)
  finalized p n outcome k c h (ok _) q (f, same) = h q f same
  finalized p n outcome k c h (err (before_finalization _)) q (e, _, _) = absurd (ground arith)
  finalized p n outcome k c h (err (in_finalization i)) q (e, u, (_, m, _, _)) =
      ends (let same : i ≡ n = ground arith in (u, (omega arith, omega arith)))

  -- `finalize`, and the return of a result that tells of it.
  pub finalize-then :
      (p : Phase) (n : ℕ) (outcome : TaskQueueTerminalStatus) (k : Body MovementResult)
      → Under n p
      → ((q : Phase) → q.finished ≡ some outcome → IsIdleSince p q → Keeps BodyTells q k)
      → Keeps BodyTells p (finalize (in_finalization n) command.task_id outcome >> k)
  finalize-then p n outcome k (o, c) h =
      bind-then command.task_id (MayMove ops command)
        (finalize-tells command.task_id (MayMove ops command) p (in_finalization n) outcome o)
        (finalized p n outcome k c h)

  pub stop_with-tells :
      (p : Phase) (reason : StopReason) (n : ℕ)
      → Under n p
      → Keeps BodyTells p (stop_with command.task_id reason n)
  stop_with-tells p reason n u =
      finalize-then p n TaskQueueTerminalStatus.stopped (return (stopped reason n)) u
        λ q f (_, m, _, _). ends (f, (omega arith, omega arith))

  pub fail_with-tells :
      (p : Phase) (reason : FailureReason) (n : ℕ)
      → Under n p
      → ((q : Phase)
          → q.finished ≡ some TaskQueueTerminalStatus.failed
          → Completes n q
          → FailureTells reason n q)
      → Keeps BodyTells p (fail_with command.task_id reason n)
  fail_with-tells p reason n u h =
      finalize-then p n TaskQueueTerminalStatus.failed (return (failed reason n)) u
        λ q f (_, m, _, _). ends (h q f (omega arith, omega arith))

  pub stop_port_and_stop-tells :
      (p : Phase) (reason : StopReason) (n : ℕ)
      → Under n p
      → Keeps BodyTells p (stop_port_and_stop command.task_id reason n)
  stop_port_and_stop-tells p reason n u =
      stop-then command.task_id (MayMove ops command) p (stop_with-tells (later p) reason n u)

  pub stop_port_and_fail-tells :
      (p : Phase) (reason : FailureReason) (n : ℕ)
      → Under n p
      → ((q : Phase)
          → q.finished ≡ some TaskQueueTerminalStatus.failed
          → Completes n q
          → FailureTells reason n q)
      → Keeps BodyTells p (stop_port_and_fail command.task_id reason n)
  stop_port_and_fail-tells p reason n u h =
      stop-then command.task_id (MayMove ops command) p (fail_with-tells (later p) reason n u h)

  -- As many steps were asked for, since this snapshot as the first one.
  abbrev pub Since : StateSnapshot → ℕ → Phase → Type 0
  Since snapshot n q = (q.moves ≡ n) × (q.first ≡ some snapshot)

  module _ (began : StateSnapshot) (n : ℕ) where
    moved :
        (q : Phase) (r : Raced MovementPosition)
        → IsOpen q
        → Since began (n + 1) q
        → Keeps (RaceTells {E = Thrown} (Under n) (λ _. Since began (n + 1))) q (return r)
    moved q (settled a) o (m, f) = ends ((o, (omega arith, omega arith)), (m, f))
    moved q (rejected e') o (m, f) = ends (o, (omega arith, omega arith))
    moved q elapsed o (m, f) = ends (o, (omega arith, omega arith))

    module _ (rest : MovementPosition → Body MovementResult)
        (k : (a : MovementPosition) (q : Phase)
          → IsOpen q
          → Since began (n + 1) q
          → Keeps BodyTells q (rest a)) where
      called :
          (r : Result Thrown (PortResult MovementPosition)) (q : Phase)
          → CallTells (Under n) (λ _. Since began (n + 1)) r q
          → Keeps BodyTells q (done r >>= on_position command.task_id n rest)
      unfolding on_position
      called (ok (value a)) q ((o, _), m) = k a q o m
      called (ok timed_out) q u = stop_port_and_fail-tells q step_timeout n u λ q f c. (f, c)
      called (ok call_cancelled) q u = stop_port_and_stop-tells q cancelled n u
      called (ok (call_failed e)) q u =
          stop_port_and_fail-tells q movement_port_error n u λ q f c. (f, c)
      called (err e) q t = absurd t

      -- The next step, asked for right after a snapshot that allows it, and the rest.
      pub move-then :
          (p : Phase) (s : MovementStep)
          → IsOpen p
          → Since began n p
          → p.safe ≡ true
          → PlanHas ops command (some began) n (some s)
          → s.index ≡ n + 1
          → Keeps BodyTells p (invoke (ask (move s)) >>= on_position command.task_id n rest)
      move-then p s o (m, f) safe planned i =
          let may : PlanHas ops command p.first p.moves (some s) = rw (m, f) planned in
          bind-then command.task_id (MayMove ops command)
            (invoke-tells command.task_id (MayMove ops command) (Under n) (λ _. Since began (n + 1))
              p (ask (move s)) (o, (omega arith, omega arith))
              (asks (safe, may, omega arith) λ r. moved _ r o (omega arith, f)))
            called
