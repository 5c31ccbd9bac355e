-- ===== src/BlockCoordinator/Steps.antt =====
-- What the ends of a placement and its calls of the port leave behind.
use voxel_steward.Base.{◌≡◌, ℕ, refl, true, none, some, Result, ok, err, arith}
use voxel_steward.Program.{Program, done, ask, return, ◌>>=◌, ◌>>◌}
use voxel_steward.Program.Protocol.{ends, asks}
use voxel_steward.BlockOperation.{BlockPosition, PlaceSingleBlockInstruction}
use voxel_steward.Safety.{continue, evaluate}
use voxel_steward.SafetyQueue.{allows}
use voxel_steward.TaskQueue.{TaskQueueTerminalStatus}
use voxel_steward.Coordinator.{
  Op, Answer, Raced, settled, rejected, elapsed, PortResult, value, timed_out, call_cancelled,
  call_failed, observe, finalize, invoke,
}
use voxel_steward.Coordinator.Promise.{Phase}
use voxel_steward.Coordinator.Steps as Shared
use voxel_steward.Coordinator.Steps.{
  IsOpen, later, IsIdleSince, FinalizeTells, CallTells, RaceTells, on_test, bind-then, stop-then,
  finalize-tells, invoke-tells,
}
use voxel_steward.BlockCoordinator.{
  Thrown, before_finalization, in_finalization, Body, BlockOperationResult, stopped, failed,
  FailureReason, timeout, port_failure, failure_of, StopReason, fail_with, stop_port_and, on_value,
  send,
}
use voxel_steward.BlockCoordinator.Promise.{MayPlace, FailureTells, ResultTells}

module _ (command : PlaceSingleBlockInstruction) where
  abbrev pub Keeps : {A : Type 0} → (A → Phase → Type 0) → Phase → Program Op Answer A → Type 0
  Keeps Q p m = Shared.Keeps command.task_id (MayPlace command) Q p m

  -- What the body of the `try` leaves behind.
  abbrev pub BodyTells : Result Thrown BlockOperationResult → Phase → Type 0
  BodyTells (ok r) p = ResultTells command r p
  BodyTells (err before_finalization) p = IsOpen p
  BodyTells (err in_finalization) p = p.finished ≡ none

  finalized :
      (p : Phase) (outcome : TaskQueueTerminalStatus) (k : Body BlockOperationResult)
      → ((q : Phase) → q.finished ≡ some outcome → IsIdleSince p q → Keeps BodyTells q k)
      → (r : Result Thrown (Unit {0})) (q : Phase) → FinalizeTells in_finalization outcome p r q
      → Keeps BodyTells q (done r >> k)
  finalized p outcome k h (ok _) q (f, same) = h q f same
  finalized p outcome k h (err before_finalization) q (e, _, _) = absurd (ground arith)
  finalized p outcome k h (err in_finalization) q (_, u, _) = ends u

  -- `finalize`, and the return of a result that tells of it.
  pub finalize-then :
      (p : Phase) (outcome : TaskQueueTerminalStatus) (k : Body BlockOperationResult)
      → IsOpen p
      → ((q : Phase) → q.finished ≡ some outcome → IsIdleSince p q → Keeps BodyTells q k)
      → Keeps BodyTells p (finalize in_finalization command.task_id outcome >> k)
  finalize-then p outcome k o h =
      bind-then command.task_id (MayPlace command)
        (finalize-tells command.task_id (MayPlace command) p in_finalization outcome o)
        (finalized p outcome k h)

  pub fail_with-tells :
      (p : Phase) (reason : FailureReason)
      → IsOpen p
      → ((q : Phase)
          → q.finished ≡ some TaskQueueTerminalStatus.failed
          → FailureTells command reason q)
      → Keeps BodyTells p (fail_with command.task_id reason)
  fail_with-tells p reason o h =
      finalize-then p TaskQueueTerminalStatus.failed (return (failed reason)) o
        λ q f _. ends (h q f)

  pub stop_port_and-tells :
      (p : Phase) (reason : StopReason)
      → IsOpen p
      → Keeps BodyTells p (stop_port_and command.task_id reason)
  stop_port_and-tells p reason o = stop-then command.task_id (MayPlace command) p (
      finalize-then (later p) TaskQueueTerminalStatus.stopped (return (stopped reason)) o
        λ q f _. ends f)

  module _ {A : Type 0} (rest : A → Body BlockOperationResult) (T : A → Phase → Type 0) where
    -- The rest after a call, for each way that it can end.
    called :
        ((a : A) (q : Phase) → IsOpen q → T a q → Keeps BodyTells q (rest a))
        → (r : Result Thrown (PortResult A)) (q : Phase) → CallTells IsOpen T r q
        → Keeps BodyTells q (done r >>= λ r. on_value command.task_id r rest)
    unfolding on_value
    called k (ok (value a)) q (o, t) = k a q o t
    called k (ok timed_out) q o =
        stop-then command.task_id (MayPlace command) q
          (fail_with-tells (later q) timeout o λ q f. f)
    called k (ok call_cancelled) q o =
        stop-then command.task_id (MayPlace command) q
          (finalize-then (later q) TaskQueueTerminalStatus.stopped _ o λ q f _. asks tt λ b. ends f)
    called k (ok (call_failed e)) q o =
        stop-then command.task_id (MayPlace command) q
          (fail_with-tells (later q) (port_failure (failure_of e)) o λ q f. f)
    called k (err e) q t = absurd t

    pub invoke-then :
        (p : Phase) (operation : Body (Raced A))
        → IsOpen p
        → Keeps (RaceTells {E = Thrown} IsOpen T) p operation
        → ((a : A) (q : Phase) → IsOpen q → T a q → Keeps BodyTells q (rest a))
        → Keeps BodyTells p (invoke operation >>= λ r. on_value command.task_id r rest)
    invoke-then p operation o h k =
        bind-then command.task_id (MayPlace command)
          (invoke-tells command.task_id (MayPlace command) IsOpen T p operation o h) (called k)

  raced :
      {A : Type 0} (n : ℕ) (q : Phase) (r : Raced A)
      → IsOpen q
      → q.placements ≡ n
      → Keeps (RaceTells {E = Thrown} IsOpen (λ _ q. q.placements ≡ n)) q (return r)
  raced n q (settled a) o e = ends (o, e)
  raced n q (rejected e) o _ = ends o
  raced n q elapsed o _ = ends o

  pub observe-tells :
      (p : Phase) (position : BlockPosition)
      → IsOpen p
      → Keeps
          (RaceTells {E = Thrown} IsOpen (λ _ q. q.placements ≡ p.placements))
          p
          (ask (observe position))
  observe-tells p position o = asks tt λ r. raced p.placements _ r o refl

  pub send-tells :
      (p : Phase)
      → IsOpen p
      → p.delivery_marked ≡ true
      → p.placements ≡ 0
      → Keeps (RaceTells {E = Thrown} IsOpen (λ _ q. q.placements ≡ 1)) p (send command)
  unfolding send
  send-tells p o d n = asks tt λ b.
      on_test command.task_id (MayPlace command) b (λ _. ends o)
        λ _. asks tt λ s.
          on_test command.task_id (MayPlace command) (allows (evaluate s continue))
            (λ safe. asks (refl, safe, d, n) λ r. raced 1 _ r o (omega arith))
            (λ _. asks tt λ _. asks tt λ _. stop-then command.task_id (MayPlace command) _ (ends o))
