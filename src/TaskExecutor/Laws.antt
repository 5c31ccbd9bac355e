-- ===== src/TaskExecutor/Laws.antt =====
-- That the executor of src/application/task-executor/readonly-task-executor.ts keeps its promise.
use voxel_steward.Base.{
  ◌≡◌, refl, subst, sym, Bool, true, false, ◌&&◌, Option, none, some, String, Result, ok, err,
  if◌then◌else◌,
}
use voxel_steward.Program.{done, return, throw, ◌>>=◌, ◌>>◌, run}
use voxel_steward.Program.Protocol.{
  Meets, ends, asks, Meets-bind, Meets-weaken, Meets-if, Accepts, run-Accepts,
}
use voxel_steward.State.{StateCommand, TaskTarget}
use voxel_steward.State.Command.{is_terminal_task}
use voxel_steward.TaskQueue.{TaskQueueItem, TaskQueueTerminalStatus}
use voxel_steward.SimpleWork.{SimpleWorkInstruction}
use voxel_steward.SimpleWorkCoordinator.{
  SimpleWorkResult, navigated, arrival, recorded, work_stopped, work_failed,
}
use voxel_steward.TaskExecutor.{
  Op, Answer, enforce, work, Thrown, thrown, Code, dispatch, transition_task, finish_in_queue,
  complete_with, fail_task, settle_work, unless_stopped, work_on, prepare_and_work, try_task,
  recover, execute_task, process_next, instruction_of,
}
use voxel_steward.TaskExecutor.Promise.{Phase, fresh, after_op, is_completed, execution}

abbrev Keeps : {A : Type 0} → (Result Thrown A → Phase → Type 0) → Phase → Code A → Type 0
Keeps Q p m = Meets execution Q p m

-- What leaves the phase as it is.
abbrev IsQuiet : {A : Type 0} → Phase → Code A → Type 0
IsQuiet p m = Keeps (λ r q. q ≡ p) p m

-- What may end however it likes.
abbrev IsKept : {A : Type 0} → Phase → Code A → Type 0
IsKept p m = Keeps (λ r q. Unit) p m

IsKept-weaken :
    {A : Type 0} {Q : Result Thrown A → Phase → Type 0} {p : Phase} {m : Code A}
    → Keeps Q p m
    → IsKept p m
IsKept-weaken h = Meets-weaken execution (λ a q x. tt) h

module _ {A B : Type 0} {Q : Result Thrown B → Phase → Type 0} where
  quiet_then :
      {p : Phase} {m : Code A} {k : A → Code B}
      → IsQuiet p m
      → ((a : A) → Keeps Q p (k a))
      → ((e : Thrown) → Q (err e) p)
      → Keeps Q p (m >>= k)
  quiet_then {p} {m} {k} h f g = Meets-bind execution (Meets-weaken execution (next p k f g) h)
    where
      next :
          (p : Phase) (k : A → Code B)
          → ((a : A) → Keeps Q p (k a))
          → ((e : Thrown) → Q (err e) p)
          → (r : Result Thrown A) (q : Phase) → q ≡ p
          → Meets execution Q q (elim r [ ok a ↦ k a | err e ↦ done (err e) ])
      next p k f g (ok a) q e = subst (λ x. Meets execution Q x (k a)) (sym e) (f a)
      next p k f g (err x) q e = ends (subst (Q (err x)) (sym e) (g x))

dispatch-IsQuiet : (p : Phase) (c : StateCommand) → IsQuiet p (dispatch c)
unfolding dispatch
dispatch-IsQuiet p c =
    asks tt λ accepted. Meets-if execution accepted (λ e. ends refl) (λ e. asks tt λ r. ends refl)

transition_task-IsQuiet : (p : Phase) (to : TaskTarget) → IsQuiet p (transition_task to)
unfolding transition_task
transition_task-IsQuiet p to = asks tt λ current.
    Meets-if execution (is_terminal_task current) (λ e. ends refl) (λ e. dispatch-IsQuiet p _)

finish_in_queue-failed :
    (p : Phase) (id : String) → IsQuiet p (finish_in_queue id TaskQueueTerminalStatus.failed)
unfolding finish_in_queue
finish_in_queue-failed p id =
    asks tt λ accepted. Meets-if execution accepted (λ e. ends refl) (λ e. ends refl)

fail_task-IsQuiet : (p : Phase) (id : String) → IsQuiet p (fail_task id)
unfolding fail_task
fail_task-IsQuiet p id =
    quiet_then (finish_in_queue-failed p id) (λ a. transition_task-IsQuiet p TaskTarget.failed)
      (λ e. refl)

complete_with-IsKept :
    (p : Phase) (id message : String)
    → p.cleared ≡ true
    → p.completions ≡ 0
    → IsKept p (complete_with id message)
unfolding complete_with finish_in_queue
complete_with-IsKept p id message c n =
    quiet_then (dispatch-IsQuiet p _)
      (λ a.
        asks (c, n)
          λ accepted.
            quiet_then (Meets-if execution accepted (λ e. ends refl) (λ e. ends refl))
              (λ b. IsKept-weaken (transition_task-IsQuiet _ TaskTarget.completed)) (λ e. tt))
      (λ e. tt)

settle_work-IsKept :
    (p : Phase) (id : String) (r : SimpleWorkResult)
    → (is_completed (some r) ≡ true → p.cleared ≡ true)
    → p.completions ≡ 0
    → IsKept p (settle_work id r)
unfolding settle_work
settle_work-IsKept p id (navigated a n) c z = complete_with-IsKept p id _ (c refl) z
settle_work-IsKept p id (arrival a b) c z = complete_with-IsKept p id _ (c refl) z
settle_work-IsKept p id (recorded a) c z = complete_with-IsKept p id _ (c refl) z
settle_work-IsKept p id (work_stopped reason n) c z = IsKept-weaken (fail_task-IsQuiet p id)
settle_work-IsKept p id (work_failed type reason n) c z = IsKept-weaken (fail_task-IsQuiet p id)

unless_stopped-IsKept :
    (p : Phase) (id : String) (rest : Code (Unit {0}))
    → IsKept (record p { cleared = p.worked && true }) rest
    → IsKept p (unless_stopped id rest)
unfolding unless_stopped
unless_stopped-IsKept p id rest h = asks tt decided
  where
    decided :
        (d : Option Bool)
        → IsKept (after_op p (enforce id) d) (elim d as (λ x. Code (Unit {0})) [
          | none ↦ throw thrown
          | some must_stop ↦ if must_stop then transition_task TaskTarget.stopped else rest
        ])
    decided none = ends tt
    decided (some true) = IsKept-weaken (transition_task-IsQuiet _ TaskTarget.stopped)
    decided (some false) = h

work_on-IsKept :
    (p : Phase) (id : String) (i : SimpleWorkInstruction)
    → p.works ≡ 0
    → p.completions ≡ 0
    → IsKept p (work_on id i)
unfolding work_on
work_on-IsKept p id i w z = asks w worked
  where
    worked :
        (result : Option SimpleWorkResult)
        → IsKept (after_op p (work i) result) (elim result as (λ x. Code (Unit {0})) [
          | none ↦ throw thrown
          | some r ↦ unless_stopped id (settle_work id r)
        ])
    worked none = ends tt
    worked (some r) = unless_stopped-IsKept _ id _ (settle_work-IsKept _ id r (λ c. rw c refl) z)

prepare_and_work-IsKept :
    (p : Phase) (item : TaskQueueItem) (i : SimpleWorkInstruction)
    → p.works ≡ 0
    → p.completions ≡ 0
    → IsKept p (prepare_and_work item i)
unfolding prepare_and_work
prepare_and_work-IsKept p item i w z = asks tt λ current.
    quiet_then
      (Meets-if execution (is_terminal_task current) (λ e. dispatch-IsQuiet p _) (λ e. ends refl))
      (λ a.
        quiet_then (dispatch-IsQuiet p _)
          (λ b.
            quiet_then (dispatch-IsQuiet p _)
              (λ c. unless_stopped-IsKept p item.task_id _ (work_on-IsKept _ item.task_id i w z))
              (λ e. tt))
          (λ e. tt))
      (λ e. tt)

try_task-IsKept :
    (p : Phase) (item : TaskQueueItem) → p.works ≡ 0 → p.completions ≡ 0 → IsKept p (try_task item)
unfolding try_task
try_task-IsKept p item w z = go (instruction_of item.details)
  where
    go :
        (i : Option SimpleWorkInstruction)
        → IsKept p (elim i as (λ x. Code (Unit {0})) [
          | none ↦ throw thrown
          | some instruction ↦ prepare_and_work item instruction
        ])
    go none = ends tt
    go (some i) = prepare_and_work-IsKept p item i w z

recover-IsKept : (p : Phase) (id : String) (e : Thrown) → IsKept p (recover id e)
unfolding recover
recover-IsKept p id e = asks tt λ accepted.
    quiet_then (transition_task-IsQuiet p TaskTarget.failed) (λ a. asks tt λ r. ends tt) (λ x. tt)

caught-IsKept :
    (id : String) (r : Result Thrown (Unit {0})) (q : Phase)
    → IsKept q (elim r [ ok a ↦ done (ok a) | err e ↦ recover id e ])
caught-IsKept id (ok a) q = ends tt
caught-IsKept id (err e) q = recover-IsKept q id e

execute_task-IsKept :
    (p : Phase) (item : TaskQueueItem)
    → p.works ≡ 0
    → p.completions ≡ 0
    → IsKept p (execute_task item)
unfolding execute_task
execute_task-IsKept p item w z = asks tt λ a. Meets-bind execution (
    Meets-weaken execution (λ r q u. asks tt λ b. ends tt)
      (Meets-bind execution (
        Meets-weaken execution (λ r q u. caught-IsKept item.task_id r q)
          (try_task-IsKept p item w z))))

process_next-IsKept : IsKept fresh process_next
unfolding process_next
process_next-IsKept = asks tt λ c. Meets-if execution c (λ e. ends tt) (λ e. asks tt claimed_then)
  where
    claimed_then :
        (claimed : Option (Option TaskQueueItem))
        → IsKept fresh (elim claimed as (λ x. Code Bool) [
          | none ↦ throw thrown
          | some x ↦ elim x as (λ y. Code Bool) [
            | none ↦ return false
            | some item ↦ execute_task item >> return true
          ]
        ])
    claimed_then none = ends tt
    claimed_then (some none) = ends tt
    claimed_then (some (some item)) =
        Meets-bind execution (
          Meets-weaken execution (λ r q u. answered r q) (execute_task-IsKept fresh item refl refl))
      where
        answered :
            (r : Result Thrown (Unit {0})) (q : Phase)
            → IsKept q (elim r as (λ x. Code Bool) [ ok a ↦ return true | err e ↦ done (err e) ])
        answered (ok a) q = ends tt
        answered (err e) q = ends tt

-- In every run of `processNext`, whatever the queue, the state store, the policy and the work answer:
-- work is asked for at most once; the task is finished as completed at most once, and only after the
-- work completed and, asked after it, the policy let it go on; and no task is finished as stopped but
-- by the queue under the policy.
pub process_next-Accepts :
    {W : Type 0} (reply : W → (o : Op) → Answer o × W) (w : W)
    → (q : Phase) × Accepts execution fresh (run reply process_next w).2 q
process_next-Accepts reply w =
    let (q, accepted, end) = run-Accepts execution reply w process_next-IsKept in (q, accepted)
