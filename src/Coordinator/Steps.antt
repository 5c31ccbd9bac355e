-- ===== src/Coordinator/Steps.antt =====
-- The steps that the coordinators share, each with what it leaves behind.
use voxel_steward.Base.{
  ◌≡◌, refl, Bool, true, false, Option, none, some, arith, if◌then◌else◌, String, Result, ok, err,
  ◌&&◌,
}
use voxel_steward.Program.{Program, done, bind, return, throw, ◌>>=◌, ◌>>◌}
use voxel_steward.Program.Protocol.{Meets, ends, asks, Meets-bind, Meets-if, Meets-weaken}
use voxel_steward.State.{StateSnapshot, StateCommand, task_transition}
use voxel_steward.TaskQueue.{TaskQueueTerminalStatus}
use voxel_steward.TaskQueue.Service.{TaskQueueCommand, finish}
use voxel_steward.Coordinator.{
  Op, Answer, Code, Raced, settled, rejected, elapsed, PortError, operation_failed, PortResult,
  value, timed_out, call_cancelled, call_failed, commit_state, commit_task, stop_port_once,
  finalize, has_id, is_unfinished, to_target, settle_race, invoke,
}
use voxel_steward.Coordinator.Promise.{Phase, first_of, after_task, MayDispatch, coordination}

-- Nothing was asked of the task's end yet.
abbrev pub IsOpen : Phase → Type 0
IsOpen p = (p.finishes ≡ 0) × (p.finished ≡ none)

-- The phase after an operation of which nothing is recorded.
abbrev pub later : Phase → Phase
later p = record p { safe = false }

-- Nothing was done in the world from `p` to `q`.
abbrev pub IsIdleSince : Phase → Phase → Type 0
IsIdleSince p q =
    (q.placements ≡ p.placements)
    × (q.moves ≡ p.moves)
    × (q.verified ≡ p.verified)
    × ((s : StateSnapshot) → p.first ≡ some s → q.first ≡ some s)

-- Another snapshot is not the first one.
pub first_of-some :
    (first : Option StateSnapshot) (snapshot s : StateSnapshot)
    → first ≡ some snapshot
    → first_of first s ≡ some snapshot
first_of-some none snapshot s e = absurd (ground arith)
first_of-some (some t) snapshot s e = e

-- Finalizing asks the queue for the end of the task, or throws before that or for that.
abbrev pub FinalizeTells :
    {E : Type 0} → E → TaskQueueTerminalStatus → Phase → Result E (Unit {0}) → Phase → Type 0
FinalizeTells e outcome p (ok _) q = (q.finished ≡ some outcome) × IsIdleSince p q
FinalizeTells e outcome p (err x) q = (x ≡ e) × (q.finished ≡ none) × IsIdleSince p q

-- What a request that is over tells, and what the call that made it does.
module _ {E A : Type 0} where
  abbrev pub RaceTells :
      (Phase → Type 0) → (A → Phase → Type 0) → Result E (Raced A) → Phase → Type 0
  RaceTells P T (ok (settled a)) q = P q × T a q
  RaceTells P T (ok _) q = P q
  RaceTells P T (err e) q = ⊥

  abbrev pub CallTells :
      (Phase → Type 0) → (A → Phase → Type 0) → Result E (PortResult A) → Phase → Type 0
  CallTells P T (ok (value a)) q = P q × T a q
  CallTells P T (ok _) q = P q
  CallTells P T (err e) q = ⊥

module _ (id : String) (may : Phase → Op → Type 0) where
  abbrev pub Keeps : {A : Type 0} → (A → Phase → Type 0) → Phase → Program Op Answer A → Type 0
  Keeps Q p m = Meets (coordination id may) Q p m

  pub on_test :
      {A : Type 0} {Q : A → Phase → Type 0} {p : Phase} (b : Bool) {m n : Program Op Answer A}
      → (b ≡ true → Keeps Q p m)
      → (b ≡ false → Keeps Q p n)
      → Keeps Q p (if b then m else n)
  on_test b f g = Meets-if (coordination id may) b f g

  -- The rest after a part, by what the part leaves behind.
  pub bind-then :
      {A B : Type 0} {Q : B → Phase → Type 0} {R : A → Phase → Type 0} {p : Phase}
      {m : Program Op Answer A} {f : A → Program Op Answer B}
      → Keeps R p m
      → ((a : A) (q : Phase) → R a q → Keeps Q q (f a))
      → Keeps Q p (bind m f)
  bind-then h k = Meets-bind (coordination id may) (Meets-weaken (coordination id may) k h)

  module _ {E A : Type 0} {Q : Result E A → Phase → Type 0} where
    pub stop-then :
        {k : Code E A} (p : Phase) → Keeps Q (later p) k → Keeps Q p (stop_port_once >> k)
    unfolding stop_port_once
    stop-then p h =
        Meets-bind (coordination id may)
          (asks tt λ b. on_test b (λ _. ends h) (λ _. asks tt λ _. asks tt λ _. ends h))

    pub commit_state-then :
        {k : Code E A} (p : Phase) (e : E) (c : StateCommand)
        → Keeps Q (later p) k
        → Q (err e) (later p)
        → Keeps Q p (commit_state e c >> k)
    unfolding commit_state
    commit_state-then p e c h f =
        Meets-bind (coordination id may) (asks tt λ b. on_test b (λ _. ends h) (λ _. ends (ends f)))

    answered-then :
        (k : Code E A) (p : Phase) (e : E) (c : TaskQueueCommand)
        → Keeps Q (after_task p c true) k
        → Q (err e) (after_task p c false)
        → (b : Bool) → Keeps Q (after_task p c b) ((if b then return tt else throw e) >> k)
    answered-then k p e c h f true = h
    answered-then k p e c h f false = ends f

    pub commit_task-then :
        {k : Code E A} (p : Phase) (e : E) (c : TaskQueueCommand)
        → MayDispatch id may p c
        → Keeps Q (after_task p c true) k
        → Q (err e) (after_task p c false)
        → Keeps Q p (commit_task e c >> k)
    unfolding commit_task
    commit_task-then {k} p e c a h f = asks a (answered-then k p e c h f)

  module _ {E : Type 0} {Q : Result E (Unit {0}) → Phase → Type 0} where
    commit_state-ends :
        (p : Phase) (e : E) (c : StateCommand)
        → Q (ok tt) (later p)
        → Q (err e) (later p)
        → Keeps Q p (commit_state e c)
    unfolding commit_state
    commit_state-ends p e c h f = asks tt λ b. on_test b (λ _. ends h) (λ _. ends f)

    answered-ends :
        (p : Phase) (e : E) (c : TaskQueueCommand)
        → Q (ok tt) (after_task p c true)
        → Q (err e) (after_task p c false)
        → (b : Bool) → Keeps Q (after_task p c b) (if b then return tt else throw e)
    answered-ends p e c h f true = ends h
    answered-ends p e c h f false = ends f

    commit_task-ends :
        (p : Phase) (e : E) (c : TaskQueueCommand)
        → MayDispatch id may p c
        → Q (ok tt) (after_task p c true)
        → Q (err e) (after_task p c false)
        → Keeps Q p (commit_task e c)
    unfolding commit_task
    commit_task-ends p e c a h f = asks a (answered-ends p e c h f)

  pub finalize-tells :
      {E : Type 0} (p : Phase) (e : E) (outcome : TaskQueueTerminalStatus)
      → IsOpen p
      → Keeps (FinalizeTells e outcome p) p (finalize e id outcome)
  unfolding finalize
  finalize-tells p e outcome (o, u) =
      let finish_it = λ (q : Phase) (n : q.finishes ≡ 0) (s : IsIdleSince p q).
        commit_task-ends {Q = FinalizeTells e outcome p} q e (finish id outcome) (refl, n) (refl, s)
          (refl, refl, s) in
      let kept = λ (s b : StateSnapshot) (f : p.first ≡ some b). first_of-some p.first b s f in
      asks tt λ s. Meets-bind (coordination id may) (
        on_test (has_id s.task.id id && is_unfinished s.task.state)
          (λ _.
            commit_state-ends _ e (task_transition (to_target outcome))
              (finish_it _ o (refl, refl, refl, kept s))
              (ends (refl, u, (refl, refl, refl, kept s))))
          (λ _. ends (finish_it _ o (refl, refl, refl, kept s))))

  module _ {E A : Type 0} where
    module _ (P : Phase → Type 0) (T : A → Phase → Type 0) where
      call_failed-tells :
          (p : Phase) (b : Bool) (r : PortError)
          → P p
          → Keeps (CallTells {E = E} P T) p (return (if b then call_cancelled else call_failed r))
      call_failed-tells p true r o = ends o
      call_failed-tells p false r o = ends o

      timed_out-tells :
          (p : Phase) (b : Bool)
          → P p
          → Keeps (CallTells {E = E} P T) p (return (if b then call_cancelled else timed_out))
      timed_out-tells p true o = ends o
      timed_out-tells p false o = ends o

      settle_race-tells :
          (r : Result E (Raced A)) (q : Phase)
          → RaceTells P T r q
          → Keeps (CallTells {E = E} P T) q (done r >>= settle_race)
      unfolding settle_race
      settle_race-tells (ok (settled a)) q t = ends t
      settle_race-tells (ok (rejected e)) q t = asks tt λ b. call_failed-tells _ b e t
      settle_race-tells (ok elapsed) q t = asks tt λ b. timed_out-tells _ b t
      settle_race-tells (err e) q t = absurd t

      pub invoke-tells :
          (p : Phase) (operation : Code E (Raced A))
          → P p
          → Keeps (RaceTells P T) p operation
          → Keeps (CallTells {E = E} P T) p (invoke operation)
      unfolding invoke
      invoke-tells p operation o h = asks tt λ b.
          on_test b (λ _. ends o)
            λ _. asks tt λ late. Meets-bind (coordination id may) (
              on_test late (λ _. ends (settle_race-tells (ok (rejected operation_failed)) _ o))
                (λ _. Meets-weaken (coordination id may) settle_race-tells h))
