-- ===== src/SimpleWorkCoordinator/Laws.antt =====
-- What `execute` of src/application/simple-work/simple-work-coordinator.ts reports and returns.
use voxel_steward.Base.{
  ◌≡◌, refl, String, Bool, true, false, Option, none, some, List, [], ◌∷◌, ◌++◌, All, str_eq,
  Bool-cases, Option-cases, inl, inr, arith, Number,
}
use voxel_steward.Movement.{MovementPosition, validate_movement_position}
use voxel_steward.Movement.Plan.{FloatOps}
use voxel_steward.MovementCoordinator.{MovementCommand, MovementResult}
use voxel_steward.SimpleWork.{
  SimpleWorkInstruction, PositionShape, LimitsShape, validate_simple_work_instruction,
  validate_position_shape, validate_limits_shape, is_tolerance,
}
use voxel_steward.TaskQueue.{accepts}
use voxel_steward.SimpleWorkCoordinator.{
  ProgressPhase, SimpleWorkProgress, SimpleWorkResult, navigated, arrival, recorded, work_stopped,
  work_failed, Work, WorkFailure, ends_with, fails, is_unsupported, just_validated,
  navigation_result, navigate_from, navigate, verify_arrival, work_at, work_from, execute_work,
}

abbrev pub phase_of : SimpleWorkResult → ProgressPhase
phase_of (navigated p n) = ProgressPhase.completed
phase_of (arrival p arrived) = ProgressPhase.completed
phase_of (recorded p) = ProgressPhase.completed
phase_of (work_stopped reason n) = ProgressPhase.stopped
phase_of (work_failed task_type reason n) = ProgressPhase.failed

-- A phase that is reported while the work goes on.
abbrev pub is_under_way : ProgressPhase → Bool
is_under_way ProgressPhase.validated = true
is_under_way ProgressPhase.executing = true
is_under_way _ = false

-- There is a result, and of the reports exactly the last one is of an end, the one of the result.
pub record IsReported (work : Work) : Type 0 where
  pub result : SimpleWorkResult
  pub before : List SimpleWorkProgress
  pub last : SimpleWorkProgress
  pub returned : work ≡ some (result, before ++ last ∷ [])
  pub told : last.phase ≡ phase_of result
  pub under_way : All (λ (p : SimpleWorkProgress). is_under_way p.phase ≡ true) before

ends_with-IsReported :
    (before : List SimpleWorkProgress) (last : SimpleWorkProgress) (result : SimpleWorkResult)
    → last.phase ≡ phase_of result
    → All (λ (p : SimpleWorkProgress). is_under_way p.phase ≡ true) before
    → IsReported (ends_with before last result)
unfolding ends_with
ends_with-IsReported before last result t u = record {
  result = result;
  before = before;
  last = last;
  returned = refl;
  told = t;
  under_way = u;
}

navigation_result-IsReported :
    (before : List SimpleWorkProgress) (m : Option MovementResult)
    → All (λ (p : SimpleWorkProgress). is_under_way p.phase ≡ true) before
    → IsReported (navigation_result before m)
unfolding navigation_result
navigation_result-IsReported before none u = ends_with-IsReported before _ _ refl u
navigation_result-IsReported before (some (MovementResult.completed n p)) u =
    ends_with-IsReported before _ _ refl u
navigation_result-IsReported before (some (MovementResult.stopped r n)) u =
    ends_with-IsReported before _ _ refl u
navigation_result-IsReported before (some (MovementResult.failed r n)) u =
    ends_with-IsReported before _ _ refl u

fails-IsReported :
    (before : List SimpleWorkProgress) (task_type : String) (reason : WorkFailure)
    → All (λ (p : SimpleWorkProgress). is_under_way p.phase ≡ true) before
    → IsReported (fails before task_type reason)
unfolding fails
fails-IsReported before task_type reason u = ends_with-IsReported before _ _ refl u

-- The fields that the validation found.
navigate-fields :
    (i : SimpleWorkInstruction)
    → accepts (validate_simple_work_instruction i) ≡ true
    → str_eq i.task_type "navigate_to" ≡ true
    → ((t : PositionShape) × (i.target ≡ some t)) × ((l : LimitsShape) × (i.limits ≡ some l))
unfolding validate_simple_work_instruction validate_position_shape validate_limits_shape
navigate-fields i v n = elim (Option-cases i.target) [
  | inl e ↦ absurd (ground arith)
  | inr t ↦ elim (Option-cases i.limits) [ inl e ↦ absurd (ground arith) | inr l ↦ (t, l) ]
]

verify-fields :
    (i : SimpleWorkInstruction)
    → accepts (validate_simple_work_instruction i) ≡ true
    → str_eq i.task_type "navigate_to" ≡ false
    → str_eq i.task_type "verify_arrival" ≡ true
    → ((t : PositionShape) × (i.expected ≡ some t)) × ((l : Number) × (i.tolerance ≡ some l))
unfolding validate_simple_work_instruction validate_position_shape is_tolerance
verify-fields i v n t = elim (Option-cases i.expected) [
  | inl e ↦ absurd (ground arith)
  | inr x ↦ elim (Option-cases i.tolerance) [ inl e ↦ absurd (ground arith) | inr y ↦ (x, y) ]
]

module _ (ops : FloatOps) (movement : MovementCommand → Option MovementResult) where
  navigate_from-IsReported :
      (i : SimpleWorkInstruction) (target : PositionShape) (limits : LimitsShape)
      (p : MovementPosition)
      → IsReported (navigate_from ops movement i target limits p)
  unfolding navigate_from
  navigate_from-IsReported i target limits p =
      elim (Bool-cases (is_unsupported ops movement p target.position)) [
        | inl e ↦ rw e (fails-IsReported just_validated _ _ (refl, tt))
        | inr e ↦ rw e (navigation_result-IsReported _ _ (refl, (refl, tt)))
      ]

  navigate-IsReported :
      (i : SimpleWorkInstruction) (p : MovementPosition) (target : PositionShape)
      (limits : LimitsShape)
      → i.target ≡ some target
      → i.limits ≡ some limits
      → IsReported (navigate ops movement i p)
  unfolding navigate
  navigate-IsReported i p target limits t l =
      simp (navigate, t, l) (navigate_from-IsReported i target limits p)

  verify_arrival-IsReported :
      (i : SimpleWorkInstruction) (p : MovementPosition) (expected : PositionShape)
      (tolerance : Number)
      → i.expected ≡ some expected
      → i.tolerance ≡ some tolerance
      → IsReported (verify_arrival ops movement i p)
  unfolding verify_arrival
  verify_arrival-IsReported i p expected tolerance e t =
      simp (verify_arrival, e, t) (ends_with-IsReported just_validated _ _ refl (refl, tt))

  work_at-IsReported :
      (i : SimpleWorkInstruction) (p : MovementPosition)
      → accepts (validate_simple_work_instruction i) ≡ true
      → IsReported (work_at ops movement i p)
  unfolding work_at
  work_at-IsReported i p v = elim (Bool-cases (str_eq i.task_type "navigate_to")) [
    | inl n ↦
        let (target, limits) = navigate-fields i v n in
        rw n (navigate-IsReported i p target.0 limits.0 target.1 limits.1)
    | inr n ↦ elim (Bool-cases (str_eq i.task_type "verify_arrival")) [
      | inl t ↦
          let (expected, tolerance) = verify-fields i v n t in
          rw (n, t) (verify_arrival-IsReported i p expected.0 tolerance.0 expected.1 tolerance.1)
      | inr t ↦ simp (n, t) (ends_with-IsReported just_validated _ _ refl (refl, tt))
    ]
  ]

  -- Whatever the position that is read and the answer of the movement, the work returns a result, and
  -- of the progress that it reports exactly the last one is of an end: completed, stopped or failed as
  -- the result is.
  pub execute_work-IsReported :
      (i : SimpleWorkInstruction) (position : Option MovementPosition)
      → IsReported (execute_work ops movement i position)
  unfolding execute_work work_from
  execute_work-IsReported i position =
      elim (Bool-cases (accepts (validate_simple_work_instruction i))) [
        | inr e ↦ rw e (fails-IsReported [] _ _ tt)
        | inl e ↦ elim (Option-cases position) [
          | inl n ↦ rw (e, n) (fails-IsReported just_validated _ _ (refl, tt))
          | inr (p, found) ↦ elim (Bool-cases (accepts (validate_movement_position p))) [
            | inl valid ↦ rw (e, found, valid) (work_at-IsReported i p e)
            | inr bad ↦ rw (e, found, bad) (fails-IsReported just_validated _ _ (refl, tt))
          ]
        ]
      ]
