-- ===== src/SimpleWork.antt =====
-- Instructions of simple work, src/domain/simple-work/types.ts, and their validation in
-- validation.ts. A value that the source takes as `unknown` is here an object with the fields that
-- the validation reads: `none` where the field is missing or is no object or no number, and `keys`
-- is what `Object.keys` returns.
use voxel_steward.Base.{
  String, Bool, false, not, ◌&&◌, Option, none, some, List, [], ◌∷◌, if◌then◌else◌, str_eq, Number,
  nat, is_finite, num_lt, includes, all, Result, ok, err,
}
use voxel_steward.Movement.{
  MovementPosition, MovementLimits, validate_movement_position, validate_movement_limits,
}
use voxel_steward.BlockOperation.{is_task_id}

pub record PositionShape : Type 0 where
  pub keys : List String
  pub position : MovementPosition

pub record LimitsShape : Type 0 where
  pub keys : List String
  pub limits : MovementLimits

pub record SimpleWorkInstruction : Type 0 where
  pub keys : List String
  pub task_id : String
  pub task_type : String
  pub target : Option PositionShape
  pub limits : Option LimitsShape
  pub expected : Option PositionShape
  pub tolerance : Option Number

pub data SimpleWorkError : Type 0 where
  invalid_simple_work_instruction : SimpleWorkError

unfoldable pub has_only_keys : List String → List String → Bool
has_only_keys keys allowed = all (includes allowed) keys

abbrev refuse : Result SimpleWorkError (Unit {0})
refuse = err invalid_simple_work_instruction

-- An error of another kind is turned into `invalid()` by the `catch`.
unfoldable pub validate_position_shape : Option PositionShape → Result SimpleWorkError (Unit {0})
validate_position_shape none = refuse
validate_position_shape (some p) =
    if has_only_keys p.keys ("x" ∷ "y" ∷ "z" ∷ "dimension" ∷ [])
    then elim (validate_movement_position p.position) [ err _ ↦ refuse | ok _ ↦ ok tt ]
    else refuse

unfoldable pub validate_limits_shape : Option LimitsShape → Result SimpleWorkError (Unit {0})
validate_limits_shape none = refuse
validate_limits_shape (some l) =
    if has_only_keys l.keys
      ("maxStepDistance" ∷ "maxSteps" ∷ "stepTimeoutMs" ∷ "arrivalTolerance" ∷ [])
    then elim (validate_movement_limits l.limits) [ err _ ↦ refuse | ok _ ↦ ok tt ]
    else refuse

unfoldable pub is_tolerance : Option Number → Bool
is_tolerance none = false
is_tolerance (some t) = is_finite t && not (num_lt t (nat 0)) && not (num_lt (nat 1) t)

infixl 5 ◌>>◌
abbrev ◌>>◌ :
    Result SimpleWorkError (Unit {0})
    → Result SimpleWorkError (Unit {0})
    → Result SimpleWorkError (Unit {0})
err e >> k = err e
ok _ >> k = k

unfoldable pub validate_simple_work_instruction :
    SimpleWorkInstruction → Result SimpleWorkError (Unit {0})
validate_simple_work_instruction i =
    if not (is_task_id i.task_id)
    then refuse
    else if str_eq i.task_type "navigate_to"
    then if has_only_keys i.keys ("taskId" ∷ "taskType" ∷ "target" ∷ "limits" ∷ [])
      then validate_position_shape i.target >> validate_limits_shape i.limits
      else refuse
    else if str_eq i.task_type "verify_arrival"
    then if has_only_keys i.keys ("taskId" ∷ "taskType" ∷ "expected" ∷ "tolerance" ∷ [])
      then validate_position_shape i.expected
        >> (if is_tolerance i.tolerance then ok tt else refuse)
      else refuse
    else if str_eq i.task_type "record_position"
    then if has_only_keys i.keys ("taskId" ∷ "taskType" ∷ []) then ok tt else refuse
    else refuse
