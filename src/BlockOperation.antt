-- ===== src/BlockOperation.antt =====
-- The instruction to place one block, src/domain/block-operation/types.ts, and its validation in
-- validation.ts. A value that the source takes as `unknown` is here an object whose fields have the
-- declared primitive types; `keys` is what `Object.keys` returns for it.
pub mod Laws
pub mod Tests
use voxel_steward.Base.{
  ℕ, ◌-◌, String, Bool, true, false, not, ◌&&◌, ◌||◌, List, [], ◌∷◌, ◌==◌, if◌then◌else◌, str_eq,
  Number, nat, is_finite, is_integer, num_lt, num_le, num_eq, minus_one, includes, all, length,
  codes, matches_token, is_lower, is_upper, is_digit, is_joiner, Result, ok, err,
}
use voxel_steward.Movement.{MovementPosition, validate_movement_position}

pub record BlockPosition : Type 0 where
  pub keys : List String
  pub position : MovementPosition
  pub open position use *

pub record BlockSupport : Type 0 where
  pub keys : List String
  pub position : BlockPosition
  pub expected : String
  pub face : String

pub record PlaceSingleBlockInstruction : Type 0 where
  pub keys : List String
  pub schema_version : Number
  pub task_id : String
  pub task_type : String
  pub operation : String
  pub target : BlockPosition
  pub block_type : String
  pub expected_before : String
  pub expected_after : String
  pub support : BlockSupport
  pub max_reach : Number
  pub timeout_ms : Number

pub record BlockObservation : Type 0 where
  pub keys : List String
  pub position : BlockPosition
  pub block_type : String

pub data BlockOperationError : Type 0 where
  invalid_block_operation_instruction : BlockOperationError

abbrev pub max_block_reach : Number
max_block_reach = nat 3

abbrev pub max_block_operation_timeout_ms : Number
max_block_operation_timeout_ms = nat 30000

-- `/^[A-Za-z0-9][A-Za-z0-9._-]{0,127}$/`
unfoldable pub is_task_id : String → Bool
unfolding matches_token codes
is_task_id s =
    matches_token (λ c. is_lower c || is_upper c || is_digit c)
      (λ c. is_lower c || is_upper c || is_digit c || is_joiner c) 127 (codes s)

unfoldable pub exact_keys : List String → List String → Bool
exact_keys actual keys = length actual == length keys && all (includes keys) actual

unfoldable pub validate_block_position : BlockPosition → Result BlockOperationError (Unit {0})
validate_block_position p =
    if not (exact_keys p.keys ("x" ∷ "y" ∷ "z" ∷ "dimension" ∷ []))
    then err invalid_block_operation_instruction
    else elim (validate_movement_position p.position) [
      | err _ ↦ err invalid_block_operation_instruction
      | ok _ ↦
          if not (is_integer p.x && is_integer p.y && is_integer p.z)
          then err invalid_block_operation_instruction
          else ok tt
    ]

infixl 5 ◌>>◌
abbrev pub ◌>>◌ {ℓ} :
    {A : Type ℓ}
    → Result BlockOperationError (Unit {0})
    → Result BlockOperationError A
    → Result BlockOperationError A
err e >> k = err e
ok _ >> k = k

-- `if (refused) invalid();`
abbrev pub refuse_if : Bool → Result BlockOperationError (Unit {0})
refuse_if refused = if refused then err invalid_block_operation_instruction else ok tt

unfoldable pub has_fixed_fields : PlaceSingleBlockInstruction → Bool
has_fixed_fields i =
    exact_keys i.keys (
      "taskId" ∷ "schemaVersion" ∷ "taskType" ∷ "operation" ∷ "target" ∷ "blockType"
      ∷ "expectedBefore" ∷ "expectedAfter" ∷ "support" ∷ "maxReach" ∷ "timeoutMs" ∷ [])
    && num_eq i.schema_version (nat 1)
    && is_task_id i.task_id
    && str_eq i.task_type "place_single_dirt"
    && str_eq i.operation "place"
    && str_eq i.block_type "dirt"
    && str_eq i.expected_before "air"
    && str_eq i.expected_after "dirt"

unfoldable pub has_fixed_support : BlockSupport → Bool
has_fixed_support s =
    exact_keys s.keys ("position" ∷ "expected" ∷ "face" ∷ [])
    && str_eq s.expected "solid"
    && str_eq s.face "up"

-- The supporting block lies right under the target.
unfoldable pub is_under : BlockPosition → BlockPosition → Bool
is_under support target =
    str_eq target.dimension support.dimension
    && num_eq support.x target.x
    && num_eq support.y (minus_one target.y)
    && num_eq support.z target.z

unfoldable pub has_bounds : Number → Number → Bool
has_bounds max_reach timeout_ms = not (
    not (is_finite max_reach)
    || num_le max_reach (nat 0)
    || num_lt max_block_reach max_reach
    || not (is_integer timeout_ms)
    || num_le timeout_ms (nat 0)
    || num_lt max_block_operation_timeout_ms timeout_ms)

unfoldable pub validate_block_operation_instruction :
    PlaceSingleBlockInstruction → Result BlockOperationError (Unit {0})
validate_block_operation_instruction i = do
  refuse_if (not (has_fixed_fields i))
  validate_block_position i.target
  refuse_if (not (has_fixed_support i.support))
  validate_block_position i.support.position
  refuse_if (not (is_under i.support.position i.target))
  refuse_if (not (has_bounds i.max_reach i.timeout_ms))

unfoldable pub validate_block_observation : BlockObservation → Result BlockOperationError (Unit {0})
validate_block_observation o = do
  refuse_if (not (exact_keys o.keys ("position" ∷ "blockType" ∷ [])))
  validate_block_position o.position
  refuse_if (not (includes ("air" ∷ "dirt" ∷ "solid_other" ∷ []) o.block_type))

unfoldable pub same_block_position : BlockPosition → BlockPosition → Bool
same_block_position a b =
    num_eq a.x b.x && num_eq a.y b.y && num_eq a.z b.z && str_eq a.dimension b.dimension

unfoldable pub block_operation_instruction_equals :
    PlaceSingleBlockInstruction → PlaceSingleBlockInstruction → Bool
block_operation_instruction_equals left right =
    num_eq left.schema_version right.schema_version
    && str_eq left.task_id right.task_id
    && str_eq left.task_type right.task_type
    && str_eq left.operation right.operation
    && str_eq left.block_type right.block_type
    && str_eq left.expected_before right.expected_before
    && str_eq left.expected_after right.expected_after
    && num_eq left.max_reach right.max_reach
    && num_eq left.timeout_ms right.timeout_ms
    && str_eq left.support.expected right.support.expected
    && str_eq left.support.face right.support.face
    && same_block_position left.target right.target
    && same_block_position left.support.position right.support.position
