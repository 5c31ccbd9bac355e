-- ===== src/BlockOperation/Tests.antt =====
-- One placement of dirt.
use voxel_steward.Base.{◌≡◌, refl, nat, [], ◌∷◌, ok, ℕ}
use voxel_steward.Movement.{finite_within, validate_movement_position}
use voxel_steward.BlockOperation.{
  BlockPosition, PlaceSingleBlockInstruction, is_task_id, exact_keys, validate_block_position,
  has_fixed_fields, has_fixed_support, is_under, has_bounds, validate_block_operation_instruction,
}
use voxel_steward.BlockOperation.Laws.{IsSafePlacement, validate-IsSafePlacement}

abbrev pub at_height : ℕ → BlockPosition
at_height y = record {
  keys = "x" ∷ "y" ∷ "z" ∷ "dimension" ∷ [];
  position = record { x = nat 10; y = nat y; z = nat 7; dimension = "overworld" };
}

abbrev pub placement : PlaceSingleBlockInstruction
placement = record {
  keys =
      "taskId" ∷ "schemaVersion" ∷ "taskType" ∷ "operation" ∷ "target" ∷ "blockType"
      ∷ "expectedBefore" ∷ "expectedAfter" ∷ "support" ∷ "maxReach" ∷ "timeoutMs" ∷ [];
  schema_version = nat 1;
  task_id = "place-1";
  task_type = "place_single_dirt";
  operation = "place";
  target = at_height 65;
  block_type = "dirt";
  expected_before = "air";
  expected_after = "dirt";
  support = record {
    keys = "position" ∷ "expected" ∷ "face" ∷ [];
    position = at_height 64;
    expected = "solid";
    face = "up";
  };
  max_reach = nat 3;
  timeout_ms = nat 5000;
}

placement-valid : validate_block_operation_instruction placement ≡ ok tt
unfolding validate_block_operation_instruction has_fixed_fields has_fixed_support is_under
    has_bounds validate_block_position exact_keys is_task_id validate_movement_position
    finite_within
placement-valid = refl

validate-IsSafePlacement_example : IsSafePlacement placement
validate-IsSafePlacement_example = validate-IsSafePlacement placement placement-valid

-- The least time that is accepted is one millisecond.
abbrev hurried : PlaceSingleBlockInstruction
hurried = record placement { timeout_ms = nat 1 }

hurried-valid : validate_block_operation_instruction hurried ≡ ok tt
unfolding validate_block_operation_instruction has_fixed_fields has_fixed_support is_under
    has_bounds validate_block_position exact_keys is_task_id validate_movement_position
    finite_within
hurried-valid = refl
