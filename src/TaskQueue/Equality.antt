-- ===== src/TaskQueue/Equality.antt =====
-- The equality of task instructions, `taskInstructionEquals` of src/domain/task-queue/task-queue.ts,
-- by which an enqueued task is known again.
use voxel_steward.Base.{
  ◌≡◌, refl, Bool, true, false, ◌&&◌, Option, none, some, if◌then◌else◌, str_eq, eq_iff, Number,
  num_eq, arith,
}
use voxel_steward.Movement.{MovementPosition}
use voxel_steward.BlockOperation.{
  BlockPosition, PlaceSingleBlockInstruction, block_operation_instruction_equals,
  same_block_position,
}
use voxel_steward.BlockOperation.Laws.{num_eq_sound}
use voxel_steward.SimpleWork.{PositionShape, SimpleWorkInstruction}
use voxel_steward.TaskQueue.{
  TaskInstruction, TaskDetails, DetailInstruction, place_single_dirt, verify_arrival,
  record_position, kind,
}

-- `left.tolerance === right.tolerance`
abbrev pub same_tolerance : Option Number → Option Number → Bool
same_tolerance none none = true
same_tolerance (some a) (some b) = num_eq a b
same_tolerance _ _ = false

-- `none` is the TypeError of a missing `expected`.
abbrev pub same_expected : Option PositionShape → Option PositionShape → Option Bool
same_expected none _ = none
same_expected (some a) none = none
same_expected (some a) (some b) = some (
    num_eq a.position.x b.position.x
    && num_eq a.position.y b.position.y
    && num_eq a.position.z b.position.z
    && str_eq a.position.dimension b.position.dimension)

abbrev pub same_work : SimpleWorkInstruction → SimpleWorkInstruction → Bool
same_work a b = str_eq a.task_id b.task_id && str_eq a.task_type b.task_type

unfoldable pub same_instruction : DetailInstruction → DetailInstruction → Option Bool
same_instruction (place_single_dirt a) (place_single_dirt b) =
    some (block_operation_instruction_equals a b)
same_instruction (verify_arrival a) (verify_arrival b) =
    if same_work a b && same_tolerance a.tolerance b.tolerance
    then same_expected a.expected b.expected
    else some false
same_instruction (record_position a) (record_position b) = some (same_work a b)
same_instruction _ _ = some false

unfoldable pub same_fields : TaskInstruction → TaskInstruction → Bool
same_fields left right =
    str_eq left.task_id right.task_id
    && str_eq left.task_type right.task_type
    && num_eq left.priority right.priority
    && num_eq left.max_attempts right.max_attempts

abbrev pub and_also : Bool → Option Bool → Option Bool
and_also fields none = none
and_also fields (some same) = some (fields && same)

unfoldable pub compare_details :
    TaskInstruction → TaskInstruction → Option TaskDetails → Option TaskDetails → Option Bool
compare_details left right none none = some (str_eq left.task_id right.task_id)
compare_details left right (some a) (some b) =
    if str_eq (kind a.instruction) (kind b.instruction)
    then and_also (same_fields left right) (same_instruction a.instruction b.instruction)
    else some false
compare_details left right _ _ = some false

unfoldable pub task_instruction_equals : TaskInstruction → TaskInstruction → Option Bool
task_instruction_equals left right = compare_details left right left.details right.details

abbrev pub SamePosition : MovementPosition → MovementPosition → Type 0
SamePosition p q = (p.x ≡ q.x) × (p.y ≡ q.y) × (p.z ≡ q.z) × (p.dimension ≡ q.dimension)

abbrev pub IsSameBlock : BlockPosition → BlockPosition → Type 0
IsSameBlock p q = (p.x ≡ q.x) × (p.y ≡ q.y) × (p.z ≡ q.z) × (p.dimension ≡ q.dimension)

abbrev pub ExpectSame : Option PositionShape → Option PositionShape → Type 0
ExpectSame (some p) (some q) = SamePosition p.position q.position
ExpectSame _ _ = ⊥

-- That two placements have one target, one support (position, face and expected block) and one of
-- everything else that an instruction says.
abbrev pub PlaceSame : PlaceSingleBlockInstruction → PlaceSingleBlockInstruction → Type 0
PlaceSame a b =
    (a.schema_version ≡ b.schema_version)
    × (a.task_id ≡ b.task_id)
    × (a.task_type ≡ b.task_type)
    × (a.operation ≡ b.operation)
    × (a.block_type ≡ b.block_type)
    × (a.expected_before ≡ b.expected_before)
    × (a.expected_after ≡ b.expected_after)
    × (a.max_reach ≡ b.max_reach)
    × (a.timeout_ms ≡ b.timeout_ms)
    × (a.support.expected ≡ b.support.expected)
    × (a.support.face ≡ b.support.face)
    × IsSameBlock a.target b.target
    × IsSameBlock a.support.position b.support.position

-- That two instructions of `details` ask for the same: of a placement, all of it; of a verification,
-- the expected position and the tolerance.
abbrev pub AskForSame : DetailInstruction → DetailInstruction → Type 0
AskForSame (place_single_dirt a) (place_single_dirt b) = PlaceSame a b
AskForSame (verify_arrival a) (verify_arrival b) =
    (a.task_id ≡ b.task_id)
    × (a.task_type ≡ b.task_type)
    × (a.tolerance ≡ b.tolerance)
    × ExpectSame a.expected b.expected
AskForSame (record_position a) (record_position b) =
    (a.task_id ≡ b.task_id) × (a.task_type ≡ b.task_type)
AskForSame _ _ = ⊥

tolerance_sound : (a b : Option Number) → same_tolerance a b ≡ true → a ≡ b
tolerance_sound none none e = ground arith
tolerance_sound (some a) (some b) e = let same = num_eq_sound a b e in cc
tolerance_sound none (some b) e = absurd (ground arith)
tolerance_sound (some a) none e = absurd (ground arith)

same_expected-cases : (a b : Option PositionShape) → same_expected a b ≡ some true → ExpectSame a b
same_expected-cases (some p) (some q) e = (
  num_eq_sound p.position.x q.position.x (ground arith),
  num_eq_sound p.position.y q.position.y (ground arith),
  num_eq_sound p.position.z q.position.z (ground arith),
  (eq_iff p.position.dimension q.position.dimension).0 (ground arith),
)
same_expected-cases none b e = absurd (ground arith)
same_expected-cases (some p) none e = absurd (ground arith)

conjuncts :
    (a b c d e f g h i j k l m : Bool)
    → (a && b && c && d && e && f && g && h && i && j && k && l && m) ≡ true
    → (a ≡ true)
      × (b ≡ true)
      × (c ≡ true)
      × (d ≡ true)
      × (e ≡ true)
      × (f ≡ true)
      × (g ≡ true)
      × (h ≡ true)
      × (i ≡ true)
      × (j ≡ true)
      × (k ≡ true)
      × (l ≡ true)
      × (m ≡ true)
conjuncts true true true true true true true true true true true true true all =
    (refl, refl, refl, refl, refl, refl, refl, refl, refl, refl, refl, refl, refl)
conjuncts _ _ _ _ _ _ _ _ _ _ _ _ _ all = absurd (ground arith)

block_position_sound : (p q : BlockPosition) → same_block_position p q ≡ true → IsSameBlock p q
unfolding same_block_position
block_position_sound p q e = (
  num_eq_sound p.x q.x (ground arith),
  num_eq_sound p.y q.y (ground arith),
  num_eq_sound p.z q.z (ground arith),
  (eq_iff p.dimension q.dimension).0 (ground arith),
)

placement_sound :
    (a b : PlaceSingleBlockInstruction)
    → block_operation_instruction_equals a b ≡ true
    → AskForSame (place_single_dirt a) (place_single_dirt b)
unfolding block_operation_instruction_equals
placement_sound a b e =
    let (version, id, type, op, block, before, after, reach, timeout, base, face, target, support) =
      conjuncts (num_eq a.schema_version b.schema_version) (str_eq a.task_id b.task_id)
        (str_eq a.task_type b.task_type) (str_eq a.operation b.operation)
        (str_eq a.block_type b.block_type) (str_eq a.expected_before b.expected_before)
        (str_eq a.expected_after b.expected_after) (num_eq a.max_reach b.max_reach)
        (num_eq a.timeout_ms b.timeout_ms) (str_eq a.support.expected b.support.expected)
        (str_eq a.support.face b.support.face) (same_block_position a.target b.target)
        (same_block_position a.support.position b.support.position) e in
    (
      num_eq_sound a.schema_version b.schema_version version,
      (eq_iff a.task_id b.task_id).0 id,
      (eq_iff a.task_type b.task_type).0 type,
      (eq_iff a.operation b.operation).0 op,
      (eq_iff a.block_type b.block_type).0 block,
      (eq_iff a.expected_before b.expected_before).0 before,
      (eq_iff a.expected_after b.expected_after).0 after,
      num_eq_sound a.max_reach b.max_reach reach,
      num_eq_sound a.timeout_ms b.timeout_ms timeout,
      (eq_iff a.support.expected b.support.expected).0 base,
      (eq_iff a.support.face b.support.face).0 face,
      block_position_sound a.target b.target target,
      block_position_sound a.support.position b.support.position support,
    )

verification_sound :
    (a b : SimpleWorkInstruction)
    → same_instruction (verify_arrival a) (verify_arrival b) ≡ some true
    → AskForSame (verify_arrival a) (verify_arrival b)
unfolding same_instruction
verification_sound a b e = (
  (eq_iff a.task_id b.task_id).0 (ground arith),
  (eq_iff a.task_type b.task_type).0 (ground arith),
  tolerance_sound a.tolerance b.tolerance (ground arith),
  same_expected-cases a.expected b.expected (ground arith),
)

same_instruction_sound :
    (a b : DetailInstruction) → same_instruction a b ≡ some true → AskForSame a b
unfolding same_instruction
same_instruction_sound (place_single_dirt a) (place_single_dirt b) e =
    placement_sound a b (ground arith)
same_instruction_sound (verify_arrival a) (verify_arrival b) e = verification_sound a b e
same_instruction_sound (record_position a) (record_position b) e = (
  (eq_iff a.task_id b.task_id).0 (ground arith),
  (eq_iff a.task_type b.task_type).0 (ground arith),
)
same_instruction_sound _ _ e = absurd (ground arith)

compare_details-parts :
    (left right : TaskInstruction) (a b : TaskDetails)
    → compare_details left right (some a) (some b) ≡ some true
    → (same_fields left right ≡ true) × (same_instruction a.instruction b.instruction ≡ some true)
unfolding compare_details
compare_details-parts left right a b e = (ground arith, ground arith)

-- Two instructions with details that are equal to `taskInstructionEquals` have the same identifier,
-- type, priority and limit of attempts, and ask for the same: two placements agree in every field
-- of the instruction, the support's position, face and expected block included.
pub task_instruction_equals-AskForSame :
    (left right : TaskInstruction) (a b : TaskDetails)
    → left.details ≡ some a
    → right.details ≡ some b
    → task_instruction_equals left right ≡ some true
    → (left.task_id ≡ right.task_id)
      × (left.task_type ≡ right.task_type)
      × (left.priority ≡ right.priority)
      × (left.max_attempts ≡ right.max_attempts)
      × AskForSame a.instruction b.instruction
unfolding task_instruction_equals same_fields compare_details
task_instruction_equals-AskForSame left right a b ea eb e =
    let same : compare_details left right (some a) (some b) ≡ some true = rw (ea, eb) at e in
    let (fields, details) = compare_details-parts left right a b same in
    (
      (eq_iff left.task_id right.task_id).0 (ground arith),
      (eq_iff left.task_type right.task_type).0 (ground arith),
      num_eq_sound left.priority right.priority (ground arith),
      num_eq_sound left.max_attempts right.max_attempts (ground arith),
      same_instruction_sound a.instruction b.instruction details,
    )
