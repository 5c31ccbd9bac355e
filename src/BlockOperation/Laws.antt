-- ===== src/BlockOperation/Laws.antt =====
-- What a validated instruction asks for, and when two instructions are equal.
use voxel_steward.Base.{
  ◌≡◌, true, ◌-ℤ◌, ℤ, pos, Number, num, nan, infinity, neg_infinity, nat, is_integer, num_eq,
  num_lt, num_le, minus_one, ok, arith, eq_iff, ap, sym, ◌∙◌,
}
use voxel_steward.BlockOperation.{
  BlockPosition, PlaceSingleBlockInstruction, validate_block_position, has_fixed_fields,
  has_fixed_support, is_under, has_bounds, validate_block_operation_instruction,
}

pub num_eq_sound : (a b : Number) → num_eq a b ≡ true → a ≡ b
num_eq_sound (num f r) (num g s) e = ground arith
num_eq_sound (num f r) b e = ground arith
num_eq_sound infinity b e = ground arith
num_eq_sound neg_infinity b e = ground arith
num_eq_sound nan b e = absurd (ground arith)

whole_number : (a : Number) → is_integer a ≡ true → (f : ℤ) × (a ≡ num f 0)
whole_number (num f r) e = (f, ground arith)
whole_number nan e = absurd (ground arith)
whole_number infinity e = absurd (ground arith)
whole_number neg_infinity e = absurd (ground arith)

-- The four stages of the validation.
stages :
    (i : PlaceSingleBlockInstruction)
    → validate_block_operation_instruction i ≡ ok tt
    → (has_fixed_fields i ≡ true)
      × (validate_block_position i.target ≡ ok tt)
      × (is_under i.support.position i.target ≡ true)
      × (has_bounds i.max_reach i.timeout_ms ≡ true)
      × (has_fixed_support i.support ≡ true)
      × (validate_block_position i.support.position ≡ ok tt)
unfolding validate_block_operation_instruction
stages i e = ground arith

position-whole :
    (p : BlockPosition)
    → validate_block_position p ≡ ok tt
    → (x y z : ℤ) × (p.x ≡ num x 0) × (p.y ≡ num y 0) × (p.z ≡ num z 0)
unfolding validate_block_position
position-whole p e =
    let (x, ex) = whole_number p.x (ground arith) in
    let (y, ey) = whole_number p.y (ground arith) in
    let (z, ez) = whole_number p.z (ground arith) in (x, y, z, ex, ey, ez)

-- The one block that a validated instruction asks for: dirt in place of air, at whole coordinates,
-- on the block right under it, within a reach of more than 0 and at most 3 and a time of more than 0
-- and at most 30000 milliseconds, a whole number of them.
pub record IsSafePlacement (i : PlaceSingleBlockInstruction) : Type 0 where
  pub x : ℤ
  pub y : ℤ
  pub z : ℤ
  pub target_x : i.target.x ≡ num x 0
  pub target_y : i.target.y ≡ num y 0
  pub target_z : i.target.z ≡ num z 0
  pub support_x : i.support.position.x ≡ num x 0
  pub support_y : i.support.position.y ≡ num (y -ℤ pos 1) 0
  pub support_z : i.support.position.z ≡ num z 0
  pub same_dimension : i.support.position.dimension ≡ i.target.dimension
  pub operation : i.operation ≡ "place"
  pub block_type : i.block_type ≡ "dirt"
  pub expected_before : i.expected_before ≡ "air"
  pub expected_after : i.expected_after ≡ "dirt"
  pub reach : num_le i.max_reach (nat 3) ≡ true
  pub reach_positive : num_lt (nat 0) i.max_reach ≡ true
  pub timeout : num_le i.timeout_ms (nat 30000) ≡ true
  pub timeout_positive : num_lt (nat 0) i.timeout_ms ≡ true
  pub timeout_whole : is_integer i.timeout_ms ≡ true

fixed_texts :
    (i : PlaceSingleBlockInstruction)
    → has_fixed_fields i ≡ true
    → (i.operation ≡ "place")
      × (i.block_type ≡ "dirt")
      × (i.expected_before ≡ "air")
      × (i.expected_after ≡ "dirt")
unfolding has_fixed_fields
fixed_texts i e = (
  (eq_iff i.operation "place").0 (ground arith),
  (eq_iff i.block_type "dirt").0 (ground arith),
  (eq_iff i.expected_before "air").0 (ground arith),
  (eq_iff i.expected_after "dirt").0 (ground arith),
)

bounds_hold :
    (max_reach timeout_ms : Number)
    → has_bounds max_reach timeout_ms ≡ true
    → (num_le max_reach (nat 3) ≡ true)
      × (num_lt (nat 0) max_reach ≡ true)
      × (num_le timeout_ms (nat 30000) ≡ true)
      × (num_lt (nat 0) timeout_ms ≡ true)
unfolding has_bounds
bounds_hold (num f r) (num g s) e = (ground arith, ground arith, ground arith, ground arith)
bounds_hold _ _ e = absurd (ground arith)

whole_timeout :
    (max_reach timeout_ms : Number)
    → has_bounds max_reach timeout_ms ≡ true
    → is_integer timeout_ms ≡ true
unfolding has_bounds
whole_timeout max_reach timeout_ms e = ground arith

-- An instruction that passes the validation is a safe placement: dirt in place of air, at whole
-- coordinates, on the block right under it, with a positive reach of at most 3 and a positive time of
-- at most 30000 whole milliseconds, which may be less than the second that the documents give as its
-- least.
pub validate-IsSafePlacement :
    (i : PlaceSingleBlockInstruction)
    → validate_block_operation_instruction i ≡ ok tt
    → IsSafePlacement i
unfolding is_under
validate-IsSafePlacement i e =
    let (fixed, target, under, bounds, _, _) = stages i e in
    let (x, y, z, ex, ey, ez) = position-whole i.target target in
    let (op, bt, before, after) = fixed_texts i fixed in
    let (r, rp, t, tp) = bounds_hold i.max_reach i.timeout_ms bounds in
    record {
      x = x;
      y = y;
      z = z;
      target_x = ex;
      target_y = ey;
      target_z = ez;
      support_x = num_eq_sound i.support.position.x i.target.x (ground arith) ∙ ex;
      support_y =
          num_eq_sound i.support.position.y (minus_one i.target.y) (ground arith) ∙ ap minus_one ey;
      support_z = num_eq_sound i.support.position.z i.target.z (ground arith) ∙ ez;
      same_dimension =
          sym ((eq_iff i.target.dimension i.support.position.dimension).0 (ground arith));
      operation = op;
      block_type = bt;
      expected_before = before;
      expected_after = after;
      reach = r;
      reach_positive = rp;
      timeout = t;
      timeout_positive = tp;
      timeout_whole = whole_timeout i.max_reach i.timeout_ms bounds;
    }
