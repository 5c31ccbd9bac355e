-- ===== src/Movement.antt =====
-- Positions and limits of a movement, src/domain/movement/types.ts, and their validation in
-- src/domain/movement/movement-plan.ts. The limits of a range are numbers of the language, so NaN
-- and the infinities are values that the validation meets.
pub mod Plan
pub mod Laws
pub mod Tests
use voxel_steward.Base.{
  ℕ, ◌-◌, String, Bool, true, false, not, ◌&&◌, ◌||◌, List, [], ◌∷◌, if◌then◌else◌, Number, num,
  nat, pos, negsuc, is_finite, is_safe_integer, num_lt, num_le, includes, Result, ok, err,
}

pub record MovementPosition : Type 0 where
  pub x : Number
  pub y : Number
  pub z : Number
  pub dimension : String

pub record MovementLimits : Type 0 where
  pub max_step_distance : Number
  pub max_steps : Number
  pub step_timeout_ms : Number
  pub arrival_tolerance : Number

pub data MovementError : Type 0 where
  invalid_movement_position invalid_movement_limits movement_plan_too_large : MovementError

abbrev pub dimensions : List String
dimensions = "overworld" ∷ "nether" ∷ "end" ∷ []

abbrev pub max_horizontal_coordinate : Number
max_horizontal_coordinate = nat 30000000

abbrev pub min_horizontal_coordinate : Number
min_horizontal_coordinate = num (negsuc 29999999) 0

abbrev pub min_world_y : Number
min_world_y = num (negsuc 63) 0

abbrev pub max_world_y : Number
max_world_y = nat 320

unfoldable pub finite_within : Number → Number → Number → Bool
finite_within value minimum maximum =
    is_finite value && num_le minimum value && num_le value maximum

unfoldable pub validate_movement_position : MovementPosition → Result MovementError (Unit {0})
validate_movement_position p =
    if not (finite_within p.x min_horizontal_coordinate max_horizontal_coordinate)
      || not (finite_within p.y min_world_y max_world_y)
      || not (finite_within p.z min_horizontal_coordinate max_horizontal_coordinate)
      || not (includes dimensions p.dimension)
    then err invalid_movement_position
    else ok tt

unfoldable pub validate_movement_limits : MovementLimits → Result MovementError (Unit {0})
validate_movement_limits l =
    if not (is_finite l.max_step_distance)
      || num_le l.max_step_distance (nat 0)
      || num_lt (nat 1) l.max_step_distance
      || not (is_safe_integer l.max_steps)
      || num_lt l.max_steps (nat 1)
      || num_lt (nat 10000) l.max_steps
      || not (is_safe_integer l.step_timeout_ms)
      || num_lt l.step_timeout_ms (nat 1)
      || num_lt (nat 30000) l.step_timeout_ms
      || not (is_finite l.arrival_tolerance)
      || num_lt l.arrival_tolerance (nat 0)
      || num_lt l.max_step_distance l.arrival_tolerance
    then err invalid_movement_limits
    else ok tt
