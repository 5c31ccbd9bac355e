-- ===== src/Movement/Plan.antt =====
-- The plan of a movement, src/domain/movement/movement-plan.ts. The arithmetic of doubles is the
-- host's: it is a parameter of the plan.
use voxel_steward.Base.{
  ℕ, zero, suc, ◌+◌, Bool, List, [], ◌∷◌, if◌then◌else◌, not, str_eq, Number, nat, num_lt, num_le,
  Result, ok, err, ◌&&◌,
}
use voxel_steward.Movement.{
  MovementPosition, MovementLimits, MovementError, invalid_movement_position,
  movement_plan_too_large, validate_movement_position, validate_movement_limits,
}

-- `+ - * /`, `Math.hypot` and `Math.ceil`.
pub record FloatOps : Type 0 where
  pub add : Number → Number → Number
  pub sub : Number → Number → Number
  pub mul : Number → Number → Number
  pub div : Number → Number → Number
  pub hypot : Number → Number → Number → Number
  pub ceil : Number → Number

pub record MovementStep : Type 0 where
  pub index : ℕ
  pub total : Number
  pub target : MovementPosition

pub record MovementPlan : Type 0 where
  pub origin : MovementPosition
  pub target : MovementPosition
  pub steps : List MovementStep
  pub limits : MovementLimits

-- A loop of at most 10000 rounds, which validated limits allow, and one more for its last test.
abbrev pub plan_fuel : ℕ
plan_fuel = 10001

infixl 5 ◌>>◌
abbrev pub ◌>>◌ {ℓ} :
    {B : Type ℓ} → Result MovementError (Unit {0}) → Result MovementError B → Result MovementError B
err e >> k = err e
ok _ >> k = k

abbrev pub refuse_if : Bool → MovementError → Result MovementError (Unit {0})
refuse_if refused e = if refused then err e else ok tt

module _ (ops : FloatOps) where
  unfoldable pub distance_between : MovementPosition → MovementPosition → Number
  distance_between left right =
      ops.hypot (ops.sub left.x right.x) (ops.sub left.y right.y) (ops.sub left.z right.z)

  unfoldable pub is_within_arrival_tolerance : MovementPosition → MovementPosition → Number → Bool
  unfolding distance_between
  is_within_arrival_tolerance actual expected tolerance =
      str_eq actual.dimension expected.dimension
      && num_le (distance_between actual expected) tolerance

  abbrev pub interpolate : Number → Number → Number → Number
  interpolate from to ratio = ops.add from (ops.mul (ops.sub to from) ratio)

  abbrev pub plan_step : MovementPosition → MovementPosition → Number → ℕ → MovementStep
  plan_step origin target count index =
      let ratio = ops.div (nat index) count in
      record {
        index = index;
        total = count;
        target = record {
          x = interpolate origin.x target.x ratio;
          y = interpolate origin.y target.y ratio;
          z = interpolate origin.z target.z ratio;
          dimension = origin.dimension;
        };
      }

  -- The `for` loop, from `index` on.
  unfoldable pub plan_steps :
      MovementPosition → MovementPosition → Number → ℕ → ℕ → List MovementStep
  plan_steps origin target count zero index = []
  plan_steps origin target count (suc fuel) index =
      let rest = plan_steps origin target count fuel (index + 1) in
      if num_le (nat index) count then plan_step origin target count index ∷ rest else []

  unfoldable pub step_count : MovementPosition → MovementPosition → MovementLimits → Number
  unfolding distance_between
  step_count origin target limits =
      ops.ceil (ops.div (distance_between origin target) limits.max_step_distance)

  unfoldable pub create_movement_plan :
      MovementPosition → MovementPosition → MovementLimits → Result MovementError MovementPlan
  create_movement_plan origin target limits = do
    validate_movement_position origin
    validate_movement_position target
    validate_movement_limits limits
    refuse_if (not (str_eq origin.dimension target.dimension)) invalid_movement_position
    refuse_if (num_lt limits.max_steps (step_count origin target limits)) movement_plan_too_large
    ok (record {
      origin = origin;
      target = target;
      steps = plan_steps origin target (step_count origin target limits) plan_fuel 1;
      limits = limits;
    })
