-- ===== src/Movement/Tests.antt =====
-- A step of one block, with an arithmetic that is exact on it.
use voxel_steward.Base.{◌≤◌, ◌≡◌, refl, nat, num, pos, [], ◌∷◌, ok, length, String}
use voxel_steward.Movement.{
  MovementPosition, MovementLimits, finite_within, validate_movement_position,
  validate_movement_limits,
}
use voxel_steward.Movement.Plan.{
  FloatOps, MovementPlan, plan_steps, step_count, create_movement_plan,
}
use voxel_steward.Movement.Laws.{rounds, AreNumbered, create_movement_plan-steps}

-- Every distance is 1, and every sum is its first term.
abbrev pub unit_ops : FloatOps
unit_ops = record {
  add = λ a b. a;
  sub = λ a b. a;
  mul = λ a b. a;
  div = λ a b. a;
  hypot = λ a b c. nat 1;
  ceil = λ a. a;
}

abbrev pub origin : MovementPosition
origin = record { x = nat 10; y = nat 64; z = nat 7; dimension = "overworld" }

abbrev pub beside : MovementPosition
beside = record { x = nat 11; y = nat 64; z = nat 7; dimension = "overworld" }

abbrev pub limits : MovementLimits
limits = record {
  max_step_distance = nat 1;
  max_steps = nat 100;
  step_timeout_ms = nat 1000;
  arrival_tolerance = num (pos 0) 1;
}

abbrev plan : MovementPlan
plan = record {
  origin = origin;
  target = beside;
  steps = record { index = 1; total = nat 1; target = origin } ∷ [];
  limits = limits;
}

makes_plan : create_movement_plan unit_ops origin beside limits ≡ ok plan
unfolding create_movement_plan step_count plan_steps validate_movement_position finite_within
    validate_movement_limits
makes_plan = refl

create_movement_plan-steps_example :
    let count = step_count unit_ops origin beside limits in
    (length plan.steps ≡ rounds count)
    × (rounds count ≤ 10000)
    × AreNumbered origin count 1 plan.steps
    × (◌≡◌ {A = String} "overworld" "overworld")
    × (plan.origin ≡ origin)
    × (plan.target ≡ beside)
create_movement_plan-steps_example =
    create_movement_plan-steps unit_ops origin beside limits plan makes_plan
