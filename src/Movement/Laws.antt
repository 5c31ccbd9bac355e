-- ===== src/Movement/Laws.antt =====
-- The steps of a plan, and what the validation of limits lets through.
use voxel_steward.Base.{
  ℕ, zero, suc, ◌+◌, ◌≤◌, ◌<◌, ◌≡◌, refl, Bool, true, false, ◌||◌, List, [], ◌∷◌, length,
  Bool-cases, inl, inr, Number, num, nan, infinity, neg_infinity, pos, negsuc, nat, num_lt, num_le,
  is_nan, is_safe_integer, ok, arith, str_eq, eq_iff,
}
use voxel_steward.Movement.{MovementPosition, MovementLimits, validate_movement_limits}
use voxel_steward.Movement.Plan.{
  FloatOps, MovementStep, MovementPlan, plan_fuel, plan_steps, step_count, create_movement_plan,
}

-- How many whole numbers from 1 on are at most this number, if there are finitely many.
abbrev pub rounds : Number → ℕ
rounds (num (pos n) r) = n
rounds _ = 0

-- Steps numbered from `index` on, each of the same total and in one dimension.
abbrev pub AreNumbered : MovementPosition → Number → ℕ → List MovementStep → Type 0
AreNumbered origin count index [] = Unit
AreNumbered origin count index (s ∷ rest) =
    (s.index ≡ index)
    × (s.total ≡ count)
    × (s.target.dimension ≡ origin.dimension)
    × AreNumbered origin count (index + 1) rest

module _ (ops : FloatOps) (origin target : MovementPosition) (count : Number) where
  plan_steps-AreNumbered :
      (fuel index : ℕ)
      → AreNumbered origin count index (plan_steps ops origin target count fuel index)
  unfolding plan_steps
  plan_steps-AreNumbered zero index = tt
  plan_steps-AreNumbered (suc fuel) index = elim (Bool-cases (num_le (nat index) count)) [
    | inl e ↦ rw e (refl, refl, refl, plan_steps-AreNumbered fuel (index + 1))
    | inr e ↦ rw e tt
  ]

-- NaN, or a number below 10001.
abbrev fits : Number → Bool
fits count = is_nan count || num_lt count (nat 10001)

passes_iff :
    (index : ℕ) (count : Number)
    → fits count ≡ true
    → 1 ≤ index
    → num_le (nat index) count ≡ true
    → index ≤ rounds count
passes_iff index (num (pos n) r) b l h = ground arith
passes_iff index (num (negsuc n) r) b l h = absurd (ground arith)
passes_iff index nan b l h = absurd (ground arith)
passes_iff index infinity b l h = absurd (ground arith)
passes_iff index neg_infinity b l h = absurd (ground arith)

stops_iff :
    (index : ℕ) (count : Number)
    → 1 ≤ index
    → num_le (nat index) count ≡ false
    → rounds count < index
stops_iff index (num (pos n) r) l h = ground arith
stops_iff index (num (negsuc n) r) l h = ground arith
stops_iff index nan l h = ground arith
stops_iff index infinity l h = ground arith
stops_iff index neg_infinity l h = ground arith

module _ (ops : FloatOps) (origin target : MovementPosition) (count : Number) where
  -- With fuel beyond the rounds left the loop ends by its test, after that many rounds.
  length-plan_steps :
      (fuel index : ℕ)
      → fits count ≡ true
      → 1 ≤ index
      → rounds count + 1 < fuel + index
      → index ≤ rounds count + 1
      → length (plan_steps ops origin target count fuel index) + index ≡ rounds count + 1
  unfolding plan_steps
  length-plan_steps zero index b l f u = absurd (omega arith)
  length-plan_steps (suc fuel) index b l f u = elim (Bool-cases (num_le (nat index) count)) [
    | inl e ↦
        let more = passes_iff index count b l e in
        rw e (
          omega
            (arith, length-plan_steps fuel (index + 1) b (omega arith) (omega arith) (omega arith)))
    | inr e ↦ rw e (omega (arith, stops_iff index count l e))
  ]

steps_in_range :
    (limits : MovementLimits)
    → validate_movement_limits limits ≡ ok tt
    → (num_lt (nat 10000) limits.max_steps ≡ false) × (is_safe_integer limits.max_steps ≡ true)
unfolding validate_movement_limits
steps_in_range limits v = (ground arith, ground arith)

count_fits :
    (max count : Number)
    → num_lt (nat 10000) max ≡ false
    → is_safe_integer max ≡ true
    → num_lt max count ≡ false
    → fits count ≡ true
count_fits (num (pos m) r) (num (pos n) q) v i h = ground arith
count_fits _ _ v i h = ground arith

rounds-le : (count : Number) → fits count ≡ true → rounds count ≤ 10000
rounds-le (num (pos n) r) h = ground arith
rounds-le _ h = ground arith

-- A plan that is made passed every check.
create_movement_plan-eq-ok :
    (ops : FloatOps) (origin target : MovementPosition) (limits : MovementLimits)
    (plan : MovementPlan)
    → create_movement_plan ops origin target limits ≡ ok plan
    → let count = step_count ops origin target limits in
      (validate_movement_limits limits ≡ ok tt)
      × (str_eq origin.dimension target.dimension ≡ true)
      × (num_lt limits.max_steps count ≡ false)
      × (plan ≡ record {
        origin = origin;
        target = target;
        steps = plan_steps ops origin target count plan_fuel 1;
        limits = limits;
      })
unfolding create_movement_plan
create_movement_plan-eq-ok ops origin target limits plan e = ground arith

-- A plan that is made has one step for each whole number from 1 through the step count, in order,
-- each with that count as its total and in the dimension of the origin; they are at most 10000, and
-- the loop ends by its own test before its fuel does.
pub create_movement_plan-steps :
    (ops : FloatOps) (origin target : MovementPosition) (limits : MovementLimits)
    (plan : MovementPlan)
    → create_movement_plan ops origin target limits ≡ ok plan
    → let count = step_count ops origin target limits in
      (length plan.steps ≡ rounds count)
      × (rounds count ≤ 10000)
      × AreNumbered origin count 1 plan.steps
      × (origin.dimension ≡ target.dimension)
      × (plan.origin ≡ origin)
      × (plan.target ≡ target)
create_movement_plan-steps ops origin target limits plan e =
    let count = step_count ops origin target limits in
    let (valid, level, few, same) = create_movement_plan-eq-ok ops origin target limits plan e in
    let (low, whole) = steps_in_range limits valid in
    let fit = count_fits limits.max_steps count low whole few in
    let small = rounds-le count fit in
    let total =
      length-plan_steps ops origin target count plan_fuel 1 fit (omega arith) (omega (arith, small))
        (omega arith) in
    rw same (
      omega (arith, total),
      small,
      plan_steps-AreNumbered ops origin target count plan_fuel 1,
      (eq_iff origin.dimension target.dimension).0 level,
      refl,
      refl,
    )
