-- ===== src/MovementCoordinator/Route.antt =====
-- The way along the steps of a plan, by the place of a step.
use voxel_steward.Base.{
  ℕ, zero, suc, ◌+◌, ◌≡◌, refl, Option, none, some, List, [], ◌∷◌, Number, arith,
}
use voxel_steward.Movement.{MovementPosition}
use voxel_steward.Movement.Plan.{MovementStep}
use voxel_steward.Movement.Laws.{AreNumbered}
use voxel_steward.State.{StateSnapshot}
use voxel_steward.Coordinator.Promise.{first_of}
use voxel_steward.MovementCoordinator.Promise.{step_at}

-- The steps that are left after as many of them.
pub steps_from : List MovementStep → ℕ → List MovementStep
steps_from [] n = []
steps_from (s ∷ rest) zero = s ∷ rest
steps_from (s ∷ rest) (suc n) = steps_from rest n

pub steps_from-zero : (steps : List MovementStep) → steps_from steps 0 ≡ steps
unfolding steps_from
steps_from-zero [] = refl
steps_from-zero (s ∷ rest) = refl

-- The first of the steps that are left is the one at that place, and the others are left after it.
pub steps_from-step_at :
    (steps : List MovementStep) (n : ℕ) (s : MovementStep) (rest : List MovementStep)
    → steps_from steps n ≡ s ∷ rest
    → (step_at steps n ≡ some s) × (steps_from steps (n + 1) ≡ rest)
unfolding steps_from step_at
steps_from-step_at [] n s rest e = absurd (ground arith)
steps_from-step_at (x ∷ xs) zero s rest e = let left = steps_from-zero xs in ground arith
steps_from-step_at (x ∷ xs) (suc n) s rest e =
    let next : suc n + 1 ≡ suc (n + 1) = omega arith in rw next (steps_from-step_at xs n s rest e)

-- Where none is left, there is none at that place.
pub steps_from-end :
    (steps : List MovementStep) (n : ℕ) → steps_from steps n ≡ [] → step_at steps n ≡ none
unfolding steps_from step_at
steps_from-end [] n e = refl
steps_from-end (x ∷ xs) zero e = absurd (ground arith)
steps_from-end (x ∷ xs) (suc n) e = steps_from-end xs n e

-- Numbered from `k` + 1 on, the step at a place has the number after `k` and the place.
pub AreNumbered-step_at :
    (origin : MovementPosition) (count : Number) (steps : List MovementStep) (k n : ℕ)
    (s : MovementStep)
    → AreNumbered origin count (k + 1) steps
    → step_at steps n ≡ some s
    → s.index ≡ k + n + 1
unfolding step_at
AreNumbered-step_at origin count [] k n s a e = absurd (ground arith)
AreNumbered-step_at origin count (x ∷ xs) k zero s (i, _, _, rest) e = ground arith
AreNumbered-step_at origin count (x ∷ xs) k (suc n) s (i, _, _, rest) e =
    omega (arith, AreNumbered-step_at origin count xs (k + 1) n s rest e)

pub first_of-none :
    (first : Option StateSnapshot) (s : StateSnapshot) → first ≡ none → first_of first s ≡ some s
first_of-none none s e = refl
first_of-none (some t) s e = absurd (ground arith)
