-- ===== src/Base/Numbers.antt =====
-- The `number` of the language: a finite double is its floor and a fraction, counted in units of
-- 2^-1074, of which every finite double holds a whole number. Comparisons of doubles are exact, so
-- they compare floors and then fractions. -0 and 0 are one value, as they are under `===` and `<`.
use Prim.Native.Nat.{ℕ, ◌+◌}
use mathlib.Core.Bool.{Bool, true, false, ◌&&◌, ◌||◌, not}
use voxel_steward.Base.Tests.{ltb, leb, ◌==◌}
use voxel_steward.Base.Int.{ℤ, pos, negsuc, ◌-ℤ◌, ltb_ℤ, eqb_ℤ}

pub data Number : Type 0 where
  nan infinity neg_infinity : Number
  num : ℤ → ℕ → Number

-- A whole number.
abbrev pub nat : ℕ → Number
nat n = num (pos n) 0

abbrev pub is_finite : Number → Bool
is_finite (num f r) = true
is_finite _ = false

abbrev pub is_integer : Number → Bool
is_integer (num f r) = r == 0
is_integer _ = false

-- 2^53 - 1
abbrev pub max_safe_integer : ℕ
max_safe_integer = 9007199254740991

abbrev pub is_safe_magnitude : ℤ → Bool
is_safe_magnitude (pos n) = leb n max_safe_integer
is_safe_magnitude (negsuc n) = leb (n + 1) max_safe_integer

abbrev pub is_safe_integer : Number → Bool
is_safe_integer (num f r) = r == 0 && is_safe_magnitude f
is_safe_integer _ = false

-- `a < b`
abbrev pub num_lt : Number → Number → Bool
num_lt (num f r) (num g s) = ltb_ℤ f g || eqb_ℤ f g && ltb r s
num_lt (num _ _) infinity = true
num_lt neg_infinity infinity = true
num_lt neg_infinity (num _ _) = true
num_lt _ _ = false

abbrev pub is_nan : Number → Bool
is_nan nan = true
is_nan _ = false

-- `a <= b`; a comparison with NaN is false either way round.
abbrev pub num_le : Number → Number → Bool
num_le a b = not (is_nan a) && not (is_nan b) && not (num_lt b a)

-- `a === b`
abbrev pub num_eq : Number → Number → Bool
num_eq (num f r) (num g s) = eqb_ℤ f g && r == s
num_eq infinity infinity = true
num_eq neg_infinity neg_infinity = true
num_eq _ _ = false

-- `a - 1`, exact on the integers up to 2^53.
abbrev pub minus_one : Number → Number
minus_one (num f r) = num (f -ℤ pos 1) r
minus_one a = a
