-- ===== src/Base/Calendar.antt =====
-- The calendar of the language's `Date`, from 1970-01-01 on: `none` is Invalid Date, `some t` the
-- instant t milliseconds after the epoch.
use Prim.Native.String
use Prim.Native.Nat.{ℕ, zero, suc, ◌+◌, ◌-◌, ◌/◌, ◌%◌, ◌≤◌, ◌<◌}
use Prim.Native.String.{String}
use mathlib.Core.Path.{◌≡◌, refl}
use mathlib.Core.Bool.{Bool, not, ◌&&◌, ◌||◌}
use mathlib.Core.Logic.{inl, inr}
use mathlib.Core.List.{List, [], ◌∷◌}
use mathlib.Core.Option.{Option}
use native.Mathlib.Omega.{arith}
use voxel_steward.Base.Tests.{ltb, ◌==◌, if◌then◌else◌, Bool-cases}

abbrev pub Date : Type 0
Date = Option ℕ

-- A text read as a date: `iso t` is the text that `toISOString` writes for t, `other` any other.
pub data DateText : Type 0 where
  iso : ℕ → DateText
  other : String → DateText

pub record Civil : Type 0 where
  pub year : ℕ
  pub month : ℕ  -- from 0, as `getUTCMonth` counts
  pub day : ℕ  -- from 1

is_leap : ℕ → Bool
is_leap y = y % 4 == 0 && not (y % 100 == 0) || y % 400 == 0

year_length : ℕ → ℕ
unfolding is_leap
year_length y = if is_leap y then 366 else 365

month_lengths : ℕ → List ℕ
unfolding is_leap
month_lengths y =
    31 ∷ (if is_leap y then 29 else 28) ∷ 31 ∷ 30 ∷ 31 ∷ 30 ∷ 31 ∷ 31 ∷ 30 ∷ 31 ∷ 30 ∷ 31 ∷ []

-- The year that day d after the first of January of `y` lies in, and its place in that year.
split_year : ℕ → ℕ → ℕ → ℕ × ℕ
split_year zero y d = (y, d)
split_year (suc fuel) y d =
    let rest = split_year fuel (y + 1) (d - year_length y) in
    if ltb d (year_length y) then (y, d) else rest

split_month : List ℕ → ℕ → ℕ → ℕ × ℕ
split_month [] m d = (m, d)
split_month (l ∷ ls) m d =
    let rest = split_month ls (m + 1) (d - l) in if ltb d l then (m, d) else rest

years_sum : ℕ → ℕ → ℕ
years_sum zero y = 0
years_sum (suc k) y = year_length y + years_sum k (y + 1)

months_sum : ℕ → List ℕ → ℕ
months_sum zero ls = 0
months_sum (suc k) [] = 0
months_sum (suc k) (l ∷ ls) = l + months_sum k ls

-- A year has at least one day, so d + 1 rounds are enough.
unfoldable pub year_and_rest : ℕ → ℕ × ℕ
unfolding split_year year_length
year_and_rest d = split_year (d + 1) 1970 d

unfoldable pub month_and_rest : ℕ → ℕ → ℕ × ℕ
unfolding split_month month_lengths
month_and_rest y r = split_month (month_lengths y) 0 r

-- `getUTCFullYear`, `getUTCMonth` and `getUTCDate` of a day.
unfoldable pub civil_of_day : ℕ → Civil
civil_of_day d =
    let (y, r) = year_and_rest d in
    let (m, e) = month_and_rest y r in record { year = y; month = m; day = e + 1 }

unfoldable pub days_before_year : ℕ → ℕ
unfolding years_sum year_length
days_before_year y = years_sum (y - 1970) 1970

unfoldable pub days_before_month : ℕ → ℕ → ℕ
unfolding months_sum month_lengths
days_before_month y m = months_sum m (month_lengths y)

-- `Date.UTC(year, month, day)` in days, for years from 1970 on.
unfoldable pub day_of_civil : Civil → ℕ
day_of_civil c = days_before_year c.year + days_before_month c.year c.month + (c.day - 1)

year_length_pos : (y : ℕ) → 1 ≤ year_length y
unfolding year_length
year_length_pos y = ground arith

-- The years passed, and the days left over.
split_year_lem :
    (fuel y d : ℕ)
    → d < fuel
    → (k : ℕ) × ((split_year fuel y d).0 ≡ y + k) × (years_sum k y + (split_year fuel y d).1 ≡ d)
unfolding split_year years_sum
split_year_lem zero y d h = elim h [ ]
split_year_lem (suc fuel) y d h = elim (Bool-cases (ltb d (year_length y))) [
  | inl e ↦ (0, rw e (omega arith), rw e (omega arith))
  | inr e ↦
      let (k, y_eq, sum_eq) =
        split_year_lem fuel (y + 1) (d - year_length y) (ground (arith, year_length_pos y)) in
      (suc k, rw e (omega (arith, y_eq)), rw e (ground (arith, sum_eq)))
]

split_month_lem :
    (ls : List ℕ) (m d : ℕ)
    → (k : ℕ) × ((split_month ls m d).0 ≡ m + k) × (months_sum k ls + (split_month ls m d).1 ≡ d)
unfolding split_month months_sum
split_month_lem [] m d = (0, omega arith, omega arith)
split_month_lem (l ∷ ls) m d = elim (Bool-cases (ltb d l)) [
  | inl e ↦ (0, rw e (omega arith), rw e (omega arith))
  | inr e ↦
      let (k, m_eq, sum_eq) = split_month_lem ls (m + 1) (d - l) in
      (suc k, rw e (omega (arith, m_eq)), rw e (ground (arith, sum_eq)))
]

year_and_rest_lem : (d : ℕ) → days_before_year (year_and_rest d).0 + (year_and_rest d).1 ≡ d
unfolding days_before_year year_and_rest
year_and_rest_lem d =
    let (k, y_eq, sum_eq) = split_year_lem (d + 1) 1970 d (omega arith) in
    let steps : (split_year (d + 1) 1970 d).0 - 1970 ≡ k = omega (arith, y_eq) in rw steps sum_eq

month_and_rest_lem :
    (y r : ℕ) → days_before_month y (month_and_rest y r).0 + (month_and_rest y r).1 ≡ r
unfolding days_before_month month_and_rest
month_and_rest_lem y r =
    let (k, m_eq, sum_eq) = split_month_lem (month_lengths y) 0 r in
    let steps : (split_month (month_lengths y) 0 r).0 ≡ k = omega (arith, m_eq) in rw steps sum_eq

-- Reading a day off the calendar and counting it again gives the day.
pub day_of_civil-civil_of_day : (d : ℕ) → day_of_civil (civil_of_day d) ≡ d
unfolding day_of_civil civil_of_day
day_of_civil-civil_of_day d =
    let (y, r) = year_and_rest d in
    omega (arith, year_and_rest_lem d, month_and_rest_lem (year_and_rest d).0 (year_and_rest d).1)

unfoldable pub digit : ℕ → String
digit zero = "0"
digit (suc zero) = "1"
digit (suc (suc zero)) = "2"
digit (suc (suc (suc zero))) = "3"
digit (suc (suc (suc (suc zero)))) = "4"
digit (suc (suc (suc (suc (suc zero))))) = "5"
digit (suc (suc (suc (suc (suc (suc zero)))))) = "6"
digit (suc (suc (suc (suc (suc (suc (suc zero))))))) = "7"
digit (suc (suc (suc (suc (suc (suc (suc (suc zero)))))))) = "8"
digit _ = "9"

-- `String(n).padStart(width, "0")`: the last `width` digits, and those above them if there are any.
-- A number has fewer digits than its successor, so n rounds are enough.
digits : ℕ → ℕ → ℕ → String
digits zero width n = ""
digits (suc fuel) width n =
    let more = String.◌++◌ (digits fuel (width - 1) (n / 10)) (digit (n % 10)) in
    if n == 0 && width == 0 then "" else more

unfoldable pub pad_start : ℕ → ℕ → String
unfolding digits digit
pad_start width n = digits (width + n) width n

date_test : civil_of_day 20783 ≡ record { year = 2026; month = 10; day = 26 }
unfolding civil_of_day year_and_rest month_and_rest
date_test = refl

pad_test : (pad_start 4 2026 ≡ "2026") × (pad_start 2 7 ≡ "07") × (pad_start 2 31 ≡ "31")
unfolding pad_start
pad_test = (refl, refl, refl)
