-- ===== src/Core/Easter/Computus.antt =====
-- acatl/date_helper.h: in which years the date is that of Easter, and in which it can be.
use acatl.Base.{ℕ, zero, suc, ◌+◌, ◌≤◌, ◌<◌, ◌≡◌, ◌⊎◌, refl, Bool, true, ◌&&◌, ◌==◌, arith}
use acatl.Core.Easter.{
  calculate_gregorian_easter, computus, day_after, moon, weekday, remainder_of_difference,
}

-- The code and the computus agree on so many years from one on.
agree : ℕ → ℕ → Bool
agree zero y = true
agree (suc n) y =
    (calculate_gregorian_easter y).0 == (computus y).0
    && (calculate_gregorian_easter y).1 == (computus y).1
    && agree n (suc y)

agree_sound :
    (n from y : ℕ)
    → agree n from ≡ true
    → from ≤ y
    → y < from + n
    → ((calculate_gregorian_easter y).0 ≡ (computus y).0)
      × ((calculate_gregorian_easter y).1 ≡ (computus y).1)
unfolding agree
agree_sound zero from y h below above = absurd (omega arith)
agree_sound (suc n) from y h below above = ground (arith, agree_sound n (suc from) y)

two_centuries : agree 200 1900 ≡ true
unfolding agree calculate_gregorian_easter computus
two_centuries = refl

-- For the years from 1900 to 2099 the month and the day that `calculateGregorianEaster` computes
-- are those of the computus of the Gregorian calendar, with its terms for the centuries, which the
-- code does without.
pub calculate_gregorian_easter-computus :
    (y : ℕ)
    → 1900 ≤ y
    → y < 2100
    → ((calculate_gregorian_easter y).0 ≡ (computus y).0)
      × ((calculate_gregorian_easter y).1 ≡ (computus y).1)
calculate_gregorian_easter-computus y below above =
    agree_sound 200 1900 y two_centuries below (omega arith)

moon_bound : (y : ℕ) → moon y ≤ 28
unfolding moon
moon_bound y = omega arith

weekday_bound : (y : ℕ) → 13 ≤ y → weekday y ≤ 6
unfolding weekday remainder_of_difference
weekday_bound y h = ground arith

day_after_bounds :
    (i j : ℕ)
    → i ≤ 28
    → j ≤ 6
    → (((day_after i j).0 ≡ 3) × (22 ≤ (day_after i j).1) × ((day_after i j).1 ≤ 31))
      ⊎ (((day_after i j).0 ≡ 4) × (1 ≤ (day_after i j).1) × ((day_after i j).1 ≤ 25))
unfolding day_after
day_after_bounds i j h k = omega arith

pub calculate_gregorian_easter_bounds :
    (y : ℕ)
    → 13 ≤ y
    → let e = calculate_gregorian_easter y in
      ((e.0 ≡ 3) × (22 ≤ e.1) × (e.1 ≤ 31)) ⊎ ((e.0 ≡ 4) × (1 ≤ e.1) × (e.1 ≤ 25))
unfolding calculate_gregorian_easter
calculate_gregorian_easter_bounds y h =
    day_after_bounds (moon y) (weekday y) (moon_bound y) (weekday_bound y h)
