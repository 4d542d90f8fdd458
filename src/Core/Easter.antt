-- ===== src/Core/Easter.antt =====
-- acatl/date_helper.h: `calculateGregorianEaster`, up to the date that it hands to the calendar
-- library, for years that are not negative.
pub mod Computus
use acatl.Base.{
  ℕ, zero, suc, ◌+◌, ◌-◌, ◌*◌, ◌/◌, ◌%◌, ◌≤◌, ◌<◌, ◌≡◌, ◌⊎◌, refl, Bool, true, false, ◌&&◌, ◌==◌,
  ltb, if◌then◌else◌, arith, inl, inr,
}

-- `(a - b) % 7` of an `int`, whose sign is that of the difference, as a `uint16_t`.
unfoldable pub remainder_of_difference : ℕ → ℕ → ℕ
remainder_of_difference a b = if ltb a b then (65536 - (b - a) % 7) % 65536 else (a - b) % 7

-- H, I and J.
unfoldable pub moon : ℕ → ℕ
moon y = let h = (24 + 19 * (y % 19)) % 30 in h - h / 28

unfoldable pub weekday : ℕ → ℕ
unfolding remainder_of_difference moon
weekday y = remainder_of_difference (y + y / 4 + moon y) 13

-- The month and the day from I and J; L + 40 is a number, as I - J is an `int16_t` above -40.
unfoldable pub day_after : ℕ → ℕ → ℕ × ℕ
day_after i j =
    let l = (i + 40 + 65536 - j) % 65536 in
    let month = 3 + l / 44 in (month, l - 12 - 31 * (month / 4))

unfoldable pub calculate_gregorian_easter : ℕ → ℕ × ℕ
unfolding day_after moon weekday
calculate_gregorian_easter y = day_after (moon y) (weekday y)

-- The computus of the Gregorian calendar (Meeus, Jones and Butcher).
abbrev month_day : ℕ → ℕ × ℕ
month_day n = (n / 31, n % 31 + 1)

abbrev offset : ℕ → ℕ → ℕ → ℕ
offset a h l = h + l + 114 - 7 * ((a + 11 * h + 22 * l) / 451)

abbrev golden : ℕ → ℕ → ℕ
golden a b = (19 * a + b + 15 - b / 4 - (b + 1 - (b + 8) / 25) / 3) % 30

abbrev sunday : ℕ → ℕ → ℕ → ℕ
sunday b c h = (32 + 2 * (b % 4) + 2 * (c / 4) - h - c % 4) % 7

unfoldable pub computus : ℕ → ℕ × ℕ
computus y =
    let a = y % 19 in
    let b = y / 100 in
    let c = y % 100 in let h = golden a b in month_day (offset a h (sunday b c h))
