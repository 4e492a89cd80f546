-- ===== src/Calendar/Dates.antt =====
-- Dates of the calendar, and what `get_DayOfYear`, `get_DaysInYear` and `get_DaysInMonth` of
-- include/cTimeUnits.h answer on them.
use gray_core.Base.{
  ℕ, zero, suc, ◌+◌, ◌-◌, ◌≤◌, ◌<◌, ◌≡◌, ◌∙◌, ap, refl, List, [], ◌∷◌, length, get_or, take, ◌↔◌,
  Bool-cases, inl, inr, arith, ltb, tests, true,
}
use gray_core.Base.Int.{pos, int_laws, eq_of_parts, to_short, to_short_small}
use gray_core.Calendar.{
  TimeUnits, is_valid_time_units, month_days, is_leap_year, days_of_month, days_in_month,
  days_in_year, day_of_year, is_valid_month,
}
use gray_core.Calendar.Leap.{is_leap_year_rule}
use gray_core.Calendar.DayNumber.{sum, months_before, days_before_month-eq}

-- The days of month `m` of year `y`.
abbrev pub month_length : ℕ → ℕ → ℕ
month_length y m = days_of_month (is_leap_year (pos y)) (pos m)

pub record IsDate (y m d : ℕ) : Type 0 where
  pub month_low : 1 ≤ m
  pub month_high : m ≤ 12
  pub day_low : 1 ≤ d
  pub day_high : d ≤ month_length y m

-- The time `t` moved to a date.
abbrev pub on_date : TimeUnits → ℕ → ℕ → ℕ → TimeUnits
on_date t y m d = record t { year = pos y; month = pos m; day = pos d }

sum-take-suc :
    (xs : List ℕ) (i : ℕ) → i < length xs → sum (take (suc i) xs) ≡ sum (take i xs) + get_or xs i 0
sum-take-suc [] i h = absurd (omega arith)
sum-take-suc (x ∷ xs) zero h = omega arith
sum-take-suc (x ∷ xs) (suc i) h = omega (arith, sum-take-suc xs i (omega arith))

sum-take_le : (xs : List ℕ) (i : ℕ) → sum (take i xs) ≤ sum xs
sum-take_le [] zero = omega arith
sum-take_le [] (suc i) = omega arith
sum-take_le (x ∷ xs) zero = omega arith
sum-take_le (x ∷ xs) (suc i) = omega (arith, sum-take_le xs i)

pub is_leap_year_le : (y : ℕ) → is_leap_year (pos y) ≤ 1
is_leap_year_le y = elim (is_leap_year_rule y).1 [
  | inl common ↦ omega (arith, common)
  | inr leap ↦ omega (arith, leap)
]

pub months_before-suc :
    (y m : ℕ) → 1 ≤ m → m ≤ 12 → months_before y (suc m) ≡ months_before y m + month_length y m
months_before-suc y m lo hi =
    ap (λ i. sum (take i (month_days (is_leap_year (pos y))))) before
    ∙ sum-take-suc (month_days (is_leap_year (pos y))) (m - 1) (omega arith)
  where
    before : suc m - 1 ≡ suc (m - 1)
    before = omega arith

pub months_before_le : (y m : ℕ) → months_before y m ≤ 365 + is_leap_year (pos y)
months_before_le y m = omega (arith, sum-take_le (month_days (is_leap_year (pos y))) (m - 1))

pub month_length_low : (y m : ℕ) → 1 ≤ m → m ≤ 12 → 28 ≤ month_length y m
month_length_low y m lo hi = ground arith

pub month_length_high : (y m : ℕ) → 1 ≤ m → m ≤ 12 → month_length y m ≤ 31
month_length_high y m lo hi = ground (arith, is_leap_year_le y)

-- The tests of the code on a date.
valid_month : (t : TimeUnits) (y m d : ℕ) → 1 ≤ m → m ≤ 12 → is_valid_month (on_date t y m d) ≡ true
valid_month t y m d lo hi = ground arith

pub days_in_month-on_date :
    (t : TimeUnits) (y m d : ℕ)
    → 1 ≤ m
    → m ≤ 12
    → days_in_month (on_date t y m d) ≡ pos (month_length y m)
unfolding days_in_month
days_in_month-on_date t y m d lo hi = rw (valid_month t y m d lo hi) refl

pub day_of_year-on_date :
    (t : TimeUnits) (y m d : ℕ)
    → IsDate y m d
    → day_of_year (on_date t y m d) ≡ pos (months_before y m + d - 1)
unfolding day_of_year
day_of_year-on_date t y m d date =
    rw
      (valid_month t y m d date.month_low date.month_high, days_before_month-eq y m date.month_high)
      (ap to_short (eq_of_parts _ (pos (months_before y m + d - 1)) (omega (int_laws, date)))
        ∙ to_short_small _ (
            omega (
              arith,
              date,
              months_before_le y m,
              is_leap_year_le y,
              month_length_high y m date.month_low date.month_high,
            )))

pub days_in_year-on_date :
    (t : TimeUnits) (y m d : ℕ) → days_in_year (on_date t y m d) ≡ pos (365 + is_leap_year (pos y))
unfolding days_in_year
days_in_year-on_date t y m d = elim (is_leap_year_rule y).1 [
  | inl common ↦ rw common refl
  | inr leap ↦ rw leap refl
]

-- The last day of a month is within its year.
pub month_within_year :
    (y m : ℕ) → 1 ≤ m → m ≤ 12 → months_before y m + month_length y m ≤ 365 + is_leap_year (pos y)
month_within_year y m lo hi = omega (arith, months_before-suc y m lo hi, months_before_le y (suc m))

pub months_before-all : (y : ℕ) → months_before y 13 ≡ 365 + is_leap_year (pos y)
months_before-all y = omega arith

-- A month whose last day is not the last of the year is not December.
pub not_december :
    (y m : ℕ)
    → 1 ≤ m
    → m ≤ 12
    → months_before y m + month_length y m < 365 + is_leap_year (pos y)
    → m < 12
not_december y m lo hi h = elim (Bool-cases (ltb m 12)) [
  | inl below ↦ omega (tests, below)
  | inr last ↦ absurd (
      omega (
        arith,
        h,
        months_before-suc y m lo hi,
        months_before-all y,
        ap (λ i. months_before y i) (december (omega (tests, last))),
      ))
]
  where
    december : 12 ≤ m → suc m ≡ 13
    december above = omega (arith, hi)

-- isValidTimeUnits accepts exactly the dates of the calendar with a time of day, of the units that
-- are not negative.
pub is_valid_time_units-on_date :
    (t : TimeUnits) (y m d h mi s : ℕ)
    → (is_valid_time_units
          (record (on_date t y m d) { hour = pos h; minute = pos mi; second = pos s })
        ≡ true)
      ↔ (IsDate y m d × (h < 24) × (mi < 60) × (s < 60))
unfolding is_valid_time_units days_in_month
is_valid_time_units-on_date t y m d h mi s = (valid, accepted)
  where
    valid :
        is_valid_time_units
            (record (on_date t y m d) { hour = pos h; minute = pos mi; second = pos s })
          ≡ true
        → (IsDate y m d × (h < 24) × (mi < 60) × (s < 60))
    valid e = ground arith

    accepted :
        (IsDate y m d × (h < 24) × (mi < 60) × (s < 60))
        → is_valid_time_units
            (record (on_date t y m d) { hour = pos h; minute = pos mi; second = pos s })
          ≡ true
    accepted e = ground (arith, e)
