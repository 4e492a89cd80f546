-- ===== src/Calendar.antt =====
-- include/cTimeUnits.h and src/cTimeUnits.cpp, `struct cTimeUnits`: a time broken into units of
-- 16 bits (`TIMEVALU_t` is `short`, so a unit may be negative), with the rules of the calendar.
-- Text formats, the clock and the system's structures are not here. No `int` of the source
-- overflows on units of 16 bits but in sums with an argument, which is a ℤ here.
pub mod Leap
pub mod DayNumber
pub mod DosDate
pub mod Dates
pub mod Add
pub mod Compare
pub mod Dst
mod Tests
use gray_core.Base.{
  ℕ, suc, ◌+◌, ◌-◌, ◌%◌, Bool, true, false, not, List, [], ◌∷◌, ◌&&◌, ◌==◌, if◌then◌else◌, get_or,
}
use gray_core.Base.Int.{
  ℤ, pos, negsuc, pos_part, neg_part, ◌+ℤ◌, ◌-ℤ◌, ltb_ℤ, leb_ℤ, eq_ℤ, quot, rem, to_short,
}

pub record TimeUnits : Type 0 where
  pub year : ℤ
  pub month : ℤ
  pub day : ℤ
  pub hour : ℤ
  pub minute : ℤ
  pub second : ℤ
  pub millisecond : ℤ
  pub microsecond : ℤ
  pub tz : ℤ

-- `k_aMonthDays`, with January at 0.
abbrev pub month_days : ℕ → List ℕ
month_days leap = 31 ∷ (28 + leap) ∷ 31 ∷ 30 ∷ 31 ∷ 30 ∷ 31 ∷ 31 ∷ 30 ∷ 31 ∷ 30 ∷ 31 ∷ []

-- `k_aMonthDaySums`; `leap` is 0 or 1.
abbrev pub month_day_sums : ℕ → List ℕ
month_day_sums leap =
    0
    ∷ 31
    ∷ (59 + leap)
    ∷ (90 + leap)
    ∷ (120 + leap)
    ∷ (151 + leap)
    ∷ (181 + leap)
    ∷ (212 + leap)
    ∷ (243 + leap)
    ∷ (273 + leap)
    ∷ (304 + leap)
    ∷ (334 + leap)
    ∷ (365 + leap)
    ∷ []

-- `wYear & 3` on a number in two's complement.
abbrev low_bits2 : ℤ → ℕ
low_bits2 (pos n) = n % 4
low_bits2 (negsuc n) = 3 - n % 4

abbrev is_zero : ℤ → Bool
is_zero a = eq_ℤ a (pos 0)

pub is_leap_year : ℤ → ℕ
unfolding rem
is_leap_year y =
    if not (low_bits2 y == 0)
    then 0
    else if not (is_zero (rem y 100))
    then 1
    else if not (is_zero (rem y 400))
    then 0
    else 1

pub leap_years_since_2k : ℤ → ℤ
leap_years_since_2k y =
    let since = y -ℤ pos 2000 in
    let first = if ltb_ℤ (pos 0) since then pos 1 else pos 0 in
    let since' = since -ℤ first in first +ℤ quot since' 4 +ℤ quot since' 400 -ℤ quot since' 100

-- Entries of the tables, by a month from 1.
abbrev pub days_of_month : ℕ → ℤ → ℕ
days_of_month leap m = get_or (month_days leap) (pos_part m - 1) 0

abbrev pub days_before_month : ℕ → ℤ → ℕ
days_before_month leap m = get_or (month_day_sums leap) (pos_part m - 1) 0

-- `GetDOW`, from 0 for Sunday.
pub get_dow : ℤ → ℤ → ℤ → ℤ
get_dow y m d =
    let days =
      y
      -ℤ pos 2000
      +ℤ leap_years_since_2k y
      +ℤ pos (days_before_month (is_leap_year y) m)
      +ℤ (d -ℤ pos 1 +ℤ pos 6) in
    let r = rem days 7 in if ltb_ℤ r (pos 0) then r +ℤ pos 7 else r

-- `GetDOY`, from 0.
pub get_doy : ℤ → ℤ → ℤ → ℤ
get_doy y m d = pos (days_before_month (is_leap_year y) m) +ℤ d -ℤ pos 1

abbrev pub is_valid_month : TimeUnits → Bool
is_valid_month t = leb_ℤ (pos 1) t.month && leb_ℤ t.month (pos 12)

pub days_in_month : TimeUnits → ℤ
days_in_month t =
    if is_valid_month t then pos (days_of_month (is_leap_year t.year) t.month) else pos 0

pub day_of_year : TimeUnits → ℤ
day_of_year t =
    if is_valid_month t
    then to_short (pos (days_before_month (is_leap_year t.year) t.month) +ℤ (t.day -ℤ pos 1))
    else pos 0

pub days_in_year : TimeUnits → ℤ
days_in_year t = if is_leap_year t.year == 0 then pos 365 else pos 366

pub is_valid_time_units : TimeUnits → Bool
is_valid_time_units t =
    if not (is_valid_month t)
    then false
    else if ltb_ℤ t.day (pos 1)
    then false
    else if ltb_ℤ (days_in_month t) t.day
    then false
    else if ltb_ℤ (pos 23) t.hour
    then false
    else if ltb_ℤ (pos 59) t.minute
    then false
    else not (ltb_ℤ (pos 59) t.second)
