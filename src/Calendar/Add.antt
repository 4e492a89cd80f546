-- ===== src/Calendar/Add.antt =====
-- The arithmetic on dates of src/cTimeUnits.cpp: AddMonths, AddDays and AddSeconds. The two loops
-- of AddDays run on fuel, and the theorems of the children give fuel that is enough.
pub mod Days
pub mod Forward
pub mod Backward
pub mod Seconds
pub mod Months
use gray_core.Base.{ℕ, Option, some, none, if◌then◌else◌}
use mathlib.Core.Option.{map}
use gray_core.Base.Int.{
  ℤ, pos, negsuc, pos_part, neg_part, scale, ◌+ℤ◌, ◌-ℤ◌, ltb_ℤ, leb_ℤ, quot, rem, to_short,
}
use gray_core.Base.Loops.{Step, again, stop, loop}
use gray_core.Calendar.{TimeUnits, day_of_year, days_in_year, days_in_month}

unfoldable pub add_months : ℤ → TimeUnits → TimeUnits
add_months months t =
    let months' = months +ℤ (t.month -ℤ pos 1) in
    record t {
      month = to_short (pos 1 +ℤ rem months' 12);
      year = to_short (t.year +ℤ quot months' 12);
    }

-- The state of both loops: the days left to add, and the time.
pub record Adding : Type 0 where
  pub days : ℤ
  pub time : TimeUnits

-- The loop that crosses years.
unfoldable pub year_step : Adding → Step Adding Adding
year_step a =
    let t = a.time in
    let day_of = day_of_year t in
    let in_year = days_in_year t in
    let days2 = day_of +ℤ a.days in
    if leb_ℤ in_year days2
    then again (record {
      days = a.days -ℤ (in_year -ℤ day_of);
      time = record t { year = to_short (t.year +ℤ pos 1); month = pos 1; day = pos 1 };
    })
    else if ltb_ℤ days2 (pos 0)
    then again (record {
      days = a.days +ℤ in_year;
      time = record t { year = to_short (t.year -ℤ pos 1); month = pos 12; day = pos 31 };
    })
    else stop a

-- The loop that crosses months, and the days of the last one.
unfoldable pub month_step : Adding → Step Adding TimeUnits
month_step a =
    let t = a.time in
    let day_of = t.day -ℤ pos 1 in
    let in_month = days_in_month t in
    let days2 = day_of +ℤ a.days in
    if leb_ℤ in_month days2
    then again (record {
      days = a.days -ℤ (in_month -ℤ day_of);
      time = record t { month = to_short (t.month +ℤ pos 1); day = pos 1 };
    })
    else if ltb_ℤ days2 (pos 0)
    then again (record {
      days = a.days +ℤ day_of;
      time = last_day (record t { month = to_short (t.month -ℤ pos 1) });
    })
    else stop (record t { day = to_short (t.day +ℤ to_short a.days) })
  where
    last_day : TimeUnits → TimeUnits
    last_day t = record t { day = days_in_month t }

unfoldable pub add_days : ℕ → ℤ → TimeUnits → Option TimeUnits
add_days fuel days t = elim (loop year_step fuel (record { days = days; time = t })) [
  | none ↦ none
  | some a ↦ loop month_step fuel a
]

-- The time of day, from the seconds since midnight.
abbrev units_of_day : ℤ → TimeUnits → TimeUnits
units_of_day seconds t =
    let hour = to_short (quot seconds 3600) in
    let seconds' = seconds -ℤ scale 3600 hour in
    let minute = to_short (quot seconds' 60) in
    record t { hour = hour; minute = minute; second = to_short (seconds' -ℤ scale 60 minute) }

abbrev pub second_of_day : TimeUnits → ℤ
second_of_day t = t.second +ℤ scale 60 t.minute +ℤ scale 3600 t.hour

-- The sum of the seconds is one of `int`: where it is not one, C++ leaves it undefined, and this says
-- nothing of the code.
unfoldable pub add_seconds : ℕ → ℤ → TimeUnits → Option TimeUnits
add_seconds fuel seconds t =
    let seconds2 = seconds +ℤ second_of_day t in
    if leb_ℤ (pos 86400) seconds2
    then over_days fuel (quot seconds2 86400) seconds2 t
    else if ltb_ℤ seconds2 (pos 0)
    then over_days fuel (quot seconds2 86400 -ℤ pos 1) seconds2 t
    else some (units_of_day seconds2 t)
  where
    over_days : ℕ → ℤ → ℤ → TimeUnits → Option TimeUnits
    over_days fuel days seconds t =
        map (units_of_day (seconds -ℤ scale 86400 days)) (add_days fuel days t)
