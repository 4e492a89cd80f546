-- ===== src/Calendar/Add/Seconds.antt =====
-- AddSeconds: whole days go to AddDays, and the rest is the time of day.
use gray_core.Base.{
  ℕ, suc, ◌+◌, ◌-◌, ◌*◌, ◌/◌, ◌%◌, ◌≤◌, ◌<◌, ◌≡◌, ◌∙◌, ap, ap₂, refl, Bool-cases, inl, inr, arith,
  ltb, tests, Option, some, true, false, if◌then◌else◌,
}
use gray_core.Base.Int.{
  ℤ, pos, negsuc, scale, quot, ◌+ℤ◌, ◌-ℤ◌, int_laws, div_laws, eq_of_parts, to_short_small,
  le→ltb_ℤ, lt→ltb_ℤ,
}
use mathlib.Core.Option.{map}
use gray_core.Calendar.{TimeUnits}
use gray_core.Calendar.DayNumber.{days_before_year, day_number}
use gray_core.Calendar.Dates.{IsDate, on_date}
use gray_core.Calendar.Add.{add_days, add_seconds, second_of_day, units_of_day}
use gray_core.Calendar.Add.Forward.{Lands, add_days-forward}
use gray_core.Calendar.Add.Backward.{add_days-back_within}

-- The time of day from the seconds since midnight.
abbrev pub at_second : TimeUnits → ℕ → TimeUnits
at_second t s = record t {
  hour = pos (s / 3600);
  minute = pos (s / 60 % 60);
  second = pos (s % 60);
}

second_of_day-at_second : (t : TimeUnits) (s : ℕ) → second_of_day (at_second t s) ≡ pos s
second_of_day-at_second t s = eq_of_parts _ (pos s) (omega div_laws)

units_of_day-eq : (t : TimeUnits) (s : ℕ) → s ≤ 86400 → units_of_day (pos s) t ≡ at_second t s
unfolding quot
units_of_day-eq t s h =
    rw
      (
        to_short_small (s / 3600) (omega (arith, h)),
        hours,
        to_short_small (s % 3600 / 60) (omega arith),
        minutes,
        to_short_small (s % 60) (omega arith),
      )
      (ap (λ m. record t { hour = pos (s / 3600); minute = pos m; second = pos (s % 60) }) sixtieth)
  where
    hours : pos s -ℤ scale 3600 (pos (s / 3600)) ≡ pos (s % 3600)
    hours = eq_of_parts _ _ (omega div_laws)

    minutes : pos (s % 3600) -ℤ scale 60 (pos (s % 3600 / 60)) ≡ pos (s % 60)
    minutes = eq_of_parts _ _ (omega div_laws)

    sixtieth : s % 3600 / 60 ≡ s / 60 % 60
    sixtieth = omega arith

-- The three branches, by the sum of the seconds.
seconds_today :
    (fuel : ℕ) (n : ℤ) (t : TimeUnits) (r : ℕ)
    → n +ℤ second_of_day t ≡ pos r
    → r < 86400
    → add_seconds fuel n t ≡ some (units_of_day (pos r) t)
unfolding add_seconds
seconds_today fuel n t r is h =
    rw (is, lt→ltb_ℤ (pos r) (pos 86400) (omega (arith, h)), le→ltb_ℤ (pos r) (pos 0) (omega arith))
      refl

seconds_over :
    (fuel : ℕ) (n : ℤ) (t : TimeUnits) (r : ℕ)
    → n +ℤ second_of_day t ≡ pos r
    → 86400 ≤ r
    → add_seconds fuel n t
      ≡ map (units_of_day (pos (r % 86400))) (add_days fuel (pos (r / 86400)) t)
unfolding add_seconds
seconds_over fuel n t r is h =
    rw (is, le→ltb_ℤ (pos r) (pos 86400) (omega (arith, h)))
      (ap₂ (λ days left. map (units_of_day left) (add_days fuel days t)) days
        (ap (λ i. pos r -ℤ scale 86400 i) days ∙ eq_of_parts _ _ (omega div_laws)))
  where
    days : quot (pos r) 86400 ≡ pos (r / 86400)
    days = eq_of_parts _ _ (omega div_laws)

seconds_back :
    (fuel : ℕ) (n : ℤ) (t : TimeUnits) (r : ℕ)
    → n +ℤ second_of_day t ≡ negsuc r
    → add_seconds fuel n t
      ≡ map (units_of_day (pos (86400 - suc r % 86400))) (add_days fuel (negsuc (suc r / 86400)) t)
unfolding add_seconds
seconds_back fuel n t r is = rw is (
    ap₂ (λ days left. map (units_of_day left) (add_days fuel days t)) days
      (ap (λ i. negsuc r -ℤ scale 86400 i) days ∙ eq_of_parts _ _ (omega div_laws)))
  where
    days : quot (negsuc r) 86400 -ℤ pos 1 ≡ negsuc (suc r / 86400)
    days = eq_of_parts _ _ (omega div_laws)

-- The result is the time of `t` at a date and a second of its day with `seconds` seconds since
-- the start of year 0.
pub record LandsAt (t : TimeUnits) (result : Option TimeUnits) (seconds : ℕ) : Type 0 where
  pub year : ℕ
  pub month : ℕ
  pub day : ℕ
  pub second : ℕ
  pub is_date : IsDate year month day
  pub in_day : second < 86400
  pub has_seconds : day_number year month day * 86400 + second ≡ seconds
  pub result_is : result ≡ some (at_second (on_date t year month day) second)

-- AddSeconds(n) with 0 or more seconds, from a valid time of a date of the calendar, lands on
-- the valid time that is n seconds later, if that is before the end of year 32767 and the sum of
-- the seconds with those of the day is an `int`; one more turn than the days passed is fuel enough.
pub add_seconds-forward :
    (fuel : ℕ) (t : TimeUnits) (y m d s n : ℕ)
    → IsDate y m d
    → s < 86400
    → n + s < 0x8000_0000
    → day_number y m d + (n + s) / 86400 ≤ days_before_year 32768
    → (n + s) / 86400 < fuel
    → LandsAt t
        (add_seconds fuel (pos n) (at_second (on_date t y m d) s))
        (day_number y m d * 86400 + s + n)
add_seconds-forward fuel t y m d s n date in_day is_int high enough =
    elim (Bool-cases (ltb (n + s) 86400)) [
      | inl today ↦ record {
        year = y;
        month = m;
        day = d;
        second = n + s;
        is_date = date;
        in_day = omega (tests, today);
        has_seconds = omega arith;
        result_is =
            seconds_today fuel (pos n) (at_second (on_date t y m d) s) (n + s) total
              (omega (tests, today))
            ∙ ap some
                (units_of_day-eq (on_date (at_second t s) y m d) (n + s) (omega (tests, today)));
      }
      | inr later ↦
          over later
            (add_days-forward fuel (at_second t s) y m d ((n + s) / 86400) date high enough)
    ]
  where
    total : pos n +ℤ second_of_day (at_second (on_date t y m d) s) ≡ pos (n + s)
    total =
        ap (λ i. pos n +ℤ i) (second_of_day-at_second (on_date t y m d) s)
        ∙ eq_of_parts _ _ (omega int_laws)

    over :
        ltb (n + s) 86400 ≡ false
        → Lands
            (at_second t s)
            (add_days fuel (pos ((n + s) / 86400)) (at_second (on_date t y m d) s))
            (day_number y m d + (n + s) / 86400)
        → LandsAt t
            (add_seconds fuel (pos n) (at_second (on_date t y m d) s))
            (day_number y m d * 86400 + s + n)
    over later day = record {
      year = day.year;
      month = day.month;
      day = day.day;
      second = (n + s) % 86400;
      is_date = day.is_date;
      in_day = omega arith;
      has_seconds = omega (arith, day.has_number);
      result_is =
          seconds_over fuel (pos n) (at_second (on_date t y m d) s) (n + s) total
            (omega (tests, later))
          ∙ ap (map (units_of_day (pos ((n + s) % 86400)))) day.result_is
          ∙ ap some (
              units_of_day-eq (on_date (at_second t s) day.year day.month day.day) ((n + s) % 86400)
                (omega arith));
    }

-- AddSeconds that goes back over midnight by at most a day, from a valid time of the third day
-- of a month or later: by less than a day it is exact, and by a whole day it gives the hour 24
-- of the day before the one meant.
pub add_seconds-back :
    (fuel : ℕ) (t : TimeUnits) (y m d s r : ℕ)
    → IsDate y m d
    → s < 86400
    → 3 ≤ d
    → r < 86400
    → add_seconds (suc fuel) (negsuc (s + r)) (at_second (on_date t y m d) s) ≡ (
        if ltb r 86399
        then some (at_second (on_date t y m (d - 1)) (86399 - r))
        else some
            (record (on_date t y m (d - 2)) { hour = pos 24; minute = pos 0; second = pos 0 }))
add_seconds-back fuel t y m d s r date in_day room least =
    seconds_back (suc fuel) (negsuc (s + r)) (at_second (on_date t y m d) s) r total
    ∙ ap (map (units_of_day (pos (86400 - suc r % 86400))))
        (add_days-back_within fuel (at_second t s) y m d (suc r / 86400) date (omega arith))
    ∙ ap some (
        units_of_day-eq (on_date (at_second t s) y m (d - suc (suc r / 86400)))
          (86400 - suc r % 86400) (omega arith))
    ∙ elim (Bool-cases (ltb r 86399)) [
      | inl part ↦ rw part (ap₂ at (one_day part) (rest part))
      | inr whole ↦ rw whole (ap₂ at (two_days whole) (full_day whole))
    ]
  where
    at : ℕ → ℕ → Option TimeUnits
    at day second = some (at_second (on_date t y m day) second)

    one_day : ltb r 86399 ≡ true → d - suc (suc r / 86400) ≡ d - 1
    one_day part = omega (tests, part)

    rest : ltb r 86399 ≡ true → 86400 - suc r % 86400 ≡ 86399 - r
    rest part = omega (tests, part)

    two_days : ltb r 86399 ≡ false → d - suc (suc r / 86400) ≡ d - 2
    two_days whole = omega (tests, whole)

    full_day : ltb r 86399 ≡ false → 86400 - suc r % 86400 ≡ 86400
    full_day whole = omega (tests, whole)

    total : negsuc (s + r) +ℤ second_of_day (at_second (on_date t y m d) s) ≡ negsuc r
    total =
        ap (λ i. negsuc (s + r) +ℤ i) (second_of_day-at_second (on_date t y m d) s)
        ∙ eq_of_parts _ _ (omega int_laws)
