-- ===== src/Calendar/Add/Backward.antt =====
-- AddDays with a negative number of days.
use gray_core.Base.{ℕ, zero, suc, ◌+◌, ◌-◌, ◌≤◌, ◌<◌, ◌≡◌, ◌∙◌, ap, ap₂, arith, some}
use gray_core.Base.Int.{
  pos, negsuc, ◌+ℤ◌, ◌-ℤ◌, int_laws, eq_of_parts, to_short, to_short_small, lt→ltb_ℤ,
}
use gray_core.Base.Loops.{again, loop, loop-again, loop-stop}
use gray_core.Calendar.{TimeUnits}
use gray_core.Calendar.DayNumber.{days_before_year, months_before, day_number}
use gray_core.Calendar.Dates.{
  IsDate, on_date, month_length, months_before-suc, month_length_low, month_within_year,
  is_leap_year_le, days_in_month-on_date, days_in_year-on_date, day_of_year-on_date,
}
use gray_core.Calendar.Add.{year_step, month_step, add_days}
use gray_core.Calendar.Add.Days.{
  adding, day_in_year, year_length, year_step-next, year_step-stop, month_step-stop,
}
use gray_core.Calendar.Add.Forward.{Lands, months_forward, first-IsDate}

last-IsDate : (y m : ℕ) → 1 ≤ m → m ≤ 12 → IsDate y m (month_length y m)
last-IsDate y m lo hi = record {
  month_low = lo;
  month_high = hi;
  day_low = omega (arith, month_length_low y m lo hi);
  day_high = omega arith;
}

year_step-back :
    (t : TimeUnits) (y m d k : ℕ)
    → IsDate (suc y) m d
    → y < 32767
    → day_in_year (suc y) m d < suc k
    → suc k ≤ year_length (suc y)
    → year_step (adding (negsuc k) (on_date t (suc y) m d))
      ≡ again (adding (pos (year_length (suc y) - suc k)) (on_date t y 12 31))
unfolding year_step
year_step-back t y m d k date bound below most =
    rw
      (
        day_of_year-on_date t (suc y) m d date,
        days_in_year-on_date t (suc y) m d,
        lt→ltb_ℤ (pos (day_in_year (suc y) m d) +ℤ negsuc k) (pos (year_length (suc y)))
            (omega int_laws),
        lt→ltb_ℤ (pos (day_in_year (suc y) m d) +ℤ negsuc k) (pos 0) (omega int_laws),
      )
      (ap again (
        ap₂ (λ i u. adding i (record t { year = u; month = pos 12; day = pos 31 }))
          (eq_of_parts _ _ (omega int_laws))
          (ap to_short (eq_of_parts (pos (suc y) -ℤ pos 1) (pos y) (omega int_laws))
            ∙ to_short_small y (omega arith))))

month_step-back :
    (t : TimeUnits) (y m d k : ℕ)
    → IsDate y (suc m) d
    → 1 ≤ m
    → d ≤ suc k
    → month_step (adding (negsuc k) (on_date t y (suc m) d))
      ≡ again (adding (negsuc (suc k - d)) (on_date t y m (month_length y m)))
unfolding month_step
month_step-back t y m d k date lo below =
    rw
      (
        days_in_month-on_date t y (suc m) d date.month_low date.month_high,
        lt→ltb_ℤ (pos d -ℤ pos 1 +ℤ negsuc k) (pos (month_length y (suc m)))
            (omega (int_laws, date)),
        lt→ltb_ℤ (pos d -ℤ pos 1 +ℤ negsuc k) (pos 0) (omega (int_laws, date)),
        ap to_short (eq_of_parts (pos (suc m) -ℤ pos 1) (pos m) (omega int_laws))
            ∙ to_short_small m (omega (arith, date)),
        days_in_month-on_date t y m d lo (omega (arith, date)),
      )
      (ap (λ i. again (adding i (on_date t y m (month_length y m))))
        (eq_of_parts _ _ (omega (int_laws, date))))

stays_in_year :
    (fuel : ℕ) (t : TimeUnits) (y m d k : ℕ)
    → IsDate y m d
    → suc k ≤ day_in_year y m d
    → loop year_step (suc fuel) (adding (negsuc k) (on_date t y m d))
      ≡ some (adding (negsuc k) (on_date t y m d))
stays_in_year fuel t y m d k date h = loop-stop year_step fuel _ _ (
    year_step-stop t y m d (negsuc k) date (omega arith)
      (omega (arith, date, month_within_year y m date.month_low date.month_high)))

-- AddDays(-(k + 1)) goes back exactly, within the month of a date of the calendar.
pub add_days-back_within :
    (fuel : ℕ) (t : TimeUnits) (y m d k : ℕ)
    → IsDate y m d
    → suc k < d
    → add_days (suc fuel) (negsuc k) (on_date t y m d) ≡ some (on_date t y m (d - suc k))
unfolding add_days
add_days-back_within fuel t y m d k date h =
    rw (add_days, stays_in_year fuel t y m d k date (omega (arith, h)))
      (loop-stop month_step fuel _ _ (
        month_step-stop t y m d (d - suc k) (negsuc k) date (omega (arith, h)) (omega (arith, h))
          (omega (arith, date))))

-- AddDays(-(k + 1)) from a date after January into the month before, but not to its first day
-- or further, lands on the day before the one that is k + 1 days back.
pub add_days-back_month :
    (fuel : ℕ) (t : TimeUnits) (y m d k : ℕ)
    → IsDate y (suc m) d
    → 1 ≤ m
    → d ≤ suc k
    → suc k + 2 ≤ month_length y m + d
    → Lands t
        (add_days (suc (suc fuel)) (negsuc k) (on_date t y (suc m) d))
        (day_number y (suc m) d - suc k - 1)
unfolding add_days
add_days-back_month fuel t y m d k date lo h close = record {
  year = y;
  month = m;
  day = month_length y m - (suc k - d) - 1;
  is_date = record {
    month_low = lo;
    month_high = omega (arith, date);
    day_low = omega arith;
    day_high = omega arith;
  };
  has_number = unfold day_number in omega (arith, months, h, close, date);
  result_is =
      rw
        (
          add_days,
          stays_in_year (suc fuel) t y (suc m) d k date (omega (arith, months, close, date)),
        )
        (loop-again month_step (suc fuel) _ _ (month_step-back t y m d k date lo h)
          ∙ loop-stop month_step fuel _ _ (
              month_step-stop t y m (month_length y m) _ (negsuc (suc k - d))
                (last-IsDate y m lo (omega (arith, date))) (omega arith) (omega arith)
                (omega arith)));
}
  where
    months : months_before y (suc m) ≡ months_before y m + month_length y m
    months = months_before-suc y m lo (omega (arith, date))

-- Back to the last day of the year before, and forward again.
crossing_back :
    (fuel : ℕ) (t : TimeUnits) (y m d k : ℕ)
    → IsDate (suc y) m d
    → y < 32767
    → day_in_year (suc y) m d < suc k
    → suc k < year_length (suc y)
    → 3 ≤ fuel
    → loop year_step fuel (adding (negsuc k) (on_date t (suc y) m d))
      ≡ some (adding (pos (year_length (suc y) - 1 - suc k)) (on_date t (suc y) 1 1))
crossing_back zero t y m d k date bound below most enough = absurd (omega arith)
crossing_back (suc zero) t y m d k date bound below most enough = absurd (omega arith)
crossing_back (suc (suc zero)) t y m d k date bound below most enough = absurd (omega arith)
crossing_back (suc (suc (suc fuel))) t y m d k date bound below most enough =
    loop-again year_step (suc (suc fuel)) _ _
      (year_step-back t y m d k date bound below (omega (arith, most)))
    ∙ loop-again year_step (suc fuel) _ _ (
        year_step-next t y 12 31 (year_length (suc y) - suc k)
          (last-IsDate y 12 (omega arith) (omega arith)) bound (omega (arith, most)))
    ∙ loop-stop year_step fuel _ _
        (year_step-stop t (suc y) 1 1 _ (first-IsDate (suc y)) (omega arith) (omega (arith, most)))
    ∙ ap (λ n. some (adding (pos n) (on_date t (suc y) 1 1))) left
  where
    left :
        day_in_year y 12 31 + (year_length (suc y) - suc k) - year_length y
        ≡ year_length (suc y) - 1 - suc k
    left = omega (arith, most)

-- AddDays(-(k + 1)) from a date of the calendar, up to year 32767, past the start of its year,
-- for at most the length of the year less a day, stays in the year: it lands k + 2 days before
-- the next year begins, whatever the date.
pub add_days-back_year :
    (fuel : ℕ) (t : TimeUnits) (y m d k : ℕ)
    → IsDate (suc y) m d
    → y < 32767
    → day_in_year (suc y) m d < suc k
    → suc k < year_length (suc y)
    → 366 ≤ fuel
    → Lands t
        (add_days fuel (negsuc k) (on_date t (suc y) m d))
        (day_number (suc (suc y)) 1 1 - suc k - 1)
unfolding add_days
add_days-back_year fuel t y m d k date bound below most enough =
    rw (add_days, crossing_back fuel t y m d k date bound below most (omega arith), number)
      (months_forward fuel t (suc y) 1 1 (year_length (suc y) - 1 - suc k) (first-IsDate (suc y))
        (omega (arith, most)) (omega (arith, is_leap_year_le (suc y))))
  where
    number :
        day_number (suc (suc y)) 1 1 - suc k - 1
        ≡ day_number (suc y) 1 1 + (year_length (suc y) - 1 - suc k)
    number = unfold day_number days_before_year in omega (arith, most)
