-- ===== src/Calendar/Add/Days.antt =====
-- One turn of each loop of AddDays, on a date.
use gray_core.Base.{ℕ, suc, ◌+◌, ◌-◌, ◌≤◌, ◌<◌, ◌≡◌, ◌∙◌, ap, ap₂, refl, arith}
use gray_core.Base.Int.{
  ℤ, pos, pos_part, neg_part, ◌+ℤ◌, ◌-ℤ◌, int_laws, eq_of_parts, to_short, to_short_small,
  to_short-eq, le→ltb_ℤ, lt→ltb_ℤ, parts_apart,
}
use gray_core.Base.Loops.{again, stop}
use gray_core.Calendar.{TimeUnits, is_leap_year}
use gray_core.Calendar.DayNumber.{months_before}
use gray_core.Calendar.Dates.{
  IsDate, on_date, month_length, month_length_high, days_in_month-on_date, days_in_year-on_date,
  day_of_year-on_date,
}
use gray_core.Calendar.Add.{Adding, year_step, month_step}

abbrev pub adding : ℤ → TimeUnits → Adding
adding n t = record { days = n; time = t }

-- The day of the year, from 0.
abbrev pub day_in_year : ℕ → ℕ → ℕ → ℕ
day_in_year y m d = months_before y m + d - 1

abbrev pub year_length : ℕ → ℕ
year_length y = 365 + is_leap_year (pos y)

pub year_step-next :
    (t : TimeUnits) (y m d n : ℕ)
    → IsDate y m d
    → y < 32767
    → year_length y ≤ day_in_year y m d + n
    → year_step (adding (pos n) (on_date t y m d))
      ≡ again (adding (pos (day_in_year y m d + n - year_length y)) (on_date t (suc y) 1 1))
unfolding year_step
year_step-next t y m d n date bound over =
    rw
      (
        day_of_year-on_date t y m d date,
        days_in_year-on_date t y m d,
        le→ltb_ℤ (pos (day_in_year y m d) +ℤ pos n) (pos (year_length y)) (omega int_laws),
      )
      (ap again (
        ap₂ (λ k u. adding k (record t { year = u; month = pos 1; day = pos 1 }))
          (eq_of_parts _ _ (omega int_laws))
          (ap to_short (eq_of_parts (pos y +ℤ pos 1) (pos (suc y)) (omega int_laws))
            ∙ to_short_small (suc y) (omega arith))))

pub year_step-stop :
    (t : TimeUnits) (y m d : ℕ) (a : ℤ)
    → IsDate y m d
    → neg_part a ≤ day_in_year y m d + pos_part a
    → day_in_year y m d + pos_part a < year_length y + neg_part a
    → year_step (adding a (on_date t y m d)) ≡ stop (adding a (on_date t y m d))
unfolding year_step
year_step-stop t y m d a date low high =
    rw
      (
        day_of_year-on_date t y m d date,
        days_in_year-on_date t y m d,
        lt→ltb_ℤ (pos (day_in_year y m d) +ℤ a) (pos (year_length y)) (omega int_laws),
        le→ltb_ℤ (pos (day_in_year y m d) +ℤ a) (pos 0) (omega int_laws),
      )
      refl

pub month_step-next :
    (t : TimeUnits) (y m d n : ℕ)
    → IsDate y m d
    → month_length y m ≤ d - 1 + n
    → month_step (adding (pos n) (on_date t y m d))
      ≡ again (adding (pos (d - 1 + n - month_length y m)) (on_date t y (suc m) 1))
unfolding month_step
month_step-next t y m d n date over =
    rw
      (
        days_in_month-on_date t y m d date.month_low date.month_high,
        le→ltb_ℤ (pos d -ℤ pos 1 +ℤ pos n) (pos (month_length y m)) (omega (int_laws, date)),
      )
      (ap again (
        ap₂ (λ k u. adding k (record t { year = pos y; month = u; day = pos 1 }))
          (eq_of_parts _ _ (omega (int_laws, date)))
          (ap to_short (eq_of_parts (pos m +ℤ pos 1) (pos (suc m)) (omega int_laws))
            ∙ to_short_small (suc m) (omega (arith, date)))))

pub month_step-stop :
    (t : TimeUnits) (y m d e : ℕ) (a : ℤ)
    → IsDate y m d
    → e + neg_part a ≡ d + pos_part a
    → 1 ≤ e
    → e ≤ month_length y m
    → month_step (adding a (on_date t y m d)) ≡ stop (on_date t y m e)
unfolding month_step
month_step-stop t y m d e a date sum low high =
    rw
      (
        days_in_month-on_date t y m d date.month_low date.month_high,
        lt→ltb_ℤ (pos d -ℤ pos 1 +ℤ a) (pos (month_length y m)) (omega (int_laws, date)),
        le→ltb_ℤ (pos d -ℤ pos 1 +ℤ a) (pos 0) (omega (int_laws, date)),
        to_short-eq a (small.0) (small.1),
        eq_of_parts (pos d +ℤ a) (pos e) (omega int_laws),
        to_short_small e (omega (arith, short)),
      )
      refl
  where
    short : month_length y m ≤ 31
    short = month_length_high y m date.month_low date.month_high

    small : (pos_part a < 32768) × (neg_part a ≤ 32768)
    small = (omega (arith, short, parts_apart a, date), omega (arith, short, date, parts_apart a))
