-- ===== src/Calendar/Add/Forward.antt =====
-- AddDays with no fewer than 0 days.
use gray_core.Base.{
  ℕ, zero, suc, ◌+◌, ◌-◌, ◌≤◌, ◌<◌, ◌≡◌, ◌∙◌, sym, refl, false, Bool-cases, inl, inr, arith, ltb,
  tests, Option, some,
}
use gray_core.Base.Int.{pos}
use gray_core.Base.Loops.{loop, loop-again, loop-stop}
use gray_core.Calendar.{TimeUnits}
use gray_core.Calendar.DayNumber.{days_before_year, day_number, days_before_year-eq}
use gray_core.Calendar.Dates.{
  IsDate, on_date, month_length, months_before-suc, not_december, month_length_low,
  month_within_year,
}
use gray_core.Calendar.Add.{Adding, year_step, month_step, add_days}
use gray_core.Calendar.Add.Days.{
  adding, day_in_year, year_length, year_step-next, year_step-stop, month_step-next,
  month_step-stop,
}

-- The result is the time of `t` on the date that has the number `number`.
pub record Lands (t : TimeUnits) (result : Option TimeUnits) (number : ℕ) : Type 0 where
  pub year : ℕ
  pub month : ℕ
  pub day : ℕ
  pub is_date : IsDate year month day
  pub has_number : day_number year month day ≡ number
  pub result_is : result ≡ some (on_date t year month day)

-- The loop over the years ends in the year of the date wanted.
record InYear (t : TimeUnits) (result : Option Adding) (number most : ℕ) : Type 0 where
  year : ℕ
  month : ℕ
  day : ℕ
  left : ℕ
  is_date : IsDate year month day
  has_number : day_number year month day + left ≡ number
  within : day_in_year year month day + left < year_length year
  bounded : left ≤ most
  result_is : result ≡ some (adding (pos left) (on_date t year month day))

pub first-IsDate : (y : ℕ) → IsDate y 1 1
first-IsDate y = record {
  month_low = omega arith;
  month_high = omega arith;
  day_low = omega arith;
  day_high = omega (arith, month_length_low y 1);
}

next_first : (y m d : ℕ) → IsDate y m d → m < 12 → IsDate y (suc m) 1
next_first y m d date h = record {
  month_low = omega arith;
  month_high = omega arith;
  day_low = omega arith;
  day_high = omega (arith, month_length_low y (suc m));
}

-- The number of the first day of the next year.
pub first-number :
    (y m d : ℕ)
    → 1 ≤ d
    → day_number (suc y) 1 1 + day_in_year y m d ≡ day_number y m d + year_length y
unfolding day_number days_before_year
first-number y m d h = ground arith

first_above : (y : ℕ) → days_before_year y < day_number y 1 1
unfolding day_number
first_above y = omega arith

years_forward :
    (fuel : ℕ) (t : TimeUnits) (y m d n number : ℕ)
    → IsDate y m d
    → day_number y m d + n ≡ number
    → number ≤ days_before_year 32768
    → n < fuel
    → InYear t (loop year_step fuel (adding (pos n) (on_date t y m d))) number n
years_forward zero t y m d n number date is high enough = absurd (omega arith)
years_forward (suc fuel) t y m d n number date is high enough =
    elim (Bool-cases (ltb (day_in_year y m d + n) (year_length y))) [
      | inl inside ↦ record {
        year = y;
        month = m;
        day = d;
        left = n;
        is_date = date;
        has_number = is;
        within = omega (tests, inside);
        bounded = omega arith;
        result_is =
            loop-stop year_step fuel _ _
              (year_step-stop t y m d (pos n) date (omega arith) (omega (tests, inside)));
      }
      | inr over ↦ next_year over (
          years_forward fuel t (suc y) 1 1 (day_in_year y m d + n - year_length y) number
            (first-IsDate (suc y)) (omega (tests, over, is, first-number y m d date.day_low)) high
            (omega (tests, over, date, month_within_year y m date.month_low date.month_high)))
    ]
  where
    -- The date wanted is in the next year or later.
    small : year_length y ≤ day_in_year y m d + n → y < 32767
    small over = omega (
      arith,
      over,
      first-number y m d date.day_low,
      is,
      high,
      first_above (suc y),
      days_before_year-eq (suc y),
      days_before_year-eq 32768,
    )

    next_year :
        ltb (day_in_year y m d + n) (year_length y) ≡ false
        → InYear t
            (loop year_step fuel
              (adding (pos (day_in_year y m d + n - year_length y)) (on_date t (suc y) 1 1)))
            number
            (day_in_year y m d + n - year_length y)
        → InYear t (loop year_step (suc fuel) (adding (pos n) (on_date t y m d))) number n
    next_year over rest = record {
      year = rest.year;
      month = rest.month;
      day = rest.day;
      left = rest.left;
      is_date = rest.is_date;
      has_number = rest.has_number;
      within = rest.within;
      bounded =
          omega (arith, rest.bounded, date, month_within_year y m date.month_low date.month_high);
      result_is =
          loop-again year_step fuel _ _
            (year_step-next t y m d n date (small (omega (tests, over))) (omega (tests, over)))
          ∙ rest.result_is;
    }

pub months_forward :
    (fuel : ℕ) (t : TimeUnits) (y m d n : ℕ)
    → IsDate y m d
    → day_in_year y m d + n < year_length y
    → n < fuel
    → Lands t (loop month_step fuel (adding (pos n) (on_date t y m d))) (day_number y m d + n)
months_forward zero t y m d n date inside enough = absurd (omega arith)
months_forward (suc fuel) t y m d n date inside enough =
    elim (Bool-cases (ltb (d - 1 + n) (month_length y m))) [
      | inl here ↦ record {
        year = y;
        month = m;
        day = d + n;
        is_date = record {
          month_low = date.month_low;
          month_high = date.month_high;
          day_low = omega (arith, date);
          day_high = omega (tests, here, date);
        };
        has_number = unfold day_number in omega arith;
        result_is = loop-stop month_step fuel _ _ (
            month_step-stop t y m d (d + n) (pos n) date (omega arith) (omega (arith, date))
              (omega (tests, here, date)));
      }
      | inr over ↦ next_month over (
          months_forward fuel t y (suc m) 1 (d - 1 + n - month_length y m)
            (next_first y m d date (december (omega (tests, over))))
            (omega
              (tests, over, inside, date, months_before-suc y m date.month_low date.month_high))
            (omega (tests, over, enough, date)))
    ]
  where
    december : month_length y m ≤ d - 1 + n → m < 12
    december over =
        not_december y m date.month_low date.month_high (omega (arith, over, inside, date))

    next_month :
        ltb (d - 1 + n) (month_length y m) ≡ false
        → Lands t
            (loop month_step fuel
              (adding (pos (d - 1 + n - month_length y m)) (on_date t y (suc m) 1)))
            (day_number y (suc m) 1 + (d - 1 + n - month_length y m))
        → Lands t
            (loop month_step (suc fuel) (adding (pos n) (on_date t y m d)))
            (day_number y m d + n)
    next_month over rest = record {
      year = rest.year;
      month = rest.month;
      day = rest.day;
      is_date = rest.is_date;
      has_number =
          rest.has_number
          ∙ unfold day_number in
            omega (tests, over, date, months_before-suc y m date.month_low date.month_high);
      result_is =
          loop-again month_step fuel _ _ (month_step-next t y m d n date (omega (tests, over)))
          ∙ rest.result_is;
    }

-- AddDays(n) with 0 or more days, from a date of the calendar, lands on the date with the day
-- number n higher, if that is before the end of year 32767; n + 1 turns of each loop are enough.
pub add_days-forward :
    (fuel : ℕ) (t : TimeUnits) (y m d n : ℕ)
    → IsDate y m d
    → day_number y m d + n ≤ days_before_year 32768
    → n < fuel
    → Lands t (add_days fuel (pos n) (on_date t y m d)) (day_number y m d + n)
unfolding add_days
add_days-forward fuel t y m d n date high enough =
    from_year (years_forward fuel t y m d n (day_number y m d + n) date refl high enough)
  where
    from_year :
        (InYear t (loop year_step fuel (adding (pos n) (on_date t y m d))) (day_number y m d + n) n)
        → Lands t (add_days fuel (pos n) (on_date t y m d)) (day_number y m d + n)
    from_year r =
        rw (add_days, r.result_is, sym r.has_number)
          (months_forward fuel t r.year r.month r.day r.left r.is_date r.within
            (omega (arith, r.bounded, enough)))
