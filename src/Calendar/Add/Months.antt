-- ===== src/Calendar/Add/Months.antt =====
-- AddMonths: months counted from month 1 of year 0.
use gray_core.Base.{
  ℕ, suc, ◌+◌, ◌-◌, ◌*◌, ◌/◌, ◌%◌, ◌≤◌, ◌<◌, ◌≡◌, ◌≢◌, ◌⊎◌, refl, ◌∙◌, ap, ap₂, false, arith,
}
use gray_core.Base.Int.{
  pos, negsuc, quot, rem, ◌+ℤ◌, ◌-ℤ◌, div_laws, eq_of_parts, to_short, to_short-eq, parts_apart,
  lt→ltb_ℤ, pos_part, neg_part,
}
use gray_core.Calendar.{TimeUnits, is_valid_month}
use gray_core.Calendar.Dates.{on_date}
use gray_core.Calendar.Add.{add_months}

-- AddMonths(n) with 0 or more months, from a month of the calendar, moves a date to the month
-- that is n later, up to year 32767, and leaves the day.
pub add_months-forward :
    (t : TimeUnits) (y m d n : ℕ)
    → 1 ≤ m
    → m ≤ 12
    → (12 * y + (m - 1) + n) / 12 < 32768
    → add_months (pos n) (on_date t y m d)
      ≡ on_date t ((12 * y + (m - 1) + n) / 12) ((12 * y + (m - 1) + n) % 12 + 1) d
unfolding add_months
add_months-forward t y m d n lo hi bound =
    ap₂ (λ year month. record (on_date t y m d) { year = year; month = month })
      (ap to_short year ∙ to_short-eq _ bound (omega arith))
      (ap to_short month ∙ to_short-eq _ (omega arith) (omega arith))
  where
    year : pos y +ℤ quot (pos n +ℤ (pos m -ℤ pos 1)) 12 ≡ pos ((12 * y + (m - 1) + n) / 12)
    year = eq_of_parts _ _ (omega (div_laws, parts_apart (pos n +ℤ (pos m -ℤ pos 1))))

    month : pos 1 +ℤ rem (pos n +ℤ (pos m -ℤ pos 1)) 12 ≡ pos ((12 * y + (m - 1) + n) % 12 + 1)
    month = eq_of_parts _ _ (omega (div_laws, parts_apart (pos n +ℤ (pos m -ℤ pos 1))))

-- AddMonths(-(k + 1)) from a date of the calendar gives no month of the calendar when it passes
-- the start of the year, but for whole years back to a January.
pub add_months-back :
    (t : TimeUnits) (y m d k : ℕ)
    → 1 ≤ m
    → m ≤ 12
    → m ≤ suc k
    → (suc k - (m - 1)) % 12 ≢ 0
    → is_valid_month (add_months (negsuc k) (on_date t y m d)) ≡ false
unfolding add_months
add_months-back t y m d k lo hi past part =
    rw
      (
        to_short-eq (pos 1 +ℤ rem (negsuc k +ℤ (pos m -ℤ pos 1)) 12)
            (omega (div_laws, parts, apart)) (omega (div_laws, parts, apart)),
        lt→ltb_ℤ (pos 1 +ℤ rem (negsuc k +ℤ (pos m -ℤ pos 1)) 12) (pos 1)
            (omega (div_laws, parts, part)),
      )
      refl
  where
    parts :
        (pos_part (negsuc k +ℤ (pos m -ℤ pos 1)) ≡ 0)
        ⊎ (neg_part (negsuc k +ℤ (pos m -ℤ pos 1)) ≡ 0)
    parts = parts_apart (negsuc k +ℤ (pos m -ℤ pos 1))

    apart :
        (pos_part (pos 1 +ℤ rem (negsuc k +ℤ (pos m -ℤ pos 1)) 12) ≡ 0)
        ⊎ (neg_part (pos 1 +ℤ rem (negsuc k +ℤ (pos m -ℤ pos 1)) 12) ≡ 0)
    apart = parts_apart (pos 1 +ℤ rem (negsuc k +ℤ (pos m -ℤ pos 1)) 12)
