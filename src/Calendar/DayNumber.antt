-- ===== src/Calendar/DayNumber.antt =====
-- Days numbered one by one from the start of year 0: the meaning of a date, in which the day of
-- the week and the sums of days are stated.
use native.Mathlib.Nat.{add-zero}
use gray_core.Base.{
  ℕ, zero, suc, ◌+◌, ◌-◌, ◌*◌, ◌%◌, ◌≤◌, ◌≡◌, ◌∙◌, sym, ap, refl, List, [], ◌∷◌, length, get_or,
  take, Bool-cases, if◌then◌else◌, inl, inr, arith,
}
use gray_core.Base.Int.{
  ℤ, pos, pos_part, neg_part, ◌+ℤ◌, ◌-ℤ◌, quot, ltb_ℤ, ltb_ℤ-true, ltb_ℤ-false, rem, int_laws,
  div_laws, eq_of_parts, parts_apart,
}
use gray_core.Calendar.{
  month_days, month_day_sums, is_leap_year, leap_years_since_2k, days_before_month, get_dow,
  get_doy,
}
use gray_core.Calendar.Leap.{leap_count, leap_count-suc, leap_years_since_2k-eq}

abbrev pub sum : List ℕ → ℕ
sum [] = 0
sum (x ∷ xs) = x + sum xs

unfoldable pub days_before_year : ℕ → ℕ
days_before_year zero = 0
days_before_year (suc y) = days_before_year y + 365 + is_leap_year (pos y)

-- The days of the months before month `m` (from 1) of year `y`.
abbrev pub months_before : ℕ → ℕ → ℕ
months_before y m = sum (take (m - 1) (month_days (is_leap_year (pos y))))

unfoldable pub day_number : ℕ → ℕ → ℕ → ℕ
day_number y m d = days_before_year y + months_before y m + d

pub days_before_year-eq : (y : ℕ) → days_before_year y ≡ 365 * y + leap_count y
unfolding days_before_year
days_before_year-eq zero = refl
days_before_year-eq (suc y) = omega (arith, days_before_year-eq y, leap_count-suc y)

-- acc, acc + x₀, acc + x₀ + x₁, ...
abbrev running_sums : ℕ → List ℕ → List ℕ
running_sums acc [] = acc ∷ []
running_sums acc (x ∷ xs) = acc ∷ running_sums (acc + x) xs

get_or-running_sums :
    (acc : ℕ) (xs : List ℕ) (i : ℕ)
    → i ≤ length xs
    → get_or (running_sums acc xs) i 0 ≡ acc + sum (take i xs)
get_or-running_sums acc [] zero h = sym (add-zero acc)
get_or-running_sums acc [] (suc i) h = absurd (omega arith)
get_or-running_sums acc (x ∷ xs) zero h = sym (add-zero acc)
get_or-running_sums acc (x ∷ xs) (suc i) h =
    omega (arith, get_or-running_sums (acc + x) xs i (omega arith))

month_day_sums-eq : (leap : ℕ) → month_day_sums leap ≡ running_sums 0 (month_days leap)
month_day_sums-eq leap = ground arith

-- `k_aMonthDaySums` holds the sums of the lengths in `k_aMonthDays`, up to the twelfth, and
-- its last entry is the length of the year.
pub month_day_sums_lem :
    (leap i : ℕ)
    → i ≤ 12
    → (get_or (month_day_sums leap) i 0 ≡ sum (take i (month_days leap)))
      × (get_or (month_day_sums leap) 12 0 ≡ 365 + leap)
month_day_sums_lem leap i h = (
  ap (λ l. get_or l i 0) (month_day_sums-eq leap)
      ∙ get_or-running_sums 0 (month_days leap) i h
      ∙ omega arith,
  refl,
)

pub days_before_month-eq :
    (y m : ℕ) → m ≤ 12 → days_before_month (is_leap_year (pos y)) (pos m) ≡ months_before y m
days_before_month-eq y m h = (month_day_sums_lem (is_leap_year (pos y)) (m - 1) (omega arith)).0

-- The adjustment of a negative remainder by 7 gives the residue.
residue7 : ℤ → ℤ
residue7 r = if ltb_ℤ r (pos 0) then r +ℤ pos 7 else r

residue7-rem :
    (a : ℤ) (n k : ℕ)
    → pos_part a + 7 * k + 2480 ≡ neg_part a + n
    → residue7 (rem a 7) ≡ pos ((n + 5) % 7)
unfolding residue7
residue7-rem a n k h = elim (Bool-cases (ltb_ℤ (rem a 7) (pos 0))) [
  | inl below ↦ rw below (
      eq_of_parts _ _ (
        omega (div_laws, ltb_ℤ-true (rem a 7) (pos 0) below, parts_apart a, parts_apart (rem a 7))))
  | inr above ↦ rw above (
      eq_of_parts _ _ (
        omega
          (div_laws, ltb_ℤ-false (rem a 7) (pos 0) above, parts_apart a, parts_apart (rem a 7))))
]

-- `GetDOW` of a day in a month of the calendar, from year 0 on, is the day number modulo 7,
-- counted so that 1 January 2000 is a Saturday.
pub get_dow-day_number :
    (y m d : ℕ)
    → 1 ≤ m
    → m ≤ 12
    → (get_dow (pos y) (pos m) (pos d) ≡ pos ((day_number y m d + 5) % 7))
      × (get_dow (pos 2000) (pos 1) (pos 1) ≡ pos 6)
get_dow-day_number y m d lo hi = (
  unfold get_dow residue7 in
      residue7-rem _ (day_number y m d) (52 * y) (
        unfold day_number in
        rw leap_years_since_2k-eq
          (omega (int_laws, days_before_month-eq y m hi, days_before_year-eq y))),
  unfold get_dow is_leap_year leap_years_since_2k ◌+ℤ◌ ◌-ℤ◌ quot rem in refl,
)

-- `GetDOY` counts the days since the first of January.
pub get_doy-day_number :
    (y m d : ℕ)
    → 1 ≤ m
    → m ≤ 12
    → 1 ≤ d
    → get_doy (pos y) (pos m) (pos d) ≡ pos (day_number y m d) -ℤ pos (day_number y 1 1)
unfolding get_doy day_number
get_doy-day_number y m d lo hi hd = eq_of_parts _ _ (omega (int_laws, days_before_month-eq y m hi))
