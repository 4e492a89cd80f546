-- ===== src/Calendar/Dst.antt =====
-- `cTimeUnits::isInDST1` of src/cTimeUnits.cpp: the rule of the United States for summer time.
use gray_core.Base.{
  ℕ, ◌+◌, ◌-◌, ◌*◌, ◌%◌, ◌≤◌, ◌<◌, ◌≡◌, ◌↔◌, Bool, true, false, ◌&&◌, ◌||◌, Bool-cases,
  if◌then◌else◌, inl, inr, arith, ltb, leb, lt→ltb, le→ltb_false, tests, ◌==◌,
}
use gray_core.Base.Int.{
  ℤ, pos, ◌+ℤ◌, ◌-ℤ◌, rem, ltb_ℤ, leb_ℤ, eq_ℤ, eq_of_parts, parts_apart, div_laws,
}
use gray_core.Calendar.{TimeUnits, is_leap_year, days_of_month, get_dow}
use gray_core.Calendar.DayNumber.{day_number, get_dow-day_number}
use gray_core.Calendar.Dates.{IsDate, on_date, month_length_high}

data WhichSunday : Type 0 where
  first : WhichSunday
  second : WhichSunday
  last : WhichSunday

-- The months in which summer time begins and ends.
abbrev month_lo : ℤ → ℤ
month_lo year = if leb_ℤ (pos 2007) year then pos 3 else pos 4

abbrev month_hi : ℤ → ℤ
month_hi year = if leb_ℤ (pos 2007) year then pos 11 else pos 10

abbrev which_sunday : ℤ → Bool → WhichSunday
which_sunday year low =
    if ltb_ℤ year (pos 1987)
    then last
    else if ltb_ℤ year (pos 2007)
    then (if low then first else last)
    else if low
    then second
    else first

abbrev change_hour : ℤ → Bool → ℤ
change_hour year low = if ltb_ℤ year (pos 2007) then (if low then pos 2 else pos 1) else pos 2

abbrev day_min : WhichSunday → ℤ → ℤ → ℤ
day_min first year month = pos 1
day_min second year month = pos 8
day_min last year month = pos (days_of_month (is_leap_year year) month) -ℤ pos 6

-- The next Sunday from a day on.
abbrev next_sunday : ℤ → ℤ → ℤ → ℤ
next_sunday year month from = from +ℤ rem (pos 7 -ℤ get_dow year month from) 7

pub is_in_dst1 : TimeUnits → Bool
is_in_dst1 t =
    if ltb_ℤ t.month (month_lo t.year) || ltb_ℤ (month_hi t.year) t.month
    then false
    else if ltb_ℤ (month_lo t.year) t.month && ltb_ℤ t.month (month_hi t.year)
    then true
    else (let low = ltb_ℤ t.month (pos 6) in
        let hour = change_hour t.year low in
        let sunday =
          next_sunday t.year t.month (day_min (which_sunday t.year low) t.year t.month) in
        if low
        then ltb_ℤ sunday t.day || (eq_ℤ t.day sunday && leb_ℤ hour t.hour)
        else ltb_ℤ t.day sunday || (eq_ℤ t.day sunday && ltb_ℤ t.hour hour))

-- The rule as it is published, for the years of each law: from an hour of a Sunday in one month
-- up to an hour of a Sunday in another. A Sunday is the one of the seven days from a day on.
pub record Rule : Type 0 where
  pub begin_month : ℕ
  pub begin_from : ℕ
  pub begin_hour : ℕ
  pub end_month : ℕ
  pub end_from : ℕ
  pub end_hour : ℕ

abbrev pub rule : ℕ → Rule
rule y =
    if ltb y 1987
    then record {
      begin_month = 4;
      begin_from = 24;
      begin_hour = 2;
      end_month = 10;
      end_from = 25;
      end_hour = 1;
    }
    else if ltb y 2007
    then record {
      begin_month = 4;
      begin_from = 1;
      begin_hour = 2;
      end_month = 10;
      end_from = 25;
      end_hour = 1;
    }
    else record {
      begin_month = 3;
      begin_from = 8;
      begin_hour = 2;
      end_month = 11;
      end_from = 1;
      end_hour = 2;
    }

pub record IsSunday (y m from s : ℕ) : Type 0 where
  pub not_before : from ≤ s
  pub not_after : s < from + 7
  pub sunday : (day_number y m s + 5) % 7 ≡ 0

-- Hours in the order of the calendar, within a year.
abbrev pub hour_index : ℕ → ℕ → ℕ → ℕ
hour_index m d h = (m * 32 + d) * 24 + h

next_sunday-eq :
    (y m from s : ℕ)
    → 1 ≤ m
    → m ≤ 12
    → IsSunday y m from s
    → next_sunday (pos y) (pos m) (pos from) ≡ pos s
next_sunday-eq y m from s lo hi is = rw ((get_dow-day_number y m from lo hi).0) (
    eq_of_parts _ _
      (omega (div_laws, parts_apart (pos 7 -ℤ pos ((day_number y m from + 5) % 7)), is, sunday)))
  where
    sunday : (day_number y m from + (s - from) + 5) % 7 ≡ 0
    sunday = unfold day_number in omega (arith, is)

-- The answer for a month, from the two months and the Sundays and hours of the change.
abbrev between : ℕ → ℕ → ℕ → ℕ → ℕ → ℕ → ℕ → ℕ → ℕ → Bool
between lo hi h₁ h₂ m d h s₁ s₂ =
    if ltb m lo || ltb hi m
    then false
    else if ltb lo m && ltb m hi
    then true
    else if ltb m 6
    then ltb s₁ d || (d == s₁ && leb h₁ h)
    else ltb d s₂ || (d == s₂ && ltb h h₂)

between-index :
    (lo hi h₁ h₂ m d h s₁ s₂ : ℕ)
    → lo < 6
    → 6 ≤ hi
    → d < 32
    → h < 24
    → s₁ < 32
    → s₂ < 32
    → h₁ < 24
    → h₂ < 24
    → (between lo hi h₁ h₂ m d h s₁ s₂ ≡ true)
      ↔ ((hour_index lo s₁ h₁ ≤ hour_index m d h) × (hour_index m d h < hour_index hi s₂ h₂))
between-index lo hi h₁ h₂ m d h s₁ s₂ a b c e f g i j = ground arith

since_2007 :
    (t : TimeUnits) (y m d h s₁ s₂ : ℕ)
    → IsDate y m d
    → 2007 ≤ y
    → IsSunday y 3 8 s₁
    → IsSunday y 11 1 s₂
    → is_in_dst1 (record (on_date t y m d) { hour = pos h }) ≡ between 3 11 2 2 m d h s₁ s₂
unfolding is_in_dst1
since_2007 t y m d h s₁ s₂ date era begin end =
    rw (le→ltb_false y 1987 (omega arith), le→ltb_false y 2007 era) ground (arith, low, high)
  where
    low : m ≡ 3 → next_sunday (pos y) (pos m) (pos 8) ≡ pos s₁
    low e = rw e (next_sunday-eq y 3 8 s₁ (omega arith) (omega arith) begin)

    high : m ≡ 11 → next_sunday (pos y) (pos m) (pos 1) ≡ pos s₂
    high e = rw e (next_sunday-eq y 11 1 s₂ (omega arith) (omega arith) end)

-- The last Sunday of April and of October.
last_april :
    (y m s : ℕ)
    → IsSunday y 4 24 s
    → m ≡ 4
    → next_sunday (pos y) (pos m) (day_min last (pos y) (pos m)) ≡ pos s
unfolding ◌-ℤ◌
last_april y m s sunday e = rw e (next_sunday-eq y 4 24 s (omega arith) (omega arith) sunday)

last_october :
    (y m s : ℕ)
    → IsSunday y 10 25 s
    → m ≡ 10
    → next_sunday (pos y) (pos m) (day_min last (pos y) (pos m)) ≡ pos s
unfolding ◌-ℤ◌
last_october y m s sunday e = rw e (next_sunday-eq y 10 25 s (omega arith) (omega arith) sunday)

before_2007 :
    (t : TimeUnits) (y m d h s₁ s₂ : ℕ)
    → IsDate y m d
    → 1987 ≤ y
    → y < 2007
    → IsSunday y 4 1 s₁
    → IsSunday y 10 25 s₂
    → is_in_dst1 (record (on_date t y m d) { hour = pos h }) ≡ between 4 10 2 1 m d h s₁ s₂
unfolding is_in_dst1
before_2007 t y m d h s₁ s₂ date from to begin end =
    rw (le→ltb_false y 1987 from, lt→ltb y 2007 to) ground (arith, low, last_october y m s₂ end)
  where
    low : m ≡ 4 → next_sunday (pos y) (pos m) (pos 1) ≡ pos s₁
    low e = rw e (next_sunday-eq y 4 1 s₁ (omega arith) (omega arith) begin)

before_1987 :
    (t : TimeUnits) (y m d h s₁ s₂ : ℕ)
    → IsDate y m d
    → y < 1987
    → IsSunday y 4 24 s₁
    → IsSunday y 10 25 s₂
    → is_in_dst1 (record (on_date t y m d) { hour = pos h }) ≡ between 4 10 2 1 m d h s₁ s₂
unfolding is_in_dst1
before_1987 t y m d h s₁ s₂ date era begin end =
    rw (lt→ltb y 1987 era, lt→ltb y 2007 (omega arith)) ground
      (arith, last_april y m s₁ begin, last_october y m s₂ end)

-- For an hour of a date of the calendar, isInDST1 answers true exactly from the hour at which
-- summer time begins up to the one at which it ends, on the Sundays of the rule of the United
-- States for the year.
pub is_in_dst1-rule :
    (t : TimeUnits) (y m d h s₁ s₂ : ℕ)
    → IsDate y m d
    → h < 24
    → IsSunday y (rule y).begin_month (rule y).begin_from s₁
    → IsSunday y (rule y).end_month (rule y).end_from s₂
    → (is_in_dst1 (record (on_date t y m d) { hour = pos h }) ≡ true) ↔ (
        (hour_index (rule y).begin_month s₁ (rule y).begin_hour ≤ hour_index m d h)
        × (hour_index m d h < hour_index (rule y).end_month s₂ (rule y).end_hour))
is_in_dst1-rule t y m d h s₁ s₂ date hour begin end = elim (Bool-cases (ltb y 1987)) [
  | inl old ↦
      rw
        (
          old,
          before_1987 t y m d h s₁ s₂ date (omega (tests, old)) (rw old at begin) (rw old at end),
        )
        (bounds 4 10 2 1 (omega arith) (omega arith) (omega (arith, rw old at begin))
          (omega (arith, rw old at end)) (omega arith) (omega arith))
  | inr later ↦ elim (Bool-cases (ltb y 2007)) [
    | inl middle ↦
        rw
          (
            later,
            middle,
            before_2007 t y m d h s₁ s₂ date (omega (tests, later)) (omega (tests, middle))
                (rw (later, middle) at begin) (rw (later, middle) at end),
          )
          (bounds 4 10 2 1 (omega arith) (omega arith) (omega (arith, rw (later, middle) at begin))
            (omega (arith, rw (later, middle) at end)) (omega arith) (omega arith))
    | inr new ↦
        rw
          (
            later,
            new,
            since_2007 t y m d h s₁ s₂ date (omega (tests, new)) (rw (later, new) at begin)
                (rw (later, new) at end),
          )
          (bounds 3 11 2 2 (omega arith) (omega arith) (omega (arith, rw (later, new) at begin))
            (omega (arith, rw (later, new) at end)) (omega arith) (omega arith))
  ]
]
  where
    bounds :
        (lo hi h₁ h₂ : ℕ)
        → lo < 6
        → 6 ≤ hi
        → s₁ < 32
        → s₂ < 32
        → h₁ < 24
        → h₂ < 24
        → (between lo hi h₁ h₂ m d h s₁ s₂ ≡ true)
          ↔ ((hour_index lo s₁ h₁ ≤ hour_index m d h) × (hour_index m d h < hour_index hi s₂ h₂))
    bounds lo hi h₁ h₂ a b e f g i =
        between-index lo hi h₁ h₂ m d h s₁ s₂ a b
          (omega (arith, date, month_length_high y m date.month_low date.month_high)) hour e f g i
