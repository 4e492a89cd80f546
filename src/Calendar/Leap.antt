-- ===== src/Calendar/Leap.antt =====
-- The leap rule, and the count of leap days of `GetLeapYearsSince2K`.
use gray_core.Base.{
  ℕ, suc, ◌+◌, ◌-◌, ◌/◌, ◌%◌, ◌≡◌, ◌≢◌, ◌≤◌, ◌<◌, ◌↔◌, ◌⊎◌, refl, ◌∙◌, inl, inr, ltb, Bool-cases,
  tests, arith,
}
use gray_core.Base.Int.{
  pos, int_laws, div_laws, eq_of_parts, lt→ltb_ℤ, le→ltb_ℤ, parts_apart, ◌+ℤ◌, ◌-ℤ◌,
}
use gray_core.Calendar.{is_leap_year, leap_years_since_2k}

-- `IsLeapYear` answers 1 exactly for the years that the Gregorian rule makes leap years, and 0
-- for the others.
pub is_leap_year_rule :
    (y : ℕ)
    → ((is_leap_year (pos y) ≡ 1) ↔ ((y % 4 ≡ 0) × ((y % 100 ≢ 0) ⊎ (y % 400 ≡ 0))))
      × ((is_leap_year (pos y) ≡ 0) ⊎ (is_leap_year (pos y) ≡ 1))
unfolding is_leap_year
is_leap_year_rule y = ground arith

-- The leap years from year 0 up to `y`, without `y`.
abbrev pub leap_count : ℕ → ℕ
leap_count y = (y + 3) / 4 + (y + 399) / 400 - (y + 99) / 100

pub leap_count-suc : (y : ℕ) → leap_count (suc y) ≡ leap_count y + is_leap_year (pos y)
unfolding is_leap_year
leap_count-suc y = ground arith

-- Division towards zero rounds up before 2000.
before_2k : (y : ℕ) → y ≤ 2000 → leap_years_since_2k (pos y) ≡ pos (leap_count y) -ℤ pos 485
unfolding leap_years_since_2k
before_2k y h =
    rw (le→ltb_ℤ (pos 0) (pos y -ℤ pos 2000) (omega int_laws))
      (eq_of_parts _ _ (omega (div_laws, parts_apart (pos y -ℤ pos 2000 -ℤ pos 0))))

after_2k : (y : ℕ) → 2000 < y → leap_years_since_2k (pos y) ≡ pos (leap_count y) -ℤ pos 485
unfolding leap_years_since_2k
after_2k y h =
    rw (lt→ltb_ℤ (pos 0) (pos y -ℤ pos 2000) (omega int_laws))
      (eq_of_parts _ _ (omega (div_laws, parts_apart (pos y -ℤ pos 2000 -ℤ pos 1))))

pub leap_years_since_2k-eq : (y : ℕ) → leap_years_since_2k (pos y) ≡ pos (leap_count y) -ℤ pos 485
leap_years_since_2k-eq y = elim (Bool-cases (ltb 2000 y)) [
  | inl after ↦ after_2k y (omega (tests, after))
  | inr before ↦ before_2k y (omega (tests, before))
]

-- From a year to the next `GetLeapYearsSince2K` goes up by the leap day of that year, before 2000
-- and after, and for 2000 itself it is 0.
pub leap_years_since_2k-suc :
    (y : ℕ)
    → (leap_years_since_2k (pos (suc y))
        ≡ leap_years_since_2k (pos y) +ℤ pos (is_leap_year (pos y)))
      × (leap_years_since_2k (pos 2000) ≡ pos 0)
leap_years_since_2k-suc y = (
  rw (leap_years_since_2k-eq (suc y), leap_years_since_2k-eq y)
      (eq_of_parts _ _ (omega (int_laws, leap_count-suc y))),
  leap_years_since_2k-eq 2000 ∙ unfold ◌-ℤ◌ in refl,
)
