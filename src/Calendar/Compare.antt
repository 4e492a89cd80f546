-- ===== src/Calendar/Compare.antt =====
-- `cTimeUnits::Compare` of src/cTimeUnits.cpp: the units in turn, from the year to the
-- microsecond.
use gray_core.Base.{◌≡◌, ◌∙◌, ◌↔◌, sym, ap, refl, if◌then◌else◌, arith, List, [], ◌∷◌, not, length}
use gray_core.Base.Int.{ℤ, ltb_ℤ, eq_ℤ}
use gray_core.Base.Compared.{Compared, less, equal, greater, flip}
use gray_core.Calendar.{TimeUnits}

abbrev pub units : TimeUnits → List ℤ
units t =
    t.year ∷ t.month ∷ t.day ∷ t.hour ∷ t.minute ∷ t.second ∷ t.millisecond ∷ t.microsecond ∷ []

unfoldable pub compare_units : List ℤ → List ℤ → Compared
compare_units [] ys = equal
compare_units (x ∷ xs) [] = equal
compare_units (x ∷ xs) (y ∷ ys) =
    let rest = compare_units xs ys in
    if not (eq_ℤ x y) then (if ltb_ℤ y x then greater else less) else rest

unfoldable pub compare : TimeUnits → TimeUnits → Compared
compare a b = compare_units (units a) (units b)

compare_units-flip :
    (xs ys : List ℤ) → length xs ≡ length ys → compare_units ys xs ≡ flip (compare_units xs ys)
unfolding compare_units
compare_units-flip [] [] h = refl
compare_units-flip [] (y ∷ ys) h = absurd (omega (arith, h))
compare_units-flip (x ∷ xs) [] h = absurd (omega (arith, h))
compare_units-flip (x ∷ xs) (y ∷ ys) h = grind (arith, compare_units-flip xs ys (omega (arith, h)))

compare_units-equal :
    (xs ys : List ℤ) → length xs ≡ length ys → compare_units xs ys ≡ equal → xs ≡ ys
unfolding compare_units
compare_units-equal [] [] h e = refl
compare_units-equal [] (y ∷ ys) h e = absurd (omega (arith, h))
compare_units-equal (x ∷ xs) [] h e = absurd (omega (arith, h))
compare_units-equal (x ∷ xs) (y ∷ ys) h e =
    grind (arith, compare_units-equal xs ys (omega (arith, h)))

compare_units-less :
    (xs ys zs : List ℤ)
    → length xs ≡ length ys
    → length ys ≡ length zs
    → compare_units xs ys ≡ less
    → compare_units ys zs ≡ less
    → compare_units xs zs ≡ less
unfolding compare_units
compare_units-less [] ys zs h k p q = grind (arith, p)
compare_units-less (x ∷ xs) [] zs h k p q = absurd (omega (arith, h))
compare_units-less (x ∷ xs) (y ∷ ys) [] h k p q = absurd (omega (arith, k))
compare_units-less (x ∷ xs) (y ∷ ys) (z ∷ zs) h k p q =
    grind (arith, compare_units-less xs ys zs (omega (arith, h)) (omega (arith, k)))

compare_units_self : (xs : List ℤ) → compare_units xs xs ≡ equal
unfolding compare_units
compare_units_self [] = refl
compare_units_self (x ∷ xs) = grind (arith, compare_units_self xs)

-- Compare with its arguments exchanged gives the opposite result, and Equal is for times with equal
-- units, from the year to the microsecond, and no others.
pub compare-flip_equal :
    (a b : TimeUnits)
    → (compare b a ≡ flip (compare a b)) × ((compare a b ≡ equal) ↔ (units a ≡ units b))
unfolding compare
compare-flip_equal a b = (
  compare_units-flip (units a) (units b) refl,
  (
    compare_units-equal (units a) (units b) refl,
    λ e. ap (compare_units (units a)) (sym e) ∙ compare_units_self (units a),
  ),
)

-- Compare is transitive: if it answers Less for a and b, and for b and c, it does for a and c.
pub compare-less_trans :
    (a b c : TimeUnits) → compare a b ≡ less → compare b c ≡ less → compare a c ≡ less
unfolding compare
compare-less_trans a b c p q = compare_units-less (units a) (units b) (units c) refl refl p q
