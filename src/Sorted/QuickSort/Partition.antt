-- ===== src/Sorted/QuickSort/Partition.antt =====
-- QSortPartition: what its loops keep, and how it ends.
use gray_core.Base.{
  ℕ, zero, suc, ◌+◌, ◌-◌, ◌*◌, ◌≤◌, ◌<◌, ◌≡◌, ◌≢◌, inl, inr, ◌∙◌, refl, sym, ap, ◌⊎◌, List, some,
  none, length, get_elem?, arith, ltb, Bool-cases, tests, true, false, Option, get_elem?-some,
}
use mathlib.Core.Option.{some-injective}
use mathlib.Core.Path.{subst}
use gray_core.Base.Compared.{less, greater}
use gray_core.Sorted.{Sorting}
use gray_core.Sorted.Laws.{SortLaws}
use gray_core.Sorted.QuickSort.{Side, right_side, left_side, in_order, partition, q_sort_partition}
use gray_core.Sorted.QuickSort.Moved.{Moved, Moved-refl, Moved-trans, Moved-widen, swap_at-Swapped}

module _ {ℓ κ} {A : Type ℓ} {K : Type κ} (sorting : Sorting A K) where
  in_order-cases :
      (xs : List A) (i j : ℕ) (x y : A)
      → get_elem? xs i ≡ some x
      → get_elem? xs j ≡ some y
      → ((in_order sorting xs i j ≡ some true) × (sorting.compare_elems x y ≢ greater))
        ⊎ ((in_order sorting xs i j ≡ some false) × (sorting.compare_elems x y ≡ greater))
  unfolding in_order
  in_order-cases xs i j x y p q = rw (in_order, p, q) (ground arith)

  same :
      (xs : List A) (i j : ℕ) (x y : A) (P : A → Type 0)
      → i ≡ j
      → get_elem? xs i ≡ some x
      → get_elem? xs j ≡ some y
      → P y
      → P x
  same xs i j x y P e p q h = subst P (sym (some-injective x y (sym p ∙ ap (get_elem? xs) e ∙ q))) h

  -- The rounds that a test costs without a move of a bound.
  disorder : List A → ℕ → ℕ → ℕ
  disorder xs i j = elim (in_order sorting xs i j) [ none ↦ 0 | some true ↦ 0 | some false ↦ 1 ]

  disorder-le : (xs : List A) (i j : ℕ) → disorder xs i j ≤ 1
  unfolding disorder
  disorder-le xs i j = ground arith

  module _ (xs : List A) (i j : ℕ) (x y : A) (p : get_elem? xs i ≡ some x)
      (q : get_elem? xs j ≡ some y) where
    disorder-greater : sorting.compare_elems x y ≡ greater → disorder xs i j ≡ 1
    unfolding disorder in_order
    disorder-greater h = rw (disorder, in_order, p, q, h) refl

    disorder-less : sorting.compare_elems x y ≡ less → disorder xs i j ≡ 0
    unfolding disorder in_order
    disorder-less h = rw (disorder, in_order, p, q, h) refl

  -- Where the pivot stands while a side is worked on.
  abbrev pivot_at : Side → ℕ → ℕ → ℕ
  pivot_at right_side left right = left
  pivot_at left_side left right = right

  module _ (lo hi : ℕ) (pivot : A) where
    pub record Narrowed (xs : List A) (at left right : ℕ) : Type ℓ where
      pub from_lo : lo ≤ left
      pub bounds : left ≤ right
      pub to_hi : right < hi
      pub fits : hi ≤ length xs
      pub here : get_elem? xs at ≡ some pivot
      pub lows :
          (i : ℕ) (y : A)
          → lo ≤ i
          → i < left
          → get_elem? xs i ≡ some y
          → sorting.compare_elems y pivot ≢ greater
      pub highs :
          (i : ℕ) (y : A)
          → right < i
          → i < hi
          → get_elem? xs i ≡ some y
          → sorting.compare_elems pivot y ≢ greater

    pub record Parted (xs : List A) (result : Option (List A × ℕ)) : Type ℓ where
      pub span : List A
      pub mid : ℕ
      pub ends : result ≡ some (span, mid)
      pub moved : Moved xs span lo hi
      pub narrowed : Narrowed span mid mid mid

    Parted-step :
        (xs ys : List A) (result : Option (List A × ℕ))
        → Moved xs ys lo hi
        → Parted ys result
        → Parted xs result
    Parted-step xs ys result m parted = record {
      span = parted.span;
      mid = parted.mid;
      ends = parted.ends;
      moved = Moved-trans xs ys parted.span lo hi m parted.moved;
      narrowed = parted.narrowed;
    }

    -- The bounds after a swap are the same, and the pivot is at the other one.
    Narrowed-swap :
        (xs ys : List A) (at at' left right : ℕ)
        → left < right
        → Moved xs ys left (suc right)
        → get_elem? ys at' ≡ some pivot
        → Narrowed xs at left right
        → Narrowed ys at' left right
    Narrowed-swap xs ys at at' left right below m e n = record {
      from_lo = n.from_lo;
      bounds = n.bounds;
      to_hi = n.to_hi;
      fits = rw m.size n.fits;
      here = e;
      lows = λ i y h k f. n.lows i y h k (sym (m.outside i (inl k)) ∙ f);
      highs = λ i y h k f. n.highs i y h k (sym (m.outside i (inr (omega arith))) ∙ f);
    }

    Narrowed-right :
        (xs : List A) (left right : ℕ) (y : A)
        → left < right
        → get_elem? xs right ≡ some y
        → sorting.compare_elems pivot y ≢ greater
        → Narrowed xs left left right
        → Narrowed xs left left (right - 1)
    Narrowed-right xs left right y below at_right ne n = record {
      from_lo = n.from_lo;
      bounds = omega arith;
      to_hi = omega (arith, n.to_hi);
      fits = n.fits;
      here = n.here;
      lows = n.lows;
      highs = λ i z h k f. elim (Bool-cases (ltb right i)) [
        | inl above ↦ n.highs i z (omega (tests, above)) k f
        | inr not_above ↦
            same xs i right z y (λ t. sorting.compare_elems pivot t ≢ greater)
              (omega (tests, not_above)) f at_right ne
      ];
    }

    Narrowed-left :
        (xs : List A) (left right : ℕ) (x : A)
        → left < right
        → get_elem? xs left ≡ some x
        → sorting.compare_elems x pivot ≢ greater
        → Narrowed xs right left right
        → Narrowed xs right (left + 1) right
    Narrowed-left xs left right x below at_left ne n = record {
      from_lo = omega (arith, n.from_lo);
      bounds = omega arith;
      to_hi = n.to_hi;
      fits = n.fits;
      here = n.here;
      lows = λ i z h k f. elim (Bool-cases (ltb i left)) [
        | inl before ↦ n.lows i z h (omega (tests, before)) f
        | inr not_before ↦
            same xs i left z x (λ t. sorting.compare_elems t pivot ≢ greater)
              (omega (tests, not_before)) f at_left ne
      ];
      highs = n.highs;
    }

    abbrev rounds : List A → ℕ → ℕ → ℕ
    rounds xs left right = 2 * (right - left) + disorder xs left right

    Parted-done :
        (xs : List A) (at left right : ℕ)
        → at ≡ left
        → right ≤ left
        → Narrowed xs at left right
        → Parted xs (some (xs, left))
    Parted-done xs at left right e done n = record {
      span = xs;
      mid = left;
      ends = refl;
      moved = Moved-refl xs lo hi;
      narrowed =
          subst (λ k. Narrowed xs left left k) right_left
            (subst (λ k. Narrowed xs k left right) e n);
    }
      where
        right_left : right ≡ left
        right_left = omega (arith, n.bounds, done)

    module _ (laws : SortLaws sorting) where
      swap_rounds :
          (xs ys : List A) (left right : ℕ) (x y : A)
          → get_elem? xs left ≡ some x
          → get_elem? xs right ≡ some y
          → get_elem? ys left ≡ some y
          → get_elem? ys right ≡ some x
          → sorting.compare_elems x y ≡ greater
          → rounds ys left right < rounds xs left right
      swap_rounds xs ys left right x y p q r s above = omega (
        arith,
        disorder-greater xs left right x y p q above,
        disorder-less ys left right y x r s (grind (arith, above, laws.flips x y)),
      )

      partition-Parted :
          (fuel : ℕ) (side : Side) (xs : List A) (left right : ℕ)
          → rounds xs left right < fuel
          → Narrowed xs (pivot_at side left right) left right
          → Parted xs (partition sorting fuel side xs left right)
      unfolding partition
      partition-Parted zero side xs left right h n = absurd (omega arith)
      partition-Parted (suc fuel) right_side xs left right h n =
          elim (Bool-cases (ltb left right)) [
            | inr done ↦
                rw (partition, done) (Parted-done xs left left right refl (omega (tests, done)) n)
            | inl below ↦
                let (y, at_right) = get_elem?-some xs right (omega (arith, n.to_hi, n.fits)) in
                elim (in_order-cases xs left right pivot y n.here at_right) [
                  | inl (ordered, ne) ↦
                      rw (partition, below, ordered)
                        (partition-Parted fuel right_side xs left (right - 1)
                          (omega (tests, h, below, disorder-le xs left (right - 1)))
                          (Narrowed-right xs left right y (omega (tests, below)) at_right ne n))
                  | inr (not_ordered, above) ↦
                      let s =
                        swap_at-Swapped xs left right pivot y (omega (tests, below)) n.here
                          at_right in
                      rw (partition, below, not_ordered, s.right_left)
                        (Parted-step xs s.result _
                          (Moved-widen xs s.result left (suc right) lo hi n.from_lo n.to_hi s.moved)
                          (partition-Parted fuel left_side s.result left right
                            (omega (
                              arith,
                              h,
                              swap_rounds xs s.result left right pivot y n.here at_right s.low
                                  s.high above,
                            ))
                            (Narrowed-swap xs s.result left right left right (omega (tests, below))
                              s.moved s.high n)))
                ]
          ]
      partition-Parted (suc fuel) left_side xs left right h n = elim (Bool-cases (ltb left right)) [
        | inr done ↦
            rw (partition, done)
              (Parted-done xs right left right (omega (tests, done, n.bounds)) (omega (tests, done))
                n)
        | inl below ↦
            let (x, at_left) = get_elem?-some xs left (omega (tests, below, n.to_hi, n.fits)) in
            elim (in_order-cases xs left right x pivot at_left n.here) [
              | inl (ordered, ne) ↦
                  rw (partition, below, ordered)
                    (partition-Parted fuel left_side xs (left + 1) right
                      (omega (tests, h, below, disorder-le xs (left + 1) right))
                      (Narrowed-left xs left right x (omega (tests, below)) at_left ne n))
              | inr (not_ordered, above) ↦
                  let s =
                    swap_at-Swapped xs left right x pivot (omega (tests, below)) at_left n.here in
                  rw (partition, below, not_ordered, s.left_right)
                    (Parted-step xs s.result _
                      (Moved-widen xs s.result left (suc right) lo hi n.from_lo n.to_hi s.moved)
                      (partition-Parted fuel right_side s.result left right
                        (omega (
                          arith,
                          h,
                          swap_rounds xs s.result left right x pivot at_left n.here s.low s.high
                              above,
                        ))
                        (Narrowed-swap xs s.result right left left right (omega (tests, below))
                          s.moved s.low n)))
            ]
      ]

  module _ (laws : SortLaws sorting) where
    pub q_sort_partition-Parted :
        (xs : List A) (left right : ℕ) (pivot : A)
        → left ≤ right
        → right < length xs
        → get_elem? xs left ≡ some pivot
        → Parted left (suc right) pivot xs (q_sort_partition sorting xs left right)
    unfolding q_sort_partition
    q_sort_partition-Parted xs left right pivot h k p =
        partition-Parted left (suc right) pivot laws (2 * (right - left) + 2) right_side xs left
          right (omega (arith, disorder-le xs left right))
          record {
            from_lo = omega arith;
            bounds = h;
            to_hi = omega arith;
            fits = k;
            here = p;
            lows = λ i y a b. absurd (no_room i a b);
            highs = λ i y a b. absurd (no_room i a b);
          }
      where
        no_room : {n : ℕ} (i : ℕ) → n ≤ i → i < n → ⊥
        no_room i a b = omega arith
