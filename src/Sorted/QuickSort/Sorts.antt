-- ===== src/Sorted/QuickSort/Sorts.antt =====
-- QSort ends, and its result is a sorted permutation of the span.
use gray_core.Base.{
  ℕ, zero, suc, ◌+◌, ◌-◌, ◌≤◌, ◌<◌, ◌≡◌, ◌≢◌, inl, inr, ◌∙◌, refl, sym, ap, List, [], ◌∷◌, some,
  length, get_elem?, arith, ltb, Bool, Bool-cases, tests, true, false, Option, get_elem?-some,
  get_elem?-length,
}
use mathlib.Core.Option.{some-injective, none-ne-some}
use mathlib.Core.Path.{subst}
use mathlib.Core.List.{Perm}
use mathlib.Core.List.Perm
use gray_core.Base.Compared.{greater}
use gray_core.Sorted.{Sorting}
use gray_core.Sorted.Laws.{SortLaws, IsSorted, equal_self}
use gray_core.Sorted.QuickSort.{q_sort_range, q_sort}
use gray_core.Sorted.QuickSort.Moved.{Moved, Moved-refl, Moved-trans, Moved-widen}
use gray_core.Sorted.QuickSort.Partition.{Narrowed, q_sort_partition-Parted}

module _ {ℓ κ} {A : Type ℓ} {K : Type κ} (sorting : Sorting A K) where
  abbrev OrderedIn : List A → ℕ → ℕ → Type ℓ
  OrderedIn xs lo hi =
      (i j : ℕ) (x y : A)
      → lo ≤ i
      → i < j
      → j < hi
      → get_elem? xs i ≡ some x
      → get_elem? xs j ≡ some y
      → sorting.compare_elems x y ≢ greater

  -- What sorting the range from `lo` up to `hi`, `hi` excluded, returns.
  record Sorts (xs : List A) (result : Option (List A)) (lo hi : ℕ) : Type ℓ where
    pub span : List A
    pub ends : result ≡ some span
    pub moved : Moved xs span lo hi
    pub ordered : OrderedIn span lo hi

  Sorts-or :
      (b : Bool) (xs : List A) (result : Option (List A)) (lo hi : ℕ)
      → (b ≡ true → Sorts xs result lo hi)
      → (b ≡ false → hi ≤ lo + 1)
      → Sorts xs (elim b [ true ↦ result | false ↦ some xs ]) lo hi
  Sorts-or true xs result lo hi f g = f refl
  Sorts-or false xs result lo hi f g = record {
    span = xs;
    ends = refl;
    moved = Moved-refl xs lo hi;
    ordered = λ i j x y a b c. absurd (few i j a b c (g refl));
  }
    where
      few : (i j : ℕ) → lo ≤ i → i < j → j < hi → hi ≤ lo + 1 → ⊥
      few i j a b c d = omega arith

  module _ (laws : SortLaws sorting) (left right mid : ℕ) (pivot : A) (ys zs vs : List A)
      (at_mid : Narrowed sorting left (suc right) pivot ys mid mid mid)
      (lower : Moved ys zs left mid) (lower_ordered : OrderedIn zs left mid)
      (upper : Moved zs vs (mid + 1) (suc right))
      (upper_ordered : OrderedIn vs (mid + 1) (suc right)) where
    kept : (i : ℕ) → i ≤ mid → get_elem? vs i ≡ get_elem? zs i
    kept i h = upper.outside i (inl (omega arith))

    at_pivot : get_elem? vs mid ≡ some pivot
    at_pivot = kept mid (omega arith) ∙ lower.outside mid (inr (omega arith)) ∙ at_mid.here

    pivot_equal : (i : ℕ) (x : A) → i ≡ mid → get_elem? vs i ≡ some x → x ≡ pivot
    pivot_equal i x e p = some-injective x pivot (sym p ∙ ap (get_elem? vs) e ∙ at_pivot)

    not_above :
        (i : ℕ) (x : A)
        → left ≤ i
        → i ≤ mid
        → get_elem? vs i ≡ some x
        → sorting.compare_elems x pivot ≢ greater
    not_above i x h k p = elim (Bool-cases (ltb i mid)) [
      | inl below ↦
          let (j, a, b, e) = lower.from i x h (omega (tests, below)) (sym (kept i k) ∙ p) in
          at_mid.lows j x a b e
      | inr here ↦
          let e = pivot_equal i x (omega (tests, here)) p in
          λ above. grind (arith, equal_self sorting laws pivot, e, above)
    ]

    not_below :
        (i : ℕ) (x : A)
        → mid ≤ i
        → i ≤ right
        → get_elem? vs i ≡ some x
        → sorting.compare_elems pivot x ≢ greater
    not_below i x h k p = elim (Bool-cases (ltb mid i)) [
      | inl after ↦
          let (j, a, b, e) = upper.from i x (omega (tests, after)) (omega arith) p in
          at_mid.highs j x (omega arith) b (sym (lower.outside j (inr (omega arith))) ∙ e)
      | inr here ↦
          let e = pivot_equal i x (omega (tests, here)) p in
          λ above. grind (arith, equal_self sorting laws pivot, e, above)
    ]

    joined : OrderedIn vs left (suc right)
    joined i j x y a b c p q = elim (Bool-cases (ltb j mid)) [
      | inl low ↦
          lower_ordered i j x y a b (omega (tests, low)) (sym (kept i (omega (tests, low))) ∙ p)
            (sym (kept j (omega (tests, low))) ∙ q)
      | inr not_low ↦ elim (Bool-cases (ltb mid i)) [
        | inl high ↦ upper_ordered i j x y (omega (tests, high)) b c p q
        | inr not_high ↦ λ above.
            not_above i x a (omega (tests, not_high)) p
              (laws.up x pivot y (not_below j y (omega (tests, not_low)) (omega arith) q) above)
      ]
    ]

  module _ (laws : SortLaws sorting) where
    q_sort_range-Sorts :
        (fuel : ℕ) (xs : List A) (left right : ℕ)
        → right < left + fuel
        → left ≤ right
        → right < length xs
        → (hi : ℕ) → hi ≡ suc right
        → Sorts xs (q_sort_range sorting fuel xs left right) left hi
    unfolding q_sort_range
    q_sort_range-Sorts zero xs left right f h k hi e = absurd (omega arith)
    q_sort_range-Sorts (suc fuel) xs left right f h k hi e =
        let (pivot, at_left) = get_elem?-some xs left (omega arith) in
        let p = q_sort_partition-Parted sorting laws xs left right pivot h k at_left in
        let n = p.narrowed in
        let lower =
          Sorts-or (ltb (left + 1) p.mid) p.span (q_sort_range sorting fuel p.span left (p.mid - 1))
            left p.mid
            (λ few.
              q_sort_range-Sorts fuel p.span left (p.mid - 1) (omega (tests, few, n.to_hi))
                (omega (tests, few)) (omega (tests, n.to_hi, n.fits)) p.mid (omega (tests, few)))
            (λ few. omega (tests, few)) in
        let upper =
          Sorts-or (ltb (p.mid + 1) right) lower.span
            (q_sort_range sorting fuel lower.span (p.mid + 1) right) (p.mid + 1) (suc right)
            (λ few.
              q_sort_range-Sorts fuel lower.span (p.mid + 1) right (omega (tests, few, n.from_lo))
                (omega (tests, few)) (omega (tests, n.fits, lower.moved.size)) (suc right) refl)
            (λ few. omega (tests, few)) in
        record {
          span = upper.span;
          ends = rw (q_sort_range, p.ends, lower.ends) upper.ends;
          moved = subst (Moved xs upper.span left) (sym e) (
              Moved-trans xs p.span upper.span left (suc right) p.moved (
                Moved-trans p.span lower.span upper.span left (suc right)
                  (Moved-widen p.span lower.span left p.mid left (suc right) (omega arith)
                    (omega (arith, n.to_hi)) lower.moved)
                  (Moved-widen lower.span upper.span (p.mid + 1) (suc right) left (suc right)
                    (omega (arith, n.from_lo)) (omega arith) upper.moved)));
          ordered = subst (OrderedIn upper.span left) (sym e) (
              joined laws left right p.mid pivot p.span lower.span upper.span n lower.moved
                lower.ordered upper.moved upper.ordered);
        }

    -- Where the comparison orders the elements, QSort of any span ends, and leaves the same elements
    -- in order.
    pub q_sort-sorts :
        (xs : List A)
        → (ys : List A) × (q_sort sorting xs ≡ some ys) × Perm ys xs × IsSorted sorting ys
    unfolding q_sort
    q_sort-sorts [] = ([], refl, Perm.rfl, λ i j x y h p q. absurd (none-ne-some x p))
    q_sort-sorts (x ∷ xs) =
        let s =
          q_sort_range-Sorts (length (x ∷ xs)) (x ∷ xs) 0 (length xs) (omega arith) (omega arith)
            (omega arith) (length (x ∷ xs)) refl in
        (
          s.span,
          s.ends,
          s.moved.perm,
          λ i j a b h p q.
              s.ordered i j a b (omega arith) h
                (rw (← s.moved.size) (get_elem?-length s.span j b q)) p q,
        )
