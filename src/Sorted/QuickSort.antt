-- ===== src/Sorted/QuickSort.antt =====
-- `cSpanSorted::QSort` of include/cSpan.h, with its partition: the pivot is the first element and
-- is swapped from side to side. The two inner loops of QSortPartition are the same code but for
-- the bound that they move, so a turn of either is a round of one loop that knows its side. `none`
-- is an index outside of the span, or no fuel left.
mod Moved
mod Partition
pub mod Sorts
use gray_core.Base.{
  ℕ, zero, suc, ◌+◌, ◌-◌, ◌*◌, Bool, true, false, Option, none, some, List, [], ◌∷◌, length,
  get_elem?, set, ltb,
}
use gray_core.Base.Compared.{Compared, less, equal, greater}
use gray_core.Sorted.{Sorting}

-- cSpanX::Swap.
unfoldable pub swap_at {ℓ} : {A : Type ℓ} → List A → ℕ → ℕ → Option (List A)
swap_at xs i j = elim (get_elem? xs i) [
  | none ↦ none
  | some x ↦ elim (get_elem? xs j) [ none ↦ none | some y ↦ some (set (set xs i y) j x) ]
]

pub data Side : Type 0 where
  right_side : Side
  left_side : Side

module _ {ℓ κ} {A : Type ℓ} {K : Type κ} (sorting : Sorting A K) where
  -- The test of the inner loops: these two are already in order.
  unfoldable pub in_order : List A → ℕ → ℕ → Option Bool
  in_order xs i j = elim (get_elem? xs i) [
    | none ↦ none
    | some x ↦ elim (get_elem? xs j) [
      | none ↦ none
      | some y ↦ elim (sorting.compare_elems x y) [
        | less ↦ some true
        | equal ↦ some true
        | greater ↦ some false
      ]
    ]
  ]

  -- The span and the middle.
  unfoldable pub partition : ℕ → Side → List A → ℕ → ℕ → Option (List A × ℕ)
  partition zero side xs left right = none
  partition (suc fuel) right_side xs left right = elim (ltb left right) [
    | false ↦ some (xs, left)
    | true ↦ elim (in_order xs left right) [
      | none ↦ none
      | some true ↦ partition fuel right_side xs left (right - 1)
      | some false ↦ elim (swap_at xs right left) [
        | none ↦ none
        | some ys ↦ partition fuel left_side ys left right
      ]
    ]
  ]
  partition (suc fuel) left_side xs left right = elim (ltb left right) [
    | false ↦ some (xs, left)
    | true ↦ elim (in_order xs left right) [
      | none ↦ none
      | some true ↦ partition fuel left_side xs (left + 1) right
      | some false ↦ elim (swap_at xs left right) [
        | none ↦ none
        | some ys ↦ partition fuel right_side ys left right
      ]
    ]
  ]

  -- A swap is followed by a move of a bound, so there are at most two rounds for each element.
  unfoldable pub q_sort_partition : List A → ℕ → ℕ → Option (List A × ℕ)
  q_sort_partition xs left right = partition (2 * (right - left) + 2) right_side xs left right

  -- QSort of the elements from `left` to `right`.
  unfoldable pub q_sort_range : ℕ → List A → ℕ → ℕ → Option (List A)
  q_sort_range zero xs left right = none
  q_sort_range (suc fuel) xs left right = elim (q_sort_partition xs left right) [
    | none ↦ none
    | some (ys, mid) ↦
        let lower : Option (List A) = elim (ltb (left + 1) mid) [
          | true ↦ q_sort_range fuel ys left (mid - 1)
          | false ↦ some ys
        ] in
        elim lower [
          | none ↦ none
          | some zs ↦ elim (ltb (mid + 1) right) [
            | true ↦ q_sort_range fuel zs (mid + 1) right
            | false ↦ some zs
          ]
        ]
  ]

  -- QSort of the span.
  unfoldable pub q_sort : List A → Option (List A)
  q_sort [] = some []
  q_sort (x ∷ xs) = q_sort_range (length (x ∷ xs)) (x ∷ xs) 0 (length xs)

  -- isSpanSortedND: neighbours are in order and not equal.
  pub is_span_sorted_nd : List A → Bool
  is_span_sorted_nd [] = true
  is_span_sorted_nd (x ∷ []) = true
  is_span_sorted_nd (x ∷ (y ∷ ys)) = elim (sorting.compare_elems x y) [
    | greater ↦ false
    | equal ↦ false
    | less ↦ is_span_sorted_nd (y ∷ ys)
  ]
