-- ===== src/Sorted/Tests.antt =====
-- The laws hold for numbers, `cArraySortVal<UINT>`, with runs on them.
use gray_core.Base.{ℕ, ◌≡◌, refl, List, [], ◌∷◌, some, ltb, ◌==◌, if◌then◌else◌, arith}
use gray_core.Base.Compared.{Compared, less, equal, greater}
use gray_core.Sorted.{Sorting, find_near, replace_old, is_span_sorted}
use mathlib.Core.List.{Perm}
use gray_core.Sorted.QuickSort.{
  q_sort, q_sort_range, q_sort_partition, partition, in_order, swap_at,
}
use gray_core.Sorted.QuickSort.Sorts.{q_sort-sorts}
use gray_core.Sorted.Search.{Ends, find_near-Place}
use gray_core.Sorted.Laws.{SortLaws, IsSorted, InOrder-keys}
use gray_core.Sorted.Adding.{Adds, add_sort-Adds}
use gray_core.Sorted.Arrays.{is_span_sorted-IsSorted}

abbrev compare_numbers : ℕ → ℕ → Compared
compare_numbers a b = if ltb a b then less else if ltb b a then greater else equal

abbrev numbers : Sorting ℕ ℕ
numbers = record {
  compare_elems = compare_numbers;
  compare_key = compare_numbers;
  same = λ a b. a == b;
  blank = 0;
}

numbers-SortLaws : SortLaws numbers
numbers-SortLaws = record {
  flips = λ a b. ground arith;
  up = λ c a b h e. ground arith;
  down = λ c a b h e. ground arith;
  alike = λ a b c e. ground arith;
  key_up = λ c a b h e. ground arith;
  key_down = λ c a b h e. ground arith;
}

abbrev three : List ℕ
three = 2 ∷ 5 ∷ 9 ∷ []

three-IsSorted : IsSorted numbers three
three-IsSorted =
    (is_span_sorted-IsSorted numbers numbers-SortLaws three).0 (unfold is_span_sorted in refl)

find_near-Place_example : Ends (compare_numbers 6) three (find_near (compare_numbers 6) three)
find_near-Place_example =
    find_near-Place (compare_numbers 6) three
      (InOrder-keys numbers numbers-SortLaws three 6 three-IsSorted)

add_sort-Adds_example : Adds numbers numbers-SortLaws replace_old 6 three
add_sort-Adds_example = add_sort-Adds numbers numbers-SortLaws replace_old 6 three three-IsSorted

abbrev mixed : List ℕ
mixed = 5 ∷ 2 ∷ 9 ∷ 2 ∷ 7 ∷ []

q_sort-sorts_example :
    (ys : List ℕ) × (q_sort numbers mixed ≡ some ys) × Perm ys mixed × IsSorted numbers ys
q_sort-sorts_example = q_sort-sorts numbers numbers-SortLaws mixed

q_sort-mixed : q_sort numbers mixed ≡ some (2 ∷ 2 ∷ 5 ∷ 7 ∷ 9 ∷ [])
unfolding q_sort q_sort_range q_sort_partition partition in_order swap_at
q_sort-mixed = refl

-- One element is a range whose two ends are the same, which QSortPartition asserts against.
q_sort-one : q_sort numbers (5 ∷ []) ≡ some (5 ∷ [])
unfolding q_sort q_sort_range q_sort_partition partition in_order swap_at
q_sort-one = refl
