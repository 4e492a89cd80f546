-- ===== src/HashTable/Tests.antt =====
-- Tables of numbers that are their own hash codes modulo 1000, in eight buckets.
use mathlib.Core.Option.{some-injective, none-ne-some}
use gray_core.Base.{
  ℕ, zero, suc, ◌%◌, ◌==◌, List, [], ◌∷◌, ◌≡◌, ◌⊎◌, inl, inr, refl, sym, get_elem?, false, Option,
  some, none, arith,
}
use gray_core.Sorted.{
  is_span_sorted, add_sort, add_near, find_near, near_loop, add_presorted, find_for_key,
}
use gray_core.Sorted.Arrays.{is_span_sorted-IsSorted}
use gray_core.HashTable.{
  Hashed, by_code, get_bucket_num, find_arg_for_key, delete_key, add, add_special, get_total_count,
  is_empty_table, set_bucket, count_below, empty_below,
}
use gray_core.HashTable.Entries.{
  by_code-SortLaws, Unique, IsTable, Entry, NoEntry, find_arg_for_key-Entry,
}
use gray_core.HashTable.Changes.{set_bucket-IsTable, Special, add_special-Special}
use gray_core.HashTable.Deleting.{Deletes, delete_key-Deletes}

abbrev by_rest : Hashed ℕ
by_rest = record { get_hash_code = λ n. n % 1000; same = λ m n. m == n; blank = 0 }

abbrev nothing : ℕ → List ℕ
nothing b = []

nothing-IsTable : IsTable by_rest 3 nothing
nothing-IsTable = record {
  sorted = λ b i j x y lt at_i at_j. absurd (none-ne-some x at_i);
  unique = λ b i j x y at_i at_j same. absurd (none-ne-some x at_i);
  placed = λ b y (i, at). absurd (none-ne-some y at);
}

-- Two elements of the bucket 5.
abbrev pair : List ℕ
pair = 5 ∷ 1013 ∷ []

pair_at : (i y : ℕ) → get_elem? pair i ≡ some y → ((i ≡ 0) × (5 ≡ y)) ⊎ ((i ≡ 1) × (1013 ≡ y))
pair_at zero y at = inl (refl, some-injective 5 y at)
pair_at (suc zero) y at = inr (refl, some-injective 1013 y at)
pair_at (suc (suc i)) y at = absurd (none-ne-some y at)

pair-Unique : Unique by_rest 3 pair
pair-Unique i j x y at_i at_j same = ground (arith, pair_at i x at_i, pair_at j y at_j, same)

abbrev two : ℕ → List ℕ
two = set_bucket by_rest 3 nothing 5 pair

two-IsTable : IsTable by_rest 3 two
two-IsTable =
    set_bucket-IsTable by_rest 3 nothing 5 pair nothing-IsTable
      ((is_span_sorted-IsSorted (by_code by_rest 3) (by_code-SortLaws by_rest 3) pair).0
        (unfold is_span_sorted in refl))
      pair-Unique (λ y (i, at). in_five y (pair_at i y at))
  where
    in_five :
        {i : ℕ} (y : ℕ)
        → ((i ≡ 0) × (5 ≡ y)) ⊎ ((i ≡ 1) × (1013 ≡ y))
        → get_bucket_num by_rest 3 (y % 1000) ≡ 5
    in_five y (inl (h, e)) = rw (sym e) (unfold get_bucket_num in refl)
    in_five y (inr (h, e)) = rw (sym e) (unfold get_bucket_num in refl)

find_arg_for_key-Entry_example :
    ((y : ℕ) × (find_arg_for_key by_rest 3 13 two ≡ some (some y)) × Entry by_rest 3 two 13 y)
    ⊎ ((find_arg_for_key by_rest 3 13 two ≡ some none) × NoEntry by_rest 3 two 13)
find_arg_for_key-Entry_example = find_arg_for_key-Entry by_rest 3 two 13 two-IsTable

add_special-Special_example : Special by_rest 3 two 21 (add_special by_rest 3 21 two)
add_special-Special_example = add_special-Special by_rest 3 two 21 two-IsTable

delete_key-Deletes_example : Deletes by_rest 3 two 13 (delete_key by_rest 3 13 two)
delete_key-Deletes_example = delete_key-Deletes by_rest 3 two 13 two-IsTable

found : find_arg_for_key by_rest 3 13 two ≡ some (some 1013)
unfolding find_arg_for_key get_bucket_num find_for_key find_near near_loop
found = refl

abbrev returned : Option ((ℕ → List ℕ) × Option ℕ) → Option (Option ℕ)
returned none = none
returned (some result) = some result.1

-- A new element is put into the bucket; one whose hash code is there already is not.
special_new : find_arg_for_key by_rest 3 21 two ≡ some none
unfolding find_arg_for_key get_bucket_num find_for_key find_near near_loop
special_new = refl

-- Add of another element with a hash code that is in the table takes the element at the index -1.
add_again : returned (add by_rest 3 2005 two) ≡ some none
unfolding add get_bucket_num add_sort add_near find_near near_loop
add_again = refl

add_new : returned (add by_rest 3 21 two) ≡ some (some 21)
unfolding add get_bucket_num add_sort add_near add_presorted find_near near_loop
add_new = refl

counted : (get_total_count by_rest 3 two ≡ 2) × (is_empty_table by_rest 3 two ≡ false)
unfolding get_total_count is_empty_table count_below empty_below
counted = (refl, refl)
