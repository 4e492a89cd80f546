-- ===== src/StrT.antt =====
-- include/StrT.h and include/StrT.inl, for `wchar_t`: strings as the lists of their characters before
-- the final 0, and spans of characters as lists. A character is a number that is not negative; `char`
-- has a sign in some compilers, and its case goes by ToLowerA, which is not modelled here. The length limits that stop a runaway read, `k_LEN_MAX`, are
-- taken to be above the lengths. A null pointer is modelled where a comparison tests for it;
-- FindStrN and FindStrNI are of a text and a string that are present.
pub mod Compare
pub mod Order
pub mod Search
pub mod Find
pub mod Match
mod Tests
use gray_core.Base.{
  ℕ, zero, suc, ◌+◌, ◌-◌, Bool, true, false, not, ◌&&◌, ◌||◌, List, [], ◌∷◌, Option, none, some,
  ltb, leb, ◌==◌, if◌then◌else◌, length, take, drop, ◌<◌,
}
use gray_core.Base.Int.{ℤ, pos, negsuc, ◌-ℤ◌, eq_ℤ}
use gray_core.StrChar.{cmp_i_char, is_c_sym}
use gray_core.Base.Compared.{Compared, less, equal, greater}

-- A string has no character 0.
abbrev pub IsText : List ℕ → Type 0
IsText [] = Unit {0}
IsText (c ∷ cs) = (0 < c) × IsText cs

abbrev pub code_diff : ℕ → ℕ → ℤ
code_diff a b = pos a -ℤ pos b

-- The loop of Cmp and of CmpI, with the difference of two characters.
unfoldable pub cmp_by : (ℕ → ℕ → ℤ) → List ℕ → List ℕ → ℤ
cmp_by diff [] [] = diff 0 0
cmp_by diff [] (b ∷ bs) = diff 0 b
cmp_by diff (a ∷ as1) [] = diff a 0
cmp_by diff (a ∷ as1) (b ∷ bs) =
    let rest = cmp_by diff as1 bs in if eq_ℤ (diff a b) (pos 0) then rest else diff a b

-- The loop of CmpN and of CmpIN.
unfoldable pub cmp_n_by : (ℕ → ℕ → ℤ) → ℕ → List ℕ → List ℕ → ℤ
cmp_n_by diff zero as1 bs = pos 0
cmp_n_by diff (suc n) [] [] = diff 0 0
cmp_n_by diff (suc n) [] (b ∷ bs) = diff 0 b
cmp_n_by diff (suc n) (a ∷ as1) [] = diff a 0
cmp_n_by diff (suc n) (a ∷ as1) (b ∷ bs) =
    let rest = cmp_n_by diff n as1 bs in if eq_ℤ (diff a b) (pos 0) then rest else diff a b

abbrev pub minus_one : ℤ
minus_one = negsuc 0

-- What the comparisons say of null pointers.
abbrev pub with_null : (List ℕ → List ℕ → ℤ) → Option (List ℕ) → Option (List ℕ) → ℤ
with_null f none none = pos 0
with_null f none (some b) = minus_one
with_null f (some a) none = pos 1
with_null f (some a) (some b) = f a b

unfoldable pub cmp : Option (List ℕ) → Option (List ℕ) → ℤ
unfolding cmp_by
cmp a b = with_null (cmp_by code_diff) a b

unfoldable pub cmp_i : Option (List ℕ) → Option (List ℕ) → ℤ
unfolding cmp_by
cmp_i a b = with_null (cmp_by cmp_i_char) a b

unfoldable pub cmp_n : Option (List ℕ) → Option (List ℕ) → ℕ → ℤ
unfolding cmp_n_by
cmp_n a b n = with_null (cmp_n_by code_diff n) a b

unfoldable pub cmp_in : Option (List ℕ) → Option (List ℕ) → ℕ → ℤ
unfolding cmp_n_by
cmp_in a b n = with_null (cmp_n_by cmp_i_char n) a b

unfoldable pub starts_with_i : List ℕ → List ℕ → Bool
starts_with_i str [] = true
starts_with_i [] (p ∷ prefix) = false
starts_with_i (c ∷ str) (p ∷ prefix) = eq_ℤ (cmp_i_char p c) (pos 0) && starts_with_i str prefix

-- EndsWithI of spans, `none` for a null span.
unfoldable pub ends_with_i : Option (List ℕ) → Option (List ℕ) → Bool
unfolding cmp_by
ends_with_i none none = true
ends_with_i none (some post_fix) = false
ends_with_i (some str) none = false
ends_with_i (some str) (some post_fix) =
    if ltb (length str) (length post_fix)
    then false
    else eq_ℤ (cmp_by cmp_i_char (drop (length str - length post_fix) str) post_fix) (pos 0)

-- What CmpHeadI takes a character of a string for: any but those of symbols ends it.
abbrev pub at_head : List ℕ → ℕ
at_head [] = 0
at_head (c ∷ cs) = if is_c_sym c then c else 0

-- CmpHeadI of two strings.
unfoldable pub cmp_head_i : List ℕ → List ℕ → ℤ
cmp_head_i [] elem = cmp_i_char 0 (at_head elem)
cmp_head_i (c ∷ cs) [] = cmp_i_char (at_head (c ∷ cs)) 0
cmp_head_i (c ∷ cs) (e ∷ es) =
    let rest = cmp_head_i cs es in
    let diff = cmp_i_char (at_head (c ∷ cs)) (at_head (e ∷ es)) in
    if not (eq_ℤ diff (pos 0)) || at_head (c ∷ cs) == 0 then diff else rest

abbrev pub sign : ℤ → Compared
sign (pos zero) = equal
sign (pos (suc n)) = greater
sign (negsuc n) = less

-- TableFind and TableFindHead of a string in a table, by their comparisons. `none` for
-- `k_ITERATE_BAD`.
abbrev find_equal : (List ℕ → List ℕ → ℤ) → ℕ → List ℕ → List (List ℕ) → Option ℕ
find_equal compare_to i str [] = none
find_equal compare_to i str (name ∷ names) =
    let rest = find_equal compare_to (suc i) str names in
    if eq_ℤ (compare_to str name) (pos 0) then some i else rest

abbrev is_empty_str : List ℕ → Bool
is_empty_str [] = true
is_empty_str (c ∷ cs) = false

unfoldable pub table_find : List ℕ → List (List ℕ) → Option ℕ
unfolding cmp_by
table_find str names = if is_empty_str str then none else find_equal (cmp_by cmp_i_char) 0 str names

unfoldable pub table_find_head : List ℕ → List (List ℕ) → Option ℕ
unfolding cmp_head_i
table_find_head str names = if is_empty_str str then none else find_equal cmp_head_i 0 str names

-- IsTableSorted: neighbours are in order, and not equal.
unfoldable pub is_table_sorted : List (List ℕ) → Bool
unfolding cmp_by
is_table_sorted [] = true
is_table_sorted (x ∷ []) = true
is_table_sorted (x ∷ (y ∷ ys)) = elim (sign (cmp_by cmp_i_char x y)) [
  | less ↦ is_table_sorted (y ∷ ys)
  | equal ↦ false
  | greater ↦ false
]
