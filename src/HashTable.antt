-- ===== src/HashTable.antt =====
-- include/cHashTable.h, with cArraySortStructHash of include/cArraySort.h: a table of buckets, each
-- of which is an array that is sorted by hash codes. Hash codes are 64-bit numbers and a bucket is
-- found by the lowest bits of one. A table is a function from the bucket numbers.
pub mod Entries
pub mod Changes
pub mod Whole
mod Tests
pub mod Deleting
use Prim.Native.Nat.{bit_and}
use mathlib.Core.Option.{map}
use gray_core.Base.{
  ℕ, zero, suc, ◌+◌, ◌-◌, ◌^◌, Bool, true, false, ◌&&◌, Option, none, some, List, [], length,
  get_elem?, ltb, ◌==◌, if◌then◌else◌,
}
use gray_core.Base.Compared.{Compared, less, equal, greater}
use gray_core.Sorted.{
  Sorting, Near, Added, ignore_new, keep_old, find_near, find_for_key, remove_key, add_sort,
  add_presorted,
}

abbrev pub compare_codes : ℕ → ℕ → Compared
compare_codes m n = if m == n then equal else if ltb m n then less else greater

-- What a position in a table is: a bucket and an index in it, `none` for k_ITERATE_BAD.
pub record HashIterator : Type 0 where
  pub bucket_num : ℕ
  pub element : Option ℕ

-- A class of elements: get_HashCode, IsEqual3 and the default constructor.
pub record Hashed {ℓ} (A : Type ℓ) : Type ℓ where
  pub get_hash_code : A → ℕ
  pub same : A → A → Bool
  pub blank : A

module _ {ℓ} {A : Type ℓ} (hashed : Hashed A) (bits : ℕ) where
  -- cArraySortStructHash.
  abbrev pub by_code : Sorting A ℕ
  by_code = record {
    compare_elems = λ x y. compare_codes (hashed.get_hash_code x) (hashed.get_hash_code y);
    compare_key = λ key y. compare_codes key (hashed.get_hash_code y);
    same = hashed.same;
    blank = hashed.blank;
  }

  abbrev pub bucket_qty : ℕ
  bucket_qty = 2 ^ bits

  unfoldable pub get_bucket_num : ℕ → ℕ
  get_bucket_num rid = bit_and rid (bucket_qty - 1)

  abbrev pub set_bucket : (ℕ → List A) → ℕ → List A → ℕ → List A
  set_bucket table b xs a = if a == b then xs else table a

  unfoldable pub find_i_for_key : ℕ → (ℕ → List A) → Option HashIterator
  find_i_for_key rid table =
      let b = get_bucket_num rid in
      map (λ (i : Option ℕ). record { bucket_num = b; element = i })
        (find_for_key by_code rid (table b))

  -- cArraySortStructHash::FindArgForKey.
  abbrev pub element_found : List A → Option (Option ℕ) → Option (Option A)
  element_found xs none = none
  element_found xs (some none) = some none
  element_found xs (some (some i)) = map some (get_elem? xs i)

  unfoldable pub find_arg_for_key : ℕ → (ℕ → List A) → Option (Option A)
  find_arg_for_key rid table =
      let xs = table (get_bucket_num rid) in element_found xs (find_for_key by_code rid xs)

  unfoldable pub delete_key : ℕ → (ℕ → List A) → Option ((ℕ → List A) × Bool)
  delete_key rid table =
      let b = get_bucket_num rid in
      elim (remove_key by_code rid (table b)) [
        | none ↦ none
        | some left ↦ some (set_bucket table b left.0, left.1)
      ]

  -- cHashTableStruct::Add, with the element at the index that AddSort returns: `none` for the
  -- index k_ITERATE_BAD, which is no index of the bucket.
  abbrev pub element_added : Added A → Option A
  element_added added = elim added.index [ none ↦ none | some i ↦ get_elem? added.array i ]

  unfoldable pub add : A → (ℕ → List A) → Option ((ℕ → List A) × Option A)
  add x table =
      let b = get_bucket_num (hashed.get_hash_code x) in
      elim (add_sort by_code keep_old x (table b)) [
        | none ↦ none
        | some added ↦ some (set_bucket table b added.array, element_added added)
      ]

  -- AddSpecial gives the element that is there already, else `none` for nullptr.
  unfoldable pub add_special : A → (ℕ → List A) → Option ((ℕ → List A) × Option A)
  add_special x table =
      let b = get_bucket_num (hashed.get_hash_code x) in
      elim (find_near (by_code.compare_elems x) (table b)) [
        | none ↦ none
        | some near ↦ elim near.result [
          | equal ↦ some (table, get_elem? (table b) near.index)
          | less ↦
              some
                (set_bucket table b (add_presorted by_code near.index less x (table b)).array, none)
          | greater ↦ some (
            set_bucket table b (add_presorted by_code near.index greater x (table b)).array,
            none,
          )
        ]
      ]

  -- The loops over the buckets below a number.
  unfoldable pub count_below : ℕ → (ℕ → List A) → ℕ
  count_below zero table = 0
  count_below (suc b) table = count_below b table + length (table b)

  unfoldable pub get_total_count : (ℕ → List A) → ℕ
  get_total_count table = count_below bucket_qty table

  unfoldable pub empty_below : ℕ → (ℕ → List A) → Bool
  empty_below zero table = true
  empty_below (suc b) table = empty_below b table && (length (table b) == 0)

  unfoldable pub is_empty_table : (ℕ → List A) → Bool
  is_empty_table table = empty_below bucket_qty table

  unfoldable pub remove_all : (ℕ → List A) → ℕ → List A
  remove_all table b = if ltb b bucket_qty then [] else table b
