-- ===== src/HashTable/Whole.antt =====
-- The buckets of a table, and RemoveAll.
use native.Mathlib.Nat.{mod-lt, one-le-pow}
use gray_core.Base.{
  ℕ, zero, suc, ◌<◌, ◌≡◌, inl, inr, refl, true, false, Bool-cases, some, List, [], get_elem?, ltb,
  lt→ltb, arith,
}
use mathlib.Core.Option.{none-ne-some}
use gray_core.Base.Bits.{bit_and-low}
use gray_core.HashTable.{
  Hashed, get_bucket_num, bucket_qty, remove_all, count_below, get_total_count, empty_below,
  is_empty_table,
}
use gray_core.HashTable.Entries.{Holds, IsTable, NoEntry}

module _ {ℓ} {A : Type ℓ} (hashed : Hashed A) (bits : ℕ) where
  -- GetBucketNum gives a bucket of the table, for every hash code.
  pub get_bucket_num-lt : (rid : ℕ) → get_bucket_num hashed bits rid < bucket_qty hashed bits
  unfolding get_bucket_num
  get_bucket_num-lt rid =
      rw (bit_and-low bits rid) (mod-lt rid (omega (arith, one-le-pow bits 2 (omega arith))))

  below :
      (table : ℕ → List A) (qty : ℕ)
      → ((b : ℕ) → b < qty → table b ≡ [])
      → (count_below hashed bits qty table ≡ 0) × (empty_below hashed bits qty table ≡ true)
  unfolding count_below empty_below
  below table zero h = (refl, refl)
  below table (suc qty) h =
      let rest = below table qty (λ b lt. h b (omega (arith, lt))) in
      (rw (h qty (omega arith), rest.0) (omega arith), rw (h qty (omega arith), rest.1) refl)

  -- RemoveAll leaves a table in order that holds no entry, whose count is 0 and that is empty.
  pub remove_all-empties :
      (table : ℕ → List A)
      → IsTable hashed bits table
      → IsTable hashed bits (remove_all hashed bits table)
        × (get_total_count hashed bits (remove_all hashed bits table) ≡ 0)
        × (is_empty_table hashed bits (remove_all hashed bits table) ≡ true)
        × ((rid : ℕ) → NoEntry hashed bits (remove_all hashed bits table) rid)
  unfolding get_total_count is_empty_table
  remove_all-empties table is =
      let none_left = below (remove_all hashed bits table) (bucket_qty hashed bits) cleared in
      (in_order, none_left.0, none_left.1, λ rid y code b held. nothing b y held)
    where
      cleared : (b : ℕ) → b < bucket_qty hashed bits → remove_all hashed bits table b ≡ []
      cleared b lt = unfold remove_all in rw (lt→ltb b (bucket_qty hashed bits) lt) refl

      kept :
          (b i : ℕ) (y : A)
          → get_elem? (remove_all hashed bits table b) i ≡ some y
          → (get_elem? (table b) i ≡ some y) × (ltb b (bucket_qty hashed bits) ≡ false)
      kept b i y at =
          unfold remove_all in
          elim (Bool-cases (ltb b (bucket_qty hashed bits))) [
            | inl inside ↦ absurd (none-ne-some y (rw (remove_all, inside) at at))
            | inr outside ↦ (rw (remove_all, outside) at at, outside)
          ]

      nothing : (b : ℕ) (y : A) → Holds hashed bits (remove_all hashed bits table b) y → ⊥
      nothing b y (i, at) =
          let (before, outside) = kept b i y at in
          ground
            (arith, is.placed b y (i, before), outside, get_bucket_num-lt (hashed.get_hash_code y))

      in_order : IsTable hashed bits (remove_all hashed bits table)
      in_order = record {
        sorted = λ b i j x y lt at_i at_j. absurd (nothing b x (i, at_i));
        unique = λ b i j x y at_i at_j same. absurd (nothing b x (i, at_i));
        placed = λ b y held. absurd (nothing b y held);
      }
