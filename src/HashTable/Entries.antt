-- ===== src/HashTable/Entries.antt =====
-- A table as a partial function from hash codes to elements.
use gray_core.Base.{ℕ, ◌≡◌, ◌⊎◌, inl, inr, refl, sym, ap, ◌∙◌, some, none, List, get_elem?, arith}
use gray_core.Base.Compared.{equal}
use gray_core.Sorted.Laws.{SortLaws, IsSorted}
use gray_core.Sorted.Keys.{Missing, find_for_key_sound}
use gray_core.HashTable.{Hashed, compare_codes, by_code, get_bucket_num, find_arg_for_key}

pub compare_codes-equal : (m n : ℕ) → compare_codes m n ≡ equal → m ≡ n
compare_codes-equal m n h = ground arith

module _ {ℓ} {A : Type ℓ} (hashed : Hashed A) (bits : ℕ) where
  pub by_code-SortLaws : SortLaws (by_code hashed bits)
  by_code-SortLaws = record {
    flips = λ a b. ground arith;
    up = λ c a b h e. ground arith;
    down = λ c a b h e. ground arith;
    alike = λ a b c e. ground arith;
    key_up = λ c a b h e. ground arith;
    key_down = λ c a b h e. ground arith;
  }

  -- An array holds an element.
  abbrev pub Holds : List A → A → Type ℓ
  Holds xs y = (i : ℕ) × (get_elem? xs i ≡ some y)

  abbrev pub Unique : List A → Type ℓ
  Unique xs =
      (i j : ℕ) (x y : A)
      → get_elem? xs i ≡ some x
      → get_elem? xs j ≡ some y
      → hashed.get_hash_code x ≡ hashed.get_hash_code y
      → i ≡ j

  -- Every bucket is sorted, with no two elements of one hash code, and an element is in the bucket
  -- of its hash code.
  pub record IsTable (table : ℕ → List A) : Type ℓ where
    pub sorted : (b : ℕ) → IsSorted (by_code hashed bits) (table b)
    pub unique : (b : ℕ) → Unique (table b)
    pub placed :
        (b : ℕ) (y : A)
        → Holds (table b) y
        → get_bucket_num hashed bits (hashed.get_hash_code y) ≡ b

  -- An element of the table with a hash code.
  abbrev pub Entry : (ℕ → List A) → ℕ → A → Type ℓ
  Entry table rid y = (hashed.get_hash_code y ≡ rid) × ((b : ℕ) × Holds (table b) y)

  abbrev pub NoEntry : (ℕ → List A) → ℕ → Type ℓ
  NoEntry table rid = (y : A) → hashed.get_hash_code y ≡ rid → (b : ℕ) → Holds (table b) y → ⊥

  pub no_entry :
      (table : ℕ → List A) (rid : ℕ)
      → IsTable table
      → Missing (by_code hashed bits) by_code-SortLaws rid (table (get_bucket_num hashed bits rid))
      → NoEntry table rid
  no_entry table rid is missing y code b (i, at) =
      missing i y
        (ap (λ c. get_elem? (table c) i)
            (ap (get_bucket_num hashed bits) (sym code) ∙ is.placed b y (i, at))
          ∙ at)
        (ground (arith, code))

  -- FindArgForKey ends; it gives the element of the table with the hash code, and nullptr only when
  -- no bucket holds one.
  pub find_arg_for_key-Entry :
      (table : ℕ → List A) (rid : ℕ)
      → IsTable table
      → ((y : A) × (find_arg_for_key hashed bits rid table ≡ some (some y)) × Entry table rid y)
        ⊎ ((find_arg_for_key hashed bits rid table ≡ some none) × NoEntry table rid)
  unfolding find_arg_for_key
  find_arg_for_key-Entry table rid is =
      elim (find_for_key_sound (by_code hashed bits) by_code-SortLaws rid
        (table (get_bucket_num hashed bits rid)) (is.sorted (get_bucket_num hashed bits rid))) [
          | inl (i, ends, e) ↦ inl (
            e.element,
            rw (ends, e.at) refl,
            (
              sym (compare_codes-equal rid (hashed.get_hash_code e.element) e.is_equal),
              (get_bucket_num hashed bits rid, (i, e.at)),
            ),
          )
          | inr (ends, missing) ↦ inr (rw ends refl, no_entry table rid is missing)
        ]
