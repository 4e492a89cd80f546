-- ===== src/Sorted/Laws.antt =====
-- The laws of an order that the operations of `cArraySorted` rely on, and sorted arrays.
use gray_core.Base.{
  ℕ, ◌≤◌, ◌<◌, ◌≡◌, ◌≢◌, inl, inr, ◌∙◌, List, some, get_elem?, arith, ltb, Bool-cases, tests, sym,
  ap,
}
use mathlib.Core.Option.{some-injective}
use gray_core.Base.Compared.{less, equal, greater, flip}
use gray_core.Sorted.{Sorting}
use gray_core.Sorted.Search.{InOrder}

-- The comparison of elements orders them, and a key compares with them as an element of its
-- class would.
pub record SortLaws {ℓ κ} {A : Type ℓ} {K : Type κ} (sorting : Sorting A K) : Type (ℓ ⊔ κ) where
  pub flips : (a b : A) → sorting.compare_elems b a ≡ flip (sorting.compare_elems a b)
  pub up :
      (c a b : A)
      → sorting.compare_elems a b ≢ greater
      → sorting.compare_elems c b ≡ greater
      → sorting.compare_elems c a ≡ greater
  pub down :
      (c a b : A)
      → sorting.compare_elems a b ≢ greater
      → sorting.compare_elems c a ≡ less
      → sorting.compare_elems c b ≡ less
  pub alike :
      (a b c : A)
      → sorting.compare_elems a b ≡ equal
      → sorting.compare_elems a c ≡ sorting.compare_elems b c
  pub key_up :
      (k : K) (a b : A)
      → sorting.compare_elems a b ≢ greater
      → sorting.compare_key k b ≡ greater
      → sorting.compare_key k a ≡ greater
  pub key_down :
      (k : K) (a b : A)
      → sorting.compare_elems a b ≢ greater
      → sorting.compare_key k a ≡ less
      → sorting.compare_key k b ≡ less

module _ {ℓ κ} {A : Type ℓ} {K : Type κ} (sorting : Sorting A K) where
  -- No element is greater than one after it.
  abbrev pub IsSorted : List A → Type ℓ
  IsSorted xs =
      (i j : ℕ) (x y : A)
      → i < j
      → get_elem? xs i ≡ some x
      → get_elem? xs j ≡ some y
      → sorting.compare_elems x y ≢ greater

  module _ (laws : SortLaws sorting) where
    pub equal_self : (a : A) → sorting.compare_elems a a ≡ equal
    equal_self a = grind (arith, laws.flips a a)

    not_greater_same :
        (xs : List A) (i j : ℕ) (x y : A)
        → IsSorted xs
        → i ≤ j
        → get_elem? xs i ≡ some x
        → get_elem? xs j ≡ some y
        → sorting.compare_elems x y ≢ greater
    not_greater_same xs i j x y sorted le at_i at_j = elim (Bool-cases (ltb i j)) [
      | inl below ↦ sorted i j x y (omega (tests, below)) at_i at_j
      | inr same ↦ λ above. grind (
        arith,
        above,
        equal_self x,
        some-injective x y (sym at_i ∙ ap (get_elem? xs) (here (omega (tests, same))) ∙ at_j),
      )
    ]
      where
        here : j ≤ i → i ≡ j
        here h = omega arith

    pub InOrder-elems : (xs : List A) (c : A) → IsSorted xs → InOrder (sorting.compare_elems c) xs
    InOrder-elems xs c sorted = record {
      up = λ i j x y le at_i at_j. laws.up c x y (not_greater_same xs i j x y sorted le at_i at_j);
      down =
          λ i j x y le at_i at_j. laws.down c x y (not_greater_same xs i j x y sorted le at_i at_j);
    }

    pub InOrder-keys : (xs : List A) (k : K) → IsSorted xs → InOrder (sorting.compare_key k) xs
    InOrder-keys xs k sorted = record {
      up = λ i j x y le at_i at_j.
          laws.key_up k x y (not_greater_same xs i j x y sorted le at_i at_j);
      down = λ i j x y le at_i at_j.
          laws.key_down k x y (not_greater_same xs i j x y sorted le at_i at_j);
    }
