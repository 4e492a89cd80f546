-- ===== src/Sorted.antt =====
-- include/cArraySort.h, `cArraySorted`, with `cSpanSorted` of include/cSpan.h: an array kept in the
-- order of a comparison. The search is the same code for a key and for an element, so it is
-- modelled once, with the comparison of what is looked for as an argument. `iHigh` of the source
-- may be -1: `high` here is `iHigh + 1`. Sizes are taken to stay below 2^30, so that the sum of
-- two indexes is in range. An index outside of the array is `none`.
pub mod Search
pub mod Laws
pub mod Keys
pub mod Adding
pub mod Arrays
pub mod QuickSort
mod Tests
use gray_core.Base.{
  ℕ, zero, suc, ◌+◌, ◌-◌, ◌/◌, ◌≤◌, ◌<◌, ◌≡◌, Bool, true, false, Option, none, some, List, [], ◌∷◌,
  length, get_elem?, set, ltb, leb, if◌then◌else◌,
}
use mathlib.Core.Option.{map}
use gray_core.Base.Insert.{insert_at, remove_at}
use gray_core.Base.Compared.{Compared, less, equal, greater}

-- What the search returns: an index and the result of the last comparison.
pub record Near : Type 0 where
  pub index : ℕ
  pub result : Compared

-- The two comparisons that a kind of array declares, and `IsEqual3` and the default constructor of
-- its elements.
pub record Sorting {ℓ κ} (A : Type ℓ) (K : Type κ) : Type (ℓ ⊔ κ) where
  pub compare_elems : A → A → Compared
  pub compare_key : K → A → Compared
  pub same : A → A → Bool
  pub blank : A

module _ {ℓ} {A : Type ℓ} (find : A → Compared) where
  -- The loop of FindINearKey and FindINearS.
  unfoldable pub near_loop : List A → ℕ → ℕ → ℕ → Near → Option Near
  near_loop xs zero low high near = elim (ltb low high) [ true ↦ none | false ↦ some near ]
  near_loop xs (suc fuel) low high near = elim (ltb low high) [
    | false ↦ some near
    | true ↦
        let i = (high - 1 + low) / 2 in
        elim (get_elem? xs i) [
          | none ↦ none
          | some x ↦ elim (find x) [
            | equal ↦ some (record { index = i; result = equal })
            | greater ↦ near_loop xs fuel (i + 1) high (record { index = i; result = greater })
            | less ↦ near_loop xs fuel low i (record { index = i; result = less })
          ]
        ]
  ]

  -- FindINearKey and FindINearS. Each turn narrows the bounds, so the size is fuel enough.
  unfoldable pub find_near : List A → Option Near
  find_near [] = some (record { index = 0; result = less })
  find_near (x ∷ xs) =
      near_loop (x ∷ xs) (length (x ∷ xs)) 0 (length (x ∷ xs)) (record { index = 0; result = less })

-- What an operation leaves: the array, and the index that it returns, `none` for
-- `k_ITERATE_BAD`.
pub record Added {ℓ} (A : Type ℓ) : Type ℓ where
  pub array : List A
  pub index : Option ℕ

pub data Collide : Type 0 where
  ignore_new : Collide
  replace_old : Collide
  debug_check : Collide
  keep_old : Collide

-- After an element that is less than the new one, at the place of one that is not.
abbrev pub insertion : ℕ → Compared → ℕ
insertion i greater = i + 1
insertion i equal = i
insertion i less = i

-- The switch of AddSort for an element that is equal to the new one but not the same.
abbrev pub collision {ℓ} : {A : Type ℓ} → Collide → ℕ → A → List A → Added A
collision ignore_new i x xs = record { array = xs; index = none }
collision replace_old i x xs = record { array = set xs i x; index = some i }
collision debug_check i x xs = record { array = xs; index = none }
collision keep_old i x xs = record { array = xs; index = none }

module _ {ℓ κ} {A : Type ℓ} {K : Type κ} (sorting : Sorting A K) where
  abbrev if_equal : Near → Option ℕ
  if_equal near = elim near.result [ equal ↦ some near.index | less ↦ none | greater ↦ none ]

  unfoldable pub find_for_key : K → List A → Option (Option ℕ)
  find_for_key key xs = map if_equal (find_near (sorting.compare_key key) xs)

  -- The loop of FindIFirstForKey, from an index whose element is equal.
  walk_back : K → List A → ℕ → Option ℕ
  walk_back key xs zero = some 0
  walk_back key xs (suc i) = elim (get_elem? xs i) [
    | none ↦ none
    | some x ↦ elim (sorting.compare_key key x) [
      | equal ↦ walk_back key xs i
      | less ↦ some (suc i)
      | greater ↦ some (suc i)
    ]
  ]

  -- The loop of FindILastForKey.
  walk_forward : K → List A → ℕ → ℕ → Option ℕ
  walk_forward key xs zero i = none
  walk_forward key xs (suc fuel) i = elim (leb (length xs) (i + 1)) [
    | true ↦ some i
    | false ↦ elim (get_elem? xs (i + 1)) [
      | none ↦ none
      | some x ↦ elim (sorting.compare_key key x) [
        | equal ↦ walk_forward key xs fuel (i + 1)
        | less ↦ some i
        | greater ↦ some i
      ]
    ]
  ]

  -- The walk from the index found, if there is one.
  abbrev from_found : (ℕ → Option ℕ) → Option (Option ℕ) → Option (Option ℕ)
  from_found walk none = none
  from_found walk (some none) = some none
  from_found walk (some (some i)) = map some (walk i)

  pub find_first_for_key : K → List A → Option (Option ℕ)
  find_first_for_key key xs = from_found (walk_back key xs) (find_for_key key xs)

  pub find_last_for_key : K → List A → Option (Option ℕ)
  find_last_for_key key xs = from_found (walk_forward key xs (length xs)) (find_for_key key xs)

  unfoldable pub remove_key : K → List A → Option (List A × Bool)
  remove_key key xs = map removed (find_for_key key xs)
    where
      removed : Option ℕ → List A × Bool
      removed none = (xs, false)
      removed (some i) = ((remove_at xs i).0, true)

  unfoldable pub add_presorted : ℕ → Compared → A → List A → Added A
  add_presorted i result x xs = record {
    array = insert_at sorting.blank xs (insertion i result) x;
    index = some (insertion i result);
  }

  unfoldable pub add_near : Collide → A → List A → Near → Option (Added A)
  add_near collide x xs near = elim near.result [
    | less ↦ some (add_presorted near.index near.result x xs)
    | greater ↦ some (add_presorted near.index near.result x xs)
    | equal ↦ elim (get_elem? xs near.index) [
      | none ↦ none
      | some old ↦
          if sorting.same x old
          then some (record { array = xs; index = some near.index })
          else some (collision collide near.index x xs)
    ]
  ]

  unfoldable pub add_sort : Collide → A → List A → Option (Added A)
  add_sort collide x xs = elim (find_near (sorting.compare_elems x) xs) [
    | none ↦ none
    | some near ↦ add_near collide x xs near
  ]

  pub add_array : List A → List A → Option (List A)
  add_array [] xs = some xs
  add_array (y ∷ ys) xs = elim (add_sort replace_old y xs) [
    | none ↦ none
    | some added ↦ add_array ys added.array
  ]

  -- isSpanSorted: neighbours are in order.
  unfoldable pub is_span_sorted : List A → Bool
  is_span_sorted [] = true
  is_span_sorted (x ∷ []) = true
  is_span_sorted (x ∷ (y ∷ ys)) = elim (sorting.compare_elems x y) [
    | greater ↦ false
    | less ↦ is_span_sorted (y ∷ ys)
    | equal ↦ is_span_sorted (y ∷ ys)
  ]
