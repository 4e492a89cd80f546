-- ===== src/Sorted/Keys.antt =====
-- Looking up and removing by a key: FindIForKey, FindIFirstForKey, FindILastForKey, RemoveKey.
use gray_core.Base.{
  ℕ, zero, suc, ◌+◌, ◌≤◌, ◌≡◌, ◌≢◌, ◌⊎◌, inl, inr, refl, ◌∙◌, sym, true, false, Bool-cases, List,
  ◌++◌, some, none, get_elem?, get_elem?-some, get_elem?-length, length, take, drop, arith, ltb,
  leb, le→ltb_false, tests, if◌then◌else◌,
}
use mathlib.Core.Option.{map}
use gray_core.Base.Insert.{get_elem?-remove_before, get_elem?-remove_after}
use gray_core.Base.Compared.{equal}
use gray_core.Sorted.{
  Sorting, Near, find_near, if_equal, find_for_key, walk_back, walk_forward, find_first_for_key,
  find_last_for_key, remove_key,
}
use gray_core.Sorted.Search.{
  InOrder, Compared-cases, Above, Below, Place, found, after, before, find_near-Place,
}
use gray_core.Sorted.Laws.{SortLaws, IsSorted, InOrder-keys}

module _ {ℓ κ} {A : Type ℓ} {K : Type κ} (sorting : Sorting A K) (laws : SortLaws sorting) where
  pub record Equal (key : K) (xs : List A) (i : ℕ) : Type ℓ where
    pub element : A
    pub at : get_elem? xs i ≡ some element
    pub is_equal : sorting.compare_key key element ≡ equal

  -- No element is equal to the key.
  abbrev pub Missing : K → List A → Type ℓ
  Missing key xs = (i : ℕ) (x : A) → get_elem? xs i ≡ some x → sorting.compare_key key x ≢ equal

  -- FindIForKey ends on a sorted array; it gives the index of an element equal to the key, and
  -- k_ITERATE_BAD only when there is none.
  pub find_for_key_sound :
      (key : K) (xs : List A)
      → IsSorted sorting xs
      → ((i : ℕ) × (find_for_key sorting key xs ≡ some (some i)) × Equal key xs i)
        ⊎ ((find_for_key sorting key xs ≡ some none) × Missing key xs)
  unfolding find_for_key
  find_for_key_sound key xs sorted =
      let (near, ends, place) =
        find_near-Place (sorting.compare_key key) xs (InOrder-keys sorting laws xs key sorted) in
      by_place near ends place
    where
      missing :
          (p : ℕ)
          → Above (sorting.compare_key key) xs p
          → Below (sorting.compare_key key) xs p
          → Missing key xs
      missing p above below i x at e = elim (Bool-cases (ltb i p)) [
        | inl lower ↦ grind (arith, above i x (omega (tests, lower)) at, e)
        | inr upper ↦ grind (arith, below i x (omega (tests, upper)) at, e)
      ]

      by_place :
          (near : Near)
          → find_near (sorting.compare_key key) xs ≡ some near
          → Place (sorting.compare_key key) xs near
          → ((i : ℕ) × (map (if_equal sorting) (find_near (sorting.compare_key key) xs)
                ≡ some (some i))
              × Equal key xs i)
            ⊎ ((map (if_equal sorting) (find_near (sorting.compare_key key) xs) ≡ some none)
                × Missing key xs)
      by_place near ends (found x at same is) =
          inl (near.index, rw (ends, is) refl, record { element = x; at = at; is_equal = same })
      by_place near ends (after lt is above below) =
          inr (rw (ends, is) refl, missing (near.index + 1) above below)
      by_place near ends (before lt is above below) =
          inr (rw (ends, is) refl, missing near.index above below)

  walk_back-First :
      (key : K) (xs : List A) (i : ℕ)
      → InOrder (sorting.compare_key key) xs
      → Equal key xs i
      → (j : ℕ) × (walk_back sorting key xs i ≡ some j)
        × Equal key xs j
        × Above (sorting.compare_key key) xs j
  unfolding walk_back
  walk_back-First key xs zero order e = (0, refl, e, λ j y lt at. absurd (omega (arith, lt)))
  walk_back-First key xs (suc i) order e =
      let (x, at) =
        get_elem?-some xs i (omega (arith, get_elem?-length xs (suc i) e.element e.at)) in
      elim (Compared-cases (sorting.compare_key key x)) [
        | inl low ↦
            absurd (
              grind (arith, order.down i (suc i) x e.element (omega arith) at e.at low, e.is_equal))
        | inr (inl same) ↦
            rw (walk_back, at, same)
              (walk_back-First key xs i order (record { element = x; at = at; is_equal = same }))
        | inr (inr high) ↦
            rw (walk_back, at, high)
              (suc i, refl, e, λ j y lt at_j. order.up j i y x (omega (arith, lt)) at_j at high)
      ]

  walk_forward-Last :
      (key : K) (xs : List A) (fuel i : ℕ)
      → InOrder (sorting.compare_key key) xs
      → Equal key xs i
      → length xs ≤ fuel + i
      → (j : ℕ) × (walk_forward sorting key xs fuel i ≡ some j)
        × Equal key xs j
        × Below (sorting.compare_key key) xs (suc j)
  unfolding walk_forward
  walk_forward-Last key xs zero i order e enough =
      absurd (omega (arith, get_elem?-length xs i e.element e.at))
  walk_forward-Last key xs (suc fuel) i order e enough =
      elim (Bool-cases (leb (length xs) (i + 1))) [
        | inl end ↦
            rw (walk_forward, end)
              (i, refl, e, λ j y le at. absurd (omega (tests, end, le, get_elem?-length xs j y at)))
        | inr more ↦
            let (x, at) = get_elem?-some xs (i + 1) (omega (tests, more)) in
            elim (Compared-cases (sorting.compare_key key x)) [
              | inl low ↦
                  rw (walk_forward, more, at, low)
                    (
                      i,
                      refl,
                      e,
                      λ j y le at_j. order.down (i + 1) j x y (omega (arith, le)) at at_j low,
                    )
              | inr (inl same) ↦
                  rw (walk_forward, more, at, same)
                    (walk_forward-Last key xs fuel (i + 1) order
                      (record { element = x; at = at; is_equal = same }) (omega arith))
              | inr (inr high) ↦ absurd (
                  grind
                    (arith, order.up i (i + 1) e.element x (omega arith) e.at at high, e.is_equal))
            ]
      ]

  -- FindIFirstForKey and FindILastForKey, on a sorted array, give the ends of the run of the
  -- elements equal to the key: those before the first are less than the key and those after the last
  -- are greater. Both give k_ITERATE_BAD only when no element is equal.
  pub first-last_for_key :
      (key : K) (xs : List A)
      → IsSorted sorting xs
      → ((i : ℕ) × (j : ℕ) × (find_first_for_key sorting key xs ≡ some (some i))
          × (find_last_for_key sorting key xs ≡ some (some j))
          × Equal key xs i
          × Equal key xs j
          × Above (sorting.compare_key key) xs i
          × Below (sorting.compare_key key) xs (suc j))
        ⊎ ((find_first_for_key sorting key xs ≡ some none)
            × (find_last_for_key sorting key xs ≡ some none)
            × Missing key xs)
  unfolding find_first_for_key find_last_for_key
  first-last_for_key key xs sorted = elim (find_for_key_sound key xs sorted) [
    | inr none_found ↦ inr (rw none_found.0 refl, rw none_found.0 refl, none_found.1)
    | inl hit ↦
        let (i, ends, e) = hit in
        let (first, at_first, e_first, above) =
          walk_back-First key xs i (InOrder-keys sorting laws xs key sorted) e in
        let (last, at_last, e_last, below) =
          walk_forward-Last key xs (length xs) i (InOrder-keys sorting laws xs key sorted) e
            (omega arith) in
        inl (
          first,
          last,
          rw (ends, at_first) refl,
          rw (ends, at_last) refl,
          e_first,
          e_last,
          above,
          below,
        )
  ]

  -- The elements that are left when one is removed.
  left_at :
      (xs : List A) (p i : ℕ) (y : A)
      → get_elem? (take p xs ++ drop (suc p) xs) i ≡ some y
      → get_elem? xs (if ltb i p then i else suc i) ≡ some y
  left_at xs p i y at = elim (Bool-cases (ltb i p)) [
    | inl lower ↦ rw lower (sym (get_elem?-remove_before xs p i (omega (tests, lower))) ∙ at)
    | inr upper ↦ rw upper (sym (get_elem?-remove_after xs p i (omega (tests, upper))) ∙ at)
  ]

  remove-IsSorted :
      (xs : List A) (p : ℕ) → IsSorted sorting xs → IsSorted sorting (take p xs ++ drop (suc p) xs)
  remove-IsSorted xs p sorted i j a b lt at_i at_j =
      sorted (if ltb i p then i else suc i) (if ltb j p then j else suc j) a b (ground arith)
        (left_at xs p i a at_i) (left_at xs p j b at_j)

  -- RemoveKey ends on a sorted array and keeps it sorted; it removes one element equal to the key
  -- and answers true, or answers false and changes nothing when there is none.
  pub remove_key-removes :
      (key : K) (xs : List A)
      → IsSorted sorting xs
      → ((i : ℕ) × Equal key xs i
          × (remove_key sorting key xs ≡ some (take i xs ++ drop (suc i) xs, true))
          × IsSorted sorting (take i xs ++ drop (suc i) xs))
        ⊎ ((remove_key sorting key xs ≡ some (xs, false)) × Missing key xs)
  unfolding remove_key
  remove_key-removes key xs sorted = elim (find_for_key_sound key xs sorted) [
    | inr none_found ↦ inr (rw none_found.0 refl, none_found.1)
    | inl hit ↦
        let (i, ends, e) = hit in
        inl (
          i,
          e,
          rw
              (
                ends,
                le→ltb_false (length xs) (i + 1)
                    (omega (arith, get_elem?-length xs i e.element e.at)),
              )
              refl,
          remove-IsSorted xs i sorted,
        )
  ]
