-- ===== src/Sorted/Arrays.antt =====
-- AddArray, and the test that an array is sorted.
use gray_core.Base.{
  ℕ, zero, suc, ◌≤◌, ◌≡◌, ◌≢◌, ◌↔◌, inl, inr, refl, ◌∙◌, sym, ap, true, Bool-cases, List, [], ◌∷◌,
  ◌++◌, some, get_elem?, get_elem?-length, length, take, drop, set, arith, ltb, ◌==◌, ==→eq,
  ==_false→ne, tests,
}
use mathlib.Core.Option.{some-injective}
use gray_core.Base.Insert.{
  get_elem?-insert_before, get_elem?-insert_here, get_elem?-insert_after, get_elem?-set_here,
  get_elem?-set_ne,
}
use gray_core.Base.Compared.{equal, greater}
use gray_core.Sorted.{Sorting, Added, replace_old, add_array, is_span_sorted}
use gray_core.Sorted.Search.{Compared-cases}
use gray_core.Sorted.Laws.{SortLaws, IsSorted, equal_self}
use gray_core.Sorted.Adding.{Outcome, inserted, already, collided, add_sort-Adds}

module _ {ℓ κ} {A : Type ℓ} {K : Type κ} (sorting : Sorting A K) (laws : SortLaws sorting) where
  -- The array has an element equal to `y`.
  pub record Has (xs : List A) (y : A) : Type ℓ where
    pub index : ℕ
    pub element : A
    pub at : get_elem? xs index ≡ some element
    pub is_equal : sorting.compare_elems y element ≡ equal

  insert-Has :
      (xs : List A) (p : ℕ) (x y : A)
      → p ≤ length xs
      → Has xs y
      → Has (take p xs ++ x ∷ drop p xs) y
  insert-Has xs p x y le has = elim (Bool-cases (ltb has.index p)) [
    | inl lower ↦ record {
      index = has.index;
      element = has.element;
      at = get_elem?-insert_before xs p has.index x (omega (tests, lower)) le ∙ has.at;
      is_equal = has.is_equal;
    }
    | inr upper ↦ record {
      index = suc has.index;
      element = has.element;
      at = get_elem?-insert_after xs p has.index x (omega (tests, upper)) le ∙ has.at;
      is_equal = has.is_equal;
    }
  ]

  replace-Has :
      (xs : List A) (p : ℕ) (x old y : A)
      → get_elem? xs p ≡ some old
      → sorting.compare_elems x old ≡ equal
      → Has xs y
      → Has (set xs p x) y
  replace-Has xs p x old y at_p same has = elim (Bool-cases (p == has.index)) [
    | inl here ↦ record {
      index = p;
      element = x;
      at = get_elem?-set_here xs p x (get_elem?-length xs p old at_p);
      is_equal = through (
          some-injective old has.element
            (sym at_p ∙ ap (get_elem? xs) (==→eq p has.index here) ∙ has.at));
    }
    | inr elsewhere ↦ record {
      index = has.index;
      element = has.element;
      at = get_elem?-set_ne xs p has.index x (==_false→ne p has.index elsewhere) ∙ has.at;
      is_equal = has.is_equal;
    }
  ]
    where
      through : old ≡ has.element → sorting.compare_elems y x ≡ equal
      through e =
          grind (
            arith,
            e,
            has.is_equal,
            same,
            laws.alike y has.element x has.is_equal,
            laws.flips x old,
          )

  -- The element given and those of the array, after AddSort that replaces.
  keeps :
      (x : A) (xs : List A) (added : Added A)
      → Outcome sorting laws replace_old x xs added
      → ((y : A) → Has xs y → Has added.array y) × Has added.array x
  keeps x xs added (inserted p le fresh array index) = (
    (λ y has. rw array (insert-Has xs p x y le has)),
    rw array (record {
      index = p;
      element = x;
      at = get_elem?-insert_here xs p x le;
      is_equal = equal_self sorting laws x;
    }),
  )
  keeps x xs added (already i old at same identical is) =
      ((λ y has. rw is has), rw is (record { index = i; element = old; at = at; is_equal = same }))
  keeps x xs added (collided i old at same differs is) = (
    (λ y has. rw is (replace-Has xs i x old y at same has)),
    rw is (record {
      index = i;
      element = x;
      at = get_elem?-set_here xs i x (get_elem?-length xs i old at);
      is_equal = equal_self sorting laws x;
    }),
  )

  pub record Merged (ys xs : List A) : Type ℓ where
    pub array : List A
    pub result_is : add_array sorting ys xs ≡ some array
    pub sorted : IsSorted sorting array
    pub has_old : (y : A) → Has xs y → Has array y
    pub has_new : (y : A) → Has ys y → Has array y

  from_new :
      (y : A) (ys : List A) (z : A) (zs : List A) (i : ℕ) (e : A)
      → get_elem? (y ∷ ys) i ≡ some e
      → sorting.compare_elems z e ≡ equal
      → Has zs y
      → ((w : A) → Has ys w → Has zs w)
      → Has zs z
  from_new y ys z zs zero e at same first rest = record {
    index = first.index;
    element = first.element;
    at = first.at;
    is_equal =
        grind
          (arith, some-injective y e at, same, first.is_equal, laws.alike z e first.element same);
  }
  from_new y ys z zs (suc i) e at same first rest =
      rest z (record { index = i; element = e; at = at; is_equal = same })

  -- AddArray ends on a sorted array, which it keeps sorted, and for every element of either array
  -- the result has an element that is equal to it.
  pub add_array-Merged : (ys xs : List A) → IsSorted sorting xs → Merged ys xs
  unfolding add_array
  add_array-Merged [] xs sorted = record {
    array = xs;
    result_is = refl;
    sorted = sorted;
    has_old = λ y has. has;
    has_new =
        λ y has. absurd (omega (arith, get_elem?-length {A = A} [] has.index has.element has.at));
  }
  add_array-Merged (y ∷ ys) xs sorted =
      let first = add_sort-Adds sorting laws replace_old y xs sorted in
      let rest = add_array-Merged ys first.added.array first.sorted in
      let (old, new) = keeps y xs first.added first.outcome in
      record {
        array = rest.array;
        result_is = rw (add_array, first.result_is) rest.result_is;
        sorted = rest.sorted;
        has_old = λ z has. rest.has_old z (old z has);
        has_new = λ z has.
            from_new y ys z rest.array has.index has.element has.at has.is_equal
              (rest.has_old y new) rest.has_new;
      }

  -- A sorted tail whose first element is not less than `x`.
  cons-IsSorted :
      (x y : A) (ys : List A)
      → sorting.compare_elems x y ≢ greater
      → IsSorted sorting (y ∷ ys)
      → IsSorted sorting (x ∷ (y ∷ ys))
  cons-IsSorted x y ys h sorted zero zero a b lt at_i at_j = absurd (omega arith)
  cons-IsSorted x y ys h sorted zero (suc zero) a b lt at_i at_j =
      λ g. h (grind (arith, some-injective x a at_i, some-injective y b at_j, g))
  cons-IsSorted x y ys h sorted zero (suc (suc j)) a b lt at_i at_j = λ g. h (
      laws.up x y b (sorted 0 (suc j) y b (omega arith) refl at_j)
        (ap (λ e. sorting.compare_elems e b) (some-injective x a at_i) ∙ g))
  cons-IsSorted x y ys h sorted (suc i) zero a b lt at_i at_j = absurd (omega arith)
  cons-IsSorted x y ys h sorted (suc i) (suc j) a b lt at_i at_j =
      sorted i j a b (omega arith) at_i at_j

  accepted-IsSorted : (xs : List A) → is_span_sorted sorting xs ≡ true → IsSorted sorting xs
  unfolding is_span_sorted
  accepted-IsSorted [] h =
      λ i j a b lt at_i at_j. absurd (omega (arith, get_elem?-length {A = A} [] i a at_i))
  accepted-IsSorted (x ∷ []) h =
      λ i j a b lt at_i at_j. absurd (omega (arith, get_elem?-length (x ∷ []) j b at_j))
  accepted-IsSorted (x ∷ (y ∷ ys)) h = elim (Compared-cases (sorting.compare_elems x y)) [
    | inl low ↦
        cons-IsSorted x y ys (λ g. grind (arith, low, g))
          (accepted-IsSorted (y ∷ ys) (rw (is_span_sorted, low) at h))
    | inr (inl same) ↦
        cons-IsSorted x y ys (λ g. grind (arith, same, g))
          (accepted-IsSorted (y ∷ ys) (rw (is_span_sorted, same) at h))
    | inr (inr high) ↦ grind (arith, rw (is_span_sorted, high) at h)
  ]

  IsSorted-accepted : (xs : List A) → IsSorted sorting xs → is_span_sorted sorting xs ≡ true
  unfolding is_span_sorted
  IsSorted-accepted [] sorted = refl
  IsSorted-accepted (x ∷ []) sorted = refl
  IsSorted-accepted (x ∷ (y ∷ ys)) sorted = elim (Compared-cases (sorting.compare_elems x y)) [
    | inl low ↦
        rw (is_span_sorted, low)
          (IsSorted-accepted (y ∷ ys)
            (λ i j a b lt at_i at_j. sorted (suc i) (suc j) a b (omega arith) at_i at_j))
    | inr (inl same) ↦
        rw (is_span_sorted, same)
          (IsSorted-accepted (y ∷ ys)
            (λ i j a b lt at_i at_j. sorted (suc i) (suc j) a b (omega arith) at_i at_j))
    | inr (inr high) ↦ absurd (sorted 0 1 x y (omega arith) refl refl high)
  ]

  -- isSpanSorted answers true exactly for sorted arrays.
  pub is_span_sorted-IsSorted :
      (xs : List A) → (is_span_sorted sorting xs ≡ true) ↔ IsSorted sorting xs
  is_span_sorted-IsSorted xs = (accepted-IsSorted xs, IsSorted-accepted xs)
