-- ===== src/Sorted/Adding.antt =====
-- AddSort keeps the array sorted, and AddArray puts in every element.
use gray_core.Base.{
  ℕ, suc, ◌+◌, ◌-◌, ◌≤◌, ◌<◌, ◌≡◌, ◌≢◌, ◌⊎◌, inl, inr, refl, ◌∙◌, sym, ap, true, false, Bool-cases,
  List, ◌∷◌, ◌++◌, some, get_elem?, get_elem?-length, length, take, drop, set, arith, ltb, ◌==◌,
  ==→eq, ==_false→ne, tests,
}
use mathlib.Core.Option.{some-injective}
use gray_core.Base.Insert.{
  insert_at, insert_at-take, get_elem?-insert_before, get_elem?-insert_here, get_elem?-insert_after,
  get_elem?-set_here, get_elem?-set_ne,
}
use gray_core.Base.Compared.{equal, greater}
use gray_core.Sorted.{
  Sorting, Near, Added, Collide, ignore_new, replace_old, debug_check, keep_old, collision,
  add_sort, add_near, add_presorted, find_near,
}
use gray_core.Sorted.Search.{Above, Below, Place, found, after, before, find_near-Place}
use gray_core.Sorted.Laws.{SortLaws, IsSorted, InOrder-elems}

-- The elements of the array after an insertion.
pub data Inserted {ℓ} {A : Type ℓ} (xs : List A) (p : ℕ) (x : A) (i : ℕ) (y : A) : Type ℓ where
  earlier : i < p → get_elem? xs i ≡ some y → Inserted xs p x i y
  new : i ≡ p → x ≡ y → Inserted xs p x i y
  later : p < i → get_elem? xs (i - 1) ≡ some y → Inserted xs p x i y

pub get_elem-Inserted {ℓ} :
    {A : Type ℓ} (xs : List A) (p : ℕ) (x : A) (i : ℕ) (y : A)
    → p ≤ length xs
    → get_elem? (take p xs ++ x ∷ drop p xs) i ≡ some y
    → Inserted xs p x i y
get_elem-Inserted xs p x i y h at = elim (Bool-cases (ltb i p)) [
  | inl below ↦
      earlier (omega (tests, below))
        (sym (get_elem?-insert_before xs p i x (omega (tests, below)) h) ∙ at)
  | inr above ↦ elim (Bool-cases (ltb p i)) [
    | inl past ↦ later (omega (tests, past)) (
        sym (get_elem?-insert_after xs p (i - 1) x (omega (tests, past)) h)
        ∙ ap (get_elem? (take p xs ++ x ∷ drop p xs)) (back (omega (tests, past)))
        ∙ at)
    | inr least ↦ new (here (omega (tests, above)) (omega (tests, least))) (
        some-injective x y (
          sym (get_elem?-insert_here xs p x h)
          ∙ ap (get_elem? (take p xs ++ x ∷ drop p xs))
              (sym (here (omega (tests, above)) (omega (tests, least))))
          ∙ at))
  ]
]
  where
    back : p < i → suc (i - 1) ≡ i
    back h = omega arith

    here : p ≤ i → i ≤ p → i ≡ p
    here a b = omega arith

-- The elements of the array after a replacement.
replaced_at {ℓ} :
    {A : Type ℓ} (xs : List A) (p : ℕ) (x : A) (i : ℕ) (y : A)
    → p < length xs
    → get_elem? (set xs p x) i ≡ some y
    → ((i ≡ p) × (x ≡ y)) ⊎ (get_elem? xs i ≡ some y)
replaced_at xs p x i y h at = elim (Bool-cases (p == i)) [
  | inl here ↦ inl (
    omega (tests, here),
    some-injective x y
        (sym (get_elem?-set_here xs p x h) ∙ ap (get_elem? (set xs p x)) (==→eq p i here) ∙ at),
  )
  | inr elsewhere ↦ inr (sym (get_elem?-set_ne xs p i x (==_false→ne p i elsewhere)) ∙ at)
]

module _ {ℓ κ} {A : Type ℓ} {K : Type κ} (sorting : Sorting A K) (laws : SortLaws sorting) where
  pub insert-IsSorted :
      (xs : List A) (p : ℕ) (x : A)
      → IsSorted sorting xs
      → p ≤ length xs
      → Above (sorting.compare_elems x) xs p
      → Below (sorting.compare_elems x) xs p
      → IsSorted sorting (take p xs ++ x ∷ drop p xs)
  insert-IsSorted xs p x sorted le above below i j a b lt at_i at_j =
      ordered (get_elem-Inserted xs p x i a le at_i) (get_elem-Inserted xs p x j b le at_j)
    where
      ordered : Inserted xs p x i a → Inserted xs p x j b → sorting.compare_elems a b ≢ greater
      ordered (earlier h e) (earlier k f) = sorted i j a b lt e f
      ordered (earlier h e) (new k f) = λ g. grind (arith, above i a h e, laws.flips x a, g, f)
      ordered (earlier h e) (later k f) = sorted i (j - 1) a b (omega arith) e f
      ordered (new h e) (earlier k f) = absurd (omega arith)
      ordered (new h e) (new k f) = absurd (omega arith)
      ordered (new h e) (later k f) = λ g. grind (arith, below (j - 1) b (omega arith) f, g, e)
      ordered (later h e) (earlier k f) = absurd (omega arith)
      ordered (later h e) (new k f) = absurd (omega arith)
      ordered (later h e) (later k f) = sorted (i - 1) (j - 1) a b (omega arith) e f

  replace-IsSorted :
      (xs : List A) (p : ℕ) (x old : A)
      → IsSorted sorting xs
      → get_elem? xs p ≡ some old
      → sorting.compare_elems x old ≡ equal
      → IsSorted sorting (set xs p x)
  replace-IsSorted xs p x old sorted at_p same i j a b lt at_i at_j =
      ordered (replaced_at xs p x i a (get_elem?-length xs p old at_p) at_i)
        (replaced_at xs p x j b (get_elem?-length xs p old at_p) at_j)
    where
      ordered :
          ((i ≡ p) × (x ≡ a)) ⊎ (get_elem? xs i ≡ some a)
          → ((j ≡ p) × (x ≡ b)) ⊎ (get_elem? xs j ≡ some b)
          → sorting.compare_elems a b ≢ greater
      ordered (inl (h, e)) (inl (k, f)) = absurd (omega (arith, h, k))
      ordered (inl (h, e)) (inr f) = λ g.
          sorted i j old b lt (ap (get_elem? xs) h ∙ at_p) f
            (grind (arith, laws.alike x old b same, g, e))
      ordered (inr e) (inl (k, f)) = λ g.
          sorted i j a old lt e (ap (get_elem? xs) k ∙ at_p)
            (grind (arith, laws.alike x old a same, laws.flips x a, laws.flips old a, g, f))
      ordered (inr e) (inr f) = sorted i j a b lt e f

  -- What AddSort does: it puts the new element in, or leaves the one that is the same, or decides
  -- between it and the equal one.
  pub data Outcome (collide : Collide) (x : A) (xs : List A) (added : Added A) : Type ℓ where
    inserted :
        (p : ℕ)
        → p ≤ length xs
        → ((i : ℕ) (y : A) → get_elem? xs i ≡ some y → sorting.compare_elems x y ≢ equal)
        → added.array ≡ take p xs ++ x ∷ drop p xs
        → added.index ≡ some p
        → Outcome collide x xs added
    already :
        (i : ℕ) (old : A)
        → get_elem? xs i ≡ some old
        → sorting.compare_elems x old ≡ equal
        → sorting.same x old ≡ true
        → added ≡ record { array = xs; index = some i }
        → Outcome collide x xs added
    collided :
        (i : ℕ) (old : A)
        → get_elem? xs i ≡ some old
        → sorting.compare_elems x old ≡ equal
        → sorting.same x old ≡ false
        → added ≡ collision collide i x xs
        → Outcome collide x xs added

  pub record Adds (collide : Collide) (x : A) (xs : List A) : Type ℓ where
    pub added : Added A
    pub result_is : add_sort sorting collide x xs ≡ some added
    pub sorted : IsSorted sorting added.array
    pub outcome : Outcome collide x xs added

  -- No element at the place between those that are less and those that are greater.
  pub none_equal :
      (xs : List A) (p : ℕ) (x : A)
      → Above (sorting.compare_elems x) xs p
      → Below (sorting.compare_elems x) xs p
      → (i : ℕ) (y : A) → get_elem? xs i ≡ some y
      → sorting.compare_elems x y ≢ equal
  none_equal xs p x above below i y at e = elim (Bool-cases (ltb i p)) [
    | inl lower ↦ grind (arith, above i y (omega (tests, lower)) at, e)
    | inr upper ↦ grind (arith, below i y (omega (tests, upper)) at, e)
  ]

  add_inserted :
      (collide : Collide) (x : A) (xs : List A) (near : Near) (p : ℕ)
      → IsSorted sorting xs
      → add_near sorting collide x xs near
        ≡ some (record { array = insert_at sorting.blank xs p x; index = some p })
      → find_near (sorting.compare_elems x) xs ≡ some near
      → p ≤ length xs
      → Above (sorting.compare_elems x) xs p
      → Below (sorting.compare_elems x) xs p
      → Adds collide x xs
  unfolding add_sort
  add_inserted collide x xs near p sorted is ends le above below = record {
    added = record { array = insert_at sorting.blank xs p x; index = some p };
    result_is = rw (add_sort, ends) is;
    sorted =
        rw (insert_at-take sorting.blank xs p x le) (insert-IsSorted xs p x sorted le above below);
    outcome =
        inserted p le (none_equal xs p x above below) (insert_at-take sorting.blank xs p x le) refl;
  }

  collision-IsSorted :
      (collide : Collide) (i : ℕ) (x old : A) (xs : List A)
      → IsSorted sorting xs
      → get_elem? xs i ≡ some old
      → sorting.compare_elems x old ≡ equal
      → IsSorted sorting (collision collide i x xs).array
  collision-IsSorted ignore_new i x old xs sorted at same = sorted
  collision-IsSorted replace_old i x old xs sorted at same =
      replace-IsSorted xs i x old sorted at same
  collision-IsSorted debug_check i x old xs sorted at same = sorted
  collision-IsSorted keep_old i x old xs sorted at same = sorted

  add_placed :
      (collide : Collide) (x : A) (xs : List A) (near : Near)
      → IsSorted sorting xs
      → find_near (sorting.compare_elems x) xs ≡ some near
      → Place (sorting.compare_elems x) xs near
      → Adds collide x xs
  unfolding add_sort add_near add_presorted
  add_placed collide x xs near sorted ends (after lt is above below) =
      add_inserted collide x xs near (near.index + 1) sorted (rw (add_near, is) (rw is refl)) ends
        (omega arith) above below
  add_placed collide x xs near sorted ends (before le is above below) =
      add_inserted collide x xs near near.index sorted (rw (add_near, is) (rw is refl)) ends le
        above below
  add_placed collide x xs near sorted ends (found old at same is) =
      elim (Bool-cases (sorting.same x old)) [
        | inl identical ↦ record {
          added = record { array = xs; index = some near.index };
          result_is = rw (add_sort, ends) (rw (add_near, is, at, identical) refl);
          sorted = sorted;
          outcome = already near.index old at same identical refl;
        }
        | inr differs ↦ record {
          added = collision collide near.index x xs;
          result_is = rw (add_sort, ends) (rw (add_near, is, at, differs) refl);
          sorted = collision-IsSorted collide near.index x old xs sorted at same;
          outcome = collided near.index old at same differs refl;
        }
      ]

  -- AddSort ends on a sorted array and keeps it sorted; it inserts the new element where no element
  -- is equal to it, returns the index of one that is the same, and otherwise does what `collide`
  -- says of the two.
  pub add_sort-Adds :
      (collide : Collide) (x : A) (xs : List A) → IsSorted sorting xs → Adds collide x xs
  add_sort-Adds collide x xs sorted =
      let (near, ends, place) =
        find_near-Place (sorting.compare_elems x) xs (InOrder-elems sorting laws xs x sorted) in
      add_placed collide x xs near sorted ends place
