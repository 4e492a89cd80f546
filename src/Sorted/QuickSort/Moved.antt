-- ===== src/Sorted/QuickSort/Moved.antt =====
-- Spans whose elements have changed places within a range, the end of the range excluded.
use gray_core.Base.{
  ℕ, zero, suc, ◌≤◌, ◌<◌, ◌≡◌, ◌≢◌, inl, inr, ◌∙◌, refl, sym, ap, ◌⊎◌, List, [], ◌∷◌, some, length,
  get_elem?, set, arith, ltb, leb, Bool-cases, tests, length-set, get_elem?-length,
}
use mathlib.Core.List.{Perm}
use mathlib.Core.List.Perm
use mathlib.Core.Option.{some-injective, none-ne-some}
use gray_core.Base.Insert.{get_elem?-set_here, get_elem?-set_ne}
use gray_core.Sorted.QuickSort.{swap_at}

pub record Moved {ℓ} {A : Type ℓ} (xs ys : List A) (lo hi : ℕ) : Type ℓ where
  pub perm : Perm ys xs
  pub size : length ys ≡ length xs
  pub outside : (i : ℕ) → (i < lo) ⊎ (hi ≤ i) → get_elem? ys i ≡ get_elem? xs i
  pub from :
      (i : ℕ) (y : A)
      → lo ≤ i
      → i < hi
      → get_elem? ys i ≡ some y
      → (j : ℕ) × (lo ≤ j) × (j < hi) × (get_elem? xs j ≡ some y)

module _ {ℓ} {A : Type ℓ} where
  pub Moved-refl : (xs : List A) (lo hi : ℕ) → Moved xs xs lo hi
  Moved-refl xs lo hi = record {
    perm = Perm.rfl;
    size = refl;
    outside = λ i h. refl;
    from = λ i y h k e. (i, h, k, e);
  }

  pub Moved-trans :
      (xs ys zs : List A) (lo hi : ℕ) → Moved xs ys lo hi → Moved ys zs lo hi → Moved xs zs lo hi
  Moved-trans xs ys zs lo hi m n = record {
    perm = Perm.trans n.perm m.perm;
    size = n.size ∙ m.size;
    outside = λ i h. n.outside i h ∙ m.outside i h;
    from = λ i z h k e. let back = n.from i z h k e in m.from back.0 z back.1 back.2 back.3;
  }

  -- A move within a range is a move within a wider one.
  pub Moved-widen :
      (xs ys : List A) (lo hi lo' hi' : ℕ)
      → lo' ≤ lo
      → hi ≤ hi'
      → Moved xs ys lo hi
      → Moved xs ys lo' hi'
  Moved-widen xs ys lo hi lo' hi' h k m = record {
    perm = m.perm;
    size = m.size;
    outside = λ i o. m.outside i (narrow i o);
    from = λ i y a b e. find i y a b e;
  }
    where
      narrow : (i : ℕ) → (i < lo') ⊎ (hi' ≤ i) → (i < lo) ⊎ (hi ≤ i)
      narrow i (inl o) = inl (omega arith)
      narrow i (inr o) = inr (omega arith)

      inside :
          (i : ℕ) (y : A)
          → (j : ℕ) × (lo ≤ j) × (j < hi) × (get_elem? xs j ≡ some y)
          → (j : ℕ) × (lo' ≤ j) × (j < hi') × (get_elem? xs j ≡ some y)
      inside i y (j, p, q, e) = (j, omega arith, omega arith, e)

      find :
          (i : ℕ) (y : A)
          → lo' ≤ i
          → i < hi'
          → get_elem? ys i ≡ some y
          → (j : ℕ) × (lo' ≤ j) × (j < hi') × (get_elem? xs j ≡ some y)
      find i y a b e = elim (Bool-cases (leb lo i)) [
        | inr low ↦ (i, a, b, sym (m.outside i (inl (omega (tests, low)))) ∙ e)
        | inl above ↦ elim (Bool-cases (ltb i hi)) [
          | inr high ↦ (i, a, b, sym (m.outside i (inr (omega (tests, high)))) ∙ e)
          | inl below ↦ inside i y (m.from i y (omega (tests, above)) (omega (tests, below)) e)
        ]
      ]

  put_here :
      (x y : A) (xs : List A) (j : ℕ) → get_elem? xs j ≡ some y → Perm (y ∷ set xs j x) (x ∷ xs)
  put_here x y [] j h = absurd (none-ne-some y h)
  put_here x y (z ∷ xs) zero h = rw (some-injective z y h) (Perm.swap x y xs)
  put_here x y (z ∷ xs) (suc j) h =
      Perm.trans (Perm.swap z y (set xs j x))
        (Perm.trans (Perm.cons z (put_here x y xs j h)) (Perm.swap x z xs))

  set-perm :
      (xs : List A) (i j : ℕ) (x y : A)
      → i < j
      → get_elem? xs i ≡ some x
      → get_elem? xs j ≡ some y
      → Perm (set (set xs i y) j x) xs
  set-perm [] i j x y h p q = absurd (none-ne-some x p)
  set-perm (z ∷ xs) i zero x y h p q = absurd (omega arith)
  set-perm (z ∷ xs) zero (suc j) x y h p q = rw (some-injective z x p) (put_here x y xs j q)
  set-perm (z ∷ xs) (suc i) (suc j) x y h p q = Perm.cons z (set-perm xs i j x y (omega arith) p q)

  -- The two ways in which the partition calls Swap.
  set_comm : (xs : List A) (i j : ℕ) (x y : A) → i < j → set (set xs j x) i y ≡ set (set xs i y) j x
  set_comm [] i j x y h = refl
  set_comm (z ∷ xs) i zero x y h = absurd (omega arith)
  set_comm (z ∷ xs) zero (suc j) x y h = refl
  set_comm (z ∷ xs) (suc i) (suc j) x y h = ap (λ l. z ∷ l) (set_comm xs i j x y (omega arith))

  module _ (xs : List A) (i j : ℕ) (x y : A) (below : i < j) where
    set_high : get_elem? xs j ≡ some y → get_elem? (set (set xs i y) j x) j ≡ some x
    set_high q =
        get_elem?-set_here (set xs i y) j x (rw (length-set xs i y) (get_elem?-length xs j y q))

    set_low : get_elem? xs i ≡ some x → get_elem? (set (set xs i y) j x) i ≡ some y
    set_low p =
        get_elem?-set_ne (set xs i y) j i x (omega arith)
        ∙ get_elem?-set_here xs i y (get_elem?-length xs i x p)

  Moved-set :
      (xs : List A) (i j : ℕ) (x y : A)
      → i < j
      → get_elem? xs i ≡ some x
      → get_elem? xs j ≡ some y
      → Moved xs (set (set xs i y) j x) i (suc j)
  Moved-set xs i j x y h p q = record {
    perm = set-perm xs i j x y h p q;
    size = length-set (set xs i y) j x ∙ length-set xs i y;
    outside = λ k o. untouched k (omega (arith, o)) (omega (arith, o));
    from = λ k z a b e. find k z a b e;
  }
    where
      untouched : (k : ℕ) → i ≢ k → j ≢ k → get_elem? (set (set xs i y) j x) k ≡ get_elem? xs k
      untouched k a b = get_elem?-set_ne (set xs i y) j k x b ∙ get_elem?-set_ne xs i k y a

      find :
          (k : ℕ) (z : A)
          → i ≤ k
          → k < suc j
          → get_elem? (set (set xs i y) j x) k ≡ some z
          → (l : ℕ) × (i ≤ l) × (l < suc j) × (get_elem? xs l ≡ some z)
      find k z a b e = elim (Bool-cases (ltb i k)) [
        | inr first ↦ (
          j,
          omega arith,
          omega arith,
          q
              ∙ sym (set_low xs i j x y h p)
              ∙ ap (get_elem? (set (set xs i y) j x)) (first_at (omega (tests, first)))
              ∙ e,
        )
        | inl after ↦ elim (Bool-cases (ltb k j)) [
          | inr last ↦ (
            i,
            omega arith,
            omega arith,
            p
                ∙ sym (set_high xs i j x y h q)
                ∙ ap (get_elem? (set (set xs i y) j x)) (last_at (omega (tests, last)))
                ∙ e,
          )
          | inl before ↦
              (k, a, b, sym (untouched k (omega (tests, after)) (omega (tests, before))) ∙ e)
        ]
      ]
        where
          first_at : k ≤ i → i ≡ k
          first_at h = omega arith

          last_at : j ≤ k → j ≡ k
          last_at h = omega arith

  -- What Swap does with two indexes in order, whichever stands first.
  pub record Swapped (xs : List A) (i j : ℕ) (x y : A) : Type ℓ where
    pub result : List A
    pub right_left : swap_at xs j i ≡ some result
    pub left_right : swap_at xs i j ≡ some result
    pub moved : Moved xs result i (suc j)
    pub low : get_elem? result i ≡ some y
    pub high : get_elem? result j ≡ some x

  pub swap_at-Swapped :
      (xs : List A) (i j : ℕ) (x y : A)
      → i < j
      → get_elem? xs i ≡ some x
      → get_elem? xs j ≡ some y
      → Swapped xs i j x y
  unfolding swap_at
  swap_at-Swapped xs i j x y h p q = record {
    result = set (set xs i y) j x;
    right_left = rw (swap_at, q, p) (ap some (set_comm xs i j x y h));
    left_right = rw (swap_at, p, q) refl;
    moved = Moved-set xs i j x y h p q;
    low = set_low xs i j x y h p;
    high = set_high xs i j x y h q;
  }
