-- ===== src/Base/Insert.antt =====
-- `InsertAt` and `RemoveAt` of include/cArray.h, `cArrayImpl`, on the list of the elements.
use Prim.Native.Nat.{ℕ, zero, suc, ◌+◌, ◌-◌, ◌≤◌, ◌<◌}
use mathlib.Core.Path.{◌≡◌, refl, ap}
use mathlib.Core.Logic.{◌≢◌, inl, inr}
use mathlib.Core.Bool.{Bool, true, false}
use mathlib.Core.List.{List, [], ◌∷◌, ◌++◌, append-nil}
use mathlib.Core.Option.{some}
use native.Mathlib.Omega.{arith}
use gray_core.Base.Tests.{ltb, leb, Bool-cases, tests, if◌then◌else◌}
use gray_core.Base.Lists.{length, get_elem?, take, drop, replicate, set, take-all, drop-all}

module _ {ℓ} {A : Type ℓ} where
  -- Past the end the array grows by elements made by the default constructor.
  abbrev pub insert_at : A → List A → ℕ → A → List A
  insert_at blank xs i x =
      if leb (length xs) i
      then (xs ++ replicate (i - length xs) blank) ++ x ∷ []
      else take i xs ++ x ∷ drop i xs

  -- The array, and whether there was an element to remove.
  abbrev pub remove_at : List A → ℕ → List A × Bool
  remove_at xs i =
      if ltb (length xs) (i + 1) then (xs, false) else (take i xs ++ drop (suc i) xs, true)

  pub insert_at-take :
      (blank : A) (xs : List A) (i : ℕ) (x : A)
      → i ≤ length xs
      → insert_at blank xs i x ≡ take i xs ++ x ∷ drop i xs
  insert_at-take blank xs i x h = elim (Bool-cases (leb (length xs) i)) [
    | inr inside ↦ rw inside refl
    | inl last ↦
        rw
          (
            last,
            take-all i xs (omega (tests, last)),
            drop-all i xs (omega (tests, last)),
            no_more (omega (tests, last)),
            append-nil xs,
          )
          refl
  ]
    where
      no_more : length xs ≤ i → i - length xs ≡ 0
      no_more last = omega arith

  pub get_elem?-insert_before :
      (xs : List A) (i j : ℕ) (x : A)
      → j < i
      → i ≤ length xs
      → get_elem? (take i xs ++ x ∷ drop i xs) j ≡ get_elem? xs j
  get_elem?-insert_before [] i j x h k = absurd (omega arith)
  get_elem?-insert_before (y ∷ xs) zero j x h k = absurd (omega arith)
  get_elem?-insert_before (y ∷ xs) (suc i) zero x h k = refl
  get_elem?-insert_before (y ∷ xs) (suc i) (suc j) x h k =
      get_elem?-insert_before xs i j x (omega arith) (omega arith)

  pub get_elem?-insert_here :
      (xs : List A) (i : ℕ) (x : A)
      → i ≤ length xs
      → get_elem? (take i xs ++ x ∷ drop i xs) i ≡ some x
  get_elem?-insert_here xs zero x k = refl
  get_elem?-insert_here [] (suc i) x k = absurd (omega arith)
  get_elem?-insert_here (y ∷ xs) (suc i) x k = get_elem?-insert_here xs i x (omega arith)

  pub get_elem?-insert_after :
      (xs : List A) (i j : ℕ) (x : A)
      → i ≤ j
      → i ≤ length xs
      → get_elem? (take i xs ++ x ∷ drop i xs) (suc j) ≡ get_elem? xs j
  get_elem?-insert_after xs zero j x h k = refl
  get_elem?-insert_after [] (suc i) j x h k = absurd (omega arith)
  get_elem?-insert_after (y ∷ xs) (suc i) zero x h k = absurd (omega arith)
  get_elem?-insert_after (y ∷ xs) (suc i) (suc j) x h k =
      get_elem?-insert_after xs i j x (omega arith) (omega arith)

  pub get_elem?-remove_before :
      (xs : List A) (i j : ℕ) → j < i → get_elem? (take i xs ++ drop (suc i) xs) j ≡ get_elem? xs j
  get_elem?-remove_before [] zero j h = absurd (omega arith)
  get_elem?-remove_before [] (suc i) j h = refl
  get_elem?-remove_before (y ∷ xs) zero j h = absurd (omega arith)
  get_elem?-remove_before (y ∷ xs) (suc i) zero h = refl
  get_elem?-remove_before (y ∷ xs) (suc i) (suc j) h = get_elem?-remove_before xs i j (omega arith)

  pub get_elem?-remove_after :
      (xs : List A) (i j : ℕ)
      → i ≤ j
      → get_elem? (take i xs ++ drop (suc i) xs) j ≡ get_elem? xs (suc j)
  get_elem?-remove_after [] zero j h = refl
  get_elem?-remove_after [] (suc i) j h = refl
  get_elem?-remove_after (y ∷ xs) zero j h = refl
  get_elem?-remove_after (y ∷ xs) (suc i) zero h = absurd (omega arith)
  get_elem?-remove_after (y ∷ xs) (suc i) (suc j) h = get_elem?-remove_after xs i j (omega arith)

  pub get_elem?-set_here :
      (xs : List A) (i : ℕ) (x : A) → i < length xs → get_elem? (set xs i x) i ≡ some x
  get_elem?-set_here [] i x h = absurd (omega arith)
  get_elem?-set_here (y ∷ xs) zero x h = refl
  get_elem?-set_here (y ∷ xs) (suc i) x h = get_elem?-set_here xs i x (omega arith)

  pub get_elem?-set_ne :
      (xs : List A) (i j : ℕ) (x : A) → i ≢ j → get_elem? (set xs i x) j ≡ get_elem? xs j
  get_elem?-set_ne [] i j x h = refl
  get_elem?-set_ne (y ∷ xs) zero zero x h = absurd (h refl)
  get_elem?-set_ne (y ∷ xs) zero (suc j) x h = refl
  get_elem?-set_ne (y ∷ xs) (suc i) zero x h = refl
  get_elem?-set_ne (y ∷ xs) (suc i) (suc j) x h = get_elem?-set_ne xs i j x (λ e. h (ap suc e))
