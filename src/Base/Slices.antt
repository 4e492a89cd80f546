-- ===== src/Base/Slices.antt =====
-- Pieces of lists: what `take` and `drop` give of a concatenation and of one another.
use Prim.Native.Nat.{ℕ, zero, suc, ◌+◌, ◌-◌, ◌≤◌}
use mathlib.Core.Path.{◌≡◌, refl, sym, ap, ◌∙◌}
use mathlib.Core.List.{List, [], ◌∷◌, ◌++◌}
use native.Mathlib.Omega.{arith}
use gray_core.Base.Lists.{length, take, drop}

module _ {ℓ} {A : Type ℓ} where
  pub drop-append : (n : ℕ) (xs ys : List A) → n ≤ length xs → drop n (xs ++ ys) ≡ drop n xs ++ ys
  drop-append zero xs ys h = refl
  drop-append (suc n) [] ys h = absurd (omega arith)
  drop-append (suc n) (x ∷ xs) ys h = drop-append n xs ys (omega arith)

  pub drop-append_all : (n : ℕ) (xs ys : List A) → n ≡ length xs → drop n (xs ++ ys) ≡ ys
  drop-append_all zero [] ys h = refl
  drop-append_all zero (x ∷ xs) ys h = absurd (omega arith)
  drop-append_all (suc n) [] ys h = absurd (omega arith)
  drop-append_all (suc n) (x ∷ xs) ys h = drop-append_all n xs ys (omega arith)

  pub drop-take : (n k : ℕ) (xs : List A) → drop n (take k xs) ≡ take (k - n) (drop n xs)
  drop-take zero k xs = ap (λ m. take m xs) (sub-zero k)
    where
      sub-zero : (m : ℕ) → m ≡ m - 0
      sub-zero m = omega arith
  drop-take (suc n) zero xs = ap (λ m. take m (drop (suc n) xs)) (none_left n)
    where
      none_left : (m : ℕ) → 0 ≡ 0 - suc m
      none_left m = omega arith
  drop-take (suc n) (suc k) [] = sym (empty-take (suc k - suc n))
    where
      empty-take : (m : ℕ) → take {A = A} m [] ≡ []
      empty-take zero = refl
      empty-take (suc m) = refl
  drop-take (suc n) (suc k) (x ∷ xs) =
      drop-take n k xs ∙ ap (λ m. take m (drop n xs)) (one_less n k)
    where
      one_less : (a b : ℕ) → b - a ≡ suc b - suc a
      one_less a b = omega arith

  -- The first of two pieces, whole, and the start of the second.
  pub take-append :
      (k n : ℕ) (xs ys : List A)
      → length xs ≤ k
      → k ≡ length xs + n
      → take k (xs ++ ys) ≡ xs ++ take n ys
  take-append k n [] ys h e = ap (λ m. take m ys) e'
    where
      e' : k ≡ n
      e' = omega arith
  take-append zero n (x ∷ xs) ys h e = absurd (omega arith)
  take-append (suc k) n (x ∷ xs) ys h e =
      ap (λ l. x ∷ l) (take-append k n xs ys (omega arith) (omega arith))

  pub take-append_before : (k : ℕ) (xs ys : List A) → k ≤ length xs → take k (xs ++ ys) ≡ take k xs
  take-append_before zero xs ys h = refl
  take-append_before (suc k) [] ys h = absurd (omega arith)
  take-append_before (suc k) (x ∷ xs) ys h =
      ap (λ l. x ∷ l) (take-append_before k xs ys (omega arith))

  pub drop-drop : (m n : ℕ) (xs : List A) → drop m (drop n xs) ≡ drop (n + m) xs
  drop-drop m zero xs = ap (λ k. drop k xs) (zero-add m)
    where
      zero-add : (k : ℕ) → k ≡ 0 + k
      zero-add k = omega arith
  drop-drop m (suc n) [] = empty-drop m ∙ ap (λ k. drop k []) (suc-add n m)
    where
      empty-drop : (k : ℕ) → drop {A = A} k [] ≡ drop (suc (n + k)) []
      empty-drop zero = refl
      empty-drop (suc k) = refl

      suc-add : (a b : ℕ) → suc (a + b) ≡ suc a + b
      suc-add a b = omega arith
  drop-drop m (suc n) (x ∷ xs) = drop-drop m n xs ∙ ap (λ k. drop k (x ∷ xs)) (suc-add n m)
    where
      suc-add : (a b : ℕ) → suc (a + b) ≡ suc a + b
      suc-add a b = omega arith

  pub take-drop_split : (n : ℕ) (xs : List A) → take n xs ++ drop n xs ≡ xs
  take-drop_split zero xs = refl
  take-drop_split (suc n) [] = refl
  take-drop_split (suc n) (x ∷ xs) = ap (λ l. x ∷ l) (take-drop_split n xs)
