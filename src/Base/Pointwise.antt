-- ===== src/Base/Pointwise.antt =====
-- Lists as tables of a function of the index.
use Prim.Native.Nat.{ℕ, zero, suc, ◌+◌, ◌-◌, ◌≤◌, ◌<◌}
use mathlib.Core.Path.{◌≡◌, refl, ap, ap₂, ◌∙◌}
use mathlib.Core.List.{List, [], ◌∷◌, ◌++◌}
use native.Mathlib.Omega.{arith}
use gray_core.Base.Lists.{length, get_or, take, drop}

module _ {ℓ} {A : Type ℓ} where
  -- f 0, f 1, ..., f (n - 1)
  abbrev pub tabulate : ℕ → (ℕ → A) → List A
  tabulate zero f = []
  tabulate (suc n) f = f 0 ∷ tabulate n (λ i. f (suc i))

  pub length-tabulate : (n : ℕ) (f : ℕ → A) → length (tabulate n f) ≡ n
  length-tabulate zero f = refl
  length-tabulate (suc n) f = ap suc (length-tabulate n (λ i. f (suc i)))

  pub tabulate-length : (m n : ℕ) (f : ℕ → A) → m ≡ n → tabulate m f ≡ tabulate n f
  tabulate-length m n f e = ap (λ k. tabulate k f) e

  pub tabulate_ext :
      (n : ℕ) (f g : ℕ → A) → ((i : ℕ) → i < n → f i ≡ g i) → tabulate n f ≡ tabulate n g
  tabulate_ext zero f g h = refl
  tabulate_ext (suc n) f g h =
      ap₂ ◌∷◌ (h 0 (omega arith))
        (tabulate_ext n (λ i. f (suc i)) (λ i. g (suc i)) (λ i lt. h (suc i) (omega arith)))

  pub tabulate-add :
      (m n : ℕ) (f : ℕ → A) → tabulate (m + n) f ≡ tabulate m f ++ tabulate n (λ i. f (m + i))
  tabulate-add zero n f =
      ap (λ k. tabulate k f) (zero-add' n)
      ∙ tabulate_ext n f (λ i. f (zero + i)) (λ i h. ap f (zero-add'' i))
    where
      zero-add' : (n : ℕ) → zero + n ≡ n
      zero-add' n = omega arith

      zero-add'' : (n : ℕ) → n ≡ zero + n
      zero-add'' n = omega arith
  tabulate-add (suc m) n f =
      ap (λ k. tabulate k f) (suc-add' m n)
      ∙ ap (λ l. f 0 ∷ l)
          (tabulate-add m n (λ i. f (suc i))
            ∙ ap (λ l. tabulate m (λ i. f (suc i)) ++ l)
                (tabulate_ext n (λ i. f (suc (m + i))) (λ i. f (suc m + i))
                  (λ i h. ap f (suc-add'' m i))))
    where
      suc-add' : (m n : ℕ) → suc m + n ≡ suc (m + n)
      suc-add' m n = omega arith

      suc-add'' : (m n : ℕ) → suc (m + n) ≡ suc m + n
      suc-add'' m n = omega arith

  pub tabulate-snoc : (n : ℕ) (f : ℕ → A) → tabulate (suc n) f ≡ tabulate n f ++ (f n ∷ [])
  tabulate-snoc zero f = refl
  tabulate-snoc (suc n) f = ap (λ l. f 0 ∷ l) (tabulate-snoc n (λ i. f (suc i)))

  -- The first `n` entries of a list that has them.
  pub tabulate-take :
      (d : A) (n : ℕ) (xs : List A) → n ≤ length xs → tabulate n (λ i. get_or xs i d) ≡ take n xs
  tabulate-take d zero xs h = refl
  tabulate-take d (suc n) [] h = absurd (omega arith)
  tabulate-take d (suc n) (x ∷ xs) h = ap (λ l. x ∷ l) (tabulate-take d n xs (omega arith))

  pub take-tabulate : (k n : ℕ) (f : ℕ → A) → k ≤ n → take k (tabulate n f) ≡ tabulate k f
  take-tabulate zero n f h = refl
  take-tabulate (suc k) zero f h = absurd (omega arith)
  take-tabulate (suc k) (suc n) f h =
      ap (λ l. f 0 ∷ l) (take-tabulate k n (λ i. f (suc i)) (omega arith))

  pub drop-tabulate :
      (k n : ℕ) (f : ℕ → A) → drop k (tabulate n f) ≡ tabulate (n - k) (λ i. f (k + i))
  drop-tabulate zero n f =
      ap (λ m. tabulate m f) (sub-zero n)
      ∙ tabulate_ext (n - 0) f (λ i. f (0 + i)) (λ i h. ap f (zero-add i))
    where
      sub-zero : (n : ℕ) → n ≡ n - 0
      sub-zero n = omega arith

      zero-add : (i : ℕ) → i ≡ 0 + i
      zero-add i = omega arith
  drop-tabulate (suc k) zero f = ap (λ m. tabulate m (λ i. f (suc k + i))) (zero-sub k)
    where
      zero-sub : (k : ℕ) → 0 ≡ 0 - suc k
      zero-sub k = omega arith
  drop-tabulate (suc k) (suc n) f =
      drop-tabulate k n (λ i. f (suc i))
      ∙ ap (λ m. tabulate m (λ i. f (suc (k + i)))) (suc-sub-suc n k)
      ∙ tabulate_ext (suc n - suc k) (λ i. f (suc (k + i))) (λ i. f (suc k + i))
          (λ i h. ap f (suc-add k i))
    where
      suc-sub-suc : (n k : ℕ) → n - k ≡ suc n - suc k
      suc-sub-suc n k = omega arith

      suc-add : (k i : ℕ) → suc (k + i) ≡ suc k + i
      suc-add k i = omega arith

  pub get_or-drop :
      (n : ℕ) (xs : List A) (i : ℕ) (d : A) → get_or (drop n xs) i d ≡ get_or xs (n + i) d
  get_or-drop zero xs i d = ap (λ j. get_or xs j d) (omega arith)
  get_or-drop (suc n) [] i d = refl
  get_or-drop (suc n) (x ∷ xs) i d =
      get_or-drop n xs i d ∙ ap (λ j. get_or (x ∷ xs) j d) (suc-add n i)
    where
      suc-add : (a b : ℕ) → suc (a + b) ≡ suc a + b
      suc-add a b = omega arith

  pub get_or-take :
      (n : ℕ) (xs : List A) (i : ℕ) (d : A) → i < n → get_or (take n xs) i d ≡ get_or xs i d
  get_or-take zero xs i d h = absurd (omega arith)
  get_or-take (suc n) [] i d h = refl
  get_or-take (suc n) (x ∷ xs) zero d h = refl
  get_or-take (suc n) (x ∷ xs) (suc i) d h = get_or-take n xs i d (omega arith)
