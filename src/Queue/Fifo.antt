-- ===== src/Queue/Fifo.antt =====
-- What a queue of include/cQueue.h promises: the elements come out in the order in which they
-- went in, and at most `cap` of them are held.
use gray_core.Base.{
  ℕ, ◌-◌, min, Bool, true, false, Option, none, some, List, [], ◌∷◌, ◌++◌, ltb, if◌then◌else◌,
  length, take, drop,
}

module _ {ℓ} {A : Type ℓ} where
  unfoldable pub put : ℕ → List A → A → Bool × List A
  put cap xs x = if ltb (length xs) cap then (true, xs ++ (x ∷ [])) else (false, xs)

  unfoldable pub get : List A → Option (A × List A)
  get [] = none
  get (x ∷ xs) = some (x, xs)

  -- As many as there is room for, and their number.
  unfoldable pub put_many : ℕ → List A → List A → ℕ × List A
  put_many cap xs src = let room = cap - length xs in (min room (length src), xs ++ take room src)

  -- All of them or none.
  unfoldable pub put_all : ℕ → List A → List A → ℕ × List A
  put_all cap xs src =
      if ltb (cap - length xs) (length src) then (0, xs) else (length src, xs ++ src)

  -- As many as are asked for and there are.
  unfoldable pub get_many : ℕ → List A → List A × List A
  get_many n xs = (take n xs, drop n xs)
