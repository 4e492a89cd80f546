-- ===== src/Sorted/Search.antt =====
-- The binary search finds the place of what it looks for.
use gray_core.Base.{
  ℕ, zero, suc, ◌+◌, ◌-◌, ◌/◌, ◌≤◌, ◌<◌, ◌≡◌, ◌∙◌, ◌⊎◌, inl, inr, refl, sym, Bool-cases, Option,
  some, List, [], ◌∷◌, length, get_elem?, get_elem?-some, ltb, le→ltb_false, get_elem?-length,
  arith, tests,
}
use gray_core.Base.Compared.{Compared, less, equal, greater}
use gray_core.Sorted.{Near, near_loop, find_near}

pub Compared-cases : (c : Compared) → (c ≡ less) ⊎ ((c ≡ equal) ⊎ (c ≡ greater))
Compared-cases less = inl refl
Compared-cases equal = inr (inl refl)
Compared-cases greater = inr (inr refl)

module _ {ℓ} {A : Type ℓ} (find : A → Compared) where
  -- What is looked for is above the elements before `p`, and below those from `p` on.
  abbrev pub Above : List A → ℕ → Type ℓ
  Above xs p = (i : ℕ) (x : A) → i < p → get_elem? xs i ≡ some x → find x ≡ greater

  abbrev pub Below : List A → ℕ → Type ℓ
  Below xs p = (i : ℕ) (x : A) → p ≤ i → get_elem? xs i ≡ some x → find x ≡ less

  -- The elements are in the order of the comparison.
  pub record InOrder (xs : List A) : Type ℓ where
    pub up :
        (i j : ℕ) (x y : A)
        → i ≤ j
        → get_elem? xs i ≡ some x
        → get_elem? xs j ≡ some y
        → find y ≡ greater
        → find x ≡ greater
    pub down :
        (i j : ℕ) (x y : A)
        → i ≤ j
        → get_elem? xs i ≡ some x
        → get_elem? xs j ≡ some y
        → find x ≡ less
        → find y ≡ less

  -- An equal element at the index, or a place between the elements below and those above.
  pub data Place (xs : List A) (near : Near) : Type ℓ where
    found :
        (x : A)
        → get_elem? xs near.index ≡ some x
        → find x ≡ equal
        → near.result ≡ equal
        → Place xs near
    after :
        near.index < length xs
        → near.result ≡ greater
        → Above xs (near.index + 1)
        → Below xs (near.index + 1)
        → Place xs near
    before :
        near.index ≤ length xs
        → near.result ≡ less
        → Above xs near.index
        → Below xs near.index
        → Place xs near

  -- The index and the result of the loop name one of its bounds.
  abbrev AtBound : ℕ → ℕ → Near → Type 0
  AtBound low high near =
      ((near.result ≡ greater) × (near.index + 1 ≡ low))
      ⊎ ((near.result ≡ less) × (near.index ≡ high))

  abbrev pub Ends : List A → Option Near → Type ℓ
  Ends xs result = (near : Near) × (result ≡ some near) × Place xs near

  place_at_bound :
      (xs : List A) (low high : ℕ) (near : Near)
      → low ≡ high
      → high ≤ length xs
      → Above xs low
      → Below xs high
      → AtBound low high near
      → Place xs near
  place_at_bound xs low high near e bound above below (inl (is, at)) =
      after (omega arith) is (rw (sym at) at above) (rw (sym e ∙ sym at) at below)
  place_at_bound xs low high near e bound above below (inr (is, at)) =
      before (omega arith) is (rw (e ∙ sym at) at above) (rw (sym at) at below)

  near_loop-Place :
      (fuel : ℕ) (xs : List A) (low high : ℕ) (near : Near)
      → InOrder xs
      → low ≤ high
      → high ≤ length xs
      → high ≤ low + fuel
      → Above xs low
      → Below xs high
      → (low ≡ high → AtBound low high near)
      → Ends xs (near_loop find xs fuel low high near)
  unfolding near_loop
  near_loop-Place zero xs low high near order le bound enough above below at =
      rw (near_loop, le→ltb_false low high (omega arith))
        (
          near,
          refl,
          place_at_bound xs low high near (omega arith) bound above below (at (omega arith)),
        )
  near_loop-Place (suc fuel) xs low high near order le bound enough above below at =
      elim (Bool-cases (ltb low high)) [
        | inr over ↦
            rw (near_loop, over)
              (
                near,
                refl,
                place_at_bound xs low high near (omega (tests, over)) bound above below
                    (at (omega (tests, over))),
              )
        | inl more ↦
            let (x, is) = get_elem?-some xs ((high - 1 + low) / 2) (omega (tests, more)) in
            elim (Compared-cases (find x)) [
              | inl below_x ↦
                  rw (near_loop, more, is, below_x)
                    (near_loop-Place fuel xs low ((high - 1 + low) / 2) _ order
                      (omega (tests, more)) (omega (tests, more)) (omega (tests, more)) above
                      (λ j y le at_j. order.down _ j x y le is at_j below_x)
                      (λ e. inr (refl, refl)))
              | inr (inl same) ↦ rw (near_loop, more, is, same) (_, refl, found x is same refl)
              | inr (inr above_x) ↦
                  rw (near_loop, more, is, above_x)
                    (near_loop-Place fuel xs ((high - 1 + low) / 2 + 1) high _ order
                      (omega (tests, more)) bound (omega (tests, more))
                      (λ j y lt at_j. order.up j _ y x (omega (arith, lt)) at_j is above_x) below
                      (λ e. inl (refl, refl)))
            ]
      ]

  -- The search ends, on an array in the order of the comparison, at an equal element, or at the
  -- place between the elements that are less than what is looked for and those that are greater.
  pub find_near-Place : (xs : List A) → InOrder xs → Ends xs (find_near find xs)
  unfolding find_near
  find_near-Place [] order = (
    _,
    refl,
    before (omega arith) refl (λ i x h is. absurd (omega (arith, h)))
        (λ i x h is. absurd (omega (arith, get_elem?-length {A = A} [] i x is))),
  )
  find_near-Place (x ∷ xs) order =
      near_loop-Place (length (x ∷ xs)) (x ∷ xs) 0 (length (x ∷ xs)) _ order (omega arith)
        (omega arith) (omega arith) (λ i y h is. absurd (omega (arith, h)))
        (λ i y h is. absurd (omega (arith, h, get_elem?-length (x ∷ xs) i y is)))
        (λ e. absurd (omega (arith, e)))
