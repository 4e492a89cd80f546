-- ===== src/StrT/Compare.antt =====
-- Cmp and CmpI compare in the order of a dictionary: by the first characters that differ.
use gray_core.Base.{
  ℕ, ◌≡◌, ◌<◌, ◌∙◌, refl, ap, ap₂, some, List, [], ◌∷◌, map, false, Bool-cases, inl, inr, arith,
  tests, ltb, if◌then◌else◌,
}
use gray_core.Base.Int.{ℤ, pos, ◌-ℤ◌, eq_ℤ}
use gray_core.Base.Compared.{Compared, less, equal, greater}
use gray_core.StrChar.{cmp_i_char, to_lower_w}
use gray_core.StrChar.Case.{cmp_i_char-to_lower_w, to_lower_w_pos}
use gray_core.StrT.{IsText, code_diff, cmp_by, cmp, cmp_i, sign}

-- The order of a dictionary.
abbrev pub lexicographic : List ℕ → List ℕ → Compared
lexicographic [] [] = equal
lexicographic [] (b ∷ bs) = less
lexicographic (a ∷ as1) [] = greater
lexicographic (a ∷ as1) (b ∷ bs) =
    let rest = lexicographic as1 bs in if ltb a b then less else if ltb b a then greater else rest

-- The difference of two numbers, whether it is 0, and its sign.
difference-lt :
    (x y : ℕ) → x < y → (eq_ℤ (pos x -ℤ pos y) (pos 0) ≡ false) × (sign (pos x -ℤ pos y) ≡ less)
unfolding ◌-ℤ◌
difference-lt x y h = ground arith

difference-gt :
    (x y : ℕ) → y < x → (eq_ℤ (pos x -ℤ pos y) (pos 0) ≡ false) × (sign (pos x -ℤ pos y) ≡ greater)
unfolding ◌-ℤ◌
difference-gt x y h = ground arith

difference-eq : (x y : ℕ) → x ≡ y → pos x -ℤ pos y ≡ pos 0
unfolding ◌-ℤ◌
difference-eq x y h = ground arith

module _ (diff : ℕ → ℕ → ℤ) (key : ℕ → ℕ)
    (by_key : (a b : ℕ) → diff a b ≡ pos (key a) -ℤ pos (key b)) (at_end : key 0 ≡ 0)
    (key_pos : (a : ℕ) → 0 < a → 0 < key a) where
  cmp_by-lexicographic :
      (as1 bs : List ℕ)
      → IsText as1
      → IsText bs
      → sign (cmp_by diff as1 bs) ≡ lexicographic (map key as1) (map key bs)
  unfolding cmp_by
  cmp_by-lexicographic [] [] p q = rw (by_key 0 0, difference-eq (key 0) (key 0) refl) refl
  cmp_by-lexicographic [] (b ∷ bs) p q =
      rw (by_key 0 b, at_end) (difference-lt 0 (key b) (key_pos b q.0)).1
  cmp_by-lexicographic (a ∷ as1) [] p q =
      rw (by_key a 0, at_end) (difference-gt (key a) 0 (key_pos a p.0)).1
  cmp_by-lexicographic (a ∷ as1) (b ∷ bs) p q = elim (Bool-cases (ltb (key a) (key b))) [
    | inl below ↦
        let d = difference-lt (key a) (key b) (omega (tests, below)) in
        rw (by_key a b, d.0, below) d.1
    | inr not_below ↦ elim (Bool-cases (ltb (key b) (key a))) [
      | inl above ↦
          let d = difference-gt (key a) (key b) (omega (tests, above)) in
          rw (by_key a b, d.0, not_below, above) d.1
      | inr not_above ↦
          rw
            (
              by_key a b,
              difference-eq (key a) (key b) (omega (tests, not_below, not_above)),
              not_below,
              not_above,
            )
            (cmp_by-lexicographic as1 bs p.1 q.1)
    ]
  ]

code_pos : (a : ℕ) → 0 < a → 0 < a
code_pos a h = h

map_id : (as1 : List ℕ) → map (λ c. c) as1 ≡ as1
map_id [] = refl
map_id (a ∷ as1) = ap (λ l. a ∷ l) (map_id as1)

-- Of strings of `wchar_t` without a character 0, Cmp gives the sign of their dictionary order, and
-- CmpI that of their lower cases. A character is its code, which is not negative.
pub cmp-lexicographic :
    (as1 bs : List ℕ)
    → IsText as1
    → IsText bs
    → (sign (cmp (some as1) (some bs)) ≡ lexicographic as1 bs)
      × (sign (cmp_i (some as1) (some bs)) ≡ lexicographic (map to_lower_w as1) (map to_lower_w bs))
unfolding cmp cmp_i to_lower_w
cmp-lexicographic as1 bs p q = (
  cmp_by-lexicographic code_diff (λ c. c) (λ a b. refl) refl code_pos as1 bs p q
      ∙ ap₂ lexicographic (map_id as1) (map_id bs),
  cmp_by-lexicographic cmp_i_char to_lower_w cmp_i_char-to_lower_w refl to_lower_w_pos as1 bs p q,
)
