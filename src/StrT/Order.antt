-- ===== src/StrT/Order.antt =====
-- include/cArraySortString.h: CmpI orders strings as the sorted arrays need it.
use gray_core.Base.{ℕ, ◌≡◌, ◌≢◌, ◌∙◌, refl, sym, ap, List, [], ◌∷◌, map, Bool, some, arith}
use gray_core.Base.Compared.{Compared, less, equal, greater, flip}
use gray_core.StrChar.{to_lower_w}
use gray_core.StrT.{IsText, cmp_i, sign}
use gray_core.StrT.Compare.{lexicographic, cmp-lexicographic}
use gray_core.Sorted.{Sorting}
use gray_core.Sorted.Laws.{SortLaws}

lexicographic-flip : (as1 bs : List ℕ) → lexicographic bs as1 ≡ flip (lexicographic as1 bs)
lexicographic-flip [] [] = refl
lexicographic-flip [] (b ∷ bs) = refl
lexicographic-flip (a ∷ as1) [] = refl
lexicographic-flip (a ∷ as1) (b ∷ bs) = ground (arith, lexicographic-flip as1 bs)

lexicographic-eq : (as1 bs : List ℕ) → lexicographic as1 bs ≡ equal → as1 ≡ bs
lexicographic-eq [] [] h = refl
lexicographic-eq [] (b ∷ bs) h = absurd (cc)
lexicographic-eq (a ∷ as1) [] h = absurd (cc)
lexicographic-eq (a ∷ as1) (b ∷ bs) h = ground (arith, lexicographic-eq as1 bs)

lexicographic-up :
    (cs as1 bs : List ℕ)
    → lexicographic as1 bs ≢ greater
    → lexicographic cs bs ≡ greater
    → lexicographic cs as1 ≡ greater
lexicographic-up [] as1 [] h k = absurd (cc)
lexicographic-up [] as1 (b ∷ bs) h k = absurd (cc)
lexicographic-up (c ∷ cs) [] bs h k = refl
lexicographic-up (c ∷ cs) (a ∷ as1) [] h k = absurd (h refl)
lexicographic-up (c ∷ cs) (a ∷ as1) (b ∷ bs) h k = ground (arith, lexicographic-up cs as1 bs)

lexicographic-down :
    (cs as1 bs : List ℕ)
    → lexicographic as1 bs ≢ greater
    → lexicographic cs as1 ≡ less
    → lexicographic cs bs ≡ less
lexicographic-down [] [] [] h k = absurd (cc)
lexicographic-down [] (a ∷ as1) [] h k = absurd (h refl)
lexicographic-down [] as1 (b ∷ bs) h k = refl
lexicographic-down (c ∷ cs) [] bs h k = absurd (cc)
lexicographic-down (c ∷ cs) (a ∷ as1) [] h k = absurd (h refl)
lexicographic-down (c ∷ cs) (a ∷ as1) (b ∷ bs) h k = ground (arith, lexicographic-down cs as1 bs)

-- A string of an array.
pub record Text : Type 0 where
  pub chars : List ℕ
  pub valid : IsText chars

-- CompareElems and CompareKey of cArraySortString; `same` is IsEqual3 of its elements.
abbrev pub compare_texts : Text → Text → Compared
compare_texts a b = sign (cmp_i (some a.chars) (some b.chars))

abbrev pub texts : (Text → Text → Bool) → Sorting Text Text
texts same = record {
  compare_elems = compare_texts;
  compare_key = compare_texts;
  same = same;
  blank = record { chars = []; valid = tt };
}

abbrev folded : Text → List ℕ
folded a = map to_lower_w a.chars

compare_texts-folded : (a b : Text) → compare_texts a b ≡ lexicographic (folded a) (folded b)
compare_texts-folded a b = (cmp-lexicographic a.chars b.chars a.valid b.valid).1

-- The comparison of a sorted array of strings meets the laws that its operations rely on.
pub texts-SortLaws : (same : Text → Text → Bool) → SortLaws (texts same)
texts-SortLaws same = record {
  flips = λ a b.
      rw (compare_texts-folded a b, compare_texts-folded b a)
        (lexicographic-flip (folded a) (folded b));
  up = up;
  down = down;
  alike = λ a b c h.
      rw (compare_texts-folded a c, compare_texts-folded b c)
        (ap (λ l. lexicographic l (folded c))
          (lexicographic-eq (folded a) (folded b) (sym (compare_texts-folded a b) ∙ h)));
  key_up = up;
  key_down = down;
}
  where
    up :
        (c a b : Text)
        → compare_texts a b ≢ greater
        → compare_texts c b ≡ greater
        → compare_texts c a ≡ greater
    up c a b h k =
        compare_texts-folded c a
        ∙ lexicographic-up (folded c) (folded a) (folded b) (λ e. h (compare_texts-folded a b ∙ e))
            (sym (compare_texts-folded c b) ∙ k)

    down :
        (c a b : Text)
        → compare_texts a b ≢ greater
        → compare_texts c a ≡ less
        → compare_texts c b ≡ less
    down c a b h k =
        compare_texts-folded c b
        ∙ lexicographic-down (folded c) (folded a) (folded b)
            (λ e. h (compare_texts-folded a b ∙ e)) (sym (compare_texts-folded c a) ∙ k)
