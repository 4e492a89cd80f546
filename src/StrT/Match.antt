-- ===== src/StrT/Match.antt =====
-- MatchRegEx of include/StrT.inl. `text_max` is the limit on the text, nTextMax, which is one where it is
-- above 0; the default is -1. A result below 0 is the length, negated, of a text that ran out of
-- the limit before the pattern was complete.
use gray_core.Base.{
  ℕ, suc, ◌+◌, ◌≡◌, ◌≢◌, ◌⊎◌, ◌∙◌, ap, sym, refl, Bool, true, false, ◌||◌, ◌&&◌, List, [], ◌∷◌,
  ◌==◌, if◌then◌else◌, length, ltb, arith, Bool-cases, inl, inr, ==→eq, ==_false→ne,
}
use mathlib.Core.Path.{subst}
use gray_core.Base.Int.{ℤ, pos, negsuc, eq_ℤ, ltb_ℤ, leb_ℤ, neg_ℕ, ◌+ℤ◌, ◌-ℤ◌}
use gray_core.StrChar.{cmp_i_char}

abbrev pub star : ℕ
star = b'*'

abbrev pub question : ℕ
question = b'?'

abbrev pub k_str_len_unk : ℤ
k_str_len_unk = negsuc 0

abbrev pub limited : ℤ → Bool
limited text_max = ltb_ℤ (pos 0) text_max

-- The loop over the places at which the pattern after a `*` may go on.
unfoldable pub after_star : (ℤ → List ℕ → ℤ) → ℤ → ℕ → List ℕ → ℤ
after_star match text_max j [] = pos 0
after_star match text_max j (c ∷ text) =
    let later = after_star match text_max (j + 1) text in
    let match2 = match (if limited text_max then text_max -ℤ pos j else text_max) (c ∷ text) in
    if eq_ℤ match2 (pos 0)
    then later
    else if ltb_ℤ match2 (pos 0)
    then match2 -ℤ pos j
    else pos j +ℤ match2

-- A character of the text against one of the pattern that is not `*`.
abbrev pub char_matches : Bool → ℕ → ℕ → Bool
char_matches ignore_case c p =
    p == question || (if ignore_case then eq_ℤ (cmp_i_char c p) (pos 0) else c == p)

-- The loop of MatchRegEx, with the characters of the text passed so far.
unfoldable pub match_from : Bool → List ℕ → ℤ → ℕ → List ℕ → ℤ
unfolding after_star
match_from ignore_case [] text_max i [] = pos i
match_from ignore_case [] text_max i (c ∷ text) = if limited text_max then pos i else pos 0
match_from ignore_case (p ∷ pattern) text_max i [] =
    if limited text_max && leb_ℤ text_max (pos i) then neg_ℕ i else pos 0
match_from ignore_case (p ∷ pattern) text_max i (c ∷ text) =
    let rest = match_from ignore_case pattern text_max (i + 1) text in
    let last : Bool = elim pattern [ [] ↦ true | _ ∷ _ ↦ false ] in
    let to_end = if limited text_max then text_max else pos (i + length (c ∷ text)) in
    let skip =
      after_star (λ text_max2 later. match_from ignore_case pattern text_max2 0 later) text_max i
        (c ∷ text) in
    if limited text_max && leb_ℤ text_max (pos i)
    then neg_ℕ i
    else if p == star
    then if last then to_end else skip
    else if char_matches ignore_case c p
    then rest
    else pos 0

unfoldable pub match_reg_ex : List ℕ → List ℕ → Bool → ℤ → ℤ
unfolding match_from
match_reg_ex text pattern ignore_case text_max = match_from ignore_case pattern text_max 0 text

-- What a pattern matches. A `*` at the end stands for at least one character, and what follows a
-- `*` elsewhere is not matched by an empty rest of the text.
pub data Matches (ignore_case : Bool) : List ℕ → List ℕ → Type 0 where
  nothing : Matches ignore_case [] []
  one :
      (p c : ℕ) (pattern text : List ℕ)
      → p ≢ star
      → char_matches ignore_case c p ≡ true
      → Matches ignore_case pattern text
      → Matches ignore_case (p ∷ pattern) (c ∷ text)
  star_last : (s c : ℕ) (text : List ℕ) → s ≡ star → Matches ignore_case (s ∷ []) (c ∷ text)
  star_stop :
      (s p c : ℕ) (pattern text : List ℕ)
      → s ≡ star
      → Matches ignore_case (p ∷ pattern) (c ∷ text)
      → Matches ignore_case (s ∷ (p ∷ pattern)) (c ∷ text)
  star_skip :
      (s p c : ℕ) (pattern text : List ℕ)
      → s ≡ star
      → Matches ignore_case (s ∷ (p ∷ pattern)) text
      → Matches ignore_case (s ∷ (p ∷ pattern)) (c ∷ text)

-- A result that says truly whether the pattern matches, with the length of the text.
abbrev pub Decided : Bool → List ℕ → ℕ → List ℕ → ℤ → Type 0
Decided ignore_case pattern i text result =
    (Matches ignore_case pattern text × (result ≡ pos (i + length text)))
    ⊎ ((Matches ignore_case pattern text → ⊥) × (result ≡ pos 0))

module _ (ignore_case : Bool) (text_max : ℤ) (no_limit : limited text_max ≡ false) where
  no_text : (p : ℕ) (pattern : List ℕ) → Matches ignore_case (p ∷ pattern) [] → ⊥
  no_text p pattern m = elim m [ ]

  star_inversion :
      (s p c : ℕ) (pattern text : List ℕ)
      → s ≡ star
      → Matches ignore_case (s ∷ (p ∷ pattern)) (c ∷ text)
      → Matches ignore_case (p ∷ pattern) (c ∷ text) ⊎ Matches ignore_case (s ∷ (p ∷ pattern)) text
  star_inversion s p c pattern text e (one _ _ _ _ ne h m) = absurd (ne e)
  star_inversion s p c pattern text e (star_stop _ _ _ _ _ _ m) = inl m
  star_inversion s p c pattern text e (star_skip _ _ _ _ _ _ m) = inr m

  one_inversion :
      (p c : ℕ) (pattern text : List ℕ)
      → p ≢ star
      → Matches ignore_case (p ∷ pattern) (c ∷ text)
      → (char_matches ignore_case c p ≡ true) × Matches ignore_case pattern text
  one_inversion p c pattern text ne (one _ _ _ _ _ h m) = (h, m)
  one_inversion p c pattern text ne (star_last _ _ _ e) = absurd (ne e)
  one_inversion p c pattern text ne (star_stop _ _ _ _ _ e m) = absurd (ne e)
  one_inversion p c pattern text ne (star_skip _ _ _ _ _ e m) = absurd (ne e)

  -- A place where the rest of the pattern matches, and one where it does not.
  after_star-found :
      (match : ℤ → List ℕ → ℤ) (j c : ℕ) (text : List ℕ)
      → match text_max (c ∷ text) ≡ pos (0 + suc (length text))
      → after_star match text_max j (c ∷ text) ≡ pos (j + suc (length text))
  unfolding after_star ◌+ℤ◌
  after_star-found match j c text found =
      rw (after_star, no_limit, found, nonzero (length text), positive (length text))
        (ap pos (omega arith))
    where
      nonzero : (n : ℕ) → (0 + suc n == 0) ≡ false
      nonzero n = ground arith

      positive : (n : ℕ) → ltb (0 + suc n) 0 ≡ false
      positive n = ground arith

  after_star-later :
      (match : ℤ → List ℕ → ℤ) (j c : ℕ) (text : List ℕ)
      → match text_max (c ∷ text) ≡ pos 0
      → after_star match text_max j (c ∷ text) ≡ after_star match text_max (j + 1) text
  unfolding after_star
  after_star-later match j c text none_here = rw (after_star, no_limit, none_here) refl

  after_star-Decided :
      (match : ℤ → List ℕ → ℤ) (s p : ℕ) (pattern : List ℕ)
      → s ≡ star
      → ((text : List ℕ) → Decided ignore_case (p ∷ pattern) 0 text (match text_max text))
      → (j : ℕ) (text : List ℕ)
      → Decided ignore_case (s ∷ (p ∷ pattern)) j text (after_star match text_max j text)
  unfolding after_star
  after_star-Decided match s p pattern e sure j [] = inr (no_text s (p ∷ pattern), refl)
  after_star-Decided match s p pattern e sure j (c ∷ text) = elim (sure (c ∷ text)) [
    | inl (m, r) ↦ inl (star_stop s p c pattern text e m, after_star-found match j c text r)
    | inr (no_match, r) ↦ elim (after_star-Decided match s p pattern e sure (j + 1) text) [
      | inl (m, later) ↦ inl (
        star_skip s p c pattern text e m,
        after_star-later match j c text r ∙ later ∙ ap pos (omega arith),
      )
      | inr (none_later, later) ↦ inr (
        λ m. elim (star_inversion s p c pattern text e m) [
          | inl stop ↦ no_match stop
          | inr skip ↦ none_later skip
        ],
        after_star-later match j c text r ∙ later,
      )
    ]
  ]

  one-Decided :
      (p c : ℕ) (pattern : List ℕ) (i : ℕ) (text : List ℕ)
      → p ≢ star
      → Decided ignore_case pattern
          (i + 1)
          text
          (match_from ignore_case pattern text_max (i + 1) text)
      → Decided ignore_case (p ∷ pattern) i (c ∷ text) (
          if char_matches ignore_case c p
          then match_from ignore_case pattern text_max (i + 1) text
          else pos 0)
  one-Decided p c pattern i text ne rest = elim (Bool-cases (char_matches ignore_case c p)) [
    | inr differ ↦
        rw differ (inr (λ m. true_false differ (one_inversion p c pattern text ne m).0, refl))
    | inl same ↦ elim rest [
      | inl (m, e) ↦ rw (same, e) (inl (one p c pattern text ne same m, ap pos (omega arith)))
      | inr (no_match, e) ↦
          rw (same, e) (inr (λ m. no_match (one_inversion p c pattern text ne m).1, refl))
    ]
  ]
    where
      true_false : {b : Bool} → b ≡ false → b ≡ true → ⊥
      true_false h k = cc

  star_step :
      (p q : ℕ) (pattern : List ℕ) (i c : ℕ) (text : List ℕ)
      → (p == star) ≡ true
      → match_from ignore_case (p ∷ (q ∷ pattern)) text_max i (c ∷ text)
        ≡ after_star
            (λ text_max2 later. match_from ignore_case (q ∷ pattern) text_max2 0 later)
            text_max
            i
            (c ∷ text)
  unfolding match_from
  star_step p q pattern i c text is_star = rw (no_limit, is_star) refl

  match_from-Decided :
      (pattern : List ℕ) (i : ℕ) (text : List ℕ)
      → Decided ignore_case pattern i text (match_from ignore_case pattern text_max i text)
  unfolding match_from
  match_from-Decided [] i [] = inl (nothing, ap pos (omega arith))
  match_from-Decided [] i (c ∷ text) = rw no_limit (inr (λ m. elim m [ ], refl))
  match_from-Decided (p ∷ pattern) i [] = rw no_limit (inr (no_text p pattern, refl))
  match_from-Decided (p ∷ []) i (c ∷ text) = elim (Bool-cases (p == star)) [
    | inl is_star ↦
        rw (match_from, no_limit, is_star) (inl (star_last p c text (==→eq p star is_star), refl))
    | inr not_star ↦
        rw (match_from, no_limit, not_star)
          (one-Decided p c [] i text (==_false→ne p star not_star)
            (match_from-Decided [] (i + 1) text))
  ]
  match_from-Decided (p ∷ (q ∷ pattern)) i (c ∷ text) = elim (Bool-cases (p == star)) [
    | inl is_star ↦
        subst (Decided ignore_case (p ∷ (q ∷ pattern)) i (c ∷ text))
          (sym (star_step p q pattern i c text is_star))
          (after_star-Decided
            (λ text_max2 later. match_from ignore_case (q ∷ pattern) text_max2 0 later) p q pattern
            (==→eq p star is_star) (match_from-Decided (q ∷ pattern) 0) i (c ∷ text))
    | inr not_star ↦
        rw (match_from, no_limit, not_star)
          (one-Decided p c (q ∷ pattern) i text (==_false→ne p star not_star)
            (match_from-Decided (q ∷ pattern) (i + 1) text))
  ]

-- Without a limit on the text, as by default, MatchRegEx returns the length of the text if the
-- pattern matches it, and 0 otherwise, which is also the length of an empty text.
pub match_reg_ex-Decided :
    (text pattern : List ℕ) (ignore_case : Bool) (text_max : ℤ)
    → limited text_max ≡ false
    → Decided ignore_case pattern 0 text (match_reg_ex text pattern ignore_case text_max)
unfolding match_reg_ex
match_reg_ex-Decided text pattern ignore_case text_max no_limit =
    match_from-Decided ignore_case text_max no_limit pattern 0 text

-- A `*` at the end matches no empty rest: `a*` does not match `a`.
star-empty : match_reg_ex (b'a' ∷ []) (b'a' ∷ star ∷ []) false k_str_len_unk ≡ pos 0
unfolding match_reg_ex
star-empty = refl
