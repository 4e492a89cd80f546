-- ===== src/StrT/Search.antt =====
-- Searches for characters in include/StrT.inl, and the white space at the ends of strings.
use gray_core.Base.{
  ℕ, zero, suc, ◌+◌, ◌≡◌, ◌≢◌, ◌<◌, ◌≤◌, Bool, true, false, ◌&&◌, ◌||◌, List, [], ◌∷◌, Option, none,
  some, ◌==◌, if◌then◌else◌, length, get_or, arith, tests, ==→eq, ==_false→ne, Bool-cases, inl, inr,
}
use gray_core.StrChar.{is_space_x, is_print_a}
use gray_core.StrT.{IsText}

-- FindCharN of a string, from index `i` on; the final 0 is a character too, and is found.
unfoldable pub find_char_from : ℕ → List ℕ → ℕ → ℕ → Option ℕ
find_char_from i str ch zero = none
find_char_from i [] ch (suc max) = if ch == 0 then some i else none
find_char_from i (c ∷ cs) ch (suc max) =
    let rest = find_char_from (suc i) cs ch max in
    if c == ch then some i else if c == 0 then none else rest

unfoldable pub find_char_n : Option (List ℕ) → ℕ → ℕ → Option ℕ
unfolding find_char_from
find_char_n none ch max = none
find_char_n (some str) ch max = find_char_from 0 str ch max

-- HasChar, for a limit above the length.
unfoldable pub has_char : List ℕ → ℕ → Bool
unfolding find_char_n
has_char str ch = elim (find_char_n (some str) ch (suc (length str))) [
  | none ↦ false
  | some i ↦ true
]

-- FindCharRev of a span: the index is decreased before it is tested.
unfoldable pub find_char_down : List ℕ → ℕ → ℕ → Option ℕ
find_char_down str ch zero = none
find_char_down str ch (suc zero) = none
find_char_down str ch (suc (suc i)) =
    let rest = find_char_down str ch (suc i) in
    if get_or str (suc i) 0 == ch then some (suc i) else rest

unfoldable pub find_char_rev : List ℕ → ℕ → Option ℕ
unfolding find_char_down
find_char_rev str ch = find_char_down str ch (length str)

unfoldable pub find_tokens_from : ℕ → List ℕ → List ℕ → Option ℕ
find_tokens_from i [] tokens = none
find_tokens_from i (c ∷ cs) tokens =
    let rest = find_tokens_from (suc i) cs tokens in if has_char tokens c then some i else rest

-- FindTokens of a span.
unfoldable pub find_tokens : List ℕ → List ℕ → Option ℕ
unfolding find_tokens_from
find_tokens str tokens = find_tokens_from 0 str tokens

unfoldable pub is_whitespace : List ℕ → ℕ → Bool
is_whitespace str zero = true
is_whitespace [] (suc max) = true
is_whitespace (c ∷ cs) (suc max) = is_space_x c && is_whitespace cs max

unfoldable pub is_printable : List ℕ → ℕ → Bool
is_printable str zero = true
is_printable [] (suc max) = true
is_printable (c ∷ cs) (suc max) = (is_space_x c || is_print_a c) && is_printable cs max

-- `i` is the first index below the limit at which the string has the character.
pub record FirstAt (str : List ℕ) (ch max i : ℕ) : Type 0 where
  pub below : i < max
  pub here : get_or str i 0 ≡ ch
  pub inside : i ≤ length str
  pub not_before : (j : ℕ) → j < i → get_or str j 0 ≢ ch

FirstAt-suc :
    (c : ℕ) (cs : List ℕ) (ch max i : ℕ)
    → c ≢ ch
    → FirstAt cs ch max i
    → FirstAt (c ∷ cs) ch (suc max) (suc i)
FirstAt-suc c cs ch max i ne f = record {
  below = omega (arith, f.below);
  here = f.here;
  inside = omega (arith, f.inside);
  not_before = before;
}
  where
    before : (j : ℕ) → j < suc i → get_or (c ∷ cs) j 0 ≢ ch
    before zero h = ne
    before (suc j) h = f.not_before j (omega arith)

-- The result of a search: the first index, or that there is none.
abbrev pub Searched : List ℕ → ℕ → ℕ → ℕ → Option ℕ → Type 0
Searched str ch max start (some i) = (k : ℕ) × (i ≡ start + k) × FirstAt str ch max k
Searched str ch max start none = (j : ℕ) → j < max → j ≤ length str → get_or str j 0 ≢ ch

Searched-next :
    (c : ℕ) (cs : List ℕ) (ch max start : ℕ) (r : Option ℕ)
    → c ≢ ch
    → Searched cs ch max (suc start) r
    → Searched (c ∷ cs) ch (suc max) start r
Searched-next c cs ch max start (some i) ne (k, e, f) =
    (suc k, omega arith, FirstAt-suc c cs ch max k ne f)
Searched-next c cs ch max start none ne absent = nowhere
  where
    nowhere : (j : ℕ) → j < suc max → j ≤ suc (length cs) → get_or (c ∷ cs) j 0 ≢ ch
    nowhere zero h k = ne
    nowhere (suc j) h k = absent j (omega arith) (omega arith)

Searched-here :
    (str : List ℕ) (ch max start : ℕ)
    → get_or str 0 0 ≡ ch
    → Searched str ch (suc max) start (some start)
Searched-here str ch max start e = (
  0,
  omega arith,
  record {
    below = omega arith;
    here = e;
    inside = omega arith;
    not_before = λ j h. absurd (omega arith);
  },
)

find_char_from-Searched :
    (start : ℕ) (str : List ℕ) (ch max : ℕ)
    → IsText str
    → Searched str ch max start (find_char_from start str ch max)
unfolding find_char_from
find_char_from-Searched start str ch zero t = λ j h. absurd (omega arith)
find_char_from-Searched start [] ch (suc max) t = elim (Bool-cases (ch == 0)) [
  | inl at_end ↦ rw (find_char_from, at_end) (Searched-here [] ch max start (omega (tests, at_end)))
  | inr other ↦ rw (find_char_from, other) (λ j h k. λ e. absurd (omega (tests, other, e)))
]
find_char_from-Searched start (c ∷ cs) ch (suc max) t = elim (Bool-cases (c == ch)) [
  | inl found ↦ rw (find_char_from, found) (Searched-here (c ∷ cs) ch max start (==→eq c ch found))
  | inr other ↦
      rw (find_char_from, other, not_end (omega (arith, t.0)))
        (Searched-next c cs ch max start (find_char_from (suc start) cs ch max)
          (==_false→ne c ch other) (find_char_from-Searched (suc start) cs ch max t.1))
]
  where
    not_end : c ≢ 0 → (c == 0) ≡ false
    not_end h = ground arith

-- FindCharN finds the first place of the character below the limit, the final 0 taken for a
-- character of the string, or says that there is none.
pub find_char_n-Searched :
    (str : List ℕ) (ch max : ℕ) → IsText str → Searched str ch max 0 (find_char_n (some str) ch max)
unfolding find_char_n
find_char_n-Searched str ch max t = find_char_from-Searched 0 str ch max t

-- FindCharRev finds the last place of the character, but never the first character of the span.
abbrev pub SearchedRev : List ℕ → ℕ → ℕ → Option ℕ → Type 0
SearchedRev str ch end (some i) =
    (0 < i) × (i < end) × (get_or str i 0 ≡ ch) × ((j : ℕ) → i < j → j < end → get_or str j 0 ≢ ch)
SearchedRev str ch end none = (j : ℕ) → 0 < j → j < end → get_or str j 0 ≢ ch

SearchedRev-next :
    (str : List ℕ) (ch end : ℕ) (r : Option ℕ)
    → get_or str end 0 ≢ ch
    → SearchedRev str ch end r
    → SearchedRev str ch (suc end) r
SearchedRev-next str ch end (some i) ne (p, q, e, after) = (p, omega arith, e, rest)
  where
    rest : (j : ℕ) → i < j → j < suc end → get_or str j 0 ≢ ch
    rest j h k = elim (Bool-cases (j == end)) [
      | inl last ↦ rw (==→eq j end last) ne
      | inr before ↦ after j h (omega (tests, before))
    ]
SearchedRev-next str ch end none ne absent = rest
  where
    rest : (j : ℕ) → 0 < j → j < suc end → get_or str j 0 ≢ ch
    rest j h k = elim (Bool-cases (j == end)) [
      | inl last ↦ rw (==→eq j end last) ne
      | inr before ↦ absent j h (omega (tests, before))
    ]

find_char_down-SearchedRev :
    (str : List ℕ) (ch end : ℕ) → SearchedRev str ch end (find_char_down str ch end)
unfolding find_char_down
find_char_down-SearchedRev str ch zero = λ j h k. absurd (omega arith)
find_char_down-SearchedRev str ch (suc zero) = λ j h k. absurd (omega arith)
find_char_down-SearchedRev str ch (suc (suc i)) = elim (Bool-cases (get_or str (suc i) 0 == ch)) [
  | inl found ↦
      rw (find_char_down, found)
        (omega arith, omega arith, ==→eq _ _ found, λ j h k. absurd (omega arith))
  | inr other ↦
      rw (find_char_down, other)
        (SearchedRev-next str ch (suc i) (find_char_down str ch (suc i)) (==_false→ne _ _ other)
          (find_char_down-SearchedRev str ch (suc i)))
]

-- FindCharRev finds the last place of the character after the first one of the span, or says that
-- there is none after the first.
pub find_char_rev-SearchedRev :
    (str : List ℕ) (ch : ℕ) → SearchedRev str ch (length str) (find_char_rev str ch)
unfolding find_char_rev
find_char_rev-SearchedRev str ch = find_char_down-SearchedRev str ch (length str)
