-- ===== src/StrT/Find.antt =====
-- FindStrN and FindStrNI of include/StrT.inl: the place of a string in another. The loop keeps the
-- index in the text and the number of characters that match so far, and goes back when they do not
-- go on. `none` is fuel that ran out, `some none` is `k_StrLen_UNK`.
use gray_core.Base.{
  ℕ, zero, suc, ◌+◌, ◌-◌, ◌*◌, ◌≡◌, ◌≢◌, ◌<◌, ◌≤◌, refl, ap, Bool, true, false, List, [], ◌∷◌,
  Option, none, some, ltb, ◌==◌, length, get_or, arith, tests, Bool-cases, inl, inr, ==→eq,
  ==_false→ne,
}
use mathlib.Core.Path.{subst}
use gray_core.Base.Int.{pos, eq_ℤ}
use gray_core.StrChar.{cmp_i_char}
use gray_core.StrT.{IsText}

text-end : (str : List ℕ) (i : ℕ) → IsText str → get_or str i 0 ≡ 0 → length str ≤ i
text-end [] i t h = omega arith
text-end (c ∷ cs) zero t h = absurd (omega (arith, t.0))
text-end (c ∷ cs) (suc i) t h = omega (arith, text-end cs i t.1 h)

text-before_end : (str : List ℕ) (i : ℕ) → get_or str i 0 ≢ 0 → i < length str
text-before_end [] i h = absurd (h refl)
text-before_end (c ∷ cs) zero h = omega arith
text-before_end (c ∷ cs) (suc i) h = omega (arith, text-before_end cs i h)

text-pos : (str : List ℕ) (i : ℕ) → IsText str → i < length str → get_or str i 0 ≢ 0
text-pos str i t h e = absurd (omega (arith, text-end str i t e))

module _ (eq_char : ℕ → ℕ → Bool) (text sub : List ℕ) (max : ℕ) where
  unfoldable pub find_str_loop : ℕ → ℕ → ℕ → Option (Option ℕ)
  find_str_loop zero i match = none
  find_str_loop (suc fuel) i match = elim (ltb i max) [
    | false ↦ some none
    | true ↦ elim (get_or text i 0 == 0) [
      | true ↦ some none
      | false ↦ elim (eq_char (get_or text i 0) (get_or sub match 0)) [
        | true ↦ elim (get_or sub (match + 1) 0 == 0) [
          | true ↦ some (some (i + 1 - (match + 1)))
          | false ↦ find_str_loop fuel (i + 1) (match + 1)
        ]
        | false ↦ elim (match == 0) [
          | true ↦ find_str_loop fuel (i + 1) 0
          | false ↦ find_str_loop fuel (i - match + 1) 0
        ]
      ]
    ]
  ]

  -- The string stands at `s` of the text, before the limit.
  pub record MatchAt (s : ℕ) : Type 0 where
    pub inside : s + length sub ≤ length text
    pub before_max : s + length sub ≤ max
    pub same : (j : ℕ) → j < length sub → eq_char (get_or text (s + j) 0) (get_or sub j 0) ≡ true

  -- The first place, or that there is none; the search ends.
  abbrev pub FoundFirst : Option (Option ℕ) → Type 0
  FoundFirst none = ⊥
  FoundFirst (some none) = (s : ℕ) → MatchAt s → ⊥
  FoundFirst (some (some s)) = MatchAt s × ((r : ℕ) → r < s → MatchAt r → ⊥)

  record Partial (s match : ℕ) : Type 0 where
    pub room : match < length sub
    pub earlier : (r : ℕ) → r < s → MatchAt r → ⊥
    pub so_far : (j : ℕ) → j < match → eq_char (get_or text (s + j) 0) (get_or sub j 0) ≡ true

  abbrev turns : ℕ → ℕ → ℕ
  turns s match = (length text + 1 - s) * (length sub + 1) - match

  fewer_turns :
      (s match : ℕ) → s ≤ length text → match < length sub → turns (suc s) 0 < turns s match
  fewer_turns s match h k = omega (
    arith,
    ap (λ (t : ℕ). t * (length sub + 1)) one_more,
    suc-mul (length text + 1 - suc s) (length sub + 1),
  )
    where
      one_more : length text + 1 - s ≡ suc (length text + 1 - suc s)
      one_more = omega arith

      suc-mul : (x y : ℕ) → suc x * y ≡ x * y + y
      suc-mul x y = grind arith

  turns-suc :
      (s match : ℕ) → s ≤ length text → match < length sub → turns s (match + 1) < turns s match
  turns-suc s match h k = omega (arith, fewer_turns s match h k)

  no_later : (s match r : ℕ) → max ≤ s + match → match < length sub → s ≤ r → MatchAt r → ⊥
  no_later s match r h k le m = absurd (omega (arith, m.before_max))

  no_text : (s match r : ℕ) → length text ≤ s + match → match < length sub → s ≤ r → MatchAt r → ⊥
  no_text s match r h k le m = absurd (omega (arith, m.inside))

  Partial-none :
      (s match : ℕ) → Partial s match → ((r : ℕ) → s ≤ r → MatchAt r → ⊥) → (r : ℕ) → MatchAt r → ⊥
  Partial-none s match p later r m = elim (Bool-cases (ltb r s)) [
    | inl before ↦ p.earlier r (omega (tests, before)) m
    | inr after ↦ later r (omega (tests, after)) m
  ]

  -- One more character matches.
  Partial-same :
      (s match j : ℕ)
      → Partial s match
      → eq_char (get_or text (s + match) 0) (get_or sub match 0) ≡ true
      → j < match + 1
      → eq_char (get_or text (s + j) 0) (get_or sub j 0) ≡ true
  Partial-same s match j p e h = elim (Bool-cases (j == match)) [
    | inl last ↦ rw (==→eq j match last) e
    | inr before ↦ p.so_far j (omega (tests, before))
  ]

  -- The characters differ: the search goes on at the next place.
  Partial-next :
      (s match : ℕ)
      → Partial s match
      → eq_char (get_or text (s + match) 0) (get_or sub match 0) ≡ false
      → Partial (suc s) 0
  Partial-next s match p e = record {
    room = omega (arith, p.room);
    earlier = λ r h m. elim (Bool-cases (r == s)) [
      | inl here ↦ differs (
          subst (λ x. eq_char (get_or text (x + match) 0) (get_or sub match 0) ≡ true)
            (==→eq r s here) (m.same match p.room))
      | inr before ↦ p.earlier r (omega (tests, before)) m
    ];
    so_far = λ j h. absurd (omega arith);
  }
    where
      differs : eq_char (get_or text (s + match) 0) (get_or sub match 0) ≡ true → ⊥
      differs y = cc

  abbrev EqAt : ℕ → Bool → ℕ → Type 0
  EqAt match b i = eq_char (get_or text i 0) (get_or sub match 0) ≡ b

  -- The last character matches too.
  Partial-whole :
      (s match i : ℕ)
      → IsText text
      → IsText sub
      → i ≡ s + match
      → Partial s match
      → i < max
      → get_or text i 0 ≢ 0
      → get_or sub (match + 1) 0 ≡ 0
      → EqAt match true (s + match)
      → MatchAt (i + 1 - (match + 1)) × ((r : ℕ) → r < i + 1 - (match + 1) → MatchAt r → ⊥)
  Partial-whole s match i t u e p below char end same =
      subst (λ x. MatchAt x × ((r : ℕ) → r < x → MatchAt r → ⊥)) start
        (
          record {
            inside = omega (arith, e, size, text-before_end text i char);
            before_max = omega (arith, e, size, below);
            same = λ j h. Partial-same s match j p same (omega (arith, size, h));
          },
          p.earlier,
        )
    where
      start : s ≡ i + 1 - (match + 1)
      start = omega arith

      size : length sub ≤ match + 1
      size = text-end sub (match + 1) u end

  find_str_loop-FoundFirst :
      (fuel i s match : ℕ)
      → IsText text
      → IsText sub
      → i ≡ s + match
      → turns s match < fuel
      → Partial s match
      → FoundFirst (find_str_loop fuel i match)
  unfolding find_str_loop
  find_str_loop-FoundFirst zero i s match t u e h p = absurd (omega arith)
  find_str_loop-FoundFirst (suc fuel) i s match t u e h p = elim (Bool-cases (ltb i max)) [
    | inr past ↦
        rw (find_str_loop, past)
          (Partial-none s match p (λ r le. no_later s match r (omega (tests, past, e)) p.room le))
    | inl below ↦ elim (Bool-cases (get_or text i 0 == 0)) [
      | inl end ↦
          rw (find_str_loop, below, end)
            (Partial-none s match p (λ r le.
              no_text s match r (omega (arith, e, text-end text i t (==→eq _ _ end))) p.room le))
      | inr char ↦ elim (Bool-cases (eq_char (get_or text i 0) (get_or sub match 0))) [
        | inl same ↦ elim (Bool-cases (get_or sub (match + 1) 0 == 0)) [
          | inl whole ↦
              rw (find_str_loop, below, char, same, whole)
                (Partial-whole s match i t u e p (omega (tests, below)) (omega (tests, char))
                  (==→eq _ _ whole) (subst (EqAt match true) e same))
          | inr more ↦
              rw (find_str_loop, below, char, same, more)
                (find_str_loop-FoundFirst fuel (i + 1) s (match + 1) t u (omega (arith, e))
                  (omega (arith, h, turns-suc s match (in_text char) p.room))
                  record {
                    room = text-before_end sub (match + 1) (==_false→ne _ _ more);
                    earlier = p.earlier;
                    so_far = λ j k. Partial-same s match j p (subst (EqAt match true) e same) k;
                  })
        ]
        | inr differ ↦
            let next = Partial-next s match p (subst (EqAt match false) e differ) in
            elim (Bool-cases (match == 0)) [
              | inl none_yet ↦
                  rw (find_str_loop, below, char, differ, none_yet)
                    (find_str_loop-FoundFirst fuel (i + 1) (suc s) 0 t u
                      (omega (tests, e, none_yet))
                      (omega (arith, h, fewer_turns s match (in_text char) p.room)) next)
              | inr some_yet ↦
                  rw (find_str_loop, below, char, differ, some_yet)
                    (find_str_loop-FoundFirst fuel (i - match + 1) (suc s) 0 t u
                      (omega (tests, e, some_yet))
                      (omega (arith, h, fewer_turns s match (in_text char) p.room)) next)
            ]
      ]
    ]
  ]
    where
      in_text : (get_or text i 0 == 0) ≡ false → s ≤ length text
      in_text char = omega (arith, e, text-before_end text i (==_false→ne _ _ char))

module _ (eq_char : ℕ → ℕ → Bool) (text sub : List ℕ) (max : ℕ) where
  find_str_all :
      IsText text
      → IsText sub
      → 0 < length sub
      → FoundFirst eq_char text sub max
          (find_str_loop eq_char text sub max ((length text + 1) * (length sub + 1) + 1) 0 0)
  find_str_all t u h =
      find_str_loop-FoundFirst eq_char text sub max ((length text + 1) * (length sub + 1) + 1) 0 0 0
        t u (omega arith) fuel_enough
        record {
          room = h;
          earlier = λ r k. absurd (omega arith);
          so_far = λ j k. absurd (omega arith);
        }
    where
      at_start : length text + 1 - 0 ≡ length text + 1
      at_start = omega arith

      fuel_enough :
          (length text + 1 - 0) * (length sub + 1) - 0 < (length text + 1) * (length sub + 1) + 1
      fuel_enough = rw at_start (omega arith)

-- FindStrN, with a turn for each place and each character of the string at it.
unfoldable pub find_str_n : List ℕ → List ℕ → ℕ → Option (Option ℕ)
unfolding find_str_loop
find_str_n text sub max =
    find_str_loop (λ a b. a == b) text sub max ((length text + 1) * (length sub + 1) + 1) 0 0

unfoldable pub find_str_ni : List ℕ → List ℕ → ℕ → Option (Option ℕ)
unfolding find_str_loop
find_str_ni text sub max =
    find_str_loop (λ a b. eq_ℤ (cmp_i_char a b) (pos 0)) text sub max
      ((length text + 1) * (length sub + 1) + 1) 0 0

abbrev pub same_char : ℕ → ℕ → Bool
same_char a b = a == b

abbrev pub same_char_i : ℕ → ℕ → Bool
same_char_i a b = eq_ℤ (cmp_i_char a b) (pos 0)

-- For a string that is not empty, FindStrN and FindStrNI end, with the first place at which it stands in
-- the text before the limit, or with the answer that there is none.
pub find_str_n-FoundFirst :
    (text sub : List ℕ) (max : ℕ)
    → IsText text
    → IsText sub
    → 0 < length sub
    → FoundFirst same_char text sub max (find_str_n text sub max)
      × FoundFirst same_char_i text sub max (find_str_ni text sub max)
unfolding find_str_n find_str_ni
find_str_n-FoundFirst text sub max t u h =
    (find_str_all same_char text sub max t u h, find_str_all same_char_i text sub max t u h)
