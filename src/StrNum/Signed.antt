-- ===== src/StrNum/Signed.antt =====
-- Printing a number into a buffer, with its sign or the leading 0 of hexadecimal, and reading it
-- again. A signed number is the word of its two's complement.
use native.Mathlib.Nat.{div-lt_iff_lt-mul, pow-le-pow_left, pow-suc, pow-zero}
use gray_core.Base.{
  ℕ, zero, suc, ◌+◌, ◌/◌, ◌%◌, ◌^◌, ◌≤◌, ◌<◌, ◌≡◌, ◌≢◌, ◌∙◌, refl, sym, ap, true, false, Bool-cases,
  inl, inr, List, [], ◌∷◌, ◌++◌, length, take-all, le→ltb_false, leb, ◌==◌, arith, tests,
}
use gray_core.StrNum.{
  char_at, radix2u, rev_digits, ul_to_a_rev, skip_spaces, to_ul_loop, to_ul, to_il, digit_char,
  il_to_a, copy_len, neg64,
}
use gray_core.StrNum.Digits.{to_ul-rev_digits, rev_digits-first, skip_spaces-lead}

-- What stands behind the digits has no part in them.
rev_digits-append :
    (radix room n : ℕ) (written rest : List ℕ)
    → rev_digits radix 65 room n written ++ rest ≡ rev_digits radix 65 room n (written ++ rest)
unfolding rev_digits
rev_digits-append radix zero n written rest = refl
rev_digits-append radix (suc room) n written rest = elim (Bool-cases (n / radix == 0)) [
  | inl last ↦ rw (rev_digits, last) refl
  | inr more ↦ rw (rev_digits, more) (rev_digits-append radix room (n / radix) _ rest)
]

below_div : (radix k n : ℕ) → 2 ≤ radix → n < radix ^ suc k → n / radix < radix ^ k
below_div radix k n lo below =
    (div-lt_iff_lt-mul {k = radix} {x = n} {y = radix ^ k} (omega (arith, lo))).1
      (rw (sym (pow-suc radix k)) below)

rev_digits-length :
    (radix room k n : ℕ) (written : List ℕ)
    → 2 ≤ radix
    → n < radix ^ suc k
    → length (rev_digits radix 65 room n written) ≤ suc k + length written
unfolding rev_digits
rev_digits-length radix zero k n written lo fits = omega arith
rev_digits-length radix (suc room) zero n written lo fits = rw (rev_digits, last) (omega arith)
  where
    last : (n / radix == 0) ≡ true
    last = ground (arith, below_div radix zero n lo fits, pow-zero radix)
rev_digits-length radix (suc room) (suc k) n written lo fits = elim (Bool-cases (n / radix == 0)) [
  | inl last ↦ rw (rev_digits, last) (omega arith)
  | inr more ↦
      rw (rev_digits, more)
        (omega (
          arith,
          rev_digits-length radix room k (n / radix) (digit_char 65 (n % radix) ∷ written) lo
              (below_div radix (suc k) n lo fits),
        ))
]

-- The digits of a number below 2^64 in any radix.
ul_to_a_rev-length :
    (n radix : ℕ)
    → 2 ≤ radix
    → n < 0x1_0000_0000_0000_0000
    → length (ul_to_a_rev n 65 radix 65) ≤ 64
unfolding ul_to_a_rev
ul_to_a_rev-length n radix lo fits = rw (le→ltb_false radix 2 lo) (
    rev_digits-length radix 65 63 n [] lo
      (omega (arith, fits, pow-le-pow_left {n = 2} {m = radix} lo 64)))

copy_len-all : (room : ℕ) (s : List ℕ) → length s < room → copy_len room s ≡ s ++ 0 ∷ []
unfolding copy_len
copy_len-all zero s h = absurd (omega (arith, h))
copy_len-all (suc room) s h = ap (λ (t : List ℕ). t ++ 0 ∷ []) (take-all room s (omega (arith, h)))

-- The digits of a number with the final 0.
abbrev number : ℕ → ℕ → List ℕ
number radix n = rev_digits radix 65 65 n (0 ∷ [])

module _ (radix n : ℕ) (lo : 2 ≤ radix) (hi : radix ≤ 36) (fits : n < 0x1_0000_0000_0000_0000) where
  copied-number :
      (room : ℕ) → 65 ≤ room → copy_len room (ul_to_a_rev n 65 radix 65) ≡ number radix n
  copied-number room enough =
      copy_len-all room (ul_to_a_rev n 65 radix 65)
        (omega (arith, enough, ul_to_a_rev-length n radix lo fits))
      ∙ unfold ul_to_a_rev in
        rw (le→ltb_false radix 2 lo) (rev_digits-append radix 65 n [] (0 ∷ []))

  to_ul-number : to_ul (number radix n) radix ≡ (n, 0 ∷ [])
  to_ul-number = to_ul-rev_digits radix 65 n (0 ∷ []) lo hi fits (omega arith) refl ∙ at_end
    where
      stops : leb radix 37 ≡ true
      stops = ground arith

      at_end : to_ul_loop radix n (0 ∷ []) ≡ (n, 0 ∷ [])
      at_end = unfold to_ul_loop radix2u in rw (to_ul_loop, stops) refl

  number-first : 48 ≤ char_at (number radix n)
  number-first = rev_digits-first radix 64 n (0 ∷ []) lo (omega (arith, fits))

  to_il-number : to_il (number radix n) radix ≡ (n, 0 ∷ [])
  unfolding to_il
  to_il-number = rw (skip_spaces-lead (number radix n) number-first, no_sign) to_ul-number
    where
      no_sign : (char_at (number radix n) == 45) ≡ false
      no_sign = ground (arith, number-first)

neg64_twice : (n : ℕ) → 0 < n → n < 0x1_0000_0000_0000_0000 → neg64 (neg64 n) ≡ n
neg64_twice n some_n fits = omega arith

to_il-negative :
    (radix n : ℕ)
    → 2 ≤ radix
    → radix ≤ 36
    → 0 < n
    → n < 0x1_0000_0000_0000_0000
    → to_il (45 ∷ number radix (neg64 n)) radix ≡ (n, 0 ∷ [])
unfolding to_il skip_spaces
to_il-negative radix n lo hi some_n fits =
    rw (to_ul-number radix (neg64 n) lo hi (omega arith), neg64_twice n some_n fits) refl

-- toIL reads back what ILtoA writes, the final 0 left: for the two's complement word of every
-- number of 64 bits but the least one, which C++ cannot negate, in every radix from 2 to 36, when
-- the buffer has room for a sign, 64 digits and the final 0.
pub to_il-il_to_a :
    (n room radix : ℕ)
    → 2 ≤ radix
    → radix ≤ 36
    → n < 0x1_0000_0000_0000_0000
    → n ≢ 0x8000_0000_0000_0000
    → 66 ≤ room
    → to_il (il_to_a n room radix).0 radix ≡ (n, 0 ∷ [])
unfolding il_to_a
to_il-il_to_a n zero radix lo hi fits not_least enough = absurd (omega arith)
to_il-il_to_a n (suc room) radix lo hi fits not_least enough =
    elim (Bool-cases (leb 0x8000_0000_0000_0000 n)) [
      | inl negative ↦
          rw (negative, copied-number radix (neg64 n) lo hi (omega arith) room (omega arith))
            (to_il-negative radix n lo hi (omega (tests, negative)) fits)
      | inr other ↦
          rw (other, copied-number radix n lo hi fits (suc room) (omega arith))
            (to_il-number radix n lo hi fits)
    ]
