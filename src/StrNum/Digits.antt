-- ===== src/StrNum/Digits.antt =====
-- Printing an unsigned number and reading it again.
use native.Mathlib.Nat.{
  div-add-mod', mod-lt, div-le_self, div-lt_iff_lt-mul, mul-le-mul_left, pow-le-pow_right, pow-suc,
  zero-div, zero-mod, mod-eq_of_lt,
}
use gray_core.Base.{
  ℕ, zero, suc, ◌+◌, ◌*◌, ◌/◌, ◌%◌, ◌^◌, ◌≤◌, ◌<◌, ◌≡◌, ◌∙◌, refl, sym, ap, true, false, Bool-cases,
  inl, inr, List, [], ◌∷◌, leb, le→ltb_false, ◌==◌, ==→eq, arith, tests,
}
use gray_core.StrNum.{
  char_at, radix2u, u64, digit_char, rev_digits, ul_to_a_rev, skip_spaces, to_ul_loop, after_prefix,
  to_ul,
}

-- Reading a digit that was written.
radix2u-digit_char : (d : ℕ) → d < 36 → radix2u (digit_char 65 d) ≡ d
unfolding radix2u
radix2u-digit_char d h = ground arith

-- A turn of the loop of toUL on a digit.
read_digit :
    (radix n d : ℕ) (cs : List ℕ)
    → radix ≤ 36
    → d < radix
    → n * radix + d < u64
    → to_ul_loop radix n (digit_char 65 d ∷ cs) ≡ to_ul_loop radix (n * radix + d) cs
unfolding to_ul_loop
read_digit radix n d cs hi small fits =
    rw
      (
        to_ul_loop,
        radix2u-digit_char d (omega arith),
        below,
        mod-eq_of_lt {n = n * radix} {m = u64} (omega (arith, fits)),
        radix2u-digit_char d (omega arith),
        mod-eq_of_lt {n = n * radix + d} {m = u64} fits,
      )
      refl
  where
    below : leb radix d ≡ false
    below = ground arith

-- A digit less, a bit less at least.
quotient_fits : (radix room n : ℕ) → 2 ≤ radix → n < 2 ^ suc room → n / radix < 2 ^ room
quotient_fits radix room n lo h =
    (div-lt_iff_lt-mul {k = radix} {x = n} {y = 2 ^ room} (omega (arith, lo))).1
      (omega (arith, h, pow-suc 2 room, mul-le-mul_left (2 ^ room) lo))

-- Reading the digits of a number that were written in front of a text.
to_ul_loop-rev_digits :
    (radix room n : ℕ) (written : List ℕ)
    → 2 ≤ radix
    → radix ≤ 36
    → n < u64
    → n < 2 ^ room
    → to_ul_loop radix 0 (rev_digits radix 65 room n written) ≡ to_ul_loop radix n written
unfolding rev_digits
to_ul_loop-rev_digits radix zero n written lo hi fits room_fits =
    ap (λ k. to_ul_loop radix k written) (none_left n room_fits)
  where
    none_left : (k : ℕ) → k < 1 → 0 ≡ k
    none_left k h = omega arith
to_ul_loop-rev_digits radix (suc room) n written lo hi fits room_fits =
    elim (Bool-cases (n / radix == 0)) [
      | inl last ↦
          rw (rev_digits, last)
            (read_digit radix 0 (n % radix) written hi small (omega (arith, small, hi))
              ∙ ap (λ k. to_ul_loop radix k written)
                  (ap (λ q. q * radix + n % radix) (sym (==→eq (n / radix) 0 last))
                    ∙ div-add-mod' n radix))
      | inr more ↦
          rw (rev_digits, more)
            (to_ul_loop-rev_digits radix room (n / radix) (digit_char 65 (n % radix) ∷ written) lo
                hi (omega (arith, fits, div-le_self n radix))
                (quotient_fits radix room n lo room_fits)
              ∙ read_digit radix (n / radix) (n % radix) written hi small
                  (omega (arith, fits, div-add-mod' n radix))
              ∙ ap (λ k. to_ul_loop radix k written) (div-add-mod' n radix))
    ]
  where
    small : n % radix < radix
    small = mod-lt n (omega (arith, lo))

-- The first digit of a number that is not 0 is not `0`.
rev_digits-lead :
    (radix room n : ℕ) (written : List ℕ)
    → 2 ≤ radix
    → 0 < n
    → n < 2 ^ room
    → 48 < char_at (rev_digits radix 65 room n written)
unfolding rev_digits
rev_digits-lead radix zero n written lo some_n fits = absurd (omega (arith, some_n, fits))
rev_digits-lead radix (suc room) n written lo some_n fits = elim (Bool-cases (n / radix == 0)) [
  | inl last ↦ rw (rev_digits, last) (ground (arith, only_digit last))
  | inr more ↦
      rw (rev_digits, more)
        (rev_digits-lead radix room (n / radix) _ lo (omega (tests, more))
          (quotient_fits radix room n lo fits))
]
  where
    no_more : (n / radix == 0) ≡ true → 0 * radix + n % radix ≡ n
    no_more last =
        ap (λ q. q * radix + n % radix) (sym (==→eq (n / radix) 0 last)) ∙ div-add-mod' n radix

    only_digit : (n / radix == 0) ≡ true → n % radix ≡ n
    only_digit last = omega (arith, no_more last)

pub skip_spaces-lead : (s : List ℕ) → 48 ≤ char_at s → skip_spaces s ≡ s
unfolding skip_spaces
skip_spaces-lead [] h = refl
skip_spaces-lead (c ∷ cs) h = ground arith

-- The first character of a number is a digit or a letter.
pub rev_digits-first :
    (radix room n : ℕ) (written : List ℕ)
    → 2 ≤ radix
    → n < 2 ^ suc room
    → 48 ≤ char_at (rev_digits radix 65 (suc room) n written)
rev_digits-first radix room zero written lo fits =
    unfold rev_digits in rw (rev_digits, zero-div radix, zero-mod radix) (omega arith)
rev_digits-first radix room (suc n) written lo fits =
    omega (arith, rev_digits-lead radix (suc room) (suc n) written lo (omega arith) fits)

-- No prefix is seen in front of the digits of a number, with the end of the string behind them.
after_prefix-rev_digits :
    (radix room n : ℕ) (written : List ℕ)
    → 2 ≤ radix
    → n < 2 ^ suc room
    → char_at written ≡ 0
    → after_prefix false radix (skip_spaces (rev_digits radix 65 (suc room) n written))
      ≡ (radix, rev_digits radix 65 (suc room) n written)
after_prefix-rev_digits radix room zero written lo fits end =
    rw zero_digits (unfold skip_spaces in rw end refl)
  where
    zero_digits : rev_digits radix 65 (suc room) 0 written ≡ 48 ∷ written
    zero_digits = unfold rev_digits in rw (rev_digits, zero-div radix, zero-mod radix) refl
after_prefix-rev_digits radix room (suc n) written lo fits end =
    rw
      (
        skip_spaces-lead (rev_digits radix 65 (suc room) (suc n) written) (omega (arith, lead)),
        other,
      )
      refl
  where
    lead : 48 < char_at (rev_digits radix 65 (suc room) (suc n) written)
    lead = rev_digits-lead radix (suc room) (suc n) written lo (omega arith) fits

    other : (char_at (rev_digits radix 65 (suc room) (suc n) written) == 48) ≡ false
    other = ground (arith, lead)

-- Reading the digits of a number, with the end of the string behind them.
pub to_ul-rev_digits :
    (radix room n : ℕ) (written : List ℕ)
    → 2 ≤ radix
    → radix ≤ 36
    → n < 0x1_0000_0000_0000_0000
    → 64 ≤ room
    → char_at written ≡ 0
    → to_ul (rev_digits radix 65 room n written) radix ≡ to_ul_loop radix n written
unfolding to_ul
to_ul-rev_digits radix zero n written lo hi fits enough end = absurd (omega arith)
to_ul-rev_digits radix (suc room) n written lo hi fits enough end =
    rw (le→ltb_false radix 2 lo, after_prefix-rev_digits radix room n written lo digits end)
      (to_ul_loop-rev_digits radix (suc room) n written lo hi fits digits)
  where
    digits : n < 2 ^ suc room
    digits =
        omega (arith, fits, pow-le-pow_right {n = 2} (omega arith) {i = 64} {j = suc room} enough)

-- toUL reads back what ULtoARev writes, for every number below 2^64 in every radix from 2 to 36,
-- when there is room for 64 digits.
pub to_ul-ul_to_a_rev :
    (radix room n : ℕ)
    → 2 ≤ radix
    → radix ≤ 36
    → n < 0x1_0000_0000_0000_0000
    → 64 ≤ room
    → to_ul (ul_to_a_rev n room radix 65) radix ≡ (n, [])
unfolding ul_to_a_rev to_ul_loop
to_ul-ul_to_a_rev radix room n lo hi fits enough =
    rw (le→ltb_false radix 2 lo) (to_ul-rev_digits radix room n [] lo hi fits enough refl)
