-- ===== src/UInt64/Division.antt =====
-- Long division gives the quotient and the remainder.
use Prim.Native.Nat.{bit_or}
use native.Mathlib.Nat.{mod-eq_of_lt, pow-suc, div-le_self, div-div-eq-div-mul, le-mul_of_pos_right}
use gray_core.Base.{
  ℕ, zero, suc, ◌+◌, ◌-◌, ◌*◌, ◌/◌, ◌%◌, ◌^◌, ◌≤◌, ◌<◌, ◌≡◌, ◌∙◌, sym, ap, false, Bool-cases, inl,
  inr, ltb, leb, ◌==◌, arith, tests,
}
use gray_core.Base.Bits.{bit_or-high-low}
use gray_core.UInt64.{u64, shift_left1, divide_loop, divide}

shift_left1_small : (n bit : ℕ) → n * 2 < u64 → bit < 2 → shift_left1 n bit ≡ n * 2 + bit
shift_left1_small n bit fits small =
    ap (λ t. bit_or t bit) (mod-eq_of_lt {n = n * 2} {m = u64} fits) ∙ bit_or-high-low 1 n bit small

-- The result of a division.
abbrev pub IsDivision : ℕ → ℕ → ℕ × ℕ → Type 0
IsDivision dividend divisor result =
    (result.0 * divisor + result.1 ≡ dividend) × (result.1 < divisor)

pub next_bit : (k n : ℕ) → n / 2 ^ k ≡ n / 2 ^ suc k * 2 + n / 2 ^ k % 2
next_bit k n = omega (arith, halves)
  where
    halves : n / 2 ^ k / 2 ≡ n / 2 ^ suc k
    halves = div-div-eq-div-mul n (2 ^ k) 2 ∙ ap (λ m. n / m) (sym (pow-suc 2 k))

divide_loop-IsDivision :
    (k n d q r : ℕ)
    → n < u64
    → q * d + r ≡ n / 2 ^ k
    → r < d
    → IsDivision n d (divide_loop k n d q r)
unfolding divide_loop
divide_loop-IsDivision zero n d q r fits is below = (is ∙ omega arith, below)
divide_loop-IsDivision (suc k) n d q r fits is below =
    elim (Bool-cases (leb d (shift_left1 r (n / 2 ^ k % 2)))) [
      | inl enough ↦
          rw (divide_loop, enough)
            (divide_loop-IsDivision k n d (shift_left1 q 1) (shift_left1 r (n / 2 ^ k % 2) - d) fits
              (rw (quotient_shift 1 (omega arith))
                (omega (arith, tests, enough, shifted, twice, plus_one, is, next_bit k n)))
              (omega (arith, tests, enough, shifted, below)))
      | inr small ↦
          rw (divide_loop, small)
            (divide_loop-IsDivision k n d (shift_left1 q 0) (shift_left1 r (n / 2 ^ k % 2)) fits
              (rw (quotient_shift 0 (omega arith))
                (omega (arith, shifted, twice, is, next_bit k n)))
              (omega (tests, small)))
    ]
  where
    least : q ≤ q * d
    least = le-mul_of_pos_right q (omega (arith, below))

    half : q * d + r ≤ n / 2
    half = omega (arith, is, next_bit k n, div-le_self n (2 ^ k))

    quotient_shift : (bit : ℕ) → bit < 2 → shift_left1 q bit ≡ q * 2 + bit
    quotient_shift bit b = shift_left1_small q bit (omega (arith, least, half, fits)) b

    shifted : shift_left1 r (n / 2 ^ k % 2) ≡ r * 2 + n / 2 ^ k % 2
    shifted = shift_left1_small r (n / 2 ^ k % 2) (omega (arith, half, fits)) (omega arith)

    twice : (q * 2 + 0) * d ≡ q * d * 2
    twice = omega arith

    plus_one : (q * 2 + 1) * d ≡ q * d * 2 + d
    plus_one = omega arith

-- Divide by a divisor that is not 0 gives the quotient and the remainder of 64-bit numbers.
pub divide-IsDivision :
    (dividend divisor quotient remainder : ℕ)
    → dividend < 0x1_0000_0000_0000_0000
    → 0 < divisor
    → IsDivision dividend divisor (divide dividend divisor quotient remainder)
unfolding divide
divide-IsDivision n d q r fits some_d = elim (Bool-cases (n == 0)) [
  | inl nothing ↦ rw (not_zero, nothing) (omega (tests, nothing), some_d)
  | inr some_n ↦ elim (Bool-cases (ltb n d)) [
    | inl small ↦ rw (not_zero, some_n, small) (omega arith, omega (tests, small))
    | inr large ↦
        rw (not_zero, some_n, large)
          (divide_loop-IsDivision 64 n d 0 0 fits (omega (arith, fits)) some_d)
  ]
]
  where
    not_zero : (d == 0) ≡ false
    not_zero = ground arith
