-- ===== src/UInt64.antt =====
-- include/cUInt64.h and src/cUInt64.cpp, `cUInt64`, as it is with native 64-bit numbers: division
-- bit by bit, powers and the algorithm of Euclid. The variables are distinct, so the test of
-- aliases in Divide does nothing.
pub mod Division
pub mod Euclid
pub mod Power
mod Tests
use Prim.Native.Nat.{bit_or}
use gray_core.Base.{
  ℕ, zero, suc, ◌+◌, ◌-◌, Bool, Option, none, some, ◌*◌, ◌/◌, ◌%◌, ◌^◌, true, false, ltb, leb, ◌==◌,
  if◌then◌else◌,
}

abbrev u64 : ℕ
u64 = 0x1_0000_0000_0000_0000

-- OpBitShiftLeft1.
abbrev pub shift_left1 : ℕ → ℕ → ℕ
shift_left1 n bit = bit_or (n * 2 % u64) bit

-- The loop over the bits of the dividend from the highest, with the quotient and the remainder.
unfoldable pub divide_loop : ℕ → ℕ → ℕ → ℕ → ℕ → ℕ × ℕ
divide_loop zero dividend divisor quotient remainder = (quotient, remainder)
divide_loop (suc bits) dividend divisor quotient remainder =
    let remainder2 = shift_left1 remainder (dividend / 2 ^ bits % 2) in
    elim (leb divisor remainder2) [
      | true ↦ divide_loop bits dividend divisor (shift_left1 quotient 1) (remainder2 - divisor)
      | false ↦ divide_loop bits dividend divisor (shift_left1 quotient 0) remainder2
    ]

-- The last two arguments are what the outputs hold before: a divisor of 0 leaves them.
unfoldable pub divide : ℕ → ℕ → ℕ → ℕ → ℕ × ℕ
divide dividend divisor quotient remainder =
    if divisor == 0
    then (quotient, remainder)
    else if dividend == 0
    then (0, 0)
    else if ltb dividend divisor
    then (0, dividend)
    else divide_loop 64 dividend divisor 0 0

-- SetPowerMod: the loop over the bits of the exponent from the highest; `one` says that the value
-- is still the 1 of the start.
unfoldable pub power_loop : ℕ → ℕ → ℕ → ℕ → Bool → ℕ → ℕ
power_loop zero base exponent modulus one val = val
power_loop (suc bits) base exponent modulus one val =
    let squared = if one then val else val * val % u64 % modulus in
    let bit = exponent / 2 ^ bits % 2 == 1 in
    power_loop bits base exponent modulus (if bit then false else one)
      (if bit then squared * base % u64 % modulus else squared)

unfoldable pub set_power_mod : ℕ → ℕ → ℕ → ℕ
unfolding power_loop
set_power_mod base exponent modulus = power_loop 64 base exponent modulus true 1

-- The outputs of EuclideanAlgorithm.
pub record Bezout : Type 0 where
  pub a : ℕ
  pub b : ℕ
  pub g : ℕ

-- Subtraction of cUInt64 wraps around.
abbrev pub sub_u64 : ℕ → ℕ → ℕ
sub_u64 m n = (m + u64 - n) % u64

-- EuclideanAlgorithm, with the quotient and the remainder that Divide gives. `none` is no fuel left.
unfoldable pub euclid_loop : ℕ → ℕ → ℕ → Option Bezout
euclid_loop zero x y = none
euclid_loop (suc fuel) x y = elim (leb x y) [
  | true ↦
      let q = (divide y x 0 0).0 in
      let r = (divide y x 0 0).1 in
      elim (r == 0) [
        | true ↦ some (record { a = 1; b = 0; g = x })
        | false ↦ elim (euclid_loop fuel x r) [
          | none ↦ none
          | some part ↦
              some (record { a = (part.b * q % u64 + part.a) % u64; b = part.b; g = part.g })
        ]
      ]
  | false ↦ elim (euclid_loop fuel y x) [
    | none ↦ none
    | some part ↦ some (record { a = sub_u64 y part.b; b = sub_u64 x part.a; g = part.g })
  ]
]

-- The remainders fall, and every second call swaps the numbers.
unfoldable pub euclidean_algorithm : ℕ → ℕ → Option Bezout
unfolding euclid_loop
euclidean_algorithm x y = euclid_loop (2 * y + 2) x y
