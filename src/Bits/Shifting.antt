-- ===== src/Bits/Shifting.antt =====
-- Rotl and Rotr.
use Prim.Native.Nat.{bit_or}
use gray_core.Base.{ℕ, ◌+◌, ◌-◌, ◌*◌, ◌/◌, ◌%◌, ◌^◌, ◌≤◌, ◌<◌, ◌≡◌, sym, ap, ap₂, ◌∙◌, arith}
use native.Mathlib.Nat.{
  one-le-pow, div-add-mod, add-mul-mod_self_left, add-mul-mod_self_right, add-mul-div_right,
  mod-eq_of_lt, mod-lt, mul-lt-mul_of_pos_right, div-lt_iff_lt-mul, mul_comm, div-eq_of_lt, add-mul,
  mul-le-mul_right,
}
use gray_core.Base.Bits.{pow-add, bit_or-high-low, bit_or-low-high}
use gray_core.Bits.{rotl, rotr}

positive : (bits : ℕ) → 0 < 2 ^ bits
positive bits = omega (arith, one-le-pow bits 2 (omega arith))

-- The bits that a shift to the left keeps.
shift-mod : (n p q : ℕ) → 0 < p → 0 < q → n * q % (p * q) ≡ n % p * q
shift-mod n p q pos_p pos_q =
    ap (λ t. t % (p * q)) whole
    ∙ add-mul-mod_self_left (n % p * q) (p * q) (n / p)
    ∙ mod-eq_of_lt (mul-lt-mul_of_pos_right (mod-lt n pos_p) pos_q)
  where
    whole : n * q ≡ n % p * q + p * q * (n / p)
    whole = sym (ap (λ t. t * q) (div-add-mod n p)) ∙ grind arith

high_below : (n p q : ℕ) → 0 < p → n < p * q → n / p < q
high_below n p q pos h = (div-lt_iff_lt-mul pos).1 (omega (arith, h, mul_comm p q))

module _ (width n bits : ℕ) (in_range : n < 2 ^ width) (bits_le : bits ≤ width) where
  parts : 2 ^ width ≡ 2 ^ (width - bits) * 2 ^ bits
  parts = ap (λ k. 2 ^ k) (omega (arith, bits_le)) ∙ pow-add bits (width - bits)

  rotl-sum : rotl width n bits ≡ n / 2 ^ (width - bits) + n % 2 ^ (width - bits) * 2 ^ bits
  unfolding rotl
  rotl-sum =
      ap (λ m. bit_or (n * 2 ^ bits % m) (n / 2 ^ (width - bits))) parts
      ∙ ap (λ t. bit_or t (n / 2 ^ (width - bits)))
          (shift-mod n (2 ^ (width - bits)) (2 ^ bits) (positive (width - bits)) (positive bits))
      ∙ bit_or-high-low bits (n % 2 ^ (width - bits)) (n / 2 ^ (width - bits)) (
          high_below n (2 ^ (width - bits)) (2 ^ bits) (positive (width - bits))
            (omega (arith, in_range, parts)))
      ∙ omega arith

  rotr-sum : rotr width n bits ≡ n / 2 ^ bits + n % 2 ^ bits * 2 ^ (width - bits)
  unfolding rotr
  rotr-sum =
      ap (λ m. bit_or (n / 2 ^ bits) (n * 2 ^ (width - bits) % m))
        (parts ∙ mul_comm (2 ^ (width - bits)) (2 ^ bits))
      ∙ ap (bit_or (n / 2 ^ bits))
          (shift-mod n (2 ^ bits) (2 ^ (width - bits)) (positive bits) (positive (width - bits)))
      ∙ bit_or-low-high (width - bits) (n / 2 ^ bits) (n % 2 ^ bits) (
          high_below n (2 ^ bits) (2 ^ (width - bits)) (positive bits)
            (omega (arith, in_range, parts, mul_comm (2 ^ (width - bits)) (2 ^ bits))))

-- The parts of a sum of a low and a high field.
low_part : (low high p : ℕ) → low < p → (low + high * p) % p ≡ low
low_part low high p h = add-mul-mod_self_right low high p ∙ mod-eq_of_lt h

high_part : (low high p : ℕ) → low < p → (low + high * p) / p ≡ high
high_part low high p h =
    add-mul-div_right low high (omega (arith, h)) ∙ omega (arith, div-eq_of_lt h)

-- Rotr turns a number of the width back that Rotl turned, by more than no bits and less than the
-- width.
pub rotr-rotl :
    (width n bits : ℕ)
    → n < 2 ^ width
    → 0 < bits
    → bits < width
    → rotr width (rotl width n bits) bits ≡ n
rotr-rotl width n bits h some_bits below =
    ap (λ r. rotr width r bits) (rotl-sum width n bits h (omega (arith, below)))
    ∙ rotr-sum width sum bits fits (omega (arith, below))
    ∙ ap₂ (λ a b. a + b * 2 ^ (width - bits)) (high_part low high (2 ^ bits) low_fits)
        (low_part low high (2 ^ bits) low_fits)
    ∙ omega (arith, div-add-mod n (2 ^ (width - bits)), mul_comm low (2 ^ (width - bits)))
  where
    low : ℕ
    low = n / 2 ^ (width - bits)

    high : ℕ
    high = n % 2 ^ (width - bits)

    sum : ℕ
    sum = low + high * 2 ^ bits

    split : 2 ^ width ≡ 2 ^ (width - bits) * 2 ^ bits
    split = parts width n bits h (omega (arith, below))

    low_fits : low < 2 ^ bits
    low_fits =
        high_below n (2 ^ (width - bits)) (2 ^ bits) (positive (width - bits))
          (omega (arith, h, split))

    fits : sum < 2 ^ width
    fits = omega (
      arith,
      low_fits,
      split,
      add-mul high 1 (2 ^ bits),
      mul-le-mul_right {m = high + 1} {n = 2 ^ (width - bits)} (2 ^ bits)
          (omega (arith, mod-lt n (positive (width - bits)))),
    )
