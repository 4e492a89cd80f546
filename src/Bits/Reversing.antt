-- ===== src/Bits/Reversing.antt =====
-- Reverse.
use Prim.Native.Nat.{bit_and, bit_or, max}
use gray_core.Base.{ℕ, zero, suc, ◌+◌, ◌-◌, ◌*◌, ◌/◌, ◌%◌, ◌^◌, ◌<◌, ◌≡◌, sym, ap, ap₂, ◌∙◌, arith}
use native.Mathlib.Nat.{
  pow-suc, one-le-pow, div-add-mod, add-mul-mod_self_left, mod-eq_of_lt, mod-lt,
}
use gray_core.Base.Bits.{bit_or_halve, bit_or_nil, bit_or-high-low, bit_and-low}
use gray_core.Bits.{reverse_loop, reverse}

-- The lowest bits of a number in the other order.
unfoldable pub reversed : ℕ → ℕ → ℕ
reversed zero n = 0
reversed (suc width) n = n % 2 * 2 ^ width + reversed width (n / 2)

reversed_below : (width n : ℕ) → reversed width n < 2 ^ width
unfolding reversed
reversed_below zero n = omega arith
reversed_below (suc width) n =
    grind (arith, reversed_below width (n / 2), pow-suc 2 width, mod_two n)
  where
    mod_two : (n : ℕ) → n % 2 < 2
    mod_two n = omega arith

-- A remainder may be taken late.
late : (x w q r : ℕ) → (x % w * q + r) % w ≡ (x * q + r) % w
late x w q r = sym (add-mul-mod_self_left (x % w * q + r) w (x / w * q)) ∙ ap (λ t. t % w) whole
  where
    whole : x % w * q + r + w * (x / w * q) ≡ x * q + r
    whole = grind (arith, ap (λ t. t * q) (div-add-mod x w))

put_bit : (temp n : ℕ) → temp % 2 ≡ 0 → bit_or temp (bit_and n 1) ≡ temp + n % 2
put_bit temp n even =
    ap₂ bit_or (sym halves) (bit_and-low 1 n)
    ∙ bit_or-high-low 1 (temp / 2) (n % 2) (omega arith)
    ∙ omega (arith, even)
  where
    halves : temp / 2 * 2 ≡ temp
    halves = omega (arith, even)

same_bit : (n : ℕ) → bit_or n (bit_and n 1) ≡ n
same_bit n =
    ap (bit_or n) (bit_and-low 1 n)
    ∙ bit_or_halve n (n % 2)
    ∙ ap (λ t. bit_or (n / 2) t * 2 + max (n % 2) (n % 2 % 2)) none_left
    ∙ omega (arith, bit_or_nil (n / 2) (n / 2) (omega arith))
  where
    none_left : n % 2 / 2 ≡ 0
    none_left = omega arith

two_out : (a b : ℕ) → a * 2 * b ≡ 2 * (a * b)
two_out a b = grind arith

-- What the first shift cuts off.
first_shift : (n p r : ℕ) → n * 2 * p + r ≡ n % 2 * (p * 2) + r + p * 2 * 2 * (n / 2)
first_shift n p r = ap (λ t. t * 2 * p + r) (sym (div-add-mod n 2)) ∙ grind arith

module _ (high : ℕ) where
  even-mod : (x : ℕ) → x * 2 % 2 ^ suc high % 2 ≡ 0
  even-mod x = omega (arith, div-add-mod (x * 2) (2 ^ suc high), products)
    where
      products : 2 ^ suc high * (x * 2 / 2 ^ suc high) ≡ 2 * (2 ^ high * (x * 2 / 2 ^ suc high))
      products =
          ap (λ t. t * (x * 2 / 2 ^ suc high)) (pow-suc 2 high)
          ∙ two_out (2 ^ high) (x * 2 / 2 ^ suc high)

  reverse_loop-reversed :
      (i temp n : ℕ)
      → temp % 2 ≡ 0
      → temp < 2 ^ suc high
      → reverse_loop (suc high) i temp n ≡ (temp * 2 ^ i + reversed (suc i) n) % 2 ^ suc high
  unfolding reverse_loop reversed
  reverse_loop-reversed zero temp n even below =
      put_bit temp n even
      ∙ sym (mod-eq_of_lt (omega (arith, below, even, pow-suc 2 high)))
      ∙ ap (λ t. t % 2 ^ suc high) (omega arith)
  reverse_loop-reversed (suc i) temp n even below =
      reverse_loop-reversed i (bit_or temp (bit_and n 1) * 2 % 2 ^ suc high) (n / 2)
        (even-mod (bit_or temp (bit_and n 1)))
        (mod-lt (bit_or temp (bit_and n 1) * 2)
          (omega (arith, one-le-pow (suc high) 2 (omega arith))))
      ∙ late (bit_or temp (bit_and n 1) * 2) (2 ^ suc high) (2 ^ i) (reversed (suc i) (n / 2))
      ∙ ap (λ t. t % 2 ^ suc high)
          (ap (λ b. b * 2 * 2 ^ i + reversed (suc i) (n / 2)) (put_bit temp n even)
            ∙ shifted (2 ^ i) (n % 2) (reversed (suc i) (n / 2))
            ∙ ap (λ p. temp * p + (n % 2 * p + reversed (suc i) (n / 2))) (sym (pow-suc 2 i)))
    where
      shifted : (p b r : ℕ) → (temp + b) * 2 * p + r ≡ temp * (p * 2) + (b * (p * 2) + r)
      shifted p b r = grind arith

-- Reverse of a number of at least one bit puts its bits in the other order.
pub reverse-reversed :
    (high n : ℕ) → n < 2 ^ suc high → reverse (suc high) n ≡ reversed (suc high) n
unfolding reverse_loop reversed
reverse-reversed zero n h = same_bit n ∙ omega (arith, h)
reverse-reversed (suc high) n h =
    ap (λ i. reverse_loop (suc (suc high)) i n n) last
    ∙ ap (λ b. reverse_loop (suc (suc high)) high (b * 2 % 2 ^ suc (suc high)) (n / 2)) (same_bit n)
    ∙ reverse_loop-reversed (suc high) high (n * 2 % 2 ^ suc (suc high)) (n / 2)
        (even-mod (suc high) n)
        (mod-lt (n * 2) (omega (arith, one-le-pow (suc (suc high)) 2 (omega arith))))
    ∙ late (n * 2) (2 ^ suc (suc high)) (2 ^ high) (reversed (suc high) (n / 2))
    ∙ ap (λ t. t % 2 ^ suc (suc high))
        (first_shift n (2 ^ high) (reversed (suc high) (n / 2))
          ∙ ap₂ (λ p q. n % 2 * p + reversed (suc high) (n / 2) + q * (n / 2))
              (sym (pow-suc 2 high))
              (sym (pow-suc 2 (suc high) ∙ ap (λ t. t * 2) (pow-suc 2 high))))
    ∙ add-mul-mod_self_left (reversed (suc (suc high)) n) (2 ^ suc (suc high)) (n / 2)
    ∙ mod-eq_of_lt (reversed_below (suc (suc high)) n)
  where
    last : suc (suc high) - 1 ≡ suc high
    last = omega arith
