-- ===== src/Base/Bits.antt =====
-- `|` of two fields that share no bit is their sum, and `&` with a mask of low bits a remainder, at
-- every width.
use Prim.Native.Nat.{
  ℕ, zero, suc, ◌+◌, ◌*◌, ◌/◌, ◌%◌, ◌^◌, ◌≤◌, ◌<◌, ◌-◌, max, min, bit_or, bit_and, digits,
  bit_or-bitwise, bit_and-bitwise,
}
use mathlib.Core.Path.{◌≡◌, refl, ap, sym, ◌∙◌}
use native.Mathlib.Nat.{
  pow-suc, mod-eq_of_lt, mod-lt, add-mul-mod_self_left, div-add-mod, one-le-pow, div-div-eq-div-mul,
  add-zero,
}
use native.Mathlib.Omega.{arith}

abbrev or_digits : ℕ → ℕ → ℕ → ℕ
or_digits fuel a b = digits (λ c. c) max fuel a b

-- More fuel than the number changes nothing.
or_digits_enough : (f g a b : ℕ) → a ≤ f → a ≤ g → or_digits f a b ≡ or_digits g a b
or_digits_enough f g zero b p q = or_digits_zero f g b
  where
    or_digits_zero : (f g b : ℕ) → or_digits f 0 b ≡ or_digits g 0 b
    or_digits_zero zero zero b = refl
    or_digits_zero zero (suc g) b = refl
    or_digits_zero (suc f) zero b = refl
    or_digits_zero (suc f) (suc g) b = refl
or_digits_enough zero g (suc a) b p q = absurd (omega arith)
or_digits_enough (suc f) zero (suc a) b p q = absurd (omega arith)
or_digits_enough (suc f) (suc g) (suc a) b p q =
    ap (λ t. t * 2 + max (suc a % 2) (b % 2))
      (or_digits_enough f g (suc a / 2) (b / 2) (omega arith) (omega arith))

-- The lowest digit, and the others.
pub bit_or_halve : (a b : ℕ) → bit_or a b ≡ bit_or (a / 2) (b / 2) * 2 + max (a % 2) (b % 2)
bit_or_halve zero b = simp bit_or-bitwise (omega arith)
bit_or_halve (suc a) b = simp bit_or-bitwise (
    ap (λ t. t * 2 + max (suc a % 2) (b % 2))
      (or_digits_enough a (suc a / 2) (suc a / 2) (b / 2) (omega arith) (omega arith)))

pub bit_or_nil : (fuel a : ℕ) → a ≤ fuel → bit_or a 0 ≡ a
bit_or_nil fuel zero h = refl
bit_or_nil zero (suc a) h = absurd (omega arith)
bit_or_nil (suc fuel) (suc a) h =
    omega (arith, bit_or_halve (suc a) 0, bit_or_nil fuel (suc a / 2) (omega arith))

pub bit_or-high-low :
    (width high low : ℕ) → low < 2 ^ width → bit_or (high * 2 ^ width) low ≡ high * 2 ^ width + low
bit_or-high-low zero high low h =
    ap (λ t. bit_or (high * 1) t) (nothing low h)
    ∙ bit_or_nil (high * 1) (high * 1) (omega arith)
    ∙ omega (arith, nothing low h)
  where
    nothing : (l : ℕ) → l < 1 → l ≡ 0
    nothing l h = omega arith
bit_or-high-low (suc width) high low h =
    bit_or_halve (high * 2 ^ suc width) low
    ∙ ap (λ t. bit_or t (low / 2) * 2 + max (high * 2 ^ suc width % 2) (low % 2)) half
    ∙ omega (arith, doubled, bit_or-high-low width high (low / 2) (omega (arith, pow-suc 2 width)))
  where
    doubled : high * 2 ^ suc width ≡ 2 * (high * 2 ^ width)
    doubled = omega (arith, ap (λ (t : ℕ). high * t) (pow-suc 2 width))

    half : high * 2 ^ suc width / 2 ≡ high * 2 ^ width
    half = omega (arith, doubled)

abbrev and_digits : ℕ → ℕ → ℕ → ℕ
and_digits fuel a b = digits (λ c. zero) min fuel a b

and_digits_enough : (f g a b : ℕ) → a ≤ f → a ≤ g → and_digits f a b ≡ and_digits g a b
and_digits_enough f g zero b p q = and_digits_zero f g b
  where
    and_digits_zero : (f g b : ℕ) → and_digits f 0 b ≡ and_digits g 0 b
    and_digits_zero zero zero b = refl
    and_digits_zero zero (suc g) b = refl
    and_digits_zero (suc f) zero b = refl
    and_digits_zero (suc f) (suc g) b = refl
and_digits_enough zero g (suc a) b p q = absurd (omega arith)
and_digits_enough (suc f) zero (suc a) b p q = absurd (omega arith)
and_digits_enough (suc f) (suc g) (suc a) b p q =
    ap (λ t. t * 2 + min (suc a % 2) (b % 2))
      (and_digits_enough f g (suc a / 2) (b / 2) (omega arith) (omega arith))

pub bit_and_halve : (a b : ℕ) → bit_and a b ≡ bit_and (a / 2) (b / 2) * 2 + min (a % 2) (b % 2)
bit_and_halve zero b = simp bit_and-bitwise (omega arith)
bit_and_halve (suc a) b = simp bit_and-bitwise (
    ap (λ t. t * 2 + min (suc a % 2) (b % 2))
      (and_digits_enough a (suc a / 2) (suc a / 2) (b / 2) (omega arith) (omega arith)))

bit_and_nil : (fuel a : ℕ) → a ≤ fuel → bit_and a 0 ≡ 0
bit_and_nil fuel zero h = refl
bit_and_nil zero (suc a) h = absurd (omega arith)
bit_and_nil (suc fuel) (suc a) h =
    omega (arith, bit_and_halve (suc a) 0, bit_and_nil fuel (suc a / 2) (omega arith))

-- The lowest digit of a remainder, and the others.
mod-double : (n m : ℕ) → 0 < m → n / 2 % m * 2 + n % 2 ≡ n % (m * 2)
mod-double n m some_m =
    sym
      (mod-eq_of_lt {n = n / 2 % m * 2 + n % 2} {m = m * 2} (omega (arith, mod-lt (n / 2) some_m)))
    ∙ sym (add-mul-mod_self_left (n / 2 % m * 2 + n % 2) (m * 2) (n / 2 / m))
    ∙ ap (λ (t : ℕ). t % (m * 2)) whole
  where
    spread : m * 2 * (n / 2 / m) ≡ m * (n / 2 / m) * 2
    spread = grind arith

    whole : n / 2 % m * 2 + n % 2 + m * 2 * (n / 2 / m) ≡ n
    whole = omega (arith, spread, div-add-mod (n / 2) m)

pub bit_and-low : (width n : ℕ) → bit_and n (2 ^ width - 1) ≡ n % 2 ^ width
bit_and-low zero n = bit_and_nil n n (omega arith) ∙ omega arith
bit_and-low (suc width) n =
    bit_and_halve n (2 ^ suc width - 1)
    ∙ ap (λ t. bit_and (n / 2) t * 2 + min (n % 2) ((2 ^ suc width - 1) % 2)) half
    ∙ ap (λ t. t * 2 + min (n % 2) ((2 ^ suc width - 1) % 2)) (bit_and-low width (n / 2))
    ∙ ap (λ t. n / 2 % 2 ^ width * 2 + t) odd
    ∙ mod-double n (2 ^ width) some
    ∙ ap (λ t. n % t) (sym (pow-suc 2 width))
  where
    some : 0 < 2 ^ width
    some = omega (arith, one-le-pow width 2 (omega arith))

    half : (2 ^ suc width - 1) / 2 ≡ 2 ^ width - 1
    half = omega (arith, pow-suc 2 width, some)

    odd : min (n % 2) ((2 ^ suc width - 1) % 2) ≡ n % 2
    odd = omega (arith, pow-suc 2 width, some)

pub bit_and-bit : (k n : ℕ) → bit_and n (2 ^ k) ≡ n / 2 ^ k % 2 * 2 ^ k
bit_and-bit zero n = bit_and-low 1 n ∙ omega arith
bit_and-bit (suc k) n =
    bit_and_halve n (2 ^ suc k)
    ∙ ap (λ t. bit_and (n / 2) t * 2 + min (n % 2) (2 ^ suc k % 2)) half
    ∙ ap (λ t. t * 2 + min (n % 2) (2 ^ suc k % 2)) (bit_and-bit k (n / 2))
    ∙ ap (λ t. t % 2 * 2 ^ k * 2 + min (n % 2) (2 ^ suc k % 2)) (div-div-eq-div-mul n 2 (2 ^ k))
    ∙ ap (λ t. n / t % 2 * 2 ^ k * 2 + min (n % 2) (2 ^ suc k % 2)) twice
    ∙ even
    ∙ spread (n / 2 ^ suc k % 2) (2 ^ k)
    ∙ ap (λ t. n / 2 ^ suc k % 2 * t) (sym (pow-suc 2 k))
  where
    half : 2 ^ suc k / 2 ≡ 2 ^ k
    half = omega (arith, pow-suc 2 k)

    twice : 2 * 2 ^ k ≡ 2 ^ suc k
    twice = omega (arith, pow-suc 2 k)

    even :
        n / 2 ^ suc k % 2 * 2 ^ k * 2 + min (n % 2) (2 ^ suc k % 2) ≡ n / 2 ^ suc k % 2 * 2 ^ k * 2
    even = omega (arith, pow-suc 2 k)

    spread : (a b : ℕ) → a * b * 2 ≡ a * (b * 2)
    spread a b = grind arith

pub bit_or_comm : (fuel a b : ℕ) → a ≤ fuel → b ≤ fuel → bit_or a b ≡ bit_or b a
bit_or_comm zero zero zero p q = refl
bit_or_comm zero zero (suc b) p q = absurd (omega arith)
bit_or_comm zero (suc a) b p q = absurd (omega arith)
bit_or_comm (suc fuel) a b p q = omega (
  arith,
  bit_or_halve a b,
  bit_or_halve b a,
  bit_or_comm fuel (a / 2) (b / 2) (omega arith) (omega arith),
)

-- `|` of a number and a field above it is their sum.
pub bit_or-low-high :
    (width low high : ℕ) → low < 2 ^ width → bit_or low (high * 2 ^ width) ≡ low + high * 2 ^ width
bit_or-low-high width low high h =
    bit_or_comm (low + high * 2 ^ width) low (high * 2 ^ width) (omega arith) (omega arith)
    ∙ bit_or-high-low width high low h
    ∙ omega arith

pub pow-add : (b m : ℕ) → 2 ^ (b + m) ≡ 2 ^ m * 2 ^ b
pow-add b zero = omega (arith, ap (λ k. 2 ^ k) (add-zero b))
pow-add b (suc m) =
    ap (λ k. 2 ^ k) (omega arith)
    ∙ pow-suc 2 (b + m)
    ∙ ap (λ t. t * 2) (pow-add b m)
    ∙ grind arith
    ∙ sym (ap (λ t. t * 2 ^ b) (pow-suc 2 m))
