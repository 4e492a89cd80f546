-- ===== src/UInt64/Power.antt =====
-- SetPowerMod: powers of a base by squares, reduced at each step.
use native.Mathlib.Nat.{
  mod-eq_of_lt, mod-lt, pow-suc, pow-zero, add-mul-mod_self_left, mul_comm, mul-lt-mul_of_pos_right,
  mul-le-mul_left,
}
use gray_core.Base.{
  ℕ, zero, suc, ◌+◌, ◌*◌, ◌/◌, ◌%◌, ◌^◌, ◌≤◌, ◌<◌, ◌≡◌, ◌∙◌, refl, sym, ap, Bool, true, false,
  if◌then◌else◌, ◌==◌, arith,
}
use gray_core.UInt64.{u64, power_loop, set_power_mod}
use gray_core.UInt64.Division.{next_bit}

module _ (modulus : ℕ) where
  mod-mul : (v w : ℕ) → v % modulus * w % modulus ≡ v * w % modulus
  mod-mul v w =
      sym (add-mul-mod_self_left (v % modulus * w) modulus (v / modulus * w))
      ∙ ap (λ (t : ℕ). t % modulus) (together ∙ ap (λ (t : ℕ). t * w) whole)
    where
      together :
          v % modulus * w + modulus * (v / modulus * w)
          ≡ (modulus * (v / modulus) + v % modulus) * w
      together = grind arith

      whole : modulus * (v / modulus) + v % modulus ≡ v
      whole = grind arith

  mod-square : (v : ℕ) → v % modulus * (v % modulus) % modulus ≡ v * v % modulus
  mod-square v =
      mod-mul v (v % modulus) ∙ ap (λ (t : ℕ). t % modulus) (mul_comm v (v % modulus)) ∙ mod-mul v v

pow_double : (b m : ℕ) → b ^ (m * 2) ≡ b ^ m * b ^ m
pow_double b zero = pow-zero b ∙ sym (ap (λ (t : ℕ). t * t) (pow-zero b))
pow_double b (suc m) =
    ap (λ (t : ℕ). b ^ t) {x = suc m * 2} {y = suc (suc (m * 2))} (omega arith)
    ∙ pow-suc b (suc (m * 2))
    ∙ ap (λ (t : ℕ). t * b) (pow-suc b (m * 2))
    ∙ ap (λ (t : ℕ). t * b * b) (pow_double b m)
    ∙ square_out (b ^ m) b
    ∙ ap (λ (t : ℕ). t * t) (sym (pow-suc b m))
  where
    square_out : (t b : ℕ) → t * t * b * b ≡ t * b * (t * b)
    square_out t b = grind arith

-- What a value is after the bits of the exponent from `prefix` on.
abbrev Held : ℕ → ℕ → ℕ → Bool → ℕ → Type 0
Held base modulus prefix true val = (prefix ≡ 0) × (val ≡ 1)
Held base modulus prefix false val = (0 < prefix) × (val ≡ base ^ prefix % modulus)

small-mul : (v m c limit : ℕ) → 0 < limit → v < m → m * c ≤ limit → v * c < limit
small-mul v m zero limit some_limit below h = omega arith
small-mul v m (suc c) limit some_limit below h =
    omega (arith, mul-lt-mul_of_pos_right {k = suc c} below (omega arith))

module _ (base modulus : ℕ) (some_modulus : 0 < modulus)
    (squares_fit : modulus * modulus ≤ 0x1_0000_0000_0000_0000)
    (products_fit : modulus * base ≤ 0x1_0000_0000_0000_0000)
    (base_fits : base < 0x1_0000_0000_0000_0000) where
  squared-Held :
      (prefix val : ℕ)
      → val ≡ base ^ prefix % modulus
      → val * val % u64 % modulus ≡ base ^ (prefix * 2) % modulus
  squared-Held prefix val is =
      ap (λ (t : ℕ). t % modulus) (mod-eq_of_lt fits)
      ∙ ap (λ (t : ℕ). t * t % modulus) is
      ∙ mod-square modulus (base ^ prefix)
      ∙ ap (λ (t : ℕ). t % modulus) (sym (pow_double base prefix))
    where
      below : val < modulus
      below = omega (arith, mod-lt (base ^ prefix) some_modulus)

      fits : val * val < u64
      fits = small-mul val modulus val u64 (omega arith) below (
          omega (
            arith,
            squares_fit,
            mul-le-mul_left {m = val} {n = modulus} modulus (omega (arith, below)),
          ))

  multiplied-Held :
      (prefix val : ℕ)
      → val ≡ base ^ prefix % modulus
      → val * base % u64 % modulus ≡ base ^ suc prefix % modulus
  multiplied-Held prefix val is =
      ap (λ (t : ℕ). t % modulus) (mod-eq_of_lt fits)
      ∙ ap (λ (t : ℕ). t * base % modulus) is
      ∙ mod-mul modulus (base ^ prefix) base
      ∙ ap (λ (t : ℕ). t % modulus) (sym (pow-suc base prefix))
    where
      fits : val * base < u64
      fits =
          small-mul val modulus base u64 (omega arith)
            (omega (arith, mod-lt (base ^ prefix) some_modulus)) products_fit

  first-Held : base % modulus ≡ base ^ 1 % modulus
  first-Held =
      ap (λ (t : ℕ). t % modulus)
        (sym (pow-suc base 0 ∙ ap (λ (t : ℕ). t * base) (pow-zero base) ∙ omega arith))

  step-Held :
      (prefix next bit : ℕ) (one : Bool) (val : ℕ)
      → Held base modulus prefix one val
      → next ≡ prefix * 2 + bit
      → bit < 2
      → Held base modulus next (if bit == 1 then false else one) (
          if bit == 1
          then (if one then val else val * val % u64 % modulus) * base % u64 % modulus
          else (if one then val else val * val % u64 % modulus))
  step-Held prefix next zero true val h e b = (omega (arith, e, h.0), h.1)
  step-Held prefix next (suc zero) true val h e b = (
    omega (arith, e),
    rw (h.1, next_one)
        (ap (λ (t : ℕ). t % modulus) {x = 1 * base % u64} {y = base} (omega (arith, base_fits))
          ∙ first-Held),
  )
    where
      next_one : next ≡ 1
      next_one = omega (arith, e, h.0)
  step-Held prefix next zero false val h e b = (
    omega (arith, e, h.0),
    squared-Held prefix val h.1
        ∙ ap (λ (t : ℕ). base ^ t % modulus) {x = prefix * 2} {y = next} (omega (arith, e)),
  )
  step-Held prefix next (suc zero) false val h e b = (
    omega (arith, e, h.0),
    multiplied-Held (prefix * 2) (val * val % u64 % modulus) (squared-Held prefix val h.1)
        ∙ ap (λ (t : ℕ). base ^ t % modulus) {x = suc (prefix * 2)} {y = next} (omega (arith, e)),
  )
  step-Held prefix next (suc (suc bit)) one val h e b = absurd (omega (arith, b))

  power_loop-Held :
      (bits exponent : ℕ) (one : Bool) (val : ℕ)
      → Held base modulus (exponent / 2 ^ bits) one val
      → (one2 : Bool) × Held base modulus exponent one2
          (power_loop bits base exponent modulus one val)
  unfolding power_loop
  power_loop-Held zero exponent one val h = (one, rw (sym whole) h)
    where
      whole : exponent / 2 ^ 0 ≡ exponent
      whole = omega arith
  power_loop-Held (suc bits) exponent one val h =
      power_loop-Held bits exponent (if exponent / 2 ^ bits % 2 == 1 then false else one) _ (
        step-Held (exponent / 2 ^ suc bits) (exponent / 2 ^ bits) (exponent / 2 ^ bits % 2) one val
          h (next_bit bits exponent) (omega arith))

Held-power :
    (base exponent modulus val : ℕ) (one : Bool)
    → Held base modulus exponent one val
    → val ≡ (if exponent == 0 then 1 else base ^ exponent % modulus)
Held-power base exponent modulus val true h = rw (h.0, h.1) refl
Held-power base exponent modulus val false h = rw some_exponent h.1
  where
    some_exponent : (exponent == 0) ≡ false
    some_exponent = ground (arith, h.0)

-- SetPowerMod gives the power modulo a positive modulus, when the products of a reduced value with
-- the base and with another reduced value fit in 64 bits. An exponent of 0 gives 1, whatever the
-- modulus.
pub set_power_mod-power :
    (base exponent modulus : ℕ)
    → base < 0x1_0000_0000_0000_0000
    → exponent < 0x1_0000_0000_0000_0000
    → 0 < modulus
    → modulus * modulus ≤ 0x1_0000_0000_0000_0000
    → modulus * base ≤ 0x1_0000_0000_0000_0000
    → set_power_mod base exponent modulus ≡ (if exponent == 0 then 1 else base ^ exponent % modulus)
unfolding set_power_mod
set_power_mod-power base exponent modulus fb fe pm fs fp =
    let held = power_loop-Held base modulus pm fs fp fb 64 exponent true 1 (nothing_yet, refl) in
    Held-power base exponent modulus (power_loop 64 base exponent modulus true 1) held.0 held.1
  where
    nothing_yet : exponent / 2 ^ 64 ≡ 0
    nothing_yet = omega (arith, fe)
