-- ===== src/Bits/Counting.antt =====
-- Highest1Bit, Count1Bits and IsMask1.
use Prim.Native.Nat.{bit_and, bit_and-bitwise}
use gray_core.Base.{
  ℕ, zero, suc, ◌+◌, ◌-◌, ◌*◌, ◌/◌, ◌%◌, ◌^◌, ◌≤◌, ◌<◌, ◌≡◌, refl, ap, ◌∙◌, ◌⊎◌, min, true, some,
  ◌==◌, arith, tests, inl, inr, Bool-cases, ==→eq,
}
use mathlib.Core.Path.{subst}
use native.Mathlib.Nat.{pow-suc}
use gray_core.Base.Bits.{bit_and_halve}
use gray_core.Bits.{is_mask1, highest1_bit_loop, highest1_bit, count1_bits_loop, count1_bits}

-- How many of the lowest bits of a number are set.
unfoldable pub ones : ℕ → ℕ → ℕ
ones zero n = 0
ones (suc width) n = n % 2 + ones width (n / 2)

bit_and_same : (fuel n : ℕ) → n ≤ fuel → bit_and n n ≡ n
bit_and_same zero zero h = refl
bit_and_same zero (suc n) h = absurd (omega arith)
bit_and_same (suc fuel) zero h = refl
bit_and_same (suc fuel) (suc n) h =
    omega (arith, bit_and_halve (suc n) (suc n), bit_and_same fuel (suc n / 2) (omega arith))

ones-zero : (width : ℕ) → ones width 0 ≡ 0
unfolding ones
ones-zero zero = refl
ones-zero (suc width) = omega (arith, ones-zero width)

ones_below : (width n : ℕ) → ones width n ≤ width
unfolding ones
ones_below zero n = omega arith
ones_below (suc width) n = omega (arith, ones_below width (n / 2))

odd : (n : ℕ) → n % 2 ≡ 1 → bit_and n (n - 1) ≡ n / 2 * 2
odd n h =
    bit_and_halve n (n - 1)
    ∙ ap (λ t. bit_and (n / 2) t * 2 + min (n % 2) ((n - 1) % 2)) below
    ∙ omega (arith, h, bit_and_same (n / 2) (n / 2) (omega arith))
  where
    below : (n - 1) / 2 ≡ n / 2
    below = omega (arith, h)

even : (n : ℕ) → 0 < n → n % 2 ≡ 0 → bit_and n (n - 1) ≡ bit_and (n / 2) (n / 2 - 1) * 2
even n pos h =
    bit_and_halve n (n - 1)
    ∙ ap (λ t. bit_and (n / 2) t * 2 + min (n % 2) ((n - 1) % 2)) below
    ∙ omega (arith, h)
  where
    below : (n - 1) / 2 ≡ n / 2 - 1
    below = omega (arith, h, pos)

ones-double : (width n : ℕ) → ones (suc width) (n * 2) ≡ ones width n
unfolding ones
ones-double width n = omega (arith, ap (ones width) half)
  where
    half : n * 2 / 2 ≡ n
    half = omega arith

-- Clearing the lowest bit that is set.
drop_lowest :
    (width n : ℕ) → 0 < n → n < 2 ^ width → ones width n ≡ suc (ones width (bit_and n (n - 1)))
unfolding ones
drop_lowest zero n pos h = absurd (omega (arith, pos, h))
drop_lowest (suc width) n pos h = elim (parity n) [
  | inl r ↦ omega (arith, r, ones-double width (n / 2), ap (ones (suc width)) (odd n r))
  | inr r ↦ omega (
    arith,
    r,
    ap (ones (suc width)) (even n pos r),
    ones-double width (bit_and (n / 2) (n / 2 - 1)),
    drop_lowest width (n / 2) (omega (arith, r, pos)) (omega (arith, h, pow-suc 2 width)),
  )
]
  where
    parity : (n : ℕ) → (n % 2 ≡ 1) ⊎ (n % 2 ≡ 0)
    parity n = ground arith

bit_and_below : (fuel n m : ℕ) → n ≤ fuel → bit_and n m ≤ n
bit_and_below fuel zero m h = simp bit_and-bitwise (omega arith)
bit_and_below zero (suc n) m h = absurd (omega arith)
bit_and_below (suc fuel) (suc n) m h =
    omega (arith, bit_and_halve (suc n) m, bit_and_below fuel (suc n / 2) (m / 2) (omega arith))

count1_bits_loop-ones :
    (fuel width n bits : ℕ)
    → n < 2 ^ width
    → ones width n < fuel
    → count1_bits_loop fuel n bits ≡ some (bits + ones width n)
unfolding count1_bits_loop
count1_bits_loop-ones zero width n bits h enough = absurd (omega (arith, enough))
count1_bits_loop-ones (suc fuel) width n bits h enough = elim (Bool-cases (n == 0)) [
  | inl nil ↦ rw nil (ap some (omega (arith, ones-zero width, ap (ones width) (==→eq n 0 nil))))
  | inr more ↦
      let lower = drop_lowest width n (omega (tests, more)) h in
      rw more (
        count1_bits_loop-ones fuel width (bit_and n (n - 1)) (bits + 1)
          (omega (arith, h, bit_and_below n n (n - 1) (omega arith))) (omega (arith, lower, enough))
        ∙ ap some (omega (arith, lower)))
]

-- Count1Bits of a number of the width ends, with the number of its bits that are set.
pub count1_bits-ones : (width n : ℕ) → n < 2 ^ width → count1_bits width n ≡ some (ones width n)
count1_bits-ones width n h =
    count1_bits_loop-ones (width + 1) width n 0 h (omega (arith, ones_below width n))
    ∙ ap some (omega arith)

-- IsMask1 is the test that a single bit is set.
pub is_mask1-ones : (width n : ℕ) → n < 2 ^ width → is_mask1 n ≡ (ones width n == 1)
unfolding is_mask1
is_mask1-ones width n h = elim (Bool-cases (n == 0)) [
  | inl nil ↦ rw nil (ground (arith, ap (ones width) (==→eq n 0 nil), ones-zero width))
  | inr more ↦ rw more (
      rest (bit_and n (n - 1)) (drop_lowest width n (omega (tests, more)) h)
        (omega (arith, h, bit_and_below n n (n - 1) (omega arith))))
]
  where
    rest :
        (m : ℕ) → ones width n ≡ suc (ones width m) → m < 2 ^ width → (m == 0) ≡ (ones width n == 1)
    rest m e below = elim (Bool-cases (m == 0)) [
      | inl nil ↦ ground (arith, e, ap (ones width) (==→eq m 0 nil), ones-zero width)
      | inr more ↦ ground (arith, e, drop_lowest width m (omega (tests, more)) below)
    ]

-- What Highest1Bit gives: the width of the number.
pub record Highest (n bit1 : ℕ) : Type 0 where
  pub below : n < 2 ^ bit1
  pub reached : 0 < n → 2 ^ bit1 ≤ 2 * n
  pub none_set : n ≡ 0 → bit1 ≡ 0

Highest-twice : (n bit1 : ℕ) → 0 < n → Highest (n / 2) bit1 → Highest n (suc bit1)
Highest-twice n bit1 pos half = record {
  below = omega (arith, half.below, pow-suc 2 bit1);
  reached = λ some_set. elim (Bool-cases (n / 2 == 0)) [
    | inl nil ↦
        omega
          (tests, nil, pos, pow-suc 2 bit1, ap (λ b. 2 ^ b) (half.none_set (==→eq (n / 2) 0 nil)))
    | inr more ↦ omega (tests, pow-suc 2 bit1, half.reached (omega (tests, more)))
  ];
  none_set = λ nil. absurd (omega (arith, nil, pos));
}

-- The loop from a count of bits, when its fuel is enough.
abbrev Reaches : ℕ → ℕ → ℕ → Type 0
Reaches fuel n bits =
    (bit1 : ℕ) × (highest1_bit_loop fuel n bits ≡ some (bits + bit1)) × Highest n bit1

nothing_left : (fuel n bits : ℕ) → (n == 0) ≡ true → Reaches (suc fuel) n bits
unfolding highest1_bit_loop
nothing_left fuel n bits nil = (
  0,
  rw nil (ap some (omega arith)),
  record {
    below = omega (tests, nil);
    reached = λ pos. absurd (omega (tests, nil, pos));
    none_set = λ e. refl;
  },
)

highest1_bit_loop-Highest : (fuel n bits : ℕ) → n < 2 ^ fuel → Reaches (suc fuel) n bits
unfolding highest1_bit_loop
highest1_bit_loop-Highest zero n bits h = nothing_left zero n bits (ground (arith, h))
highest1_bit_loop-Highest (suc fuel) n bits h = elim (Bool-cases (n == 0)) [
  | inl nil ↦ nothing_left (suc fuel) n bits nil
  | inr more ↦
      let (bit1, e, half) =
        highest1_bit_loop-Highest fuel (n / 2) (bits + 1) (omega (arith, h, pow-suc 2 fuel)) in
      (
        suc bit1,
        rw more (e ∙ ap some (omega arith)),
        Highest-twice n bit1 (omega (tests, more)) half,
      )
]

-- Highest1Bit of a number of the width ends, with the number of bits that the number takes.
pub highest1_bit-Highest :
    (width n : ℕ) → n < 2 ^ width → (bit1 : ℕ) × (highest1_bit width n ≡ some bit1) × Highest n bit1
highest1_bit-Highest width n h =
    let (bit1, e, highest) =
      subst (λ fuel. Reaches fuel n 0) (suc-add width) (highest1_bit_loop-Highest width n 0 h) in
    (bit1, e ∙ ap some (omega arith), highest)
  where
    suc-add : (w : ℕ) → suc w ≡ w + 1
    suc-add w = omega arith
