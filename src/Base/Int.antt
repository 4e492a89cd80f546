-- ===== src/Base/Int.antt =====
-- Signed integers over the native numbers, for the C++ `int` values that may be negative.
use Prim.Native.Nat.{ℕ, zero, suc, ◌+◌, ◌-◌, ◌*◌, ◌/◌, ◌%◌, ◌≤◌, ◌<◌}
use mathlib.Core.Path.{◌≡◌, refl, sym, ◌∙◌}
use mathlib.Core.Logic.{◌⊎◌, inl, inr}
use native.Mathlib.Nat.{mul-zero, zero-div, zero-mod}
use mathlib.Core.Bool.{Bool, true, false, not}
use native.Mathlib.Omega.{arith}
use gray_core.Base.Tests.{ltb, leb, ◌==◌, if◌then◌else◌}

-- `negsuc n` is -(n + 1).
pub data ℤ : Type 0 where
  pos : ℕ → ℤ
  negsuc : ℕ → ℤ

abbrev pub pos_part : ℤ → ℕ
pos_part (pos n) = n
pos_part (negsuc n) = 0

abbrev pub neg_part : ℤ → ℕ
neg_part (pos n) = 0
neg_part (negsuc n) = suc n

-- a - b, as an integer.
abbrev pub sub_ℕ : ℕ → ℕ → ℤ
sub_ℕ a b = if leb b a then pos (a - b) else negsuc (b - a - 1)

-- -n
abbrev pub neg_ℕ : ℕ → ℤ
neg_ℕ zero = pos 0
neg_ℕ (suc n) = negsuc n

infixl 65 ◌+ℤ◌ ◌-ℤ◌
infix 50 ◌≤ℤ◌ ◌<ℤ◌
unfoldable pub ◌+ℤ◌ : ℤ → ℤ → ℤ
pos a +ℤ pos b = pos (a + b)
pos a +ℤ negsuc b = sub_ℕ a (suc b)
negsuc a +ℤ pos b = sub_ℕ b (suc a)
negsuc a +ℤ negsuc b = negsuc (suc (a + b))

unfoldable pub ◌-ℤ◌ : ℤ → ℤ → ℤ
pos a -ℤ pos b = sub_ℕ a b
pos a -ℤ negsuc b = pos (a + suc b)
negsuc a -ℤ pos b = negsuc (a + b)
negsuc a -ℤ negsuc b = sub_ℕ b a

abbrev pub ◌≤ℤ◌ : ℤ → ℤ → Type 0
a ≤ℤ b = pos_part a + neg_part b ≤ pos_part b + neg_part a

abbrev pub ◌<ℤ◌ : ℤ → ℤ → Type 0
a <ℤ b = pos_part a + neg_part b < pos_part b + neg_part a

abbrev pub ltb_ℤ : ℤ → ℤ → Bool
ltb_ℤ (pos a) (pos b) = ltb a b
ltb_ℤ (pos a) (negsuc b) = false
ltb_ℤ (negsuc a) (pos b) = true
ltb_ℤ (negsuc a) (negsuc b) = ltb b a

abbrev pub leb_ℤ : ℤ → ℤ → Bool
leb_ℤ a b = not (ltb_ℤ b a)

abbrev pub eq_ℤ : ℤ → ℤ → Bool
eq_ℤ (pos a) (pos b) = a == b
eq_ℤ (pos a) (negsuc b) = false
eq_ℤ (negsuc a) (pos b) = false
eq_ℤ (negsuc a) (negsuc b) = a == b

-- A product with a number.
unfoldable pub scale : ℕ → ℤ → ℤ
scale k (pos n) = pos (k * n)
scale k (negsuc n) = neg_ℕ (k * suc n)

-- C++ division by a positive number goes towards zero, and the remainder takes the sign of the
-- dividend.
unfoldable pub quot : ℤ → ℕ → ℤ
quot (pos a) d = pos (a / d)
quot (negsuc a) d = neg_ℕ (suc a / d)

unfoldable pub rem : ℤ → ℕ → ℤ
rem (pos a) d = pos (a % d)
rem (negsuc a) d = neg_ℕ (suc a % d)

-- A conversion to a signed type of 16 bits.
unfoldable pub to_short : ℤ → ℤ
to_short a =
    let w = (pos_part a % 65536 + 65536 - neg_part a % 65536) % 65536 in
    if ltb w 32768 then pos w else negsuc (65535 - w)

pub to_short_small : (n : ℕ) → n < 32768 → to_short (pos n) ≡ pos n
unfolding to_short
to_short_small n h = ground arith

pub +ℤ_parts :
    (a b : ℤ)
    → pos_part (a +ℤ b) + neg_part a + neg_part b ≡ neg_part (a +ℤ b) + pos_part a + pos_part b
unfolding ◌+ℤ◌
+ℤ_parts a b = ground arith

pub -ℤ_parts :
    (a b : ℤ)
    → pos_part (a -ℤ b) + neg_part a + pos_part b ≡ neg_part (a -ℤ b) + pos_part a + neg_part b
unfolding ◌-ℤ◌
-ℤ_parts a b = ground arith

pub eq_of_parts : (a b : ℤ) → pos_part a + neg_part b ≡ pos_part b + neg_part a → a ≡ b
eq_of_parts a b h = ground arith

pub ruleset int_laws = (arith, +ℤ_parts, -ℤ_parts, eq_of_parts)

pos_part-neg_ℕ : (n : ℕ) → pos_part (neg_ℕ n) ≡ 0
pos_part-neg_ℕ zero = refl
pos_part-neg_ℕ (suc n) = refl

neg_part-neg_ℕ : (n : ℕ) → neg_part (neg_ℕ n) ≡ n
neg_part-neg_ℕ zero = refl
neg_part-neg_ℕ (suc n) = refl

pub scale_pos : (k : ℕ) (a : ℤ) → pos_part (scale k a) ≡ k * pos_part a
unfolding scale
scale_pos k (pos n) = refl
scale_pos k (negsuc n) = pos_part-neg_ℕ (k * suc n) ∙ sym (mul-zero k)

pub scale_neg : (k : ℕ) (a : ℤ) → neg_part (scale k a) ≡ k * neg_part a
unfolding scale
scale_neg k (pos n) = sym (mul-zero k)
scale_neg k (negsuc n) = neg_part-neg_ℕ (k * suc n)

pub quot_pos : (a : ℤ) (d : ℕ) → pos_part (quot a d) ≡ pos_part a / d
unfolding quot
quot_pos (pos n) d = refl
quot_pos (negsuc n) d = pos_part-neg_ℕ (suc n / d) ∙ sym (zero-div d)

pub quot_neg : (a : ℤ) (d : ℕ) → neg_part (quot a d) ≡ neg_part a / d
unfolding quot
quot_neg (pos n) d = sym (zero-div d)
quot_neg (negsuc n) d = neg_part-neg_ℕ (suc n / d)

pub ltb_ℤ-true : (a b : ℤ) → ltb_ℤ a b ≡ true → a <ℤ b
ltb_ℤ-true a b h = ground arith

pub ltb_ℤ-false : (a b : ℤ) → ltb_ℤ a b ≡ false → b ≤ℤ a
ltb_ℤ-false a b h = ground arith

pub lt→ltb_ℤ : (a b : ℤ) → a <ℤ b → ltb_ℤ a b ≡ true
lt→ltb_ℤ a b h = ground arith

pub le→ltb_ℤ : (a b : ℤ) → b ≤ℤ a → ltb_ℤ a b ≡ false
le→ltb_ℤ a b h = ground arith

pub parts_apart : (a : ℤ) → (pos_part a ≡ 0) ⊎ (neg_part a ≡ 0)
parts_apart (pos n) = inr refl
parts_apart (negsuc n) = inl refl

pub rem_pos : (a : ℤ) (d : ℕ) → pos_part (rem a d) ≡ pos_part a % d
unfolding rem
rem_pos (pos n) d = refl
rem_pos (negsuc n) d = pos_part-neg_ℕ (suc n % d) ∙ sym (zero-mod d)

pub rem_neg : (a : ℤ) (d : ℕ) → neg_part (rem a d) ≡ neg_part a % d
unfolding rem
rem_neg (pos n) d = sym (zero-mod d)
rem_neg (negsuc n) d = neg_part-neg_ℕ (suc n % d)

pub ruleset div_laws = (int_laws, scale_pos, scale_neg, quot_pos, quot_neg, rem_pos, rem_neg)

pub to_short-eq : (a : ℤ) → pos_part a < 32768 → neg_part a ≤ 32768 → to_short a ≡ a
unfolding to_short
to_short-eq a hi lo = ground arith
