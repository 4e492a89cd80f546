-- ===== src/Bits.antt =====
-- include/cBits.h, `cBits`: bits of unsigned numbers of a width, in the templates for every type. A
-- shift by the width or more is undefined in C++: the theorems name the bound of each shift.
pub mod Counting
pub mod Reversing
pub mod Shifting
mod Tests
use Prim.Native.Nat.{bit_and, bit_or}
use gray_core.Base.{
  ℕ, zero, suc, ◌+◌, ◌-◌, ◌*◌, ◌/◌, ◌%◌, ◌^◌, Bool, not, ◌&&◌, Option, none, some, ◌==◌,
  if◌then◌else◌,
}

abbrev pub get_size_bytes : ℕ → ℕ
get_size_bytes bits = (bits + 7) / 8

abbrev pub has_any : ℕ → ℕ → Bool
has_any n mask = not (bit_and n mask == 0)

-- A single bit is set.
unfoldable pub is_mask1 : ℕ → Bool
is_mask1 n = not (n == 0) && (bit_and n (n - 1) == 0)

-- The loops give `none` when they run out of fuel.
unfoldable pub highest1_bit_loop : ℕ → ℕ → ℕ → Option ℕ
highest1_bit_loop zero n bit1 = none
highest1_bit_loop (suc fuel) n bit1 =
    let rest = highest1_bit_loop fuel (n / 2) (bit1 + 1) in if n == 0 then some bit1 else rest

unfoldable pub lowest1_bit_loop : ℕ → ℕ → ℕ → Option ℕ
lowest1_bit_loop zero n bit1 = none
lowest1_bit_loop (suc fuel) n bit1 =
    let rest = lowest1_bit_loop fuel (n / 2) (bit1 + 1) in if has_any n 1 then some bit1 else rest

unfoldable pub count1_bits_loop : ℕ → ℕ → ℕ → Option ℕ
count1_bits_loop zero n bits = none
count1_bits_loop (suc fuel) n bits =
    let rest = count1_bits_loop fuel (bit_and n (n - 1)) (bits + 1) in
    if n == 0 then some bits else rest

-- Numbers of `width` bits.
module _ (width : ℕ) where
  abbrev pub mask1 : ℕ → ℕ
  mask1 bit = 2 ^ bit % 2 ^ width

  abbrev pub is_set : ℕ → ℕ → Bool
  is_set n bit = has_any n (mask1 bit)

  unfoldable pub set_bit : ℕ → ℕ → ℕ
  set_bit n bit = bit_or n (mask1 bit)

  unfoldable pub clear_bit : ℕ → ℕ → ℕ
  clear_bit n bit = bit_and n (2 ^ width - 1 - mask1 bit)

  abbrev pub highest1_bit : ℕ → Option ℕ
  highest1_bit n = highest1_bit_loop (width + 1) n 0

  abbrev pub lowest1_bit : ℕ → Option ℕ
  lowest1_bit n = lowest1_bit_loop width n 1

  abbrev pub count1_bits : ℕ → Option ℕ
  count1_bits n = count1_bits_loop (width + 1) n 0

  unfoldable pub rotl : ℕ → ℕ → ℕ
  rotl n bits = bit_or (n * 2 ^ bits % 2 ^ width) (n / 2 ^ (width - bits))

  unfoldable pub rotr : ℕ → ℕ → ℕ
  rotr n bits = bit_or (n / 2 ^ bits) (n * 2 ^ (width - bits) % 2 ^ width)

  unfoldable pub reverse_loop : ℕ → ℕ → ℕ → ℕ
  reverse_loop zero temp n = bit_or temp (bit_and n 1)
  reverse_loop (suc i) temp n = reverse_loop i (bit_or temp (bit_and n 1) * 2 % 2 ^ width) (n / 2)

  abbrev pub reverse : ℕ → ℕ
  reverse n = reverse_loop (width - 1) n n
