-- ===== src/Bits/Tests.antt =====
-- Bits of bytes.
use gray_core.Base.{ℕ, ◌≡◌, refl, some, none, arith, ◌==◌}
use gray_core.Bits.{
  is_mask1, highest1_bit, lowest1_bit, lowest1_bit_loop, count1_bits, set_bit, clear_bit, rotl,
  rotr, reverse, reverse_loop,
}
use gray_core.Bits.Counting.{ones, count1_bits-ones, is_mask1-ones, Highest, highest1_bit-Highest}
use gray_core.Bits.Shifting.{rotr-rotl}
use gray_core.Bits.Reversing.{reversed, reverse-reversed}

count1_bits-ones_example : count1_bits 8 0xB4 ≡ some (ones 8 0xB4)
count1_bits-ones_example = count1_bits-ones 8 0xB4 (omega arith)

is_mask1-ones_example : is_mask1 0x40 ≡ (ones 8 0x40 == 1)
is_mask1-ones_example = is_mask1-ones 8 0x40 (omega arith)

highest1_bit-Highest_example : (bit1 : ℕ) × (highest1_bit 8 0x2C ≡ some bit1) × Highest 0x2C bit1
highest1_bit-Highest_example = highest1_bit-Highest 8 0x2C (omega arith)

rotr-rotl_example : rotr 8 (rotl 8 0xB4 3) 3 ≡ 0xB4
rotr-rotl_example = rotr-rotl 8 0xB4 3 (omega arith) (omega arith) (omega arith)

rotl_byte : rotl 8 0xB4 3 ≡ 0xA5
unfolding rotl
rotl_byte = refl

reverse_byte : reverse 8 0xB4 ≡ 0x2D
unfolding reverse_loop
reverse_byte = refl

set_clear : clear_bit 8 (set_bit 8 0x12 3) 1 ≡ 0x18
unfolding clear_bit set_bit
set_clear = refl

-- The template has no end for 0.
lowest_of_nothing : lowest1_bit 8 0 ≡ none
unfolding lowest1_bit_loop
lowest_of_nothing = refl

lowest_of_twelve : lowest1_bit 8 12 ≡ some 3
unfolding lowest1_bit_loop
lowest_of_twelve = refl

reverse-reversed_example : reverse 8 0xB4 ≡ reversed 8 0xB4
reverse-reversed_example = reverse-reversed 7 0xB4 (omega arith)
