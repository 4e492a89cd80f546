-- ===== src/StrChar/Digits.antt =====
-- Digits in a radix.
use gray_core.Base.{ℕ, ◌≡◌, ◌≤◌, ◌<◌, false, arith}
use gray_core.StrChar.{is_digit_radix, u2_radix, radix_to_u, u2_hex, hex2_u}

-- In a radix of at most 36 the character of a digit is read back as the digit, and is no digit of
-- that radix if the value is none; the hexadecimal functions agree with those of radix 16.
pub radix_to_u-u2_radix :
    (val radix : ℕ)
    → radix ≤ 36
    → (val < radix → radix_to_u (u2_radix val radix) radix ≡ val)
      × (radix ≤ val → is_digit_radix (u2_radix val radix) radix ≡ false)
      × (u2_hex val ≡ u2_radix val 16)
      × (hex2_u (u2_hex val) ≡ radix_to_u (u2_hex val) 16)
unfolding radix_to_u u2_radix is_digit_radix u2_hex hex2_u
radix_to_u-u2_radix val radix h = (λ b. ground arith, λ a. ground arith, ground arith, ground arith)

hex2_u-radix_to_u : (ch : ℕ) → hex2_u ch ≡ radix_to_u ch 16
unfolding hex2_u radix_to_u
hex2_u-radix_to_u ch = ground arith
