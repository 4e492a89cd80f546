-- ===== src/StrNum/Tests.antt =====
-- Numbers printed and read.
use gray_core.Base.{◌≡◌, refl, arith, [], ◌∷◌}
use gray_core.StrNum.{
  to_ul, to_ul_loop, ul_to_a_rev, radix2u, skip_spaces, rev_digits, to_il, il_to_a, ul_to_a,
  copy_len,
}
use gray_core.StrNum.Signed.{to_il-il_to_a}
use gray_core.StrNum.Digits.{to_ul-ul_to_a_rev}

-- "FF" in radix 16.
ff : ul_to_a_rev 255 64 16 65 ≡ 70 ∷ 70 ∷ []
unfolding ul_to_a_rev rev_digits
ff = refl

-- " 0x1Fz": the text after the digits is left.
hexadecimal : to_ul (32 ∷ 48 ∷ 120 ∷ 49 ∷ 70 ∷ 122 ∷ []) 10 ≡ (31, 122 ∷ [])
unfolding to_ul to_ul_loop radix2u skip_spaces
hexadecimal = refl

-- With too little room the digits in front are lost.
truncated : ul_to_a_rev 12345 3 10 65 ≡ 51 ∷ 52 ∷ 53 ∷ []
unfolding ul_to_a_rev rev_digits
truncated = refl

to_ul-ul_to_a_rev_example : to_ul (ul_to_a_rev 123456789 65 36 65) 36 ≡ (123456789, [])
to_ul-ul_to_a_rev_example =
    to_ul-ul_to_a_rev 36 65 123456789 (omega arith) (omega arith) (omega arith) (omega arith)

-- -12 in radix 10: the length that is returned leaves out the sign.
minus_twelve : il_to_a 0xFFFF_FFFF_FFFF_FFF4 10 10 ≡ (45 ∷ 49 ∷ 50 ∷ 0 ∷ [], 2)
unfolding il_to_a ul_to_a_rev rev_digits copy_len
minus_twelve = refl

-- With room for one character a negative number leaves no final 0.
only_sign : il_to_a 0xFFFF_FFFF_FFFF_FFF4 1 10 ≡ (45 ∷ [], 0)
unfolding il_to_a ul_to_a_rev rev_digits copy_len
only_sign = refl

-- 255 in radix 16, with the leading 0.
zero_ff : ul_to_a 255 4 16 ≡ (48 ∷ 70 ∷ 70 ∷ 0 ∷ [], 3)
unfolding ul_to_a ul_to_a_rev rev_digits copy_len
zero_ff = refl

-- When the room is just enough for the digits, the leading 0 takes the place of the last one.
lost_digit : ul_to_a 255 3 16 ≡ (48 ∷ 70 ∷ 0 ∷ [], 2)
unfolding ul_to_a ul_to_a_rev rev_digits copy_len
lost_digit = refl

to_il-il_to_a_example :
    to_il (il_to_a 0xFFFF_FFFF_FFFF_FFF4 70 10).0 10 ≡ (0xFFFF_FFFF_FFFF_FFF4, 0 ∷ [])
to_il-il_to_a_example =
    to_il-il_to_a 0xFFFF_FFFF_FFFF_FFF4 70 10 (omega arith) (omega arith) (omega arith)
      (λ e. absurd (omega (arith, e))) (omega arith)
