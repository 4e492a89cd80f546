-- ===== src/StrChar/Tests.antt =====
-- Characters at which case and digits go one way or the other.
use gray_core.Base.{◌≡◌, refl, true, false}
use gray_core.Base.Int.{negsuc, ◌-ℤ◌}
use gray_core.StrChar.{to_upper_w, to_lower_w, cmp_i_char, is_vowel, is_digit_radix}

upper_a : to_upper_w b'q' ≡ b'Q'
unfolding to_upper_w
upper_a = refl

-- The pairs above 0xFF: an odd character is lower case, and its upper case is taken to be the next.
upper_pair : to_upper_w 0x101 ≡ 0x102
unfolding to_upper_w
upper_pair = refl

-- The lower case of the first upper case character of the set is in another set.
lower_first : to_lower_w 0x100 ≡ 0xFF
unfolding to_lower_w
lower_first = refl

differ_by_case : cmp_i_char b'a' b'B' ≡ negsuc 0
unfolding cmp_i_char to_lower_w ◌-ℤ◌
differ_by_case = refl

vowel : is_vowel b'E' ≡ true
unfolding is_vowel
vowel = refl

digit : is_digit_radix b'G' 16 ≡ false
unfolding is_digit_radix
digit = refl
