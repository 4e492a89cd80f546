-- ===== src/StrChar.antt =====
-- include/StrChar.h and src/StrChar.cpp: the kinds of characters, case and digits. A character is a
-- `wchar_t`, as a number.
pub mod Case
pub mod Digits
mod Tests
use gray_core.Base.{
  ℕ, ◌+◌, ◌-◌, ◌%◌, Bool, true, false, ◌&&◌, ◌||◌, ltb, leb, ◌==◌, if◌then◌else◌, List, [], ◌∷◌,
}
use gray_core.Base.Int.{ℤ, pos, ◌-ℤ◌}
use gray_core.StrNum.{radix2u}

abbrev pub is_ascii : ℕ → Bool
is_ascii ch = leb ch 127

abbrev pub is_print_a : ℕ → Bool
is_print_a ch = leb 32 ch && ltb ch 127

abbrev pub is_space : ℕ → Bool
is_space ch = ch == 9 || ch == 32

abbrev pub is_nl : ℕ → Bool
is_nl ch = ch == 10 || ch == 13

abbrev pub is_space_x : ℕ → Bool
is_space_x ch = ch == 32 || (leb 8 ch && leb ch 13)

abbrev pub is_digit_a : ℕ → Bool
is_digit_a ch = leb 48 ch && leb ch 57

abbrev pub is_upper_a : ℕ → Bool
is_upper_a ch = leb 65 ch && leb ch 90

abbrev pub is_lower_a : ℕ → Bool
is_lower_a ch = leb 97 ch && leb ch 122

abbrev pub is_alpha_a : ℕ → Bool
is_alpha_a ch = is_upper_a ch || is_lower_a ch

abbrev pub is_al_num : ℕ → Bool
is_al_num ch = is_alpha_a ch || is_digit_a ch

abbrev pub is_c_sym_f : ℕ → Bool
is_c_sym_f ch = is_alpha_a ch || ch == 95

abbrev pub is_c_sym : ℕ → Bool
is_c_sym ch = (is_alpha_a ch || ch == 95) || is_digit_a ch

abbrev pub is_reg_ex : ℕ → Bool
is_reg_ex ch = ch == 63 || ch == 42

abbrev pub is_upper_ax_set : ℕ → Bool
is_upper_ax_set ch = leb 0xC0 ch && leb ch 0xDF

abbrev pub is_lower_ax_set : ℕ → Bool
is_lower_ax_set ch = leb 0xE0 ch && leb ch 0xFF

abbrev pub is_alpha_u_set : ℕ → Bool
is_alpha_u_set ch = leb 0x100 ch && leb ch 0x1FF

abbrev pub is_upper_u_set : ℕ → Bool
is_upper_u_set ch = is_alpha_u_set ch && ch % 2 == 0

abbrev pub is_lower_u_set : ℕ → Bool
is_lower_u_set ch = is_alpha_u_set ch && ch % 2 == 1

abbrev pub is_upper : ℕ → Bool
is_upper ch = if is_ascii ch then is_upper_a ch else is_upper_ax_set ch || is_upper_u_set ch

abbrev pub is_lower : ℕ → Bool
is_lower ch = if is_ascii ch then is_lower_a ch else is_lower_ax_set ch || is_lower_u_set ch

abbrev pub is_alpha : ℕ → Bool
is_alpha ch =
    ((is_lower_a ch || is_lower_ax_set ch) || (is_upper_a ch || is_upper_ax_set ch))
    || is_alpha_u_set ch

unfoldable pub to_upper_a : ℕ → ℕ
to_upper_a ch = if is_lower_a ch then ch - 97 + 65 else ch

unfoldable pub to_lower_a : ℕ → ℕ
to_lower_a ch = if is_upper_a ch then ch - 65 + 97 else ch

unfoldable pub to_upper_w : ℕ → ℕ
to_upper_w ch =
    if is_ascii ch
    then if is_lower_a ch then ch - 97 + 65 else ch
    else if is_lower_ax_set ch
    then ch - 0xE0 + 0xC0
    else if is_lower_u_set ch
    then ch + 1
    else ch

unfoldable pub to_lower_w : ℕ → ℕ
to_lower_w ch =
    if is_ascii ch
    then if is_upper_a ch then ch - 65 + 97 else ch
    else if is_upper_ax_set ch
    then ch - 0xC0 + 0xE0
    else if is_upper_u_set ch
    then ch - 1
    else ch

-- CmpI of two characters.
unfoldable pub cmp_i_char : ℕ → ℕ → ℤ
cmp_i_char a b = if a == b then pos 0 else pos (to_lower_w a) -ℤ pos (to_lower_w b)

abbrev any_equal : ℕ → List ℕ → Bool
any_equal ch [] = false
any_equal ch (x ∷ xs) = ch == x || any_equal ch xs

unfoldable pub is_vowel : ℕ → Bool
unfolding to_lower_w
is_vowel ch = any_equal (to_lower_w ch) (97 ∷ 101 ∷ 105 ∷ 111 ∷ 117 ∷ [])

unfoldable pub is_digit_radix : ℕ → ℕ → Bool
unfolding radix2u
is_digit_radix ch radix = ltb (radix2u ch) radix

-- `'?'` for a value that is no digit.
unfoldable pub u2_radix : ℕ → ℕ → ℕ
u2_radix val radix = if leb radix val then 63 else if ltb val 10 then 48 + val else 65 + val - 10

-- The radix for a character that is no digit of it.
unfoldable pub radix_to_u : ℕ → ℕ → ℕ
unfolding radix2u
radix_to_u ch radix = let val = radix2u ch in if leb radix val then radix else val

unfoldable pub u2_hex : ℕ → ℕ
u2_hex val = if leb val 9 then 48 + val else if leb val 15 then 65 + val - 10 else 63

unfoldable pub hex2_u : ℕ → ℕ
hex2_u ch =
    if is_digit_a ch
    then ch - 48
    else if leb 65 ch && leb ch 70
    then ch - 65 + 10
    else if leb 97 ch && leb ch 102
    then ch - 97 + 10
    else 0x10
