-- ===== src/Utf8/Tests.antt =====
-- Characters of every size.
use gray_core.Base.{◌≡◌, refl, arith, some, none, [], ◌∷◌, ◌++◌}
use gray_core.Utf8.{
  utf8_size_char, utf8_size_char1, unicode_to_utf8_char, utf8_to_unicode_char, trailing,
}
use gray_core.Utf8.Chars.{utf8_to_unicode_char-unicode_to_utf8_char}

euro_bytes : unicode_to_utf8_char 4 0x20AC ≡ 0xE2 ∷ 0x82 ∷ 0xAC ∷ []
unfolding unicode_to_utf8_char utf8_size_char trailing
euro_bytes = refl

-- A byte that continues nothing is refused, and so is a character cut short.
broken : utf8_to_unicode_char 16 (0x82 ∷ []) ≡ none
unfolding utf8_to_unicode_char utf8_size_char1
broken = refl

cut_short : utf8_to_unicode_char 16 (0xE2 ∷ 0x82 ∷ []) ≡ none
unfolding utf8_to_unicode_char utf8_size_char1
cut_short = refl

utf8_to_unicode_char-unicode_to_utf8_char_example :
    utf8_to_unicode_char 16 (unicode_to_utf8_char 4 0x20AC ++ 65 ∷ [])
    ≡ some (0x20AC, utf8_size_char 0x20AC)
utf8_to_unicode_char-unicode_to_utf8_char_example =
    utf8_to_unicode_char-unicode_to_utf8_char 16 4 0x20AC (65 ∷ []) (omega arith) (omega arith)
      (unfold utf8_size_char in omega arith)
