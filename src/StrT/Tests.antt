-- ===== src/StrT/Tests.antt =====
-- Runs of the string functions, and their theorems at short strings.
use gray_core.Base.{ℕ, ◌≡◌, refl, true, false, none, some, List, [], ◌∷◌, map, arith}
use gray_core.Base.Int.{pos, negsuc, ◌+ℤ◌, ◌-ℤ◌}
use gray_core.StrChar.{to_lower_w, cmp_i_char}
use gray_core.Sorted.Laws.{SortLaws}
use gray_core.StrT.{
  IsText, cmp, cmp_i, starts_with_i, ends_with_i, cmp_head_i, table_find, is_table_sorted, sign,
}
use gray_core.StrT.Compare.{lexicographic, cmp-lexicographic}
use gray_core.StrT.Order.{texts, texts-SortLaws}
use gray_core.StrT.Search.{find_char_rev, has_char}
use gray_core.StrT.Find.{
  find_str_n, find_str_ni, find_str_n-FoundFirst, FoundFirst, same_char, same_char_i,
}
use gray_core.StrT.Match.{k_str_len_unk, match_reg_ex, match_reg_ex-Decided, Decided, star}

abbrev banana : List ℕ
banana = b'b' ∷ b'a' ∷ b'n' ∷ b'a' ∷ b'n' ∷ b'a' ∷ []

abbrev nana : List ℕ
nana = b'n' ∷ b'A' ∷ b'n' ∷ b'a' ∷ []

banana-IsText : IsText banana
banana-IsText = omega arith

nana-IsText : IsText nana
nana-IsText = omega arith

cmp-lexicographic_example :
    (sign (cmp (some banana) (some nana)) ≡ lexicographic banana nana)
    × (sign (cmp_i (some banana) (some nana))
        ≡ lexicographic (map to_lower_w banana) (map to_lower_w nana))
cmp-lexicographic_example = cmp-lexicographic banana nana banana-IsText nana-IsText

texts-SortLaws_example : SortLaws (texts (λ a b. true))
texts-SortLaws_example = texts-SortLaws (λ a b. true)

find_str_n-FoundFirst_example :
    FoundFirst same_char banana nana 6 (find_str_n banana nana 6)
    × FoundFirst same_char_i banana nana 6 (find_str_ni banana nana 6)
find_str_n-FoundFirst_example =
    find_str_n-FoundFirst banana nana 6 banana-IsText nana-IsText (omega arith)

abbrev pattern_n : List ℕ
pattern_n = b'?' ∷ star ∷ b'n' ∷ b'A' ∷ []

match_reg_ex-Decided_example :
    Decided true pattern_n 0 banana (match_reg_ex banana pattern_n true k_str_len_unk)
match_reg_ex-Decided_example = match_reg_ex-Decided banana pattern_n true k_str_len_unk refl

matched : match_reg_ex banana pattern_n true k_str_len_unk ≡ pos 6
unfolding match_reg_ex cmp_i_char to_lower_w ◌-ℤ◌ ◌+ℤ◌
matched = refl

not_matched : match_reg_ex banana pattern_n false k_str_len_unk ≡ pos 0
unfolding match_reg_ex ◌-ℤ◌ ◌+ℤ◌
not_matched = refl

-- The text may run out of the limit before the pattern is complete.
partial : match_reg_ex banana (b'b' ∷ b'a' ∷ b'n' ∷ []) false (pos 2) ≡ negsuc 1
unfolding match_reg_ex ◌-ℤ◌ ◌+ℤ◌
partial = refl

-- With a limit a complete pattern matches a part of the text.
text_left : match_reg_ex banana (b'b' ∷ b'?' ∷ []) false (pos 4) ≡ pos 2
unfolding match_reg_ex ◌-ℤ◌ ◌+ℤ◌
text_left = refl

-- What follows a `*` is looked for behind the limit.
past_the_limit : match_reg_ex (b'a' ∷ b'b' ∷ b'c' ∷ []) (star ∷ b'c' ∷ []) false (pos 1) ≡ pos 3
unfolding match_reg_ex ◌-ℤ◌ ◌+ℤ◌
past_the_limit = refl

found_without_case : find_str_ni banana nana 6 ≡ some (some 2)
unfolding find_str_ni cmp_i_char to_lower_w ◌-ℤ◌
found_without_case = refl

-- The limit cuts the text off.
not_found : find_str_ni banana nana 5 ≡ some none
unfolding find_str_ni cmp_i_char to_lower_w ◌-ℤ◌
not_found = refl

-- The character 0 ends every string, and is found in it.
has_end : has_char banana 0 ≡ true
unfolding has_char
has_end = refl

-- The first character is not looked at from behind.
not_first : find_char_rev banana b'b' ≡ none
unfolding find_char_rev
not_first = refl

last_a : find_char_rev banana b'a' ≡ some 5
unfolding find_char_rev
last_a = refl

ends : ends_with_i (some banana) (some nana) ≡ true
unfolding ends_with_i cmp_i_char to_lower_w ◌-ℤ◌
ends = refl

starts : starts_with_i banana (b'B' ∷ b'A' ∷ []) ≡ true
unfolding starts_with_i cmp_i_char to_lower_w ◌-ℤ◌
starts = refl

-- Symbols end at the first other character.
same_head : cmp_head_i (b'N' ∷ b'=' ∷ []) (b'n' ∷ []) ≡ pos 0
unfolding cmp_head_i cmp_i_char to_lower_w ◌-ℤ◌
same_head = refl

in_table : table_find nana (banana ∷ nana ∷ []) ≡ some 1
unfolding table_find cmp_i_char to_lower_w ◌-ℤ◌
in_table = refl

sorted_table : is_table_sorted (banana ∷ nana ∷ []) ≡ true
unfolding is_table_sorted cmp_i_char to_lower_w ◌-ℤ◌
sorted_table = refl
