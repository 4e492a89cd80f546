-- ===== src/StrNum.antt =====
-- include/StrNum.h, src/StrNum.cpp and the digits of include/StrChar.h: numbers as text in a radix
-- from 2 to 36. A string is the list of its characters, and `char_at` reads a 0 past its end; what
-- is written into a buffer has its final 0 in the list. Floating point is not here.
pub mod Digits
pub mod Signed
mod Tests
use gray_core.Base.{
  ◌++◌, take, length, min, not, ℕ, zero, suc, ◌+◌, ◌-◌, ◌*◌, ◌/◌, ◌%◌, ◌^◌, Bool, true, false, ◌&&◌,
  ◌||◌, List, [], ◌∷◌, ltb, leb, ◌==◌, if◌then◌else◌,
}

abbrev pub char_at : List ℕ → ℕ
char_at [] = 0
char_at (c ∷ cs) = c

abbrev pub tail : List ℕ → List ℕ
tail [] = []
tail (c ∷ cs) = cs

-- The value of a digit, 37 for any other character.
unfoldable pub radix2u : ℕ → ℕ
radix2u c =
    if leb 48 c && leb c 57
    then c - 48
    else if leb 65 c && leb c 90
    then c - 65 + 10
    else if leb 97 c && leb c 122
    then c - 97 + 10
    else 37

abbrev u64 : ℕ
u64 = 0x1_0000_0000_0000_0000

-- The digit of a value, as ULtoARev writes it, with the letter that stands for 10.
abbrev pub digit_char : ℕ → ℕ → ℕ
digit_char radix_a d = if ltb d 10 then d + 48 else d + (radix_a - 10)

-- The loop of ULtoARev: digits are put in front of those written, as long as there is room.
unfoldable pub rev_digits : ℕ → ℕ → ℕ → ℕ → List ℕ → List ℕ
rev_digits radix radix_a zero n written = written
rev_digits radix radix_a (suc room) n written = elim (n / radix == 0) [
  | true ↦ digit_char radix_a (n % radix) ∷ written
  | false ↦ rev_digits radix radix_a room (n / radix) (digit_char radix_a (n % radix) ∷ written)
]

pub ul_to_a_rev : ℕ → ℕ → ℕ → ℕ → List ℕ
ul_to_a_rev n room radix radix_a = rev_digits (if ltb radix 2 then 10 else radix) radix_a room n []

-- GetNonWhitespace.
unfoldable pub skip_spaces : List ℕ → List ℕ
skip_spaces [] = []
skip_spaces (c ∷ cs) = let rest = skip_spaces cs in if c == 9 || c == 32 then rest else c ∷ cs

-- The loop of toUL: the value, and what follows the digits.
unfoldable pub to_ul_loop : ℕ → ℕ → List ℕ → ℕ × List ℕ
to_ul_loop radix n [] = (n, [])
to_ul_loop radix n (c ∷ cs) = elim (leb radix (radix2u c)) [
  | true ↦ (n, c ∷ cs)
  | false ↦ to_ul_loop radix ((n * radix % u64 + radix2u c) % u64) cs
]

-- The prefix of hexadecimal numbers; a radix below 2 allows it to be `0` alone.
abbrev pub after_prefix : Bool → ℕ → List ℕ → ℕ × List ℕ
after_prefix flexible radix s =
    if char_at s == 48
    then (if char_at (tail s) == 88 || char_at (tail s) == 120
        then (16, tail (tail s))
        else if flexible
        then (16, tail s)
        else (radix, s))
    else (radix, s)

pub to_ul : List ℕ → ℕ → ℕ × List ℕ
to_ul s radix =
    let flexible = ltb radix 2 in
    let (base, digits) = after_prefix flexible (if flexible then 10 else radix) (skip_spaces s) in
    to_ul_loop base 0 digits

-- CopyLen between buffers that do not overlap: what is written, with the final 0.
unfoldable pub copy_len : ℕ → List ℕ → List ℕ
copy_len zero s = []
copy_len (suc room) s = take room s ++ 0 ∷ []

-- The length that CopyLen returns.
abbrev pub copied : ℕ → List ℕ → ℕ
copied room s = length (take (room - 1) s)

-- The negation of a two's complement word. Of the least number, whose word is 2 ^ 63, C++ leaves it
-- undefined, and this says nothing of the code.
abbrev pub neg64 : ℕ → ℕ
neg64 n = (u64 - n) % u64

-- toIL: the word, and what follows the digits.
unfoldable pub to_il : List ℕ → ℕ → ℕ × List ℕ
to_il s radix =
    let t = skip_spaces s in
    if char_at t == 45
    then (neg64 (to_ul (tail t) radix).0, (to_ul (tail t) radix).1)
    else to_ul t radix

-- ULtoA: what is written, and the length that is returned.
unfoldable pub ul_to_a : ℕ → ℕ → ℕ → List ℕ × ℕ
ul_to_a n room radix =
    let digits = ul_to_a_rev n 65 radix 65 in
    let most = min room 65 in
    let all =
      if radix == 16 && not (n == 0) && ltb (length digits) most then 48 ∷ digits else digits in
    (copy_len most all, copied most all)

-- ILtoA: what is written, and the length that is returned, which leaves out the sign.
unfoldable pub il_to_a : ℕ → ℕ → ℕ → List ℕ × ℕ
il_to_a n zero radix = ([], 0)
il_to_a n (suc room) radix =
    if leb 0x8000_0000_0000_0000 n
    then (
      45 ∷ copy_len room (ul_to_a_rev (neg64 n) 65 radix 65),
      copied room (ul_to_a_rev (neg64 n) 65 radix 65),
    )
    else (
      copy_len (suc room) (ul_to_a_rev n 65 radix 65),
      copied (suc room) (ul_to_a_rev n 65 radix 65),
    )
