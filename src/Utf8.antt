-- ===== src/Utf8.antt =====
-- include/StrU.h and src/StrU.cpp: one character between UNICODE and UTF-8. A byte is a number
-- below 256 and `wchar_t` has `w` bits (16 on Windows, 32 elsewhere). A mask of the low bits is
-- written `%`, a shift `*` or `/`, and a test of the high bits of a byte is one of its quotient.
-- The functions on whole strings are not here yet.
pub mod Chars
mod Tests
use Prim.Native.Nat.{bit_or}
use gray_core.Base.{
  ℕ, zero, suc, ◌+◌, ◌-◌, ◌*◌, ◌/◌, ◌%◌, ◌^◌, Option, none, some, List, [], ◌∷◌, length, ltb, leb,
  ◌==◌, if◌then◌else◌,
}

-- The bytes that a character takes.
pub utf8_size_char : ℕ → ℕ
utf8_size_char n =
    if ltb n 0x80
    then 1
    else if ltb n (2 ^ 11)
    then 2
    else if ltb n (2 ^ 16)
    then 3
    else if ltb n (2 ^ 21)
    then 4
    else if ltb n 0x400_0000
    then 5
    else if ltb n 0x8000_0000
    then 6
    else 7

abbrev pub utf8_start_bits : ℕ → ℕ
utf8_start_bits size = if leb size 1 then 0 else 7 - size

-- The size that a first byte announces, `none` for an invalid one.
pub utf8_size_char1 : ℕ → Option ℕ
utf8_size_char1 first =
    if ltb first 0x80
    then some 1
    else if first / 32 == 6
    then some 2
    else if first / 16 == 14
    then some 3
    else if first / 8 == 30
    then some 4
    else none

-- The loop that fills the bytes after the first from the last one, and what is left for the first.
unfoldable pub trailing : ℕ → ℕ → List ℕ → List ℕ × ℕ
trailing zero n bytes = (bytes, n)
trailing (suc k) n bytes = trailing k (n / 64) (bit_or 0x80 (n % 64) ∷ bytes)

-- UNICODEtoUTF8Char: the bytes written, none when it fails.
pub unicode_to_utf8_char : ℕ → ℕ → List ℕ
unicode_to_utf8_char room n =
    let size = utf8_size_char n in
    if size == 1
    then n % 256 ∷ []
    else if ltb room size
    then []
    else (let (bytes, left) = trailing (size - 1) n [] in
        bit_or (0xfe * 2 ^ utf8_start_bits size) left % 256 ∷ bytes)

-- The loop that takes six bits from each byte after the first.
unfoldable pub collect : ℕ → ℕ → ℕ → List ℕ → ℕ
collect w zero n bytes = n
collect w (suc k) n [] = n
collect w (suc k) n (b ∷ bytes) = collect w k (bit_or (n * 64 % 2 ^ w) (b % 64)) bytes

-- UTF8toUNICODEChar: the character and the bytes used, `none` when it fails.
pub utf8_to_unicode_char : ℕ → List ℕ → Option (ℕ × ℕ)
utf8_to_unicode_char w [] = none
utf8_to_unicode_char w (first ∷ bytes) = elim (utf8_size_char1 first) [
  | none ↦ none
  | some size ↦
      if size == 1
      then some (first, 1)
      else if ltb (length (first ∷ bytes)) size
      then none
      else some (collect w (size - 1) (first % 2 ^ utf8_start_bits size) bytes, size)
]
