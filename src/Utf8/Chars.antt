-- ===== src/Utf8/Chars.antt =====
-- Encoding a character and decoding it again.
use Prim.Native.Nat.{bit_or}
use native.Mathlib.Nat.{mod-eq_of_lt}
use gray_core.Base.{
  ℕ, suc, ◌+◌, ◌*◌, ◌/◌, ◌%◌, ◌^◌, ◌≤◌, ◌<◌, ◌≡◌, ◌∙◌, refl, ap, ap₂, some, List, [], ◌∷◌, ◌++◌,
  length, ltb, Bool-cases, inl, inr, lt→ltb, le→ltb_false, arith, tests,
}
use gray_core.Base.Bits.{bit_or-high-low}
use gray_core.Utf8.{
  utf8_size_char, utf8_size_char1, trailing, unicode_to_utf8_char, collect, utf8_to_unicode_char,
}

next_byte : (n : ℕ) → bit_or 0x80 (n % 64) ≡ 128 + n % 64
next_byte n = bit_or-high-low 6 2 (n % 64) (omega arith)

encode_2 :
    (room n : ℕ)
    → 0x80 ≤ n
    → n < 0x800
    → 2 ≤ room
    → unicode_to_utf8_char room n ≡ (192 + n / 64) ∷ (128 + n % 64) ∷ []
unfolding unicode_to_utf8_char utf8_size_char trailing
encode_2 room n lo hi fits =
    rw (le→ltb_false n 0x80 lo, lt→ltb n 0x800 hi, le→ltb_false room 2 fits)
      (ap₂ (λ a b. a ∷ b ∷ []) first (next_byte n))
  where
    first : bit_or 0x1fc0 (n / 64) % 256 ≡ 192 + n / 64
    first = omega (arith, bit_or-high-low 5 254 (n / 64) (omega arith))

encode_3 :
    (room n : ℕ)
    → 0x800 ≤ n
    → n < 0x1_0000
    → 3 ≤ room
    → unicode_to_utf8_char room n ≡ (224 + n / 4096) ∷ (128 + n / 64 % 64) ∷ (128 + n % 64) ∷ []
unfolding unicode_to_utf8_char utf8_size_char trailing
encode_3 room n lo hi fits =
    rw
      (
        le→ltb_false n 0x80 (omega arith),
        le→ltb_false n 0x800 lo,
        lt→ltb n 0x1_0000 hi,
        le→ltb_false room 3 fits,
        next_byte n,
        next_byte (n / 64),
      )
      (ap (λ a. a ∷ (128 + n / 64 % 64) ∷ (128 + n % 64) ∷ []) first)
  where
    first : bit_or 0xfe0 (n / 64 / 64) % 256 ≡ 224 + n / 4096
    first = omega (arith, bit_or-high-low 4 254 (n / 64 / 64) (omega arith))

encode_4 :
    (room n : ℕ)
    → 0x1_0000 ≤ n
    → n < 0x20_0000
    → 4 ≤ room
    → unicode_to_utf8_char room n
      ≡ (240 + n / 262144) ∷ (128 + n / 4096 % 64) ∷ (128 + n / 64 % 64) ∷ (128 + n % 64) ∷ []
unfolding unicode_to_utf8_char utf8_size_char trailing
encode_4 room n lo hi fits =
    rw
      (
        le→ltb_false n 0x80 (omega arith),
        le→ltb_false n 0x800 (omega arith),
        le→ltb_false n 0x1_0000 lo,
        lt→ltb n 0x20_0000 hi,
        le→ltb_false room 4 fits,
        next_byte n,
        next_byte (n / 64),
        next_byte (n / 64 / 64),
      )
      (ap₂ (λ a b. a ∷ (128 + b) ∷ (128 + n / 64 % 64) ∷ (128 + n % 64) ∷ []) first second)
  where
    first : bit_or 0x7f0 (n / 64 / 64 / 64) % 256 ≡ 240 + n / 262144
    first = omega (arith, bit_or-high-low 3 254 (n / 64 / 64 / 64) (omega arith))

    second : n / 64 / 64 % 64 ≡ n / 4096 % 64
    second = omega arith

-- Six more bits, when the result fits into `wchar_t`.
shift_in :
    (w a b : ℕ)
    → b < 64
    → a * 64 + b < 2 ^ w
    → bit_or (a * 64 % 2 ^ w) ((128 + b) % 64) ≡ a * 64 + b
shift_in w a b small fits =
    ap₂ bit_or (mod-eq_of_lt (omega (arith, fits))) (low) ∙ bit_or-high-low 6 a b small
  where
    low : (128 + b) % 64 ≡ b
    low = omega arith

decode_2 :
    (w a b : ℕ) (rest : List ℕ)
    → a < 32
    → b < 64
    → a * 64 + b < 2 ^ w
    → utf8_to_unicode_char w ((192 + a) ∷ (128 + b) ∷ rest) ≡ some (a * 64 + b, 2)
unfolding utf8_to_unicode_char utf8_size_char1 collect
decode_2 w a b rest ha hb fits =
    rw
      (
        utf8_to_unicode_char,
        utf8_size_char1,
        le→ltb_false (192 + a) 0x80 (omega arith),
        lead,
        le→ltb_false (suc (suc (length rest))) 2 (omega arith),
        low,
        shift_in w a b hb fits,
      )
      refl
  where
    lead : (192 + a) / 32 ≡ 6
    lead = omega arith

    low : (192 + a) % 32 ≡ a
    low = omega arith

decode_3 :
    (w a b c : ℕ) (rest : List ℕ)
    → a < 16
    → b < 64
    → c < 64
    → (a * 64 + b) * 64 + c < 2 ^ w
    → utf8_to_unicode_char w ((224 + a) ∷ (128 + b) ∷ (128 + c) ∷ rest)
      ≡ some ((a * 64 + b) * 64 + c, 3)
unfolding utf8_to_unicode_char utf8_size_char1 collect
decode_3 w a b c rest ha hb hc fits =
    rw
      (
        utf8_to_unicode_char,
        utf8_size_char1,
        le→ltb_false (224 + a) 0x80 (omega arith),
        not_2,
        lead,
        le→ltb_false (suc (suc (suc (length rest)))) 3 (omega arith),
        low,
        shift_in w a b hb (omega (arith, fits)),
        shift_in w (a * 64 + b) c hc fits,
      )
      refl
  where
    not_2 : (224 + a) / 32 ≡ 7
    not_2 = omega arith

    lead : (224 + a) / 16 ≡ 14
    lead = omega arith

    low : (224 + a) % 16 ≡ a
    low = omega arith

decode_4 :
    (w a b c d : ℕ) (rest : List ℕ)
    → a < 8
    → b < 64
    → c < 64
    → d < 64
    → ((a * 64 + b) * 64 + c) * 64 + d < 2 ^ w
    → utf8_to_unicode_char w ((240 + a) ∷ (128 + b) ∷ (128 + c) ∷ (128 + d) ∷ rest)
      ≡ some (((a * 64 + b) * 64 + c) * 64 + d, 4)
unfolding utf8_to_unicode_char utf8_size_char1 collect
decode_4 w a b c d rest ha hb hc hd fits =
    rw
      (
        utf8_to_unicode_char,
        utf8_size_char1,
        le→ltb_false (240 + a) 0x80 (omega arith),
        not_2,
        not_3,
        lead,
        le→ltb_false (suc (suc (suc (suc (length rest))))) 4 (omega arith),
        low,
        shift_in w a b hb (omega (arith, fits)),
        shift_in w (a * 64 + b) c hc (omega (arith, fits)),
        shift_in w ((a * 64 + b) * 64 + c) d hd fits,
      )
      refl
  where
    not_2 : (240 + a) / 32 ≡ 7
    not_2 = omega arith

    not_3 : (240 + a) / 16 ≡ 15
    not_3 = omega arith

    lead : (240 + a) / 8 ≡ 30
    lead = omega arith

    low : (240 + a) % 8 ≡ a
    low = omega arith

abbrev RoundTrip : ℕ → ℕ → ℕ → List ℕ → Type 0
RoundTrip w room n rest =
    utf8_to_unicode_char w (unicode_to_utf8_char room n ++ rest) ≡ some (n, utf8_size_char n)

trip_1 : (w room n : ℕ) (rest : List ℕ) → n < 0x80 → RoundTrip w room n rest
unfolding unicode_to_utf8_char utf8_to_unicode_char utf8_size_char utf8_size_char1
trip_1 w room n rest hi =
    rw (unicode_to_utf8_char, utf8_size_char, lt→ltb n 0x80 hi, byte)
      (rw (utf8_to_unicode_char, utf8_size_char1, lt→ltb n 0x80 hi) refl)
  where
    byte : n % 256 ≡ n
    byte = omega arith

trip_2 :
    (w room n : ℕ) (rest : List ℕ)
    → n < 2 ^ w
    → 0x80 ≤ n
    → n < 0x800
    → utf8_size_char n ≤ room
    → RoundTrip w room n rest
trip_2 w room n rest fits lo hi enough =
    rw (encode_2 room n lo hi (omega (arith, size, enough)), size)
      (decode_2 w (n / 64) (n % 64) rest (omega arith) (omega arith) (omega (arith, fits))
        ∙ ap (λ v. some (v, 2)) whole)
  where
    size : utf8_size_char n ≡ 2
    size = unfold utf8_size_char in ground arith

    whole : n / 64 * 64 + n % 64 ≡ n
    whole = omega arith

trip_3 :
    (w room n : ℕ) (rest : List ℕ)
    → n < 2 ^ w
    → 0x800 ≤ n
    → n < 0x1_0000
    → utf8_size_char n ≤ room
    → RoundTrip w room n rest
trip_3 w room n rest fits lo hi enough =
    rw (encode_3 room n lo hi (omega (arith, size, enough)), size)
      (decode_3 w (n / 4096) (n / 64 % 64) (n % 64) rest (omega arith) (omega arith) (omega arith)
          (omega (arith, fits))
        ∙ ap (λ v. some (v, 3)) whole)
  where
    size : utf8_size_char n ≡ 3
    size = unfold utf8_size_char in ground arith

    whole : (n / 4096 * 64 + n / 64 % 64) * 64 + n % 64 ≡ n
    whole = omega arith

trip_4 :
    (w room n : ℕ) (rest : List ℕ)
    → n < 2 ^ w
    → 0x1_0000 ≤ n
    → n < 0x20_0000
    → utf8_size_char n ≤ room
    → RoundTrip w room n rest
trip_4 w room n rest fits lo hi enough =
    rw (encode_4 room n lo hi (omega (arith, size, enough)), size)
      (decode_4 w (n / 262144) (n / 4096 % 64) (n / 64 % 64) (n % 64) rest (omega arith)
          (omega arith) (omega arith) (omega arith) (omega (arith, fits))
        ∙ ap (λ v. some (v, 4)) whole)
  where
    size : utf8_size_char n ≡ 4
    size = unfold utf8_size_char in ground arith

    whole : ((n / 262144 * 64 + n / 4096 % 64) * 64 + n / 64 % 64) * 64 + n % 64 ≡ n
    whole = omega arith

-- UTF8toUNICODEChar undoes UNICODEtoUTF8Char, whatever follows, for every character below 2^21
-- that `wchar_t` holds and that has room, and uses as many bytes as UTF8SizeChar says.
pub utf8_to_unicode_char-unicode_to_utf8_char :
    (w room n : ℕ) (rest : List ℕ)
    → n < 2 ^ w
    → n < 0x20_0000
    → utf8_size_char n ≤ room
    → utf8_to_unicode_char w (unicode_to_utf8_char room n ++ rest) ≡ some (n, utf8_size_char n)
utf8_to_unicode_char-unicode_to_utf8_char w room n rest fits high enough =
    elim (Bool-cases (ltb n 0x80)) [
      | inl one ↦ trip_1 w room n rest (omega (tests, one))
      | inr more ↦ elim (Bool-cases (ltb n 0x800)) [
        | inl two ↦ trip_2 w room n rest fits (omega (tests, more)) (omega (tests, two)) enough
        | inr more2 ↦ elim (Bool-cases (ltb n 0x1_0000)) [
          | inl three ↦
              trip_3 w room n rest fits (omega (tests, more2)) (omega (tests, three)) enough
          | inr four ↦ trip_4 w room n rest fits (omega (tests, four)) high enough
        ]
      ]
    ]
