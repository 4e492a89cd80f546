-- ===== src/Streams/Sizes.antt =====
-- WriteSize and ReadSize.
use Prim.Native.Nat.{bit_and, bit_or}
use gray_core.Base.{
  ℕ, zero, suc, ◌+◌, ◌*◌, ◌/◌, ◌%◌, ◌^◌, ◌≤◌, ◌<◌, ◌≡◌, refl, sym, ap, ◌∙◌, inl, inr, true, false,
  Bool-cases, List, [], ◌∷◌, ◌++◌, length, take, drop, ltb, ◌==◌, if◌then◌else◌, arith, tests,
}
use native.Mathlib.Nat.{pow-suc, mod-eq_of_lt, add-mul, mul_assoc, mul-le-mul_right}
use mathlib.Core.List.{append_assoc}
use mathlib.Core.Path.{subst}
use gray_core.Base.Bits.{pow-add, bit_or-low-high, bit_and-low, bit_and-bit}
use gray_core.Streams.{
  Stream, HResult, success, failed, u64, write_span, read_span, write_size_loop, write_size,
  read_size_loop, read_size, first_byte,
}
use gray_core.Streams.Laws.{StreamLaws, write_span-held, read_span-held}

-- The packed bytes of a size below 128 ^ (turns + 1).
unfoldable pub packed : ℕ → ℕ → List ℕ
packed zero n = n ∷ []
packed (suc turns) n =
    let high = packed turns (n / 128) in if ltb n 128 then n ∷ [] else (n % 128 + 128) ∷ high

-- Bytes of the source in plain arithmetic.
low_bits : (n : ℕ) → bit_and (n % 256) 0x7F ≡ n % 128
low_bits n = bit_and-low 7 (n % 256) ∙ omega arith

marked : (n : ℕ) → bit_or (bit_and (n % 256) 0x7F) 0x80 ≡ n % 128 + 128
marked n = ap (λ t. bit_or t 0x80) (low_bits n) ∙ bit_or-low-high 7 (n % 128) 1 (omega arith)

low_of_mark : (n : ℕ) → bit_and (n % 128 + 128) 0x7F ≡ n % 128
low_of_mark n = bit_and-low 7 (n % 128 + 128) ∙ omega arith

mark_set : (n : ℕ) → (bit_and (n % 128 + 128) 0x80 == 0) ≡ false
mark_set n = ground (arith, bit_and-bit 7 (n % 128 + 128))

low_of_last : (n : ℕ) → n < 128 → bit_and n 0x7F ≡ n
low_of_last n h = bit_and-low 7 n ∙ omega (arith, h)

mark_clear : (n : ℕ) → n < 128 → (bit_and n 0x80 == 0) ≡ true
mark_clear n h = ground (arith, bit_and-bit 7 n)

length-packed : (turns n : ℕ) → length (packed turns n) ≤ turns + 1
unfolding packed
length-packed zero n = omega arith
length-packed (suc turns) n = ground (arith, length-packed turns (n / 128))

packed-byte : (turns n : ℕ) → n < 128 → packed turns n ≡ n ∷ []
unfolding packed
packed-byte zero n h = refl
packed-byte (suc turns) n h = ground arith

module _ {S : Type 0} (stream : Stream S) (laws : StreamLaws stream) where
  open laws use {InOrder, held, room}

  -- A stream that a size was written to.
  pub record Sized (n turns : ℕ) (s : S) (outcome : HResult × S) : Type 0 where
    pub after : S
    pub code : ℕ
    pub returned : outcome ≡ (success code, after)
    pub in_order : InOrder after
    pub holds : held after ≡ held s ++ packed turns n
    pub spare : room s ≤ room after + (turns + 1)

  last_byte :
      (turns n : ℕ) (s : S)
      → n < 128
      → InOrder s
      → 1 ≤ room s
      → Sized n turns s (write_size_loop stream (suc turns) n s)
  unfolding write_size_loop
  last_byte turns n s below good fits =
      let (s', e, good', h, r) = write_span-held stream laws (n % 256 ∷ []) s good fits in
      record {
        after = s';
        code = 1;
        returned = rw (write_size_loop, small) e;
        in_order = good';
        holds =
            h
            ∙ ap (λ bytes. held s ++ bytes)
                (ap (λ b. b ∷ []) byte ∙ sym (packed-byte turns n below));
        spare = omega (arith, r);
      }
    where
      small : ltb n 0x80 ≡ true
      small = ground (arith, below)

      byte : n % 256 ≡ n
      byte = omega (arith, below)

  turn :
      (fuel n : ℕ) (s s' : S) (k : ℕ)
      → ltb n 0x80 ≡ false
      → write_span stream (bit_or (bit_and (n % 256) 0x7F) 0x80 ∷ []) s ≡ (success k, s')
      → write_size_loop stream (suc fuel) n s ≡ write_size_loop stream fuel (n / 128) s'
  unfolding write_size_loop
  turn fuel n s s' k more e =
      rw (write_size_loop, more, e)
        (ap (λ (r : HResult × S). write_size_loop stream fuel (n / 128) r.1) e)

  inner_byte :
      (turns n : ℕ) (s : S)
      → ltb n 0x80 ≡ false
      → InOrder s
      → 1 ≤ room s
      → ((s' : S)
          → InOrder s'
          → room s ≤ room s' + 1
          → Sized (n / 128) turns s' (write_size_loop stream (suc turns) (n / 128) s'))
      → Sized n (suc turns) s (write_size_loop stream (suc (suc turns)) n s)
  unfolding packed
  inner_byte turns n s more good fits rest =
      let (s', e, good', h, r) =
        write_span-held stream laws (bit_or (bit_and (n % 256) 0x7F) 0x80 ∷ []) s good fits in
      let later = rest s' good' r in
      record {
        after = later.after;
        code = later.code;
        returned = turn (suc turns) n s s' 1 more e ∙ later.returned;
        in_order = later.in_order;
        holds =
            later.holds
            ∙ ap (λ bytes. bytes ++ packed turns (n / 128))
                (h ∙ ap (λ b. held s ++ b ∷ []) (marked n))
            ∙ append_assoc (held s) ((n % 128 + 128) ∷ []) (packed turns (n / 128))
            ∙ ap (λ bytes. held s ++ bytes) (rw more refl);
        spare = omega (arith, r, later.spare);
      }

  write_size_loop-Sized :
      (turns n : ℕ) (s : S)
      → n < 128 ^ suc turns
      → InOrder s
      → turns + 1 ≤ room s
      → Sized n turns s (write_size_loop stream (suc turns) n s)
  write_size_loop-Sized zero n s below good fits =
      last_byte zero n s (omega (arith, below)) good (omega (arith, fits))
  write_size_loop-Sized (suc turns) n s below good fits = elim (Bool-cases (ltb n 0x80)) [
    | inl last ↦ last_byte (suc turns) n s (omega (tests, last)) good (omega (arith, fits))
    | inr more ↦ inner_byte turns n s more good (omega (arith, fits)) λ s' good' r.
        write_size_loop-Sized turns (n / 128) s' (omega (arith, below, pow-suc 128 (suc turns)))
          good' (omega (arith, fits, r))
  ]

  -- WriteSize appends the packed bytes of a 64-bit size, if there is room for ten.
  pub write_size-Sized :
      (n : ℕ) (s : S)
      → n < 0x1_0000_0000_0000_0000
      → InOrder s
      → 10 ≤ room s
      → Sized n 9 s (write_size stream n s)
  unfolding write_size
  write_size-Sized n s below good fits =
      write_size_loop-Sized 9 n s (omega (arith, below)) good fits

  -- A stream that a size was read from.
  pub record Unsized (size : ℕ) (rest : List ℕ) (outcome : (HResult × ℕ) × S) : Type 0 where
    pub after : S
    pub code : ℕ
    pub returned : outcome ≡ ((success code, size), after)
    pub in_order : InOrder after
    pub holds : held after ≡ rest

  take_byte :
      (b : ℕ) (bytes : List ℕ) (s : S)
      → InOrder s
      → held s ≡ b ∷ bytes
      → (s' : S) × (read_span stream 1 s ≡ ((success 1, b ∷ []), s'))
        × InOrder s'
        × (held s' ≡ bytes)
  take_byte b bytes s good holds =
      let (s', e, good', h) = read_span-held stream laws 1 s good (rw holds (omega arith)) in
      (s', e ∙ ap (λ l. ((success 1, take 1 l), s')) holds, good', h ∙ ap (drop 1) holds)

  -- One round, of what was read.
  abbrev round : ℕ → ℕ → ℕ → (HResult × List ℕ) × S → (HResult × ℕ) × S
  round rounds size bits given = elim given.0.0 [
    | failed e ↦ ((failed e, size), given.1)
    | success k ↦
        if bit_and (first_byte given.0.1) 0x80 == 0
        then (
          (success bits, bit_or size (bit_and (first_byte given.0.1) 0x7F * 2 ^ bits % u64)),
          given.1,
        )
        else read_size_loop stream rounds
            (bit_or size (bit_and (first_byte given.0.1) 0x7F * 2 ^ bits % u64)) (bits + 7) given.1
  ]

  stop :
      (rounds size bits b : ℕ) (s s' : S)
      → (bit_and b 0x80 == 0) ≡ true
      → read_span stream 1 s ≡ ((success 1, b ∷ []), s')
      → read_size_loop stream (suc rounds) size bits s
        ≡ ((success bits, bit_or size (bit_and b 0x7F * 2 ^ bits % u64)), s')
  unfolding read_size_loop
  stop rounds size bits b s s' clear e = ap (round rounds size bits) e ∙ rw clear refl

  again :
      (rounds size bits b : ℕ) (s s' : S)
      → (bit_and b 0x80 == 0) ≡ false
      → read_span stream 1 s ≡ ((success 1, b ∷ []), s')
      → read_size_loop stream (suc rounds) size bits s
        ≡ read_size_loop stream rounds (bit_or size (bit_and b 0x7F * 2 ^ bits % u64)) (bits + 7) s'
  unfolding read_size_loop
  again rounds size bits b s s' more e = ap (round rounds size bits) e ∙ rw more refl

  -- What a byte adds, while the size stays within 64 bits.
  joined :
      (size bits low : ℕ)
      → size < 2 ^ bits
      → size + low * 2 ^ bits < u64
      → bit_or size (low * 2 ^ bits % u64) ≡ size + low * 2 ^ bits
  joined size bits low small fits =
      ap (bit_or size) (mod-eq_of_lt (omega (arith, fits))) ∙ bit_or-low-high bits size low small

  read_last :
      (rounds size bits n : ℕ) (rest : List ℕ) (s : S)
      → n < 128
      → InOrder s
      → held s ≡ n ∷ rest
      → size < 2 ^ bits
      → size + n * 2 ^ bits < u64
      → Unsized (size + n * 2 ^ bits) rest (read_size_loop stream (suc rounds) size bits s)
  read_last rounds size bits n rest s below good holds small fits =
      let (s', e, good', h) = take_byte n rest s good holds in
      record {
        after = s';
        code = bits;
        returned =
            stop rounds size bits n s s' (mark_clear n below) e
            ∙ ap (λ k. ((success bits, k), s'))
                (ap (λ l. bit_or size (l * 2 ^ bits % u64)) (low_of_last n below)
                  ∙ joined size bits n small fits);
        in_order = good';
        holds = h;
      }

  -- The sum so far and the rest of the size.
  split : (n bits : ℕ) → n % 128 * 2 ^ bits + n / 128 * 2 ^ (bits + 7) ≡ n * 2 ^ bits
  split n bits =
      ap (λ t. n % 128 * 2 ^ bits + t)
        (ap (λ p. n / 128 * p) (pow-add bits 7) ∙ sym (mul_assoc (n / 128) 128 (2 ^ bits)))
      ∙ sym (add-mul (n % 128) (n / 128 * 128) (2 ^ bits))
      ∙ ap (λ t. t * 2 ^ bits) (omega arith)

  read_inner :
      (rounds size bits n : ℕ) (rest later : List ℕ) (s : S)
      → InOrder s
      → held s ≡ (n % 128 + 128) ∷ later
      → size < 2 ^ bits
      → size + n * 2 ^ bits < u64
      → ((s' : S)
          → InOrder s'
          → held s' ≡ later
          → Unsized
              (size + n % 128 * 2 ^ bits + n / 128 * 2 ^ (bits + 7))
              rest
              (read_size_loop stream rounds (size + n % 128 * 2 ^ bits) (bits + 7) s'))
      → Unsized (size + n * 2 ^ bits) rest (read_size_loop stream (suc rounds) size bits s)
  read_inner rounds size bits n rest later s good holds small fits go =
      let (s', e, good', h) = take_byte (n % 128 + 128) later s good holds in
      let found = go s' good' h in
      record {
        after = found.after;
        code = found.code;
        returned =
            again rounds size bits (n % 128 + 128) s s' (mark_set n) e
            ∙ ap (λ k. read_size_loop stream rounds k (bits + 7) s')
                (ap (λ l. bit_or size (l * 2 ^ bits % u64)) (low_of_mark n)
                  ∙ joined size bits (n % 128) small (omega (arith, split n bits, fits)))
            ∙ found.returned
            ∙ ap (λ k. ((success found.code, k), found.after)) (omega (arith, split n bits));
        in_order = found.in_order;
        holds = found.holds;
      }

  -- ReadSize of what WriteSize wrote.
  pub read_size_loop-Unsized :
      (turns size bits n : ℕ) (rest : List ℕ) (s : S)
      → n < 128 ^ suc turns
      → InOrder s
      → held s ≡ packed turns n ++ rest
      → size < 2 ^ bits
      → size + n * 2 ^ bits < u64
      → Unsized (size + n * 2 ^ bits) rest (read_size_loop stream (suc turns) size bits s)
  unfolding packed
  read_size_loop-Unsized zero size bits n rest s below good holds small fits =
      read_last zero size bits n rest s (omega (arith, below)) good holds small fits
  read_size_loop-Unsized (suc turns) size bits n rest s below good holds small fits =
      elim (Bool-cases (ltb n 128)) [
        | inl last ↦
            read_last (suc turns) size bits n rest s (omega (tests, last)) good
              (holds ∙ rw last refl) small fits
        | inr more ↦
            read_inner (suc turns) size bits n rest (packed turns (n / 128) ++ rest) s good
              (holds ∙ rw more refl) small fits
              λ s' good' h.
                read_size_loop-Unsized turns (size + n % 128 * 2 ^ bits) (bits + 7) (n / 128) rest
                  s' (omega (arith, below, pow-suc 128 (suc turns))) good' h
                  (omega (arith, small, pow-add bits 7, low_fits))
                  (omega (arith, split n bits, fits))
      ]
    where
      low_fits : n % 128 * 2 ^ bits ≤ 127 * 2 ^ bits
      low_fits = mul-le-mul_right (2 ^ bits) (omega arith)

  -- ReadSize of a stream that starts with the packed bytes of a 64-bit size.
  pub read_size-Unsized :
      (n : ℕ) (rest : List ℕ) (s : S)
      → n < 0x1_0000_0000_0000_0000
      → InOrder s
      → held s ≡ packed 9 n ++ rest
      → Unsized n rest (read_size stream s)
  unfolding read_size
  read_size-Unsized n rest s below good holds =
      subst (λ k. Unsized k rest (read_size_loop stream 10 0 0 s)) (omega arith)
        (read_size_loop-Unsized 9 0 0 n rest s (omega (arith, below)) good holds (omega arith)
          (omega (arith, below)))
