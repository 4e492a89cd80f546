-- ===== src/Streams.antt =====
-- include/cStream.h and src/cStream.cpp: WriteSpan, ReadSpan and the packed sizes of `cStreamOutput`
-- and `cStreamInput`; `cArchive` of src/cArchive.cpp over them; and `cStreamStatic` of
-- include/cStreamQueue.h, which is a stream over the linear queue. WriteX and ReadX are virtual: a
-- class of streams is a record of the two. An operation gives what it returns and the stream after it.
pub mod Laws
pub mod Sizes
pub mod Archive
pub mod Static
mod Tests
use Prim.Native.Nat.{bit_and, bit_or}
use gray_core.Base.{
  ℕ, zero, suc, ◌+◌, ◌*◌, ◌/◌, ◌%◌, ◌^◌, Bool, true, false, List, [], ◌∷◌, length, ltb, ◌==◌,
  if◌then◌else◌,
}
use gray_core.Queue.Linear.{QueueRw, Target, write_span_q, read_span_q}

pub data Failure : Type 0 where
  error_write_fault : Failure
  error_io_incomplete : Failure
  other_failure : ℕ → Failure
  -- What C++ leaves undefined: a shift by the width of the number or more.
  undefined_shift : Failure
  out_of_fuel : Failure

-- An HRESULT: a number that is not negative, or a failure.
pub data HResult : Type 0 where
  success : ℕ → HResult
  failed : Failure → HResult

-- A class of streams: WriteX, and ReadX with the bytes that it gives.
pub record Stream {ℓ} (S : Type ℓ) : Type ℓ where
  pub write_x : List ℕ → S → HResult × S
  pub read_x : ℕ → S → (HResult × List ℕ) × S

abbrev pub first_byte : List ℕ → ℕ
first_byte [] = 0
first_byte (b ∷ bytes) = b

abbrev pub u64 : ℕ
u64 = 0x1_0000_0000_0000_0000

module _ {ℓ} {S : Type ℓ} (stream : Stream S) where
  -- All or a failure.
  abbrev pub whole : HResult → ℕ → Failure → HResult
  whole (failed e) size fault = failed e
  whole (success n) size fault = if n == size then success n else failed fault

  unfoldable pub write_span : List ℕ → S → HResult × S
  write_span bytes s =
      let written = stream.write_x bytes s in
      (whole written.0 (length bytes) error_write_fault, written.1)

  unfoldable pub read_span : ℕ → S → (HResult × List ℕ) × S
  read_span size s =
      let given = stream.read_x size s in
      ((whole given.0.0 size error_io_incomplete, given.0.1), given.1)

  -- The bytes of the packed size: seven bits each, the lowest first, and a mark on all but the last.
  -- Ten bytes are enough for 64 bits.
  unfoldable pub write_size_loop : ℕ → ℕ → S → HResult × S
  write_size_loop zero n s = (failed out_of_fuel, s)
  write_size_loop (suc fuel) n s =
      let written = write_span (bit_or (bit_and (n % 256) 0x7F) 0x80 ∷ []) s in
      let rest = write_size_loop fuel (n / 2 ^ 7) written.1 in
      if ltb n 0x80
      then write_span (n % 256 ∷ []) s
      else elim written.0 [ failed e ↦ (failed e, written.1) | success k ↦ rest ]

  unfoldable pub write_size : ℕ → S → HResult × S
  write_size n s = write_size_loop 10 n s

  -- The loop of ReadSize: what it returns, the size and the stream. The shift is 63 in the tenth
  -- round, and would be 70 in the next.
  unfoldable pub read_size_loop : ℕ → ℕ → ℕ → S → (HResult × ℕ) × S
  read_size_loop zero size bits s = ((failed undefined_shift, size), s)
  read_size_loop (suc rounds) size bits s =
      let given = read_span 1 s in
      let b = first_byte given.0.1 in
      let size2 = bit_or size (bit_and b 0x7F * 2 ^ bits % u64) in
      let rest = read_size_loop rounds size2 (bits + 7) given.1 in
      elim given.0.0 [
        | failed e ↦ ((failed e, size), given.1)
        | success k ↦ if bit_and b 0x80 == 0 then ((success bits, size2), given.1) else rest
      ]

  unfoldable pub read_size : S → (HResult × ℕ) × S
  read_size s = read_size_loop 10 0 0 s

-- cArchive: a stream, and whether it is stored to.
module _ {ℓ} {S : Type ℓ} (stream : Stream S) (is_storing : Bool) where
  -- Serialize of bytes that are stored, or of as many that are loaded.
  unfoldable pub serialize : List ℕ → S → (HResult × List ℕ) × S
  serialize bytes s =
      let stored = write_span stream bytes s in
      if is_storing then ((stored.0, bytes), stored.1) else read_span stream (length bytes) s

  unfoldable pub serialize_size : ℕ → S → (HResult × ℕ) × S
  serialize_size n s =
      let stored = write_size stream n s in
      if is_storing then ((stored.0, n), stored.1) else read_size stream s

-- cStreamStatic: WriteX and ReadX of cQueueRW for bytes.
abbrev pub stream_static : Stream (QueueRw ℕ)
stream_static = record {
  write_x = λ bytes q. let written = write_span_q q bytes false in (success written.0, written.1);
  read_x = λ size q.
      let given = read_span_q q (record { size = size; null = false }) in
      ((success given.0.0, given.0.1), given.1);
}
