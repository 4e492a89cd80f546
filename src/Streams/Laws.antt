-- ===== src/Streams/Laws.antt =====
-- What the operations rely on of a class of streams: bytes that are written are read in their order.
use gray_core.Base.{ℕ, ◌+◌, ◌≤◌, ◌≡◌, refl, true, List, ◌++◌, length, take, drop, ◌==◌, arith}
use gray_core.Streams.{Stream, success, write_span, read_span}

-- A stream holds bytes to read, and has room for a number of bytes; what it gives and takes is
-- stated while it is in order.
pub record StreamLaws {S : Type 0} (stream : Stream S) : Type 1 where
  pub InOrder : S → Type 0
  pub held : S → List ℕ
  pub room : S → ℕ
  pub writes :
      (bytes : List ℕ) (s : S)
      → InOrder s
      → length bytes ≤ room s
      → (s' : S) × (stream.write_x bytes s ≡ (success (length bytes), s'))
        × InOrder s'
        × (held s' ≡ held s ++ bytes)
        × (room s ≤ room s' + length bytes)
  pub reads :
      (size : ℕ) (s : S)
      → InOrder s
      → size ≤ length (held s)
      → (s' : S) × (stream.read_x size s ≡ ((success size, take size (held s)), s'))
        × InOrder s'
        × (held s' ≡ drop size (held s))

module _ {S : Type 0} (stream : Stream S) (laws : StreamLaws stream) where
  open laws use {InOrder, held, room}

  -- WriteSpan and ReadSpan succeed where there is room, or enough to read.
  pub write_span-held :
      (bytes : List ℕ) (s : S)
      → InOrder s
      → length bytes ≤ room s
      → (s' : S) × (write_span stream bytes s ≡ (success (length bytes), s'))
        × InOrder s'
        × (held s' ≡ held s ++ bytes)
        × (room s ≤ room s' + length bytes)
  unfolding write_span
  write_span-held bytes s good fits =
      let (s', e, good', h, r) = laws.writes bytes s good fits in
      (s', rw (write_span, e, same (length bytes)) refl, good', h, r)
    where
      same : (n : ℕ) → (n == n) ≡ true
      same n = ground arith

  pub read_span-held :
      (size : ℕ) (s : S)
      → InOrder s
      → size ≤ length (held s)
      → (s' : S) × (read_span stream size s ≡ ((success size, take size (held s)), s'))
        × InOrder s'
        × (held s' ≡ drop size (held s))
  unfolding read_span
  read_span-held size s good enough =
      let (s', e, good', h) = laws.reads size s good enough in
      (s', rw (read_span, e, same size) refl, good', h)
    where
      same : (n : ℕ) → (n == n) ≡ true
      same n = ground arith
