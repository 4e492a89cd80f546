-- ===== src/Queue/Static.antt =====
-- include/cQueue.h, `cQueueStatic<_QTY, TYPE>` over `cSpanStatic` of include/cSpan.h: a ring of
-- `qty` elements of which at most `qty - 1` are in use. ASSERT is compiled out in a release
-- build, so what it tests is a hypothesis of the theorems. `junk` is what a read outside the
-- block would give. The indices are never negative, so `ITERATE_t` is ℕ here.
pub mod Inv
pub mod Single
pub mod Copy
pub mod Spans
pub mod Threads
mod Tests
use gray_core.Base.{
  ℕ, zero, suc, ◌+◌, ◌-◌, ◌%◌, min, Bool, true, false, List, [], ◌∷◌, ltb, leb, ◌==◌, if◌then◌else◌,
  length, get_or, set, take, drop,
}

pub record QueueStatic {ℓ} (A : Type ℓ) : Type ℓ where
  pub storage : List A
  pub read_index : ℕ
  pub write_index : ℕ

-- `cValSpan::CopyQty`, to `dest + i` from the elements of `src`.
unfoldable pub copy_qty {ℓ} : {A : Type ℓ} → List A → ℕ → List A → List A
copy_qty dest i [] = dest
copy_qty dest i (x ∷ src) = copy_qty (set dest i x) (suc i) src

-- `cSpanStatic::GetWrapIndex`
abbrev pub wrap_index : ℕ → ℕ → ℕ
wrap_index qty i = i % qty

abbrev pub is_empty {ℓ} : {A : Type ℓ} → QueueStatic A → Bool
is_empty q = q.read_index == q.write_index

module _ {ℓ} {A : Type ℓ} (qty : ℕ) where
  abbrev pub is_full : QueueStatic A → Bool
  is_full q = wrap_index qty (q.write_index + 1) == q.read_index

  -- `get_ReadQtyT`: all that can be read.
  pub read_qty : QueueStatic A → ℕ
  read_qty q =
      let write = if ltb q.write_index q.read_index then q.write_index + qty else q.write_index in
      write - q.read_index

  -- `get_ReadQtyC`: what can be read in one piece.
  pub read_qty_contiguous : QueueStatic A → ℕ
  read_qty_contiguous q =
      let top = if leb q.read_index q.write_index then q.write_index else qty in top - q.read_index

  -- `get_WriteQtyT`
  pub write_qty : QueueStatic A → ℕ
  write_qty q = (qty - 1) - read_qty q

  pub advance_read : QueueStatic A → ℕ → QueueStatic A
  advance_read q count =
      let count' = if ltb (read_qty q) count then read_qty q else count in
      record q { read_index = wrap_index qty (q.read_index + count') }

  pub write1 : QueueStatic A → A → Bool × QueueStatic A
  write1 q val =
      let next = wrap_index qty (q.write_index + 1) in
      if next == q.read_index
      then (false, q)
      else (true, record q { storage = set q.storage q.write_index val; write_index = next })

module _ {ℓ} {A : Type ℓ} (qty : ℕ) (junk : A) where
  pub read1 : QueueStatic A → A × QueueStatic A
  read1 q = (
    get_or q.storage q.read_index junk,
    record q { read_index = wrap_index qty (q.read_index + 1) },
  )

  -- The loop of `ReadSpanQ`, with `left` elements of the caller's span still to fill.
  pub read_span : ℕ → QueueStatic A → List A × QueueStatic A
  read_span zero q = ([], q)
  read_span (suc left) q =
      let (val, q1) = read1 q in
      let (vals, q2) = read_span left q1 in if is_empty q then ([], q) else (val ∷ vals, q2)

module _ {ℓ} {A : Type ℓ} (qty : ℕ) where
  -- `WriteSpanQ`, with the number of elements that it returns.
  pub write_span : QueueStatic A → List A → ℕ × QueueStatic A
  write_span q src =
      let write = q.write_index in
      let count = min (write_qty qty q) (length src) in
      let to_end = qty - write in
      let rest = count - to_end in
      if ltb qty (write + count)
      then (
        count,
        record q {
          storage =
              copy_qty (copy_qty q.storage write (take to_end src)) 0 (take rest (drop to_end src));
          write_index = rest;
        },
      )
      else (
        count,
        record q {
          storage = copy_qty q.storage write (take count src);
          write_index = write + count;
        },
      )
