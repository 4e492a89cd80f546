-- ===== src/Queue/Linear.antt =====
-- include/cQueue.h, `cQueueIndex`, `cQueueRead<TYPE>` and `cQueueRW<TYPE>` with SeekQ of
-- src/cQueue.cpp: a queue that does not wrap. What has been read stays in front of the read index
-- until a commit moves the rest down. Offsets and indexes are taken to stay in the range of
-- `ITERATE_t`, and what ASSERT tests is a hypothesis. The block is one that the queue has: of the
-- null spans only the caller's, in ReadSpanQ, makes a difference. `GetWritePrep` is that of the
-- class itself, which cannot grow.
pub mod Contents
pub mod Writing
pub mod Reading
mod Tests
use gray_core.Base.{
  ℕ, zero, suc, ◌+◌, ◌-◌, min, Bool, true, false, not, ◌&&◌, List, [], ◌∷◌, ltb, leb, ◌==◌,
  if◌then◌else◌, length, take, drop, set, Option, none, some, get_elem?,
}
use gray_core.Base.Int.{ℤ, pos, negsuc, ◌+ℤ◌, ◌-ℤ◌}
use gray_core.Queue.Static.{copy_qty}

pub record QueueRw {ℓ} (A : Type ℓ) : Type ℓ where
  pub block : List A
  pub read_index : ℕ
  pub write_index : ℕ
  pub auto_read_commit : ℕ

module _ {ℓ} {A : Type ℓ} where
  abbrev pub init_q : QueueRw A → ℕ → ℕ → QueueRw A
  init_q q read write = record q { read_index = read; write_index = write }

  abbrev pub is_empty_q : QueueRw A → Bool
  is_empty_q q = q.read_index == q.write_index

  abbrev pub read_qty : QueueRw A → ℕ
  read_qty q = q.write_index - q.read_index

  abbrev pub set_empty_q : QueueRw A → QueueRw A
  set_empty_q q = init_q q 0 0

  -- get_SpanRead: the elements to read.
  unfoldable pub span_read : QueueRw A → List A
  span_read q = take (read_qty q) (drop q.read_index q.block)

  abbrev pub is_full_q : QueueRw A → Bool
  is_full_q q = leb (length q.block) q.write_index

  abbrev pub write_space_qty : QueueRw A → ℕ
  write_space_qty q = length q.block - q.write_index

  abbrev pub advance_read : QueueRw A → ℕ → QueueRw A
  advance_read q count = record q { read_index = q.read_index + count }

  abbrev pub advance_write : QueueRw A → ℕ → QueueRw A
  advance_write q count = record q { write_index = q.write_index + count }

  -- `cMem::CopyOverlap` reads all of the source before it writes.
  unfoldable pub read_commit_now : QueueRw A → QueueRw A
  read_commit_now q =
      if leb q.read_index 0
      then q
      else let size = read_qty q in
        let moved =
          if ltb 0 size
          then copy_qty q.block 0 (take size (drop q.read_index q.block))
          else q.block in
        init_q (record q { block = moved }) 0 size

  unfoldable pub read_commit_check : QueueRw A → QueueRw A
  read_commit_check q =
      if not (q.auto_read_commit == 0) && leb q.auto_read_commit q.read_index
      then read_commit_now q
      else q

  unfoldable pub put_auto_read_commit : QueueRw A → ℕ → QueueRw A
  put_auto_read_commit q size =
      if q.auto_read_commit == size
      then read_commit_check q
      else let q' = record q { auto_read_commit = size } in
        if not (size == 0) then read_commit_now q' else q'

  unfoldable pub put_read_index : QueueRw A → ℕ → QueueRw A
  put_read_index q lo = read_commit_check (record q { read_index = lo })

pub data SeekOrigin : Type 0 where
  seek_set : SeekOrigin
  seek_cur : SeekOrigin
  seek_end : SeekOrigin

-- The HRESULT of cQueueIndex::SeekQ.
pub data SeekResult : Type 0 where
  position : ℕ → SeekResult
  error_empty : SeekResult
  error_database_full : SeekResult

module _ {ℓ} {A : Type ℓ} where
  -- The index that is asked for, before it is held to the range.
  unfoldable pub seek_target : QueueRw A → ℤ → SeekOrigin → ℤ
  seek_target q offset seek_set = offset
  seek_target q offset seek_cur = pos q.read_index +ℤ offset
  seek_target q offset seek_end = pos q.write_index -ℤ offset

  abbrev pub seek_within : QueueRw A → ℤ → SeekResult × QueueRw A
  seek_within q (negsuc n) = (error_empty, record q { read_index = 0 })
  seek_within q (pos n) =
      if ltb q.write_index n
      then (error_database_full, record q { read_index = q.write_index })
      else (position n, record q { read_index = n })

  -- cQueueIndex::SeekQ.
  unfoldable pub seek_index : QueueRw A → ℤ → SeekOrigin → SeekResult × QueueRw A
  seek_index q offset origin = seek_within q (seek_target q offset origin)

  -- cQueueRW::SeekQ: what the other returns is dropped.
  unfoldable pub seek_q : QueueRw A → ℤ → SeekOrigin → ℕ × QueueRw A
  seek_q q offset origin =
      let q' = read_commit_check (seek_index q offset origin).1 in (q'.read_index, q')

  -- Read1, of a queue that is not empty.
  unfoldable pub read1 : QueueRw A → Option A × QueueRw A
  read1 q = (get_elem? q.block q.read_index, advance_read q 1)

-- A span of the caller's: `null` when there is only a size.
pub record Target : Type 0 where
  pub size : ℕ
  pub null : Bool

module _ {ℓ} {A : Type ℓ} where
  -- SetCopySpan: how many, and what is written from the start of the target.
  unfoldable pub set_copy_span : Target → List A → ℕ × List A
  set_copy_span ret src =
      let qty = min ret.size (length src) in (qty, if ret.null then [] else take qty src)

  unfoldable pub read_peek : QueueRw A → Target → ℕ × List A
  read_peek q ret = set_copy_span ret (span_read q)

  -- cQueueRead::ReadSpanQ and then the check of cQueueRW::ReadSpanQ.
  unfoldable pub read_span_q : QueueRw A → Target → (ℕ × List A) × QueueRw A
  read_span_q q ret =
      let copied = set_copy_span ret (span_read q) in
      (copied, read_commit_check (advance_read q copied.0))

  unfoldable pub write_span_q : QueueRw A → List A → Bool → ℕ × QueueRw A
  write_span_q q src atomic =
      let space = write_space_qty q in
      if atomic && ltb space (length src)
      then (0, q)
      else let qty = min space (length src) in
        (
          qty,
          advance_write (record q { block = copy_qty q.block q.write_index (take qty src) }) qty,
        )

  unfoldable pub write1 : QueueRw A → A → Bool × QueueRw A
  write1 q val =
      if write_space_qty q == 0
      then (false, q)
      else (true, advance_write (record q { block = set q.block q.write_index val }) 1)

  -- Whether all was written, the queue and the other queue.
  unfoldable pub write_q : QueueRw A → QueueRw A → Bool × QueueRw A × QueueRw A
  write_q q other =
      let written = write_span_q q (span_read other) true in
      if written.0 == 0 then (false, written.1, other) else (true, written.1, set_empty_q other)
