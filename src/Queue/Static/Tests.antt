-- ===== src/Queue/Static/Tests.antt =====
-- Runs of `cQueueStatic` at small rings.
use gray_core.Base.{ℕ, ◌+◌, ◌-◌, ◌≡◌, ◌≢◌, ◌<◌, refl, [], ◌∷◌, ◌++◌, min, arith}
use gray_core.Queue.Fifo
use gray_core.Queue.Static.{
  QueueStatic, copy_qty, read_qty, write_qty, advance_read, write1, read1, read_span, write_span,
}
use gray_core.Queue.Static.Inv.{IsValid, contents}
use gray_core.Queue.Static.Threads.{
  waiting, ready, Reach, here, next, write_check, write_store, write_publish, read_load,
  read_publish, start, interleaving_fifo,
}
use gray_core.Queue.Static.Spans.{write_span_refines}

operations : Unit {0}
unfolding read_qty write_qty advance_read write1 read1 read_span write_span copy_qty contents
    Fifo.put Fifo.get Fifo.put_many Fifo.get_many
operations = tt

-- 8, then 9, round the end of a block of four.
abbrev wrapped : QueueStatic ℕ
wrapped = record { storage = 9 ∷ 0 ∷ 7 ∷ 8 ∷ []; read_index = 3; write_index = 1 }

abbrev near_end : QueueStatic ℕ
near_end = record { storage = 0 ∷ 0 ∷ 5 ∷ 0 ∷ []; read_index = 2; write_index = 3 }

contents-wrapped : contents 4 0 wrapped ≡ 8 ∷ 9 ∷ []
unfolding operations
contents-wrapped = refl

write_span-near_end :
    write_span 4 near_end (6 ∷ 7 ∷ 8 ∷ [])
    ≡ (2, record { storage = 7 ∷ 0 ∷ 5 ∷ 6 ∷ []; read_index = 2; write_index = 1 })
unfolding operations
write_span-near_end = refl

wrapped-IsValid : IsValid 4 wrapped
wrapped-IsValid = omega arith

near_end-IsValid : IsValid 4 near_end
near_end-IsValid = omega arith

write_span_refines_example :
    let (n, q') = write_span 4 near_end (6 ∷ 7 ∷ 8 ∷ []) in
    ((n, contents 4 0 q') ≡ Fifo.put_many (4 - 1) (contents 4 0 near_end) (6 ∷ 7 ∷ 8 ∷ []))
    × IsValid 4 q'
write_span_refines_example = write_span_refines 0 near_end-IsValid (6 ∷ 7 ∷ 8 ∷ []) clear
  where
    clear : 3 + min (write_qty 4 near_end) 3 ≢ 4
    clear = unfold operations in omega arith

abbrev after : QueueStatic ℕ
after = record { storage = 9 ∷ 6 ∷ 7 ∷ 8 ∷ []; read_index = 0; write_index = 2 }

-- The reader copies an element out while the writer is between its two stores.
overlapped : Reach 4 0 (start 4 0 wrapped) (record {
  queue = after;
  writer = waiting;
  reader = ready;
  sent = 8 ∷ 9 ∷ 6 ∷ [];
  got = 8 ∷ [];
})
unfolding operations
overlapped =
    next
      (next
        (next (next (next here (write_check _ 6 refl refl)) (read_load _ refl refl))
          (write_store _ 6 refl))
        (write_publish _ 6 refl))
      (read_publish _ 8 refl)

interleaving_fifo_example :
    ((8 ∷ []) ++ contents 4 0 after ≡ 8 ∷ 9 ∷ 6 ∷ []) × IsValid 4 after × (read_qty 4 after < 4)
interleaving_fifo_example = interleaving_fifo 4 0 wrapped wrapped-IsValid overlapped
