-- ===== src/Queue/Linear/Tests.antt =====
-- Runs of the linear queue, and its theorems at queues of numbers.
use gray_core.Base.{ℕ, ◌≡◌, refl, false, [], ◌∷◌, arith, some}
use gray_core.Base.Int.{pos, ◌-ℤ◌}
use gray_core.Queue.Fifo.{put_many}
use gray_core.Queue.Linear.{
  QueueRw, Target, seek_end, span_read, read_span_q, write_span_q, seek_q, read_commit_now,
  read_peek, read1, write1, read_commit_check, set_copy_span, seek_index, seek_target, seek_set,
  position, error_database_full,
}
use gray_core.Queue.Static.{copy_qty}
use gray_core.Queue.Linear.Contents.{LinearInv}
use gray_core.Queue.Linear.Writing.{Writes, capacity, write_span_q_refines}
use gray_core.Queue.Linear.Reading.{Reads, read_span_q_refines}

abbrev two : QueueRw ℕ
two = record {
  block = 1 ∷ 2 ∷ 3 ∷ 4 ∷ 5 ∷ [];
  read_index = 1;
  write_index = 3;
  auto_read_commit = 2;
}

abbrev small : QueueRw ℕ
small = record { block = 8 ∷ 9 ∷ []; read_index = 0; write_index = 2; auto_read_commit = 0 }

two-LinearInv : LinearInv two
two-LinearInv = record { normal = omega arith; fits = omega arith }

small-LinearInv : LinearInv small
small-LinearInv = record { normal = omega arith; fits = omega arith }

write_span_q_refines_example :
    Writes two
      (put_many (capacity two) (span_read two) (6 ∷ 7 ∷ 8 ∷ []))
      (write_span_q two (6 ∷ 7 ∷ 8 ∷ []) false)
write_span_q_refines_example = write_span_q_refines two (6 ∷ 7 ∷ 8 ∷ []) two-LinearInv

abbrev one : Target
one = record { size = 1; null = false }

read_span_q_refines_example : Reads two one (read_span_q two one)
read_span_q_refines_example = read_span_q_refines two one two-LinearInv

-- Reading one element reaches the size at which reads are committed.
read_commits : read_span_q two one ≡ (
  (1, 2 ∷ []),
  record { block = 3 ∷ 2 ∷ 3 ∷ 4 ∷ 5 ∷ []; read_index = 0; write_index = 1; auto_read_commit = 2 },
)
unfolding read_span_q set_copy_span span_read read_commit_check read_commit_now copy_qty
read_commits = refl

write_too_much : (write_span_q two (6 ∷ 7 ∷ 8 ∷ []) false).0 ≡ 2
unfolding write_span_q
write_too_much = refl

-- A positive offset from the end counts back from what was written last.
seek_back_from_end :
    seek_index small (pos 1) seek_end ≡ (position 1, record small { read_index = 1 })
unfolding seek_index seek_target ◌-ℤ◌
seek_back_from_end = refl

-- A seek past the end is refused, but SeekQ of the queue returns a position.
seek_past_end : (seek_index small (pos 7) seek_set).0 ≡ error_database_full
unfolding seek_index seek_target
seek_past_end = refl

seek_past_end_position : (seek_q small (pos 7) seek_set).0 ≡ 2
unfolding seek_q seek_index seek_target read_commit_check
seek_past_end_position = refl

one_more : (write1 two 7).1 ≡ record two { block = 1 ∷ 2 ∷ 3 ∷ 7 ∷ 5 ∷ []; write_index = 4 }
unfolding write1
one_more = refl

first_one : read1 two ≡ (some 2, record two { read_index = 2 })
unfolding read1
first_one = refl

peek : read_peek two one ≡ (1, 2 ∷ [])
unfolding read_peek set_copy_span span_read
peek = refl
