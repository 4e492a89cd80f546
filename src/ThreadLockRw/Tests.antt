-- ===== src/ThreadLockRw/Tests.antt =====
-- A thread that writes, and a thread that locks for reading.
use gray_core.Base.{ℕ, ◌≡◌, ◌<◌, refl, true, none, arith}
use gray_core.ThreadLock.{
  ThreadLock, ready, trying, owning, ask, turn, unlocked, inc_lock_count, attempt, inside,
}
use gray_core.ThreadLockRw.{
  RwSystem, RwReachable, rw_start, rw_step, write, call, wait, hold, reader_asks, reader_turn,
  reader_count, lock_read, outside, asks, holds, leaves, idle, moved, enter, get_reader_count,
}
use gray_core.ThreadLockRw.Excludes.{
  RwReachable-excludes, RwReachable-one_at_a_time, get_reader_count-readers,
}

abbrev nobody : RwSystem
nobody = record { main = idle; guard = idle; reading = λ tid. outside; readers = 0 }

abbrev asked : RwSystem
asked = record nobody { main = moved idle 7 (trying 0 none) unlocked }

abbrev written : RwSystem
written = record asked {
  main = moved asked.main 7 (owning 0) (record { owner = 7; lock_count = 0 });
}

written-RwReachable : RwReachable written
unfolding attempt
written-RwReachable =
    rw_step asked written 7
      (rw_step nobody asked 7 rw_start (omega arith)
        (write (trying 0 none) unlocked refl (ask 0 none unlocked)))
      (omega arith)
      (write (owning 0) (record { owner = 7; lock_count = 0 }) refl
        (turn 0 none unlocked (owning 0) (record { owner = 7; lock_count = 0 }) refl))

RwReachable-excludes_example :
    (written.readers ≡ 0)
    × ((other : ℕ) → 0 < other → inside (written.main.places other) ≡ true → other ≡ 7)
RwReachable-excludes_example = RwReachable-excludes written 7 written-RwReachable (omega arith) refl

-- LockRead of the thread 8.
abbrev called : RwSystem
called = record nobody {
  guard = moved idle 8 (trying 0 none) unlocked;
  reading = enter nobody.reading 8 (asks lock_read);
}

abbrev guarded : ThreadLock
guarded = record { owner = 8; lock_count = 0 }

abbrev waited : RwSystem
waited = record called { guard = moved called.guard 8 (owning 0) guarded }

abbrev held : RwSystem
held = record waited {
  guard = moved waited.guard 8 (ready 1) (inc_lock_count guarded);
  reading = enter waited.reading 8 (holds lock_read);
}

abbrev reader_asked : RwSystem
reader_asked = record held { main = moved held.main 1 (trying 0 none) unlocked }

abbrev read_by : ThreadLock
read_by = record { owner = 1; lock_count = 0 }

abbrev reader_owns : RwSystem
reader_owns = record reader_asked { main = moved reader_asked.main 1 (owning 0) read_by }

abbrev reads : RwSystem
reads = record reader_owns {
  main = moved reader_owns.main 1 (ready 1) (inc_lock_count read_by);
  reading = enter reader_owns.reading 8 leaves;
  readers = 1;
}

held-RwReachable : RwReachable held
unfolding attempt
held-RwReachable =
    rw_step waited held 8
      (rw_step called waited 8
        (rw_step nobody called 8 rw_start (omega arith) (call lock_read 0 refl refl refl refl))
        (omega arith) (wait lock_read (owning 0) guarded refl refl refl))
      (omega arith) (hold lock_read refl refl)

reads-RwReachable : RwReachable reads
unfolding attempt
reads-RwReachable =
    rw_step reader_owns reads 8
      (rw_step reader_asked reader_owns 8
        (rw_step held reader_asked 8 held-RwReachable (omega arith) (reader_asks 0 refl refl))
        (omega arith) (reader_turn 0 (owning 0) read_by refl refl refl))
      (omega arith) (reader_count 0 refl refl)

get_reader_count-readers_example : get_reader_count reads.main.lock ≡ 1
get_reader_count-readers_example = get_reader_count-readers reads reads-RwReachable

RwReachable-one_at_a_time_example : ◌≡◌ {A = ℕ} 8 8
RwReachable-one_at_a_time_example =
    RwReachable-one_at_a_time reads 8 8 reads-RwReachable (omega arith) (omega arith) refl refl
