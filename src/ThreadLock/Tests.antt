-- ===== src/ThreadLock/Tests.antt =====
-- Runs of the lock.
use gray_core.Base.{ℕ, ◌≡◌, refl, true, false, some, List, [], ◌∷◌, arith, if◌then◌else◌, take}
use gray_core.ThreadLock.{
  ThreadLock, System, Reachable, start, step, ask, turn, count, ready, trying, owning, attempt,
  unlocked, move, inside, clear_terminated, is_idle, inc_lock_count,
}
use gray_core.ThreadLock.Exclusion.{Reachable-excludes, Reachable-idle, depth_of}
use gray_core.ThreadLock.Waiting.{lock_thread, lock_thread_returns, some_available, wait_unique}

abbrev taken : ThreadLock
taken = record { owner = 7; lock_count = 0 }

abbrev asked : System
asked = record { lock = unlocked; places = move (λ tid. ready 0) 7 (trying 0 (some 3)) }

abbrev owned : System
owned = record { lock = taken; places = move asked.places 7 (owning 0) }

abbrev counted : System
counted = record { lock = inc_lock_count taken; places = move owned.places 7 (ready 1) }

counted-Reachable : Reachable counted
unfolding attempt
counted-Reachable =
    step owned 7 (ready 1) (inc_lock_count taken)
      (step asked 7 (owning 0) taken
        (step _ 7 (trying 0 (some 3)) unlocked start (omega arith) (ask 0 (some 3) unlocked))
        (omega arith) (turn 0 (some 3) unlocked (owning 0) taken refl))
      (omega arith) (count 0 taken)

Reachable-excludes_example :
    (◌≡◌ {A = ℕ} 7 7)
    × (counted.lock.owner ≡ 7)
    × (counted.lock.lock_count ≡ depth_of (counted.places 7))
Reachable-excludes_example =
    Reachable-excludes counted 7 7 counted-Reachable (omega arith) (omega arith) refl refl

abbrev initial : System
initial = record { lock = unlocked; places = λ tid. ready 0 }

Reachable-idle_example : (is_idle unlocked ≡ true) × (inside (initial.places 8) ≡ false)
Reachable-idle_example = Reachable-idle initial 8 start (omega arith) refl

-- Another thread finds the lock taken twice, and then free.
abbrev found : List ThreadLock
found = taken ∷ inc_lock_count taken ∷ unlocked ∷ []

lock_thread_returns_example :
    lock_thread 8 0 (some 2) found ≡ (if some_available 8 (take 3 found) then owning 0 else ready 0)
lock_thread_returns_example = lock_thread_returns 8 0 2 found (omega arith)

lock_thread_gives_up : lock_thread 8 0 (some 1) found ≡ ready 0
unfolding lock_thread attempt
lock_thread_gives_up = refl

terminated : clear_terminated taken 7 ≡ (true, unlocked)
unfolding clear_terminated
terminated = refl

not_terminated : clear_terminated taken 8 ≡ (false, taken)
unfolding clear_terminated
not_terminated = refl

-- WaitUnique is done at once when there is a count, and fails when there is none.
wait_unique_locked : wait_unique 5 (1 ∷ 0 ∷ []) ≡ some true
unfolding wait_unique
wait_unique_locked = refl

wait_unique_free : wait_unique 1 (0 ∷ 0 ∷ []) ≡ some false
unfolding wait_unique
wait_unique_free = refl
