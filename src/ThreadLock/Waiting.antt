-- ===== src/ThreadLock/Waiting.antt =====
-- LockThread of src/cThreadLock.cpp as a loop over the states in which its turns find the lock, and
-- WaitUnique of the same file.
use gray_core.Base.{
  ℕ, zero, suc, ◌≡◌, ◌<◌, refl, Bool, true, false, none, some, List, [], ◌∷◌, ◌==◌, ◌||◌,
  if◌then◌else◌, length, take, arith, Bool-cases, inl, inr, not, Option,
}
use gray_core.ThreadLock.{ThreadLock, ThreadPlace, ready, trying, owning, clearing, attempt, Wait}

-- The turns of LockThread: where the thread is at the end of them. The lock may change between two
-- turns, so each finds it in a state of its own.
unfoldable pub lock_thread : ℕ → ℕ → Wait → List ThreadLock → ThreadPlace
lock_thread tid depth wait [] = trying depth wait
lock_thread tid depth wait (lock ∷ later) = elim ((attempt tid depth wait lock).0) [
  | ready held ↦ ready held
  | owning held ↦ owning held
  | clearing ↦ clearing
  | trying held wait' ↦ lock_thread tid held wait' later
]

-- Free, or the thread's own.
abbrev pub available : ℕ → ThreadLock → Bool
available tid lock = (lock.owner == 0) || (lock.owner == tid)

abbrev pub some_available : ℕ → List ThreadLock → Bool
some_available tid [] = false
some_available tid (lock ∷ later) = available tid lock || some_available tid later

-- WaitUnique, for a finite wait, over the counts that it finds; `none` while it waits.
unfoldable pub wait_unique : ℕ → List ℕ → Option Bool
wait_unique ms [] = none
wait_unique ms (count ∷ later) =
    if not (count == 0)
    then some true
    else elim ms [ zero ↦ some false | suc ms' ↦ wait_unique ms' later ]

-- LockThread with a wait of some milliseconds returns after at most one turn more than those: it has
-- the lock exactly when a turn up to then finds it free or its own, and else it has failed.
pub lock_thread_returns :
    (tid depth ms : ℕ) (locks : List ThreadLock)
    → ms < length locks
    → lock_thread tid depth (some ms) locks
      ≡ (if some_available tid (take (suc ms) locks) then owning depth else ready depth)
unfolding lock_thread attempt
lock_thread_returns tid depth ms [] h = absurd (omega arith)
lock_thread_returns tid depth zero (lock ∷ later) h = elim (Bool-cases (available tid lock)) [
  | inl now ↦ rw (lock_thread, attempt, now) refl
  | inr wait ↦ rw (lock_thread, attempt, wait) refl
]
lock_thread_returns tid depth (suc ms) (lock ∷ later) h = elim (Bool-cases (available tid lock)) [
  | inl now ↦ rw (lock_thread, attempt, now) refl
  | inr wait ↦
      rw (lock_thread, attempt, wait) (lock_thread_returns tid depth ms later (omega arith))
]

-- LockThread that waits without end has the lock as soon as a turn finds it free or its own.
pub lock_thread_waits :
    (tid depth : ℕ) (locks : List ThreadLock)
    → lock_thread tid depth none locks
      ≡ (if some_available tid locks then owning depth else trying depth none)
unfolding lock_thread attempt
lock_thread_waits tid depth [] = refl
lock_thread_waits tid depth (lock ∷ later) = elim (Bool-cases (available tid lock)) [
  | inl now ↦ rw (lock_thread, attempt, now) refl
  | inr wait ↦ rw (lock_thread, attempt, wait) (lock_thread_waits tid depth later)
]
