-- ===== src/ThreadLock.antt =====
-- include/cThreadLock.h and src/cThreadLock.cpp, `cThreadLockable` and `cThreadLockableFast`, with the
-- count of include/cLocker.h: a lock that one thread may take several times. A thread is its id,
-- and 0, `cThreadId::k_NULL`, is no thread. The exchanges on the owner are single steps; the count
-- is not guarded, so each change of it is a step of its own.
pub mod Exclusion
pub mod Waiting
mod Tests
use gray_core.Base.{
  ℕ, zero, suc, ◌+◌, ◌-◌, ◌≡◌, ◌≢◌, Bool, true, false, Option, none, some, List, [], ◌∷◌, ◌==◌,
  ◌||◌, if◌then◌else◌, not, ◌<◌,
}

pub record ThreadLock : Type 0 where
  pub owner : ℕ
  pub lock_count : ℕ

abbrev pub unlocked : ThreadLock
unlocked = record { owner = 0; lock_count = 0 }

-- `InterlockedN::CompareExchange` of the owner: the owner before, and the lock.
unfoldable pub compare_exchange : ThreadLock → ℕ → ℕ → ℕ × ThreadLock
compare_exchange lock new comparand =
    (lock.owner, if lock.owner == comparand then record lock { owner = new } else lock)

abbrev pub inc_lock_count : ThreadLock → ThreadLock
inc_lock_count lock = record lock { lock_count = lock.lock_count + 1 }

abbrev pub dec_lock_count : ThreadLock → ThreadLock
dec_lock_count lock = record lock { lock_count = lock.lock_count - 1 }

abbrev pub clear_thread_lock_owner : ThreadLock → ThreadLock
clear_thread_lock_owner lock = record lock { owner = 0 }

-- isLocked, isThreadLockedByCurrent and isIdle.
abbrev pub is_locked : ThreadLock → Bool
is_locked lock = not (lock.owner == 0)

abbrev pub is_locked_by : ThreadLock → ℕ → Bool
is_locked_by lock tid = lock.owner == tid

abbrev pub is_idle : ThreadLock → Bool
is_idle lock = if is_locked lock then false else lock.lock_count == 0

-- ClearThreadLockOwner of a thread that was terminated: whether it was the owner.
unfoldable pub clear_terminated : ThreadLock → ℕ → Bool × ThreadLock
unfolding compare_exchange
clear_terminated lock tid =
    let exchanged = compare_exchange lock 0 tid in (exchanged.0 == tid, exchanged.1)

-- How long LockThread waits: `none` for `cTimeSys::k_INF`.
abbrev pub Wait : Type 0
Wait = Option ℕ

-- Where a thread is in LockThread and UnlockThread. `depth` is the number of locks that it holds.
pub data ThreadPlace : Type 0 where
  ready : (depth : ℕ) → ThreadPlace
  trying : (depth : ℕ) → Wait → ThreadPlace
  owning : (depth : ℕ) → ThreadPlace
  clearing : ThreadPlace

-- A failed attempt returns if no time is left, and else waits for a tick.
abbrev pub after_wait : ℕ → Wait → ThreadPlace
after_wait depth none = trying depth none
after_wait depth (some zero) = ready depth
after_wait depth (some (suc ms)) = trying depth (some ms)

-- One turn of the loop of LockThread, up to IncLockCount.
unfoldable pub attempt : ℕ → ℕ → Wait → ThreadLock → ThreadPlace × ThreadLock
unfolding compare_exchange
attempt tid depth wait lock =
    let exchanged = compare_exchange lock tid 0 in
    if (exchanged.0 == 0) || (exchanged.0 == tid)
    then (owning depth, exchanged.1)
    else (after_wait depth wait, exchanged.1)

-- UnlockThread, up to ClearThreadLockOwner.
unfoldable pub release : ℕ → ThreadLock → ThreadPlace × ThreadLock
release depth lock =
    let lock' = dec_lock_count lock in
    if lock'.lock_count == 0 then (clearing, lock') else (ready (depth - 1), lock')

-- The steps of a thread.
pub data ThreadStep (tid : ℕ) : ThreadPlace → ThreadLock → ThreadPlace → ThreadLock → Type 0 where
  ask :
      (depth : ℕ) (wait : Wait) (lock : ThreadLock)
      → ThreadStep tid (ready depth) lock (trying depth wait) lock
  turn :
      (depth : ℕ) (wait : Wait) (lock : ThreadLock) (place' : ThreadPlace) (lock' : ThreadLock)
      → attempt tid depth wait lock ≡ (place', lock')
      → ThreadStep tid (trying depth wait) lock place' lock'
  count :
      (depth : ℕ) (lock : ThreadLock)
      → ThreadStep tid (owning depth) lock (ready (suc depth)) (inc_lock_count lock)
  unlock :
      (depth : ℕ) (lock : ThreadLock) (place' : ThreadPlace) (lock' : ThreadLock)
      → release (suc depth) lock ≡ (place', lock')
      → ThreadStep tid (ready (suc depth)) lock place' lock'
  clear :
      (lock : ThreadLock) → ThreadStep tid clearing lock (ready 0) (clear_thread_lock_owner lock)

pub record System : Type 0 where
  pub lock : ThreadLock
  pub places : ℕ → ThreadPlace

-- The family with one thread moved.
abbrev pub move : (ℕ → ThreadPlace) → ℕ → ThreadPlace → ℕ → ThreadPlace
move places tid place other = if other == tid then place else places other

-- The states that threads with valid ids reach, in any order of their steps.
pub data Reachable : System → Type 0 where
  start : Reachable (record { lock = unlocked; places = λ tid. ready 0 })
  step :
      (system : System) (tid : ℕ) (place' : ThreadPlace) (lock' : ThreadLock)
      → Reachable system
      → 0 < tid
      → ThreadStep tid (system.places tid) system.lock place' lock'
      → Reachable (record { lock = lock'; places = move system.places tid place' })

-- A thread is inside the lock from when it has become the owner until it has cleared it.
abbrev pub inside : ThreadPlace → Bool
inside (ready zero) = false
inside (ready (suc depth)) = true
inside (trying zero wait) = false
inside (trying (suc depth) wait) = true
inside (owning depth) = true
inside clearing = true
