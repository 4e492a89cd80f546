-- ===== src/ThreadLockRw.antt =====
-- include/cThreadLockRW.h, `cThreadLockRW` and `cThreadGuardRead`: a lock for many readers or one
-- writer. It is a thread lock, which all readers take under the one id `kReaderThreadId`, and a
-- second thread lock that a reader holds while it does so. The steps are those of ThreadLock, on the
-- one lock or the other.
pub mod Locks
pub mod Excludes
mod Tests
use gray_core.Base.{
  ℕ, zero, suc, ◌+◌, ◌-◌, ◌≡◌, ◌≢◌, Bool, true, false, Option, none, some, List, [], ◌∷◌, ◌==◌,
  ◌||◌, if◌then◌else◌, not, ◌<◌,
}
use gray_core.ThreadLock.{
  ThreadLock, ThreadPlace, ready, trying, owning, clearing, ThreadStep, System, move, is_locked_by,
  inc_lock_count, attempt, release, clear_thread_lock_owner, unlocked,
}

abbrev pub k_reader_thread_id : ℕ
k_reader_thread_id = 1

-- LockRead or UnlockRead.
pub data ReadCall : Type 0 where
  lock_read : ReadCall
  unlock_read : ReadCall

-- Where a thread is in a call: outside, waiting for `_ReaderLock`, in it, and leaving it at the end
-- of the guard's scope.
pub data ReadPlace : Type 0 where
  outside : ReadPlace
  asks : ReadCall → ReadPlace
  holds : ReadCall → ReadPlace
  leaves : ReadPlace

-- The lock itself with the place of each thread, and of the readers together under their id;
-- `_ReaderLock` with the place of each thread; the place of each thread in a call; and how many
-- LockRead have taken the lock under the id of the readers and are not yet unlocked. The LockRead of
-- a thread that holds the lock for writing is not one of them: it counts as one more lock of the
-- writer.
pub record RwSystem : Type 0 where
  pub main : System
  pub guard : System
  pub reading : ℕ → ReadPlace
  pub readers : ℕ

abbrev pub moved : System → ℕ → ThreadPlace → ThreadLock → System
moved system tid place lock = record { lock = lock; places = move system.places tid place }

abbrev pub enter : (ℕ → ReadPlace) → ℕ → ReadPlace → ℕ → ReadPlace
enter reading tid place other = if other == tid then place else reading other

-- get_ReaderCount.
unfoldable pub get_reader_count : ThreadLock → ℕ
get_reader_count lock = if is_locked_by lock k_reader_thread_id then lock.lock_count else 0

-- What follows UnlockThread: ClearThreadLockOwner is still to come, or it is done.
abbrev pub after_release : ReadPlace → ReadPlace → ThreadPlace → ReadPlace
after_release now later clearing = now
after_release now later (ready depth) = later
after_release now later (trying depth wait) = later
after_release now later (owning depth) = later

-- The steps of a thread.
pub data RwStep (tid : ℕ) (s : RwSystem) : RwSystem → Type 0 where
  -- Lock and Unlock of the base class, for writing.
  write :
      (place' : ThreadPlace) (lock' : ThreadLock)
      → s.reading tid ≡ outside
      → ThreadStep tid (s.main.places tid) s.main.lock place' lock'
      → RwStep tid s (record s { main = moved s.main tid place' lock' })
  -- LockRead of the thread that writes. Its UnlockRead is the Unlock of the base class.
  downgrade :
      (depth : ℕ)
      → s.reading tid ≡ outside
      → s.main.places tid ≡ ready depth
      → is_locked_by s.main.lock tid ≡ true
      → RwStep tid s
          (record s { main = moved s.main tid (ready (suc depth)) (inc_lock_count s.main.lock) })
  -- A call of a thread that does not write: it asks for `_ReaderLock`.
  call :
      (which : ReadCall) (depth : ℕ)
      → s.reading tid ≡ outside
      → s.main.places tid ≡ ready depth
      → is_locked_by s.main.lock tid ≡ false
      → s.guard.places tid ≡ ready 0
      → RwStep tid s (record s {
        guard = moved s.guard tid (trying 0 none) s.guard.lock;
        reading = enter s.reading tid (asks which);
      })
  wait :
      (which : ReadCall) (place' : ThreadPlace) (lock' : ThreadLock)
      → s.reading tid ≡ asks which
      → s.guard.places tid ≡ trying 0 none
      → attempt tid 0 none s.guard.lock ≡ (place', lock')
      → RwStep tid s (record s { guard = moved s.guard tid place' lock' })
  hold :
      (which : ReadCall)
      → s.reading tid ≡ asks which
      → s.guard.places tid ≡ owning 0
      → RwStep tid s (record s {
        guard = moved s.guard tid (ready 1) (inc_lock_count s.guard.lock);
        reading = enter s.reading tid (holds which);
      })
  -- LockThread of the readers, without a limit.
  reader_asks :
      (depth : ℕ)
      → s.reading tid ≡ holds lock_read
      → s.main.places k_reader_thread_id ≡ ready depth
      → RwStep tid s
          (record s { main = moved s.main k_reader_thread_id (trying depth none) s.main.lock })
  reader_turn :
      (depth : ℕ) (place' : ThreadPlace) (lock' : ThreadLock)
      → s.reading tid ≡ holds lock_read
      → s.main.places k_reader_thread_id ≡ trying depth none
      → attempt k_reader_thread_id depth none s.main.lock ≡ (place', lock')
      → RwStep tid s (record s { main = moved s.main k_reader_thread_id place' lock' })
  reader_count :
      (depth : ℕ)
      → s.reading tid ≡ holds lock_read
      → s.main.places k_reader_thread_id ≡ owning depth
      → RwStep tid s (record s {
        main = moved s.main k_reader_thread_id (ready (suc depth)) (inc_lock_count s.main.lock);
        reading = enter s.reading tid leaves;
        readers = s.readers + 1;
      })
  -- UnlockThread of the readers: some thread has locked for reading.
  reader_unlock :
      (depth : ℕ) (place' : ThreadPlace) (lock' : ThreadLock)
      → s.reading tid ≡ holds unlock_read
      → s.main.places k_reader_thread_id ≡ ready (suc depth)
      → release (suc depth) s.main.lock ≡ (place', lock')
      → RwStep tid s (record s {
        main = moved s.main k_reader_thread_id place' lock';
        reading = enter s.reading tid (after_release (holds unlock_read) leaves place');
        readers = s.readers - 1;
      })
  reader_clear :
      s.reading tid ≡ holds unlock_read
      → s.main.places k_reader_thread_id ≡ clearing
      → RwStep tid s (record s {
        main = moved s.main k_reader_thread_id (ready 0) (clear_thread_lock_owner s.main.lock);
        reading = enter s.reading tid leaves;
      })
  -- UnlockThread of `_ReaderLock`.
  leave :
      (place' : ThreadPlace) (lock' : ThreadLock)
      → s.reading tid ≡ leaves
      → s.guard.places tid ≡ ready 1
      → release 1 s.guard.lock ≡ (place', lock')
      → RwStep tid s (record s {
        guard = moved s.guard tid place' lock';
        reading = enter s.reading tid (after_release leaves outside place');
      })
  leave_clear :
      s.reading tid ≡ leaves
      → s.guard.places tid ≡ clearing
      → RwStep tid s (record s {
        guard = moved s.guard tid (ready 0) (clear_thread_lock_owner s.guard.lock);
        reading = enter s.reading tid outside;
      })

abbrev pub idle : System
idle = record { lock = unlocked; places = λ tid. ready 0 }

-- The states that threads reach, in any order of their steps. The id of the readers is no thread's.
pub data RwReachable : RwSystem → Type 0 where
  rw_start :
      RwReachable (record { main = idle; guard = idle; reading = λ tid. outside; readers = 0 })
  rw_step :
      (s s' : RwSystem) (tid : ℕ)
      → RwReachable s
      → k_reader_thread_id < tid
      → RwStep tid s s'
      → RwReachable s'
