-- ===== src/ThreadLockRw/Locks.antt =====
-- Each of the two locks runs as a thread lock, whose other users are the threads and the readers.
use gray_core.Base.{ℕ, suc, ◌≡◌, ◌<◌, refl, sym, ap, ◌∙◌, true, none, arith}
use mathlib.Core.Path.{subst}
use std.Path.{fun_ext}
use gray_core.ThreadLock.{
  ThreadLock, ThreadPlace, ready, trying, owning, clearing, ThreadStep, ask, turn, count, unlock,
  clear, System, Reachable, start, step, move, attempt, is_locked_by, inc_lock_count,
}
use gray_core.ThreadLockRw.{
  RwSystem, RwStep, RwReachable, rw_start, rw_step, moved, write, downgrade, call, wait, hold,
  reader_asks, reader_turn, reader_count, reader_unlock, reader_clear, leave, leave_clear,
}

-- A step of the thread lock, where the place is known.
stepped :
    (system : System) (tid : ℕ) (place place' : ThreadPlace) (lock' : ThreadLock)
    → Reachable system
    → 0 < tid
    → system.places tid ≡ place
    → ThreadStep tid place system.lock place' lock'
    → Reachable (moved system tid place' lock')
stepped system tid place place' lock' r pos at s =
    step system tid place' lock' r pos
      (subst (λ p. ThreadStep tid p system.lock place' lock') (sym at) s)

move-twice :
    (places : ℕ → ThreadPlace) (tid : ℕ) (p q : ThreadPlace)
    → move (move places tid p) tid q ≡ move places tid q
move-twice places tid p q = fun_ext λ other. ground arith

move-same : (places : ℕ → ThreadPlace) (tid : ℕ) (p : ThreadPlace) → move places tid p tid ≡ p
move-same places tid p = ground arith

own_attempt :
    (tid depth : ℕ) (lock : ThreadLock)
    → 0 < tid
    → is_locked_by lock tid ≡ true
    → attempt tid depth none lock ≡ (owning depth, lock)
unfolding attempt
own_attempt tid depth lock pos own = ground arith

-- LockRead of the thread that writes does what a Lock of it would do.
module _ (system : System) (tid depth : ℕ) where
  downgrade-Reachable :
      Reachable system
      → 0 < tid
      → system.places tid ≡ ready depth
      → is_locked_by system.lock tid ≡ true
      → Reachable (moved system tid (ready (suc depth)) (inc_lock_count system.lock))
  downgrade-Reachable r pos at own =
      subst (λ places. Reachable (record { lock = inc_lock_count system.lock; places = places }))
        (ap (λ places. move places tid (ready (suc depth)))
            (move-twice system.places tid (trying depth none) (owning depth))
          ∙ move-twice system.places tid (owning depth) (ready (suc depth)))
        (stepped owned tid (owning depth) (ready (suc depth)) (inc_lock_count system.lock)
          (stepped asked tid (trying depth none) (owning depth) system.lock
            (stepped system tid (ready depth) (trying depth none) system.lock r pos at
              (ask depth none system.lock))
            pos (move-same system.places tid (trying depth none))
            (turn depth none system.lock (owning depth) system.lock
              (own_attempt tid depth system.lock pos own)))
          pos (move-same asked.places tid (owning depth)) (count depth system.lock))
    where
      asked : System
      asked = moved system tid (trying depth none) system.lock

      owned : System
      owned = moved asked tid (owning depth) system.lock

RwStep-main :
    (tid : ℕ) (s s' : RwSystem) → 0 < tid → Reachable s.main → RwStep tid s s' → Reachable s'.main
RwStep-main tid s s' pos r (write place' lock' out own) =
    stepped s.main tid (s.main.places tid) place' lock' r pos refl own
RwStep-main tid s s' pos r (downgrade depth out at own) =
    downgrade-Reachable s.main tid depth r pos at own
RwStep-main tid s s' pos r (call which depth out at free here) = r
RwStep-main tid s s' pos r (wait which place' lock' in_call here e) = r
RwStep-main tid s s' pos r (hold which in_call here) = r
RwStep-main tid s s' pos r (reader_asks depth in_call at) =
    stepped s.main 1 (ready depth) (trying depth none) s.main.lock r (omega arith) at
      (ask depth none s.main.lock)
RwStep-main tid s s' pos r (reader_turn depth place' lock' in_call at e) =
    stepped s.main 1 (trying depth none) place' lock' r (omega arith) at
      (turn depth none s.main.lock place' lock' e)
RwStep-main tid s s' pos r (reader_count depth in_call at) =
    stepped s.main 1 (owning depth) (ready (suc depth)) (inc_lock_count s.main.lock) r (omega arith)
      at (count depth s.main.lock)
RwStep-main tid s s' pos r (reader_unlock depth place' lock' in_call at e) =
    stepped s.main 1 (ready (suc depth)) place' lock' r (omega arith) at
      (unlock depth s.main.lock place' lock' e)
RwStep-main tid s s' pos r (reader_clear in_call at) =
    stepped s.main 1 clearing (ready 0) _ r (omega arith) at (clear s.main.lock)
RwStep-main tid s s' pos r (leave place' lock' in_call here e) = r
RwStep-main tid s s' pos r (leave_clear in_call here) = r

RwStep-guard :
    (tid : ℕ) (s s' : RwSystem) → 0 < tid → Reachable s.guard → RwStep tid s s' → Reachable s'.guard
RwStep-guard tid s s' pos r (write place' lock' out own) = r
RwStep-guard tid s s' pos r (downgrade depth out at own) = r
RwStep-guard tid s s' pos r (call which depth out at free here) =
    stepped s.guard tid (ready 0) (trying 0 none) s.guard.lock r pos here (ask 0 none s.guard.lock)
RwStep-guard tid s s' pos r (wait which place' lock' in_call here e) =
    stepped s.guard tid (trying 0 none) place' lock' r pos here
      (turn 0 none s.guard.lock place' lock' e)
RwStep-guard tid s s' pos r (hold which in_call here) =
    stepped s.guard tid (owning 0) (ready 1) _ r pos here (count 0 s.guard.lock)
RwStep-guard tid s s' pos r (reader_asks depth in_call at) = r
RwStep-guard tid s s' pos r (reader_turn depth place' lock' in_call at e) = r
RwStep-guard tid s s' pos r (reader_count depth in_call at) = r
RwStep-guard tid s s' pos r (reader_unlock depth place' lock' in_call at e) = r
RwStep-guard tid s s' pos r (reader_clear in_call at) = r
RwStep-guard tid s s' pos r (leave place' lock' in_call here e) =
    stepped s.guard tid (ready 1) place' lock' r pos here (unlock 0 s.guard.lock place' lock' e)
RwStep-guard tid s s' pos r (leave_clear in_call here) =
    stepped s.guard tid clearing (ready 0) _ r pos here (clear s.guard.lock)

pub RwReachable-main : (s : RwSystem) → RwReachable s → Reachable s.main
RwReachable-main s rw_start = start
RwReachable-main s (rw_step before after tid r pos moves) =
    RwStep-main tid before after (omega (arith, pos)) (RwReachable-main before r) moves

pub RwReachable-guard : (s : RwSystem) → RwReachable s → Reachable s.guard
RwReachable-guard s rw_start = start
RwReachable-guard s (rw_step before after tid r pos moves) =
    RwStep-guard tid before after (omega (arith, pos)) (RwReachable-guard before r) moves
