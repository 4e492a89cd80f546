-- ===== src/ThreadLockRw/Excludes.antt =====
-- Writers exclude one another and the readers, and the readers are counted.
use gray_core.Base.{
  ℕ, zero, suc, ◌≡◌, ◌<◌, refl, ap, ◌∙◌, Bool, true, false, none, arith, inl, inr, Bool-cases,
}
use gray_core.ThreadLock.{
  ThreadPlace, ready, trying, owning, clearing, System, Reachable, move, attempt, release, inside,
}
use gray_core.ThreadLock.Exclusion.{depth_of, Reachable-excludes, Reachable-LockInv}
use gray_core.ThreadLockRw.{
  RwSystem, RwStep, RwReachable, rw_start, rw_step, k_reader_thread_id, write, downgrade, call,
  wait, hold, reader_asks, reader_turn, reader_count, reader_unlock, reader_clear, leave,
  leave_clear, ReadPlace, outside, asks, holds, leaves, enter, after_release, get_reader_count,
}
use gray_core.ThreadLockRw.Locks.{RwReachable-main, RwReachable-guard}

-- A thread is between the two ends of the guard on `_ReaderLock`.
abbrev pub in_section : ReadPlace → Bool
in_section outside = false
in_section (asks which) = false
in_section (holds which) = true
in_section leaves = true

module _ (tid : ℕ) (place : ThreadPlace) (read : ReadPlace) where
  Section-moved :
      (places : ℕ → ThreadPlace) (reading : ℕ → ReadPlace) (t : ℕ)
      → (in_section read ≡ true → inside place ≡ true)
      → (in_section (reading t) ≡ true → inside (places t) ≡ true)
      → in_section (enter reading tid read t) ≡ true
      → inside (move places tid place t) ≡ true
  Section-moved places reading t own others h = ground arith

abbrev Section : RwSystem → Type 0
Section s = (t : ℕ) → in_section (s.reading t) ≡ true → inside (s.guard.places t) ≡ true

RwStep-Section : (tid : ℕ) (s s' : RwSystem) → Section s → RwStep tid s s' → Section s'
unfolding attempt release
RwStep-Section tid s s' inv (write place' lock' out own) t = inv t
RwStep-Section tid s s' inv (downgrade depth out at own) t = inv t
RwStep-Section tid s s' inv (call which depth out at free here) t =
    Section-moved tid (trying 0 none) (asks which) s.guard.places s.reading t (λ h. ground arith)
      (inv t)
RwStep-Section tid s s' inv (wait which place' lock' in_call here e) t = λ h. ground (arith, inv t)
RwStep-Section tid s s' inv (hold which in_call here) t =
    Section-moved tid (ready 1) (holds which) s.guard.places s.reading t (λ h. refl) (inv t)
RwStep-Section tid s s' inv (reader_asks depth in_call at) t = inv t
RwStep-Section tid s s' inv (reader_turn depth place' lock' in_call at e) t = inv t
RwStep-Section tid s s' inv (reader_count depth in_call at) t = λ h. ground (arith, inv t)
RwStep-Section tid s s' inv (reader_unlock depth place' lock' in_call at e) t =
    λ h. ground (arith, inv t)
RwStep-Section tid s s' inv (reader_clear in_call at) t = λ h. ground (arith, inv t)
RwStep-Section tid s s' inv (leave place' lock' in_call here e) t =
    Section-moved tid place' (after_release leaves outside place') s.guard.places s.reading t
      (λ h. ground arith) (inv t)
RwStep-Section tid s s' inv (leave_clear in_call here) t =
    Section-moved tid (ready 0) outside s.guard.places s.reading t (λ h. ground arith) (inv t)

abbrev Counted : RwSystem → Type 0
Counted s = s.readers ≡ depth_of (s.main.places k_reader_thread_id)

-- The count of the lock while the readers are inside it.
count-inside :
    (s : System)
    → Reachable s
    → inside (s.places k_reader_thread_id) ≡ true
    → s.lock.lock_count ≡ depth_of (s.places k_reader_thread_id)
count-inside s r inn = (Reachable-excludes s 1 1 r (omega arith) (omega arith) inn inn).2

RwStep-Counted :
    (tid : ℕ) (s s' : RwSystem)
    → k_reader_thread_id < tid
    → Reachable s.main
    → Counted s
    → RwStep tid s s'
    → Counted s'
unfolding attempt release
RwStep-Counted tid s s' pos r inv (write place' lock' out own) = ground arith
RwStep-Counted tid s s' pos r inv (downgrade depth out at own) = ground arith
RwStep-Counted tid s s' pos r inv (call which depth out at free here) = inv
RwStep-Counted tid s s' pos r inv (wait which place' lock' in_call here e) = inv
RwStep-Counted tid s s' pos r inv (hold which in_call here) = inv
RwStep-Counted tid s s' pos r inv (reader_asks depth in_call at) = ground arith
RwStep-Counted tid s s' pos r inv (reader_turn depth place' lock' in_call at e) = ground arith
RwStep-Counted tid s s' pos r inv (reader_count depth in_call at) = ground arith
RwStep-Counted tid s s' pos r inv (reader_unlock depth place' lock' in_call at e) =
    ground (arith, count-inside s.main r (rw at refl), ap depth_of at)
RwStep-Counted tid s s' pos r inv (reader_clear in_call at) = ground (arith, ap depth_of at)
RwStep-Counted tid s s' pos r inv (leave place' lock' in_call here e) = inv
RwStep-Counted tid s s' pos r inv (leave_clear in_call here) = inv

RwReachable-Section : (s : RwSystem) → RwReachable s → Section s
RwReachable-Section s rw_start = λ t h. ground arith
RwReachable-Section s (rw_step before after tid r pos moves) =
    RwStep-Section tid before after (RwReachable-Section before r) moves

RwReachable-Counted : (s : RwSystem) → RwReachable s → Counted s
RwReachable-Counted s rw_start = refl
RwReachable-Counted s (rw_step before after tid r pos moves) =
    RwStep-Counted tid before after pos (RwReachable-main before r) (RwReachable-Counted before r)
      moves

depth_outside : (place : ThreadPlace) → inside place ≡ false → depth_of place ≡ 0
depth_outside (ready zero) out = refl
depth_outside (ready (suc depth)) out = ground arith
depth_outside (trying zero for) out = refl
depth_outside (trying (suc depth) for) out = ground arith
depth_outside (owning depth) out = ground arith
depth_outside clearing out = refl

-- In every state that threads reach, whatever the order of their steps, get_ReaderCount is the
-- number of LockRead that have taken the lock under the id of the readers and are not yet unlocked;
-- the LockRead of a thread that holds the lock for writing is not counted.
pub get_reader_count-readers :
    (s : RwSystem) → RwReachable s → get_reader_count s.main.lock ≡ s.readers
unfolding get_reader_count
get_reader_count-readers s r =
    let agrees = (Reachable-LockInv s.main (RwReachable-main s r)).agrees 1 (omega arith) in
    ground (arith, agrees, RwReachable-Counted s r, depth_outside (s.main.places 1))

-- In every state that threads reach, whatever the order of their steps, while a thread is inside the
-- lock for writing no LockRead holds it under the id of the readers, and no other thread, nor the
-- readers, are inside the lock.
pub RwReachable-excludes :
    (s : RwSystem) (writer : ℕ)
    → RwReachable s
    → k_reader_thread_id < writer
    → inside (s.main.places writer) ≡ true
    → (s.readers ≡ 0)
      × ((other : ℕ) → 0 < other → inside (s.main.places other) ≡ true → other ≡ writer)
RwReachable-excludes s writer r valid inn =
    (none_reads, λ other pos in_other. (alone other pos in_other).0)
  where
    alone :
        (other : ℕ)
        → 0 < other
        → inside (s.main.places other) ≡ true
        → (other ≡ writer)
          × (s.main.lock.owner ≡ other)
          × (s.main.lock.lock_count ≡ depth_of (s.main.places other))
    alone other pos in_other =
        Reachable-excludes s.main other writer (RwReachable-main s r) pos (omega (arith, valid))
          in_other inn

    none_reads : s.readers ≡ 0
    none_reads = elim (Bool-cases (inside (s.main.places 1))) [
      | inl reads ↦ absurd (omega (arith, valid, (alone 1 (omega arith) reads).0))
      | inr out ↦ RwReachable-Counted s r ∙ depth_outside (s.main.places 1) out
    ]

-- No two threads at a time are between the two ends of a guard on `_ReaderLock`, where the readers
-- lock and unlock.
pub RwReachable-one_at_a_time :
    (s : RwSystem) (a b : ℕ)
    → RwReachable s
    → 0 < a
    → 0 < b
    → in_section (s.reading a) ≡ true
    → in_section (s.reading b) ≡ true
    → a ≡ b
RwReachable-one_at_a_time s a b r pa pb in_a in_b =
    let section = RwReachable-Section s r in
    (Reachable-excludes s.guard a b (RwReachable-guard s r) pa pb (section a in_a)
      (section b in_b)).0
