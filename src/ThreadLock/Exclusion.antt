-- ===== src/ThreadLock/Exclusion.antt =====
-- Only one thread at a time is inside the lock.
use gray_core.Base.{
  ℕ, zero, suc, ◌≡◌, ◌≢◌, ◌<◌, refl, sym, ap, ◌∙◌, true, false, none, some, ◌==◌, arith, ==→eq,
  ==_false→ne, Bool-cases, inl, inr,
}
use mathlib.Core.Path.{subst}
use gray_core.ThreadLock.{
  ThreadLock, ThreadPlace, ready, trying, owning, clearing, ThreadStep, ask, turn, count, unlock,
  clear, System, Reachable, start, step, inside, is_idle, attempt, release, move, after_wait, Wait,
}

-- The locks that a thread holds, as the count of the lock shows them.
abbrev pub depth_of : ThreadPlace → ℕ
depth_of (ready depth) = depth
depth_of (trying depth wait) = depth
depth_of (owning depth) = depth
depth_of clearing = 0

-- What the lock says of each thread: it is inside exactly when it is the owner, and the count is
-- its depth. Nobody inside leaves a count of 0.
pub record Agrees (lock : ThreadLock) (tid : ℕ) (place : ThreadPlace) : Type 0 where
  pub owns : inside place ≡ true → lock.owner ≡ tid
  pub owned : lock.owner ≡ tid → inside place ≡ true
  pub counted : lock.owner ≡ tid → lock.lock_count ≡ depth_of place

pub record LockInv (system : System) : Type 0 where
  pub agrees : (tid : ℕ) → 0 < tid → Agrees system.lock tid (system.places tid)
  pub free : system.lock.owner ≡ 0 → system.lock.lock_count ≡ 0

-- What a step does to the lock, for the thread that moves and for the others.
record Kept (lock lock' : ThreadLock) (tid : ℕ) (place' : ThreadPlace) : Type 0 where
  pub own : Agrees lock' tid place'
  pub untouched : (other : ℕ) → 0 < other → other ≢ tid → lock.owner ≡ other → lock' ≡ lock
  pub not_given : (other : ℕ) → 0 < other → other ≢ tid → lock'.owner ≡ other → lock.owner ≡ other
  pub free : lock'.owner ≡ 0 → lock'.lock_count ≡ 0

inside-after_wait :
    (depth : ℕ) (wait : Wait) → inside (after_wait depth wait) ≡ inside (ready depth)
inside-after_wait zero none = refl
inside-after_wait (suc depth) none = refl
inside-after_wait depth (some zero) = refl
inside-after_wait zero (some (suc ms)) = refl
inside-after_wait (suc depth) (some (suc ms)) = refl

inside-trying : (depth : ℕ) (wait : Wait) → inside (trying depth wait) ≡ inside (ready depth)
inside-trying zero wait = refl
inside-trying (suc depth) wait = refl

depth_of-after_wait : (depth : ℕ) (wait : Wait) → depth_of (after_wait depth wait) ≡ depth
depth_of-after_wait depth none = refl
depth_of-after_wait depth (some zero) = refl
depth_of-after_wait depth (some (suc ms)) = refl

module _ (tid : ℕ) (lock : ThreadLock) (pos : 0 < tid)
    (free : lock.owner ≡ 0 → lock.lock_count ≡ 0) where
  attempt-Kept :
      (depth : ℕ) (wait : Wait) (place' : ThreadPlace) (lock' : ThreadLock)
      → Agrees lock tid (trying depth wait)
      → attempt tid depth wait lock ≡ (place', lock')
      → Kept lock lock' tid place'
  unfolding attempt
  attempt-Kept depth wait place' lock' a e = record {
    own = record {
      owns = λ h. ground (arith, inside-after_wait depth wait, inside-trying depth wait);
      owned = λ h. ground (arith, inside-after_wait depth wait, inside-trying depth wait);
      counted = λ h. ground (arith, depth_of-after_wait depth wait);
    };
    untouched = λ other p ne o. ground arith;
    not_given = λ other p ne o. ground arith;
    free = λ h. ground arith;
  }

  release-Kept :
      (depth : ℕ) (place' : ThreadPlace) (lock' : ThreadLock)
      → Agrees lock tid (ready (suc depth))
      → release (suc depth) lock ≡ (place', lock')
      → Kept lock lock' tid place'
  unfolding release
  release-Kept depth place' lock' a e = record {
    own = record {
      owns = λ h. ground arith;
      owned = λ h. ground arith;
      counted = λ h. ground arith;
    };
    untouched = λ other p ne o. absurd (ground arith);
    not_given = λ other p ne o. ground arith;
    free = λ h. ground arith;
  }

  ThreadStep-Kept :
      (place : ThreadPlace) (place' : ThreadPlace) (lock' : ThreadLock)
      → Agrees lock tid place
      → ThreadStep tid place lock place' lock'
      → Kept lock lock' tid place'
  ThreadStep-Kept place place' lock' a (ask depth wait _) = record {
    own = record {
      owns = λ h. ground arith;
      owned = λ h. ground arith;
      counted = λ h. ground arith;
    };
    untouched = λ other p ne o. refl;
    not_given = λ other p ne o. o;
    free = free;
  }
  ThreadStep-Kept place place' lock' a (turn depth wait _ _ _ e) =
      attempt-Kept depth wait place' lock' a e
  ThreadStep-Kept place place' lock' a (count depth _) = record {
    own = record {
      owns = λ h. ground arith;
      owned = λ h. ground arith;
      counted = λ h. ground arith;
    };
    untouched = λ other p ne o. absurd (ground arith);
    not_given = λ other p ne o. o;
    free = λ h. ground arith;
  }
  ThreadStep-Kept place place' lock' a (unlock depth _ _ _ e) = release-Kept depth place' lock' a e
  ThreadStep-Kept place place' lock' a (clear _) = record {
    own = record {
      owns = λ h. ground arith;
      owned = λ h. ground arith;
      counted = λ h. ground arith;
    };
    untouched = λ other p ne o. absurd (ground arith);
    not_given = λ other p ne o. ground arith;
    free = λ h. ground arith;
  }

-- The invariant after a step of any thread.
module _ (before : System) (tid : ℕ) (place' : ThreadPlace) (lock' : ThreadLock)
    (inv : LockInv before) (pos : 0 < tid)
    (s : ThreadStep tid (before.places tid) before.lock place' lock') where
  kept : Kept before.lock lock' tid place'
  kept =
      ThreadStep-Kept tid before.lock pos inv.free (before.places tid) place' lock'
        (inv.agrees tid pos) s

  others : (other : ℕ) → 0 < other → other ≢ tid → Agrees lock' other (before.places other)
  others other p ne =
      let a = inv.agrees other p in
      record {
        owns = λ h. let o = a.owns h in ap (λ l. l.owner) (kept.untouched other p ne o) ∙ o;
        owned = λ h. a.owned (kept.not_given other p ne h);
        counted = λ h.
            let o = kept.not_given other p ne h in
            ap (λ l. l.lock_count) (kept.untouched other p ne o) ∙ a.counted o;
      }

  step-LockInv : LockInv (record { lock = lock'; places = move before.places tid place' })
  step-LockInv = record {
    agrees = λ other p. elim (Bool-cases (other == tid)) [
      | inl same ↦
          rw same (subst (λ t. Agrees lock' t place') (sym (==→eq other tid same)) kept.own)
      | inr different ↦ rw different (others other p (==_false→ne other tid different))
    ];
    free = kept.free;
  }

pub Reachable-LockInv : (system : System) → Reachable system → LockInv system
Reachable-LockInv system start = record {
  agrees = λ tid pos. record {
    owns = λ h. absurd (cc);
    owned = λ h. absurd (omega arith);
    counted = λ h. refl;
  };
  free = λ h. refl;
}
Reachable-LockInv system (step before tid place' lock' r pos s) =
    step-LockInv before tid place' lock' (Reachable-LockInv before r) pos s

-- In every state that any number of threads reach, in any order of their steps, two threads inside
-- the lock are one thread; it is the owner, and the count is the number of locks that it holds.
pub Reachable-excludes :
    (system : System) (a b : ℕ)
    → Reachable system
    → 0 < a
    → 0 < b
    → inside (system.places a) ≡ true
    → inside (system.places b) ≡ true
    → (a ≡ b) × (system.lock.owner ≡ a) × (system.lock.lock_count ≡ depth_of (system.places a))
Reachable-excludes system a b r pa pb in_a in_b =
    let inv = Reachable-LockInv system r in
    let owner_a = (inv.agrees a pa).owns in_a in
    (sym owner_a ∙ (inv.agrees b pb).owns in_b, owner_a, (inv.agrees a pa).counted owner_a)

-- In every such state a lock without an owner has a count of 0 and no thread inside.
pub Reachable-idle :
    (system : System) (tid : ℕ)
    → Reachable system
    → 0 < tid
    → system.lock.owner ≡ 0
    → (is_idle system.lock ≡ true) × (inside (system.places tid) ≡ false)
Reachable-idle system tid r pos free =
    let inv = Reachable-LockInv system r in (rw (free, inv.free free) refl, outside inv)
  where
    outside : LockInv system → inside (system.places tid) ≡ false
    outside inv = elim (Bool-cases (inside (system.places tid))) [
      | inr out ↦ out
      | inl inn ↦ absurd (omega (arith, (inv.agrees tid pos).owns inn))
    ]
