-- ===== src/Queue/Linear/Writing.antt =====
-- Writes to a linear queue, against the abstract queue of Queue/Fifo.
use gray_core.Base.{
  ℕ, ◌+◌, ◌-◌, ◌≤◌, ◌<◌, ◌≡◌, ◌∙◌, refl, sym, ap, inl, inr, min, Bool, true, false, ◌&&◌, ◌==◌,
  List, [], ◌∷◌, ◌++◌, length, take, arith, tests, ltb, leb, Bool-cases, length-take, take-all,
  take-min, lt→ltb, le→ltb_false, le→leb, if◌then◌else◌,
}
use mathlib.Core.List.{append-nil}
use mathlib.Core.Path.{subst}
use gray_core.Queue.Fifo.{put_many, put_all}
use gray_core.Queue.Static.{copy_qty}
use gray_core.Queue.Static.Copy.{length-copy_qty}
use gray_core.Base.Slices.{take-append_before}
use gray_core.Queue.Linear.{
  QueueRw, span_read, write_space_qty, advance_write, write_span_q, write_q, set_empty_q,
}
use gray_core.Queue.Linear.Contents.{LinearInv, span_read-written, copy_qty-append}

module _ {ℓ} {A : Type ℓ} where
  -- What a queue can hold without a commit: what it holds and the space behind it.
  abbrev pub capacity : QueueRw A → ℕ
  capacity q = length (span_read q) + write_space_qty q

  -- The outcome of a write: the order of the indexes, what the queue holds as the abstract queue
  -- says, and what was read before, which a seek can still reach.
  pub record Writes (q : QueueRw A) (abstract : ℕ × List A) (result : ℕ × QueueRw A) : Type ℓ where
    pub inv : LinearInv result.1
    pub holds : (result.0, span_read result.1) ≡ abstract
    pub past : take q.write_index result.1.block ≡ take q.write_index q.block
    pub reader : result.1.read_index ≡ q.read_index

  Writes-copied :
      (q : QueueRw A) (src : List A) (n : ℕ)
      → LinearInv q
      → n ≡ length src
      → n ≤ write_space_qty q
      → Writes q
          (n, span_read q ++ src)
          (n, advance_write (record q { block = copy_qty q.block q.write_index src }) n)
  Writes-copied q src n inv e h = record {
    inv = record {
      normal = omega (arith, inv.normal);
      fits = omega (arith, inv.fits, length-copy_qty q.block q.write_index src);
    };
    holds =
        ap (λ l. (n, l))
          (ap
              (λ k.
                span_read
                  (advance_write (record q { block = copy_qty q.block q.write_index src }) k))
              e
            ∙ span_read-written q src inv (omega (arith, inv.fits)));
    past =
        ap (take q.write_index)
          (copy_qty-append q.block q.write_index src _ refl (omega (arith, inv.fits)))
        ∙ take-append_before q.write_index (take q.write_index q.block) _
            (omega (arith, inv.fits, length-take q.write_index q.block))
        ∙ take-all q.write_index (take q.write_index q.block)
            (omega (arith, length-take q.write_index q.block));
    reader = refl;
  }

  -- A write that need not be whole is `put_many` of the abstract queue: as much as there is space for.
  pub write_span_q_refines :
      (q : QueueRw A) (src : List A)
      → LinearInv q
      → Writes q (put_many (capacity q) (span_read q) src) (write_span_q q src false)
  unfolding write_span_q put_many
  write_span_q_refines q src inv =
      subst (λ a. Writes q a (write_span_q q src false))
        (ap (λ l. (count, span_read q ++ l)) (take-min (write_space_qty q) src)
          ∙ ap (λ k. (min k (length src), span_read q ++ take k src)) room)
        (Writes-copied q (take count src) count inv (omega (arith, length-take count src))
          (omega arith))
    where
      count : ℕ
      count = min (write_space_qty q) (length src)

      room : write_space_qty q ≡ capacity q - length (span_read q)
      room = omega arith

  -- An atomic write is `put_all` of the abstract queue: all or nothing.
  pub write_span_q_atomic :
      (q : QueueRw A) (src : List A)
      → LinearInv q
      → Writes q (put_all (capacity q) (span_read q) src) (write_span_q q src true)
  unfolding write_span_q put_all
  write_span_q_atomic q src inv = elim (Bool-cases (ltb (write_space_qty q) (length src))) [
    | inl full ↦
        subst (λ k. Writes q (all_if (ltb k (length src))) (write_span_q q src true)) room
          (rw (write_span_q, full) record { inv = inv; holds = refl; past = refl; reader = refl })
    | inr fits ↦
        subst (λ k. Writes q (all_if (ltb k (length src))) (write_span_q q src true)) room
          (rw
            (write_span_q, fits, all (omega (tests, fits)), take-all (length src) src (omega arith))
            (Writes-copied q src (length src) inv refl (omega (tests, fits))))
  ]
    where
      all_if : Bool → ℕ × List A
      all_if full = if full then (0, span_read q) else (length src, span_read q ++ src)

      room : write_space_qty q ≡ capacity q - length (span_read q)
      room = omega arith

      all : length src ≤ write_space_qty q → min (write_space_qty q) (length src) ≡ length src
      all h = omega arith

  -- What WriteQ leaves of the two queues: the elements are moved, all at once or not at all.
  pub record Moves (q other : QueueRw A) (result : Bool × QueueRw A × QueueRw A) : Type ℓ where
    pub inv : LinearInv result.1
    pub other_inv : LinearInv result.2
    pub kept : span_read result.1 ++ span_read result.2 ≡ span_read q ++ span_read other
    pub moved : result.0 ≡ true → span_read result.2 ≡ []
    pub refused : result.0 ≡ false → (result.1 ≡ q) × (result.2 ≡ other)
    pub when :
        result.0
        ≡ (ltb 0 (length (span_read other)) && leb (length (span_read other)) (write_space_qty q))

  Moves-refused :
      (q other : QueueRw A)
      → LinearInv q
      → LinearInv other
      → (ltb 0 (length (span_read other)) && leb (length (span_read other)) (write_space_qty q))
        ≡ false
      → Moves q other (false, q, other)
  Moves-refused q other inv other_inv e = record {
    inv = inv;
    other_inv = other_inv;
    kept = refl;
    moved = λ h. absurd (cc);
    refused = λ h. (refl, refl);
    when = sym e;
  }

  put_all-fits :
      (cap : ℕ) (xs src : List A)
      → length src ≤ cap - length xs
      → put_all cap xs src ≡ (length src, xs ++ src)
  unfolding put_all
  put_all-fits cap xs src h = rw (put_all, le→ltb_false _ _ h) refl

  write_span_q_full :
      (q : QueueRw A) (src : List A)
      → write_space_qty q < length src
      → write_span_q q src true ≡ (0, q)
  unfolding write_span_q
  write_span_q_full q src h = rw (write_span_q, lt→ltb _ _ h) refl

  write_nothing : (q : QueueRw A) (src : List A) → length src ≡ 0 → write_span_q q src true ≡ (0, q)
  unfolding write_span_q copy_qty
  write_nothing q [] h = ground arith
  write_nothing q (x ∷ src) h = absurd (omega arith)

  Moves-done :
      (q other : QueueRw A) (written : ℕ × QueueRw A)
      → LinearInv other
      → Writes q (put_all (capacity q) (span_read q) (span_read other)) written
      → 0 < length (span_read other)
      → length (span_read other) ≤ write_space_qty q
      → Moves q other (true, written.1, set_empty_q other)
  unfolding span_read
  Moves-done q other written other_inv w pos fits = record {
    inv = w.inv;
    other_inv = record { normal = omega arith; fits = omega arith };
    kept =
        append-nil (span_read written.1)
        ∙ ap (λ r. r.1) w.holds
        ∙ ap (λ r. r.1) (put_all-fits (capacity q) (span_read q) (span_read other) (omega arith));
    moved = λ h. refl;
    refused = λ h. absurd (cc);
    when = rw (lt→ltb 0 _ pos, le→leb _ _ fits) refl;
  }

  -- WriteQ moves the whole of the other queue, if that is not empty and there is space for it.
  pub write_q-Moves :
      (q other : QueueRw A) → LinearInv q → LinearInv other → Moves q other (write_q q other)
  unfolding write_q
  write_q-Moves q other inv other_inv = elim (Bool-cases (ltb 0 (length (span_read other)))) [
    | inr nothing ↦
        rw (write_q, write_nothing q (span_read other) (omega (tests, nothing)))
          (Moves-refused q other inv other_inv (rw nothing refl))
    | inl pos ↦ elim (Bool-cases (leb (length (span_read other)) (write_space_qty q))) [
      | inl fits ↦
          rw (write_q, wrote (omega (tests, pos)) (omega (tests, fits)))
            (Moves-done q other (write_span_q q (span_read other) true) other_inv
              (write_span_q_atomic q (span_read other) inv) (omega (tests, pos))
              (omega (tests, fits)))
      | inr full ↦
          rw (write_q, write_span_q_full q (span_read other) (omega (tests, full)))
            (Moves-refused q other inv other_inv (rw (pos, full) refl))
    ]
  ]
    where
      wrote :
          0 < length (span_read other)
          → length (span_read other) ≤ write_space_qty q
          → ((write_span_q q (span_read other) true).0 == 0) ≡ false
      wrote pos fits =
          rw
            (ap (λ r. r.0) (write_span_q_atomic q (span_read other) inv).holds
              ∙ ap (λ r. r.0)
                  (put_all-fits (capacity q) (span_read q) (span_read other) (omega arith)))
            (ground arith)
