-- ===== src/Queue/Linear/Contents.antt =====
-- What a linear queue holds, and that a commit of what was read leaves it alone.
use gray_core.Base.{
  ℕ, zero, suc, ◌+◌, ◌-◌, ◌≤◌, ◌≡◌, ◌∙◌, refl, sym, ap, inl, inr, not, ◌&&◌, ◌==◌, List, [], ◌∷◌,
  ◌++◌, length, take, drop, set, arith, tests, ltb, leb, Bool-cases, length-take, length-drop,
  take-all,
}
use gray_core.Base.Slices.{drop-append, drop-take, take-append, take-append_before, drop-drop}
use gray_core.Queue.Static.{copy_qty}
use gray_core.Queue.Static.Copy.{length-copy_qty}
use gray_core.Queue.Linear.{
  QueueRw, init_q, span_read, read_qty, advance_read, advance_write, read_commit_now,
  read_commit_check,
}

-- isNormal, and the writer within its block.
pub record LinearInv {ℓ} {A : Type ℓ} (q : QueueRw A) : Type 0 where
  pub normal : q.read_index ≤ q.write_index
  pub fits : q.write_index ≤ length q.block

module _ {ℓ} {A : Type ℓ} where
  copy_qty-cons :
      (y : A) (ys : List A) (i : ℕ) (src : List A)
      → copy_qty (y ∷ ys) (suc i) src ≡ y ∷ copy_qty ys i src
  unfolding copy_qty
  copy_qty-cons y ys i [] = refl
  copy_qty-cons y ys i (x ∷ src) = copy_qty-cons y (set ys i x) (suc i) src

  pub copy_qty-append :
      (dest : List A) (i : ℕ) (src : List A) (end : ℕ)
      → end ≡ i + length src
      → end ≤ length dest
      → copy_qty dest i src ≡ take i dest ++ (src ++ drop end dest)
  unfolding copy_qty
  copy_qty-append [] zero [] zero e h = refl
  copy_qty-append [] i src (suc end) e h = absurd (omega arith)
  copy_qty-append [] zero (x ∷ src) zero e h = absurd (omega arith)
  copy_qty-append [] (suc i) src zero e h = absurd (omega arith)
  copy_qty-append (y ∷ ys) zero [] zero e h = refl
  copy_qty-append (y ∷ ys) zero [] (suc end) e h = absurd (omega arith)
  copy_qty-append (y ∷ ys) zero (x ∷ src) zero e h = absurd (omega arith)
  copy_qty-append (y ∷ ys) zero (x ∷ src) (suc end) e h =
      copy_qty-cons x ys 0 src
      ∙ ap (λ l. x ∷ l) (copy_qty-append ys 0 src end (omega arith) (omega arith))
  copy_qty-append (y ∷ ys) (suc i) src zero e h = absurd (omega arith)
  copy_qty-append (y ∷ ys) (suc i) src (suc end) e h =
      copy_qty-cons y ys i src
      ∙ ap (λ l. y ∷ l) (copy_qty-append ys i src end (omega arith) (omega arith))

  pub length-span_read : (q : QueueRw A) → LinearInv q → length (span_read q) ≡ read_qty q
  unfolding span_read
  length-span_read q inv = omega (
    arith,
    length-take (read_qty q) (drop q.read_index q.block),
    length-drop q.read_index q.block,
    inv.normal,
    inv.fits,
  )

  pub span_read-advance_read :
      (q : QueueRw A) (n : ℕ) → span_read (advance_read q n) ≡ drop n (span_read q)
  unfolding span_read
  span_read-advance_read q n =
      ap (take (q.write_index - (q.read_index + n))) (sym (drop-drop n q.read_index q.block))
      ∙ ap (λ k. take k (drop n (drop q.read_index q.block))) (sub-add q.write_index q.read_index n)
      ∙ sym (drop-take n (read_qty q) (drop q.read_index q.block))
    where
      sub-add : (w r k : ℕ) → w - (r + k) ≡ w - r - k
      sub-add w r k = omega arith

  -- A block written at the write index.
  pub span_read-written :
      (q : QueueRw A) (src : List A)
      → LinearInv q
      → q.write_index + length src ≤ length q.block
      → span_read
          (advance_write (record q { block = copy_qty q.block q.write_index src }) (length src))
        ≡ span_read q ++ src
  unfolding span_read
  span_read-written q src inv h =
      ap (λ l. take (w + length src - r) (drop r l))
        (copy_qty-append q.block w src (w + length src) refl h)
      ∙ ap (take (w + length src - r)) (
          drop-append r (take w q.block) rest
            (omega (arith, length-take w q.block, inv.normal, inv.fits)))
      ∙ take-append (w + length src - r) (length src) (drop r (take w q.block)) rest
          (omega (arith, kept, inv.normal)) (omega (arith, kept, inv.normal))
      ∙ ap (λ l. drop r (take w q.block) ++ l)
          (take-append_before (length src) src (drop (w + length src) q.block) (omega arith)
            ∙ take-all (length src) src (omega arith))
      ∙ ap (λ l. l ++ src) (drop-take r w q.block)
    where
      r : ℕ
      r = q.read_index

      w : ℕ
      w = q.write_index

      rest : List A
      rest = src ++ drop (w + length src) q.block

      kept : length (drop r (take w q.block)) ≡ w - r
      kept = omega (arith, length-drop r (take w q.block), length-take w q.block, inv.fits)

  pub read_commit_now-start : (q : QueueRw A) → LinearInv q → (read_commit_now q).read_index ≡ 0
  unfolding read_commit_now
  read_commit_now-start q inv = ground arith

  pub read_commit_now-LinearInv : (q : QueueRw A) → LinearInv q → LinearInv (read_commit_now q)
  unfolding read_commit_now
  read_commit_now-LinearInv q inv =
      ground (arith, inv, length-copy_qty q.block 0 (take (read_qty q) (drop q.read_index q.block)))

  span_read-moved :
      (q : QueueRw A)
      → LinearInv q
      → span_read (init_q (record q { block = copy_qty q.block 0 (span_read q) }) 0 (read_qty q))
        ≡ span_read q
  unfolding span_read
  span_read-moved q inv =
      ap (λ k. take k (copy_qty q.block 0 kept)) (sub-zero (read_qty q))
      ∙ ap (take (read_qty q)) (
          copy_qty-append q.block 0 kept (read_qty q) (omega (arith, size))
            (omega (arith, inv.normal, inv.fits)))
      ∙ take-append_before (read_qty q) kept (drop (read_qty q) q.block) (omega (arith, size))
      ∙ take-all (read_qty q) kept (omega (arith, size))
    where
      kept : List A
      kept = take (read_qty q) (drop q.read_index q.block)

      sub-zero : (k : ℕ) → k - 0 ≡ k
      sub-zero k = omega arith

      size : length kept ≡ read_qty q
      size = length-span_read q inv

  span_read-none : (q : QueueRw A) → read_qty q ≡ 0 → span_read q ≡ []
  unfolding span_read
  span_read-none q e = ap (λ k. take k (drop q.read_index q.block)) e

  pub span_read-commit_now :
      (q : QueueRw A) → LinearInv q → span_read (read_commit_now q) ≡ span_read q
  unfolding read_commit_now span_read
  span_read-commit_now q inv = elim (Bool-cases (leb q.read_index 0)) [
    | inl at_start ↦ rw (read_commit_now, at_start) refl
    | inr later ↦ elim (Bool-cases (ltb 0 (read_qty q))) [
      | inl some_left ↦ rw (read_commit_now, later, some_left) (span_read-moved q inv)
      | inr none_left ↦
          rw (read_commit_now, later, none_left)
            (span_read-none (init_q q 0 (read_qty q)) (omega (tests, none_left))
              ∙ sym (span_read-none q (omega (tests, none_left))))
    ]
  ]

  -- A commit, made or not, keeps the queue in order and what it holds.
  pub record Committed (q q' : QueueRw A) : Type ℓ where
    pub inv : LinearInv q'
    pub holds : span_read q' ≡ span_read q
    pub alloc : length q'.block ≡ length q.block
    pub not_later : q'.read_index ≤ q.read_index

  read_commit_now-Committed : (q : QueueRw A) → LinearInv q → Committed q (read_commit_now q)
  unfolding read_commit_now
  read_commit_now-Committed q inv = record {
    inv = read_commit_now-LinearInv q inv;
    holds = span_read-commit_now q inv;
    alloc =
        ground (arith, length-copy_qty q.block 0 (take (read_qty q) (drop q.read_index q.block)));
    not_later = ground arith;
  }

  Committed-refl : (q : QueueRw A) → LinearInv q → Committed q q
  Committed-refl q inv = record { inv = inv; holds = refl; alloc = refl; not_later = omega arith }

  pub read_commit_check-Committed :
      (q : QueueRw A) → LinearInv q → Committed q (read_commit_check q)
  unfolding read_commit_check
  read_commit_check-Committed q inv =
      elim (Bool-cases (not (q.auto_read_commit == 0) && leb q.auto_read_commit q.read_index)) [
        | inl due ↦ rw (read_commit_check, due) (read_commit_now-Committed q inv)
        | inr not_due ↦ rw (read_commit_check, not_due) (Committed-refl q inv)
      ]
