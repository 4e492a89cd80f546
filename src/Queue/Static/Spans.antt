-- ===== src/Queue/Static/Spans.antt =====
-- `ReadSpanQ` and `WriteSpanQ` of `cQueueStatic` against the bounded queue of `Queue.Fifo`.
use native.Mathlib.Nat.{mod-add-mod, add_assoc, mod_self}
use gray_core.Base.{
  ℕ, zero, suc, ◌+◌, ◌-◌, ◌≤◌, ◌<◌, ◌≡◌, ◌≢◌, ◌∙◌, sym, ap, ap₂, refl, ◌⊎◌, false, List, ◌∷◌, ◌++◌,
  inl, inr, min, length, get_or, take, drop, length-take, length-drop, get_or-take, get_or-drop,
  tabulate_ext, tabulate-length, tabulate-add, tabulate-take, take-min, Bool-cases, arith, tests,
  ltb,
}
use gray_core.Queue.Fifo
use gray_core.Queue.Static.{
  QueueStatic, wrap_index, is_empty, advance_read, read_qty, write_qty, read1, copy_qty, read_span,
  write_span,
}
use gray_core.Queue.Static.Inv.{
  IsValid, contents, item, wrap_below, wrap_above, length-contents, read_qty-lt, read-add-read_qty,
}
use gray_core.Queue.Static.Single.{contents-cons, contents-empty, skipped-IsValid}
use gray_core.Queue.Static.Copy.{length-copy_qty, get_or-copy_qty_outside, get_or-copy_qty_inside}

-- On a well-formed ring `ReadSpanQ` returns the oldest elements, as many as are asked for and
-- there are, leaves the others, and keeps the ring well formed.
pub read_span_refines {ℓ} :
    {A : Type ℓ} {qty : ℕ} (junk : A) (n : ℕ) {q : QueueStatic A}
    → IsValid qty q
    → let (vals, q') = read_span qty junk n q in
      ((vals, contents qty junk q') ≡ Fifo.get_many n (contents qty junk q)) × IsValid qty q'
unfolding read_span Fifo.get_many read1
read_span_refines junk zero v = (refl, v)
read_span_refines {qty = qty} junk (suc n) {q} v = elim (Bool-cases (is_empty q)) [
  | inl none_left ↦ rw none_left (rw (contents-empty junk v none_left) refl, v)
  | inr more ↦ rw more (
    rw (contents-cons junk v more) (
        ap (λ p. (get_or q.storage q.read_index junk ∷ p.0, p.1))
          (read_span_refines junk n (skipped-IsValid junk v 1)).0),
    (read_span_refines junk n (skipped-IsValid junk v 1)).1,
  )
]

-- Draining a ring whose write index is at the end of the block.
drained_at_end {ℓ} :
    {A : Type ℓ} {qty : ℕ} (q : QueueStatic A)
    → q.write_index ≡ qty
    → q.read_index < qty
    → let drained = advance_read qty q (read_qty qty q) in
      (is_empty drained ≡ false) × (read_qty qty drained ≡ qty)
unfolding advance_read
drained_at_end {qty = qty} q at_end inside =
    rw (same_test (read_qty qty q), at_start) (unfold read_qty in ground arith)
  where
    same_test : (n : ℕ) → ltb n n ≡ false
    same_test n = ground arith

    reach : q.read_index + read_qty qty q ≡ qty
    reach = unfold read_qty in ground arith

    at_start : wrap_index qty (q.read_index + read_qty qty q) ≡ 0
    at_start = ap (wrap_index qty) reach ∙ mod_self qty

module _ {ℓ} {A : Type ℓ} {qty : ℕ} (junk : A) {q : QueueStatic A} (v : IsValid qty q)
    (src : List A) where
  count : ℕ
  count = min (write_qty qty q) (length src)

  -- A state in which the elements of `src` have been stored after those of `q`.
  record Stored (q' : QueueStatic A) : Type ℓ where
    stored_block : length q'.storage ≡ qty
    same_read : q'.read_index ≡ q.read_index
    new_write : q'.write_index ≡ wrap_index qty (q.write_index + count)
    kept : (i : ℕ) → i < read_qty qty q → item qty junk q' i ≡ item qty junk q i
    added :
        (i : ℕ)
        → i < count
        → get_or q'.storage (wrap_index qty (q.write_index + i)) junk ≡ get_or src i junk

  count-le : (count ≤ length src) × (read_qty qty q + count ≤ qty - 1)
  unfolding count write_qty
  count-le = omega (arith, read_qty-lt v)

  module _ {q' : QueueStatic A} (s : Stored q') where
    stored-IsValid : IsValid qty q'
    stored-IsValid = ground (arith, s.stored_block, s.same_read, s.new_write, v.read_in, v.write_in)

    read_qty-stored : read_qty qty q' ≡ read_qty qty q + count
    unfolding read_qty
    read_qty-stored = ground (
      arith,
      s.same_read,
      s.new_write,
      v.read_in,
      v.write_in,
      count-le,
      wrap_below qty (q.write_index + count),
      wrap_above qty (q.write_index + count),
    )

    item-added : (i : ℕ) → i < count → item qty junk q' (read_qty qty q + i) ≡ get_or src i junk
    item-added i h = ap (λ j. get_or q'.storage j junk) position ∙ s.added i h
      where
        position :
            wrap_index qty (q'.read_index + (read_qty qty q + i))
            ≡ wrap_index qty (q.write_index + i)
        position =
            rw (s.same_read, ← add_assoc, ← mod-add-mod)
              (ap (λ j. wrap_index qty (j + i)) (read-add-read_qty v))

    contents-stored : contents qty junk q' ≡ contents qty junk q ++ take (write_qty qty q) src
    unfolding contents
    contents-stored =
        tabulate-length (read_qty qty q') (read_qty qty q + count) (item qty junk q')
          read_qty-stored
        ∙ tabulate-add (read_qty qty q) count (item qty junk q')
        ∙ ap₂ ◌++◌ (tabulate_ext (read_qty qty q) (item qty junk q') (item qty junk q) s.kept) (
            tabulate_ext count (λ i. item qty junk q' (read_qty qty q + i)) (λ i. get_or src i junk)
              item-added
            ∙ tabulate-take junk count src count-le.0
            ∙ unfold count in take-min (write_qty qty q) src)

  -- The branch of `WriteSpanQ` without a wrap.
  abbrev straight : QueueStatic A
  straight = record q {
    storage = copy_qty q.storage q.write_index (take count src);
    write_index = q.write_index + count;
  }

  straight-Stored : q.write_index + count < qty → Stored straight
  straight-Stored fits = record {
    stored_block = length-copy_qty q.storage q.write_index (take count src) ∙ v.block;
    same_read = refl;
    new_write = sym (wrap_below qty (q.write_index + count) fits);
    kept = λ i h.
        get_or-copy_qty_outside q.storage q.write_index (take count src)
          (wrap_index qty (q.read_index + i)) junk (item-outside i h);
    added = λ i h.
        get_or-copy_qty_inside q.storage q.write_index (take count src)
          (wrap_index qty (q.write_index + i)) i junk
          (wrap_below qty (q.write_index + i) (omega arith)) (omega (arith, size))
          (omega (arith, size, v.block))
        ∙ get_or-take count src i junk h;
  }
    where
      size : length (take count src) ≡ count
      size = omega (arith, length-take count src, count-le)

      item-outside :
          (i : ℕ)
          → i < read_qty qty q
          → (wrap_index qty (q.read_index + i) < q.write_index)
            ⊎ (q.write_index + length (take count src) ≤ wrap_index qty (q.read_index + i))
      item-outside i h =
          unfold read_qty in
          ground (
            arith,
            size,
            v.read_in,
            v.write_in,
            count-le,
            wrap_below qty (q.read_index + i),
            wrap_above qty (q.read_index + i),
          )

  -- The branch with a wrap: to the end of the block first, then from its start.
  to_end : ℕ
  to_end = qty - q.write_index

  rest : ℕ
  rest = count - to_end

  abbrev first_copy : List A
  first_copy = copy_qty q.storage q.write_index (take to_end src)

  abbrev second_copy : List A
  second_copy = take rest (drop to_end src)

  abbrev around : QueueStatic A
  around = record q { storage = copy_qty first_copy 0 second_copy; write_index = rest }

  module _ (wraps : qty < q.write_index + count) where
    -- What the sizes of the two copies come to.
    record Sizes : Type ℓ where
      first_size : length (take to_end src) ≡ to_end
      second_size : length second_copy ≡ rest
      first_block : length first_copy ≡ qty
      end_is : q.write_index + to_end ≡ qty
      count_is : to_end + rest ≡ count
      below : rest < q.write_index

    sizes : Sizes
    unfolding rest to_end
    sizes = omega (
      arith,
      v.block,
      v.write_in,
      count-le,
      length-take to_end src,
      length-drop to_end src,
      length-take rest (drop to_end src),
      length-copy_qty q.storage q.write_index (take to_end src),
    )

    added-around :
        (i : ℕ)
        → i < count
        → get_or around.storage (wrap_index qty (q.write_index + i)) junk ≡ get_or src i junk
    added-around i h = elim (Bool-cases (ltb i to_end)) [
      | inl early ↦
          get_or-copy_qty_outside first_copy 0 second_copy (wrap_index qty (q.write_index + i)) junk
            (inr (ground (arith, sizes, wrap_below qty (q.write_index + i))))
          ∙ get_or-copy_qty_inside q.storage q.write_index (take to_end src)
              (wrap_index qty (q.write_index + i)) i junk
              (wrap_below qty (q.write_index + i) (ground (arith, sizes))) (ground (arith, sizes))
              (ground (arith, sizes, v.block))
          ∙ get_or-take to_end src i junk (ground arith)
      | inr late ↦
          get_or-copy_qty_inside first_copy 0 second_copy (wrap_index qty (q.write_index + i))
            (i - to_end) junk
            (ground (arith, sizes, v.write_in, wrap_above qty (q.write_index + i)))
            (ground (arith, sizes)) (ground (arith, sizes, v.write_in))
          ∙ get_or-take rest (drop to_end src) (i - to_end) junk (ground (arith, sizes))
          ∙ get_or-drop to_end src (i - to_end) junk
          ∙ ap (λ j. get_or src j junk) (there i late)
    ]
      where
        there : (i : ℕ) → ltb i to_end ≡ false → to_end + (i - to_end) ≡ i
        there i late = ground arith

    around-Stored : Stored around
    around-Stored = record {
      stored_block = length-copy_qty first_copy 0 second_copy ∙ sizes.first_block;
      same_read = refl;
      new_write =
          ground (arith, sizes, v.write_in, count-le, wrap_above qty (q.write_index + count));
      kept = λ i h.
          get_or-copy_qty_outside first_copy 0 second_copy (wrap_index qty (q.read_index + i)) junk
            (inr (after i h))
          ∙ get_or-copy_qty_outside q.storage q.write_index (take to_end src)
              (wrap_index qty (q.read_index + i)) junk (inl (before i h));
      added = added-around;
    }
      where
        after :
            (i : ℕ)
            → i < read_qty qty q
            → 0 + length second_copy ≤ wrap_index qty (q.read_index + i)
        after i h =
            unfold read_qty in
            ground (
              arith,
              sizes,
              v.read_in,
              v.write_in,
              count-le,
              wrap_below qty (q.read_index + i),
              wrap_above qty (q.read_index + i),
            )

        before : (i : ℕ) → i < read_qty qty q → wrap_index qty (q.read_index + i) < q.write_index
        before i h =
            unfold read_qty in
            ground (
              arith,
              sizes,
              v.read_in,
              v.write_in,
              count-le,
              wrap_below qty (q.read_index + i),
              wrap_above qty (q.read_index + i),
            )

  -- On a well-formed ring `WriteSpanQ` stores as many elements as fit, in order, behind
  -- those in the ring, returns their number and keeps the ring well formed, unless the last
  -- of them lands on the last place of the block.
  pub write_span_refines :
      q.write_index + min (write_qty qty q) (length src) ≢ qty
      → let (n, q') = write_span qty q src in
        ((n, contents qty junk q') ≡ Fifo.put_many (qty - 1) (contents qty junk q) src)
        × IsValid qty q'
  unfolding write_span Fifo.put_many count to_end rest write_qty
  write_span_refines clear = elim (Bool-cases (ltb qty (q.write_index + count))) [
    | inl wraps ↦
        let stored = around-Stored (omega (tests, wraps)) in
        rw wraps
          (rw (length-contents qty junk q) (pair (contents-stored stored)), stored-IsValid stored)
    | inr straight_on ↦
        let stored = straight-Stored (omega (tests, straight_on)) in
        rw straight_on
          (rw (length-contents qty junk q) (pair (contents-stored stored)), stored-IsValid stored)
  ]
    where
      pair : {l m : List A} → l ≡ m → ◌≡◌ {A = ℕ × List A} (count, l) (count, m)
      pair e = ap (λ l. (count, l)) e

  -- When the last element that `WriteSpanQ` stores into a well-formed ring lands on the last
  -- place of the block, the write index is left at the end of the block instead of at its
  -- start, so the ring is not well formed, and after all elements have been read the ring is
  -- not empty and claims `qty` elements.
  pub write_span_at_end :
      q.write_index + min (write_qty qty q) (length src) ≡ qty
      → let q' = (write_span qty q src).1 in
        let drained = advance_read qty q' (read_qty qty q') in
        (q'.write_index ≡ length q'.storage)
        × (¬ (IsValid qty q'))
        × (is_empty drained ≡ false)
        × (read_qty qty drained ≡ qty)
  unfolding write_span count
  write_span_at_end at_end = rw no_wrap (
    at_end ∙ sym straight_block,
    λ bad. omega (arith, bad.write_in, at_end),
    (drained_at_end straight at_end v.read_in).0,
    (drained_at_end straight at_end v.read_in).1,
  )
    where
      no_wrap : ltb qty (q.write_index + min (write_qty qty q) (length src)) ≡ false
      no_wrap = ground (arith, at_end)

      straight_block : length straight.storage ≡ qty
      straight_block = length-copy_qty q.storage q.write_index (take count src) ∙ v.block
