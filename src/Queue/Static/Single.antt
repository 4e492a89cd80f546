-- ===== src/Queue/Static/Single.antt =====
-- `Write1`, `Read1` and `AdvanceRead` of `cQueueStatic` against the bounded queue of `Queue.Fifo`.
use gray_core.Base.{
  ℕ, suc, ◌+◌, ◌-◌, ◌≤◌, ◌<◌, ◌≡◌, ◌≢◌, ◌∙◌, sym, ap, ap₂, true, false, [], ◌∷◌, ◌++◌, some, inl,
  inr, get_or, set, drop, length-set, get_or-set_self, get_or-set_ne, tabulate, tabulate_ext,
  tabulate-length, tabulate-snoc, drop-tabulate, drop-all, Bool-cases, ◌==◌, arith, ltb, tests,
}
use native.Mathlib.Nat.{mod-add-mod, add_assoc, add-zero, le_refl}
use native.Mathlib.Numerals.{add-one}
use gray_core.Queue.Fifo
use gray_core.Queue.Static.{
  QueueStatic, wrap_index, is_empty, is_full, read_qty, advance_read, write1, read1,
}
use gray_core.Queue.Static.Inv.{
  IsValid, contents, item, wrap_below, wrap_above, length-contents, read_qty-lt, read-add-read_qty,
  item-ne-write,
}

module _ {ℓ} {A : Type ℓ} {qty : ℕ} {q : QueueStatic A} (v : IsValid qty q) where
  -- The test of `isFullQ` and `Write1` finds out whether there is room.
  pub is_full_lem : is_full qty q ≡ (read_qty qty q == (qty - 1))
  unfolding read_qty
  is_full_lem = ground (
    arith,
    v.read_in,
    v.write_in,
    wrap_below qty (q.write_index + 1),
    wrap_above qty (q.write_index + 1),
  )

  pub is_empty_lem : is_empty q ≡ (read_qty qty q == 0)
  unfolding read_qty
  is_empty_lem = ground (arith, v.read_in, v.write_in)

-- The two writes of `Write1`: the element, then the index that makes it visible.
abbrev pub store {ℓ} : {A : Type ℓ} → QueueStatic A → A → QueueStatic A
store q x = record q { storage = set q.storage q.write_index x }

abbrev pub publish {ℓ} : {A : Type ℓ} → ℕ → QueueStatic A → QueueStatic A
publish qty q = record q { write_index = wrap_index qty (q.write_index + 1) }

module _ {ℓ} {A : Type ℓ} {qty : ℕ} (junk : A) {q : QueueStatic A} (v : IsValid qty q) where
  pub store-IsValid : (x : A) → IsValid qty (store q x)
  store-IsValid x =
      ground (arith, v.block, v.read_in, v.write_in, length-set q.storage q.write_index x)

  pub publish-IsValid : IsValid qty (publish qty q)
  publish-IsValid = ground (arith, v.block, v.read_in, v.write_in)

  pub item-store :
      (x : A) (i : ℕ) → i < read_qty qty q → item qty junk (store q x) i ≡ item qty junk q i
  item-store x i h =
      get_or-set_ne q.storage q.write_index (wrap_index qty (q.read_index + i)) x junk
        (item-ne-write v i h)

  pub contents-store : (x : A) → contents qty junk (store q x) ≡ contents qty junk q
  unfolding contents read_qty
  contents-store x =
      tabulate_ext (read_qty qty q) (item qty junk (store q x)) (item qty junk q) (item-store x)

  pub stored_there : (x : A) → get_or (store q x).storage q.write_index junk ≡ x
  stored_there x =
      get_or-set_self q.storage q.write_index x junk (omega (arith, v.block, v.write_in))

  pub read_qty-publish :
      read_qty qty q ≢ qty - 1 → read_qty qty (publish qty q) ≡ read_qty qty q + 1
  unfolding read_qty
  read_qty-publish room = ground (
    arith,
    v.read_in,
    v.write_in,
    wrap_below qty (q.write_index + 1),
    wrap_above qty (q.write_index + 1),
  )

  pub contents-publish :
      read_qty qty q ≢ qty - 1
      → contents qty junk (publish qty q)
        ≡ contents qty junk q ++ (get_or q.storage q.write_index junk ∷ [])
  unfolding contents
  contents-publish room =
      tabulate-length (read_qty qty (publish qty q)) (suc n) (item qty junk q)
        (read_qty-publish room ∙ add-one n)
      ∙ tabulate-snoc n (item qty junk q)
      ∙ ap (λ j. tabulate n (item qty junk q) ++ (get_or q.storage j junk ∷ []))
          (read-add-read_qty v)
    where
      n : ℕ
      n = read_qty qty q

module _ {ℓ} {A : Type ℓ} {qty : ℕ} (junk : A) {q : QueueStatic A} (v : IsValid qty q) (x : A) where
  abbrev pushed : QueueStatic A
  pushed = publish qty (store q x)

  contents-pushed :
      read_qty qty q ≢ qty - 1 → contents qty junk pushed ≡ contents qty junk q ++ (x ∷ [])
  contents-pushed room =
      contents-publish junk (store-IsValid junk v x) (unfold read_qty in room)
      ∙ ap₂ (λ l y. l ++ (y ∷ [])) (contents-store junk v x) (stored_there junk v x)

  pushed-IsValid : IsValid qty pushed
  pushed-IsValid = publish-IsValid junk (store-IsValid junk v x)

  -- On a well-formed ring `Write1` returns what the bounded queue of capacity `qty - 1` returns,
  -- leaves the ring holding that queue's elements, and keeps it well formed.
  pub write1_refines :
      let (done, q') = write1 qty q x in
      ((done, contents qty junk q') ≡ Fifo.put (qty - 1) (contents qty junk q) x) × IsValid qty q'
  unfolding write1 Fifo.put
  write1_refines = ground (
    arith,
    is_full_lem v,
    length-contents qty junk q,
    contents-pushed,
    pushed-IsValid,
    read_qty-lt v,
  )

module _ {ℓ} {A : Type ℓ} {qty : ℕ} (junk : A) {q : QueueStatic A} (v : IsValid qty q) where
  abbrev pub skipped : ℕ → QueueStatic A
  skipped k = record q { read_index = wrap_index qty (q.read_index + k) }

  pub skipped-IsValid : (k : ℕ) → IsValid qty (skipped k)
  skipped-IsValid k = ground (arith, v.block, v.read_in, v.write_in)

  pub read_qty-skipped :
      (k : ℕ) → k ≤ read_qty qty q → read_qty qty (skipped k) ≡ read_qty qty q - k
  unfolding read_qty
  read_qty-skipped k h = ground (
    arith,
    v.read_in,
    v.write_in,
    wrap_below qty (q.read_index + k),
    wrap_above qty (q.read_index + k),
  )

  contents-skipped :
      (k : ℕ) → k ≤ read_qty qty q → contents qty junk (skipped k) ≡ drop k (contents qty junk q)
  unfolding contents
  contents-skipped k h =
      ap (λ n. tabulate n (item qty junk (skipped k))) (read_qty-skipped k h)
      ∙ tabulate_ext (read_qty qty q - k) (item qty junk (skipped k)) (λ i. item qty junk q (k + i))
          (λ i lt. ap (λ j. get_or q.storage j junk) (regroup i))
      ∙ sym (drop-tabulate k (read_qty qty q) (item qty junk q))
    where
      regroup :
          (i : ℕ)
          → wrap_index qty (wrap_index qty (q.read_index + k) + i)
            ≡ wrap_index qty (q.read_index + (k + i))
      regroup i = mod-add-mod _ _ _ ∙ ap (wrap_index qty) (add_assoc _ _ _)

  drop-contents_past : (k : ℕ) → read_qty qty q ≤ k → drop k (contents qty junk q) ≡ []
  drop-contents_past k h =
      drop-all k (contents qty junk q) (omega (arith, length-contents qty junk q))

  -- On a well-formed ring `AdvanceRead` drops that many elements, or all if there are fewer,
  -- and no others, and keeps the ring well formed.
  pub advance_read_refines :
      (count : ℕ)
      → let q' = advance_read qty q count in
        (contents qty junk q' ≡ drop count (contents qty junk q)) × IsValid qty q'
  unfolding advance_read
  advance_read_refines count = elim (Bool-cases (ltb n count)) [
    | inl fewer ↦ rw fewer (
      contents-skipped n (le_refl n)
          ∙ drop-contents_past n (le_refl n)
          ∙ sym (drop-contents_past count (omega (tests, fewer))),
      skipped-IsValid n,
    )
    | inr enough ↦ rw enough (contents-skipped count (omega (tests, enough)), skipped-IsValid count)
  ]
    where
      n : ℕ
      n = read_qty qty q

  pub contents-empty : is_empty q ≡ true → contents qty junk q ≡ []
  unfolding contents
  contents-empty none_left =
      tabulate-length (read_qty qty q) 0 (item qty junk q) (ground (arith, is_empty_lem v))

  pub contents-cons :
      is_empty q ≡ false
      → contents qty junk q ≡ get_or q.storage q.read_index junk ∷ contents qty junk (skipped 1)
  contents-cons more =
      split ∙ ap₂ ◌∷◌ (ap (λ j. get_or q.storage j junk) here) (sym (rest ∙ ap (drop 1) split))
    where
      some_left : 0 < read_qty qty q
      some_left = ground (arith, is_empty_lem v)

      split :
          contents qty junk q
          ≡ item qty junk q 0 ∷ tabulate (read_qty qty q - 1) (λ i. item qty junk q (suc i))
      split =
          unfold contents in
          tabulate-length (read_qty qty q) (suc (read_qty qty q - 1)) (item qty junk q)
            (omega (arith, some_left))

      here : wrap_index qty (q.read_index + 0) ≡ q.read_index
      here = rw add-zero (wrap_below qty q.read_index v.read_in)

      rest : contents qty junk (skipped 1) ≡ drop 1 (contents qty junk q)
      rest = contents-skipped 1 some_left

  -- While there is something to read in a well-formed ring, `Read1` returns the oldest
  -- element, leaves the others, and keeps the ring well formed.
  pub read1_refines :
      is_empty q ≡ false
      → let (val, q') = read1 qty junk q in
        (Fifo.get (contents qty junk q) ≡ some (val, contents qty junk q')) × IsValid qty q'
  unfolding read1 Fifo.get
  read1_refines more = (rw (contents-cons more), skipped-IsValid 1)
