-- ===== src/Queue/Static/Inv.antt =====
-- The well-formed states of `cQueueStatic`, and the elements that such a state holds.
use native.Mathlib.Nat.{mod-eq_of_lt, mod-eq-sub-mod}
use gray_core.Base.{
  ℕ, ◌+◌, ◌-◌, ◌≤◌, ◌<◌, ◌≡◌, ◌≢◌, ◌∙◌, List, length, get_or, tabulate, length-tabulate, arith,
}
use gray_core.Queue.Static.{QueueStatic, wrap_index, read_qty}

pub record IsValid {ℓ} {A : Type ℓ} (qty : ℕ) (q : QueueStatic A) : Type 0 where
  pub block : length q.storage ≡ qty
  pub read_in : q.read_index < qty
  pub write_in : q.write_index < qty

pub wrap_below : (qty i : ℕ) → i < qty → wrap_index qty i ≡ i
wrap_below qty i h = mod-eq_of_lt h

pub wrap_above : (qty i : ℕ) → qty ≤ i → i < qty + qty → wrap_index qty i ≡ i - qty
wrap_above qty i h k = mod-eq-sub-mod h ∙ mod-eq_of_lt (omega arith)

module _ {ℓ} {A : Type ℓ} (qty : ℕ) (junk : A) where
  -- The element that is read after `i` others.
  abbrev pub item : QueueStatic A → ℕ → A
  item q i = get_or q.storage (wrap_index qty (q.read_index + i)) junk

  -- The elements still to be read, the next one first.
  unfoldable pub contents : QueueStatic A → List A
  contents q = tabulate (read_qty qty q) (item q)

  pub length-contents : (q : QueueStatic A) → length (contents q) ≡ read_qty qty q
  unfolding contents
  length-contents q = length-tabulate (read_qty qty q) (item q)

module _ {ℓ} {A : Type ℓ} {qty : ℕ} {q : QueueStatic A} (v : IsValid qty q) where
  -- At most `qty - 1` elements are in the queue.
  pub read_qty-lt : read_qty qty q < qty
  unfolding read_qty
  read_qty-lt = ground (arith, v.read_in, v.write_in)

  -- Where the next element will be written, counted from the read index.
  pub read-add-read_qty : wrap_index qty (q.read_index + read_qty qty q) ≡ q.write_index
  unfolding read_qty
  read-add-read_qty = ground (
    arith,
    v.read_in,
    v.write_in,
    wrap_below qty (q.write_index),
    wrap_above qty (q.write_index + qty),
  )

  -- No element to be read stands where the next one is written.
  pub item-ne-write :
      (i : ℕ) → i < read_qty qty q → q.write_index ≢ wrap_index qty (q.read_index + i)
  unfolding read_qty
  item-ne-write i h = ground (
    arith,
    v.read_in,
    v.write_in,
    wrap_below qty (q.read_index + i),
    wrap_above qty (q.read_index + i),
  )
