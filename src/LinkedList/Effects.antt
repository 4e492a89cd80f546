-- ===== src/LinkedList/Effects.antt =====
-- What RemoveListNode and InsertListNode write, seen through the links of a list.
use gray_core.Base.{ℕ, ◌+◌, ◌-◌, ◌≡◌, true, false, not, ◌||◌, ◌==◌, if◌then◌else◌, arith}
use gray_core.LinkedList.{Store, remove_list_node, link_node}

-- The links of a list, where 0 leads to the head and to the tail.
abbrev pub next_of : Store → ℕ → ℕ → ℕ
next_of s l a = if a == 0 then (s.lists l).head else (s.nodes a).next

abbrev pub prev_of : Store → ℕ → ℕ → ℕ
prev_of s l a = if a == 0 then (s.lists l).tail else (s.nodes a).prev

-- What no operation on the list l writes: other lists, and the links of other nodes.
pub record Beside (s s' : Store) (l p prev next : ℕ) : Type 0 where
  pub next_else : (a : ℕ) → (a == prev) ≡ false → (a == p) ≡ false → next_of s' l a ≡ next_of s l a
  pub prev_else : (a : ℕ) → (a == next) ≡ false → (a == p) ≡ false → prev_of s' l a ≡ prev_of s l a
  pub other_next :
      (m a : ℕ)
      → (m == l) ≡ false
      → (a == 0 || not (a == prev || a == p)) ≡ true
      → next_of s' m a ≡ next_of s m a
  pub other_prev :
      (m a : ℕ)
      → (m == l) ≡ false
      → (a == 0 || not (a == next || a == p)) ≡ true
      → prev_of s' m a ≡ prev_of s m a
  pub other_count : (m : ℕ) → (m == l) ≡ false → (s'.lists m).count ≡ (s.lists m).count
  pub parent_else : (a : ℕ) → (a == p) ≡ false → (s'.nodes a).parent ≡ (s.nodes a).parent

pub record Removed (s s' : Store) (l p prev next : ℕ) : Type 0 where
  pub beside : Beside s s' l p prev next
  pub next_prev : next_of s' l prev ≡ next
  pub prev_next : prev_of s' l next ≡ prev
  pub parent : (s'.nodes p).parent ≡ 0
  pub count : (s'.lists l).count ≡ (s.lists l).count - 1

pub record Inserted (s s' : Store) (l p prev next : ℕ) : Type 0 where
  pub beside : Beside s s' l p prev next
  pub next_prev : next_of s' l prev ≡ p
  pub next_p : next_of s' l p ≡ next
  pub prev_p : prev_of s' l p ≡ prev
  pub prev_next : prev_of s' l next ≡ p
  pub parent : (s'.nodes p).parent ≡ l
  pub count : (s'.lists l).count ≡ (s.lists l).count + 1

pub remove_list_node-Removed :
    (s : Store) (l p : ℕ)
    → (p == 0) ≡ false
    → ((s.nodes p).prev == p) ≡ false
    → ((s.nodes p).next == p) ≡ false
    → Removed s (remove_list_node l p s) l p (s.nodes p).prev (s.nodes p).next
unfolding remove_list_node
remove_list_node-Removed s l p some_p prev_p next_p = record {
  beside = record {
    next_else = λ a h k. ground arith;
    prev_else = λ a h k. ground arith;
    other_next = λ m a h k. ground arith;
    other_prev = λ m a h k. ground arith;
    other_count = λ m h. ground arith;
    parent_else = λ a h. ground arith;
  };
  next_prev = ground arith;
  prev_next = ground arith;
  parent = ground arith;
  count = ground arith;
}

pub link_node-Inserted :
    (s : Store) (l p prev : ℕ)
    → (p == 0) ≡ false
    → (prev == p) ≡ false
    → (next_of s l prev == p) ≡ false
    → Inserted s (link_node l p prev s) l p prev (next_of s l prev)
unfolding link_node
link_node-Inserted s l p prev some_p prev_p next_p = record {
  beside = record {
    next_else = λ a h k. ground arith;
    prev_else = λ a h k. ground arith;
    other_next = λ m a h k. ground arith;
    other_prev = λ m a h k. ground arith;
    other_count = λ m h. ground arith;
    parent_else = λ a h. ground arith;
  };
  next_prev = ground arith;
  next_p = ground arith;
  prev_p = ground arith;
  prev_next = ground arith;
  parent = ground arith;
  count = ground arith;
}
