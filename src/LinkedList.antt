-- ===== src/LinkedList.antt =====
-- include/cList.h and src/cList.cpp: `cListNode` and `cList`, doubly linked lists whose nodes know
-- the list that they are in. Nodes and lists stand in a store, at addresses; 0 is nullptr. The
-- functions that a class may override are those of the two classes themselves.
pub mod Effects
pub mod Ring
pub mod Removing
pub mod Walking
mod Tests
pub mod Moving
pub mod Inserting
pub mod Contents
use gray_core.Base.{
  ℕ, zero, suc, ◌+◌, ◌-◌, Bool, true, false, Option, none, some, ltb, ◌==◌, if◌then◌else◌,
}

pub record ListNode : Type 0 where
  pub parent : ℕ
  pub next : ℕ
  pub prev : ℕ

pub record LinkedList : Type 0 where
  pub head : ℕ
  pub tail : ℕ
  pub count : ℕ

pub record Store : Type 0 where
  pub nodes : ℕ → ListNode
  pub lists : ℕ → LinkedList

abbrev pub put {ℓ} : {A : Type ℓ} → (ℕ → A) → ℕ → A → ℕ → A
put f p x a = if a == p then x else f a

-- The writes to one field.
abbrev pub set_parent : ℕ → ℕ → Store → Store
set_parent p q s = record s { nodes = put s.nodes p (record (s.nodes p) { parent = q }) }

abbrev pub set_next : ℕ → ℕ → Store → Store
set_next p q s = record s { nodes = put s.nodes p (record (s.nodes p) { next = q }) }

abbrev pub set_prev : ℕ → ℕ → Store → Store
set_prev p q s = record s { nodes = put s.nodes p (record (s.nodes p) { prev = q }) }

abbrev pub set_head : ℕ → ℕ → Store → Store
set_head l q s = record s { lists = put s.lists l (record (s.lists l) { head = q }) }

abbrev pub set_tail : ℕ → ℕ → Store → Store
set_tail l q s = record s { lists = put s.lists l (record (s.lists l) { tail = q }) }

abbrev pub set_count : ℕ → ℕ → Store → Store
set_count l n s = record s { lists = put s.lists l (record (s.lists l) { count = n }) }

-- RemoveListNode, with OnChangeListParent.
unfoldable pub remove_list_node : ℕ → ℕ → Store → Store
remove_list_node l p s =
    let next = (s.nodes p).next in
    let prev = (s.nodes p).prev in
    let s = if next == 0 then set_tail l prev s else set_prev next prev s in
    let s = if prev == 0 then set_head l next s else set_next prev next s in
    let s = set_count l ((s.lists l).count - 1) s in set_parent p 0 (set_prev p 0 (set_next p 0 s))

unfoldable pub remove_from_parent : ℕ → Store → Store
remove_from_parent p s =
    let parent = (s.nodes p).parent in if parent == 0 then s else remove_list_node parent p s

-- What InsertListNode does once the new node is in no list.
unfoldable pub link_node : ℕ → ℕ → ℕ → Store → Store
link_node l new prev s =
    let next = if prev == 0 then (s.lists l).head else (s.nodes prev).next in
    let s = if prev == 0 then set_head l new s else set_next prev new s in
    let s = set_prev new prev s in
    let s = if next == 0 then set_tail l new s else set_prev next new s in
    let s = set_count l ((s.lists l).count + 1) s in set_parent new l (set_next new next s)

unfoldable pub insert_list_node : ℕ → ℕ → ℕ → Store → Store
insert_list_node l new prev s =
    let parent = (s.nodes new).parent in
    if new == 0
    then s
    else if parent == 0
    then link_node l new prev s
    else if parent == l
    then s
    else link_node l new prev (remove_from_parent new s)

unfoldable pub insert_before : ℕ → ℕ → ℕ → Store → Store
insert_before l new next s =
    insert_list_node l new (if next == 0 then (s.lists l).tail else (s.nodes next).prev) s

unfoldable pub insert_head : ℕ → ℕ → Store → Store
insert_head l new s = insert_list_node l new 0 s

unfoldable pub insert_tail : ℕ → ℕ → Store → Store
insert_tail l new s = insert_list_node l new (s.lists l).tail s

-- The loop of MoveListNodes; `none` is no fuel left.
unfoldable pub move_loop : ℕ → ℕ → ℕ → ℕ → Store → Option Store
move_loop zero l p prev s = if p == 0 then some s else none
move_loop (suc fuel) l p prev s =
    let rest =
      move_loop fuel l (s.nodes p).next p (insert_list_node l p prev (remove_from_parent p s)) in
    if p == 0 then some s else rest

-- A turn moves a node, so the count of the source is fuel enough.
unfoldable pub move_list_nodes : ℕ → ℕ → ℕ → Store → Option Store
move_list_nodes l source prev s =
    let moved = move_loop (s.lists source).count l (s.lists source).head prev s in
    if source == l then some s else if source == 0 then some s else moved

unfoldable pub walk : (ℕ → ListNode) → ℕ → ℕ → ℕ
walk nodes zero p = p
walk nodes (suc index) p = let rest = walk nodes index (nodes p).next in if p == 0 then 0 else rest

-- GetAt.
unfoldable pub get_at : ℕ → ℕ → Store → ℕ
get_at l index s = if ltb index (s.lists l).count then walk s.nodes index (s.lists l).head else 0

-- The loop of SetEmptyList, and of DisposeAll.
unfoldable pub empty_loop : ℕ → ℕ → Store → Option Store
empty_loop zero l s = if (s.lists l).head == 0 then some s else none
empty_loop (suc fuel) l s =
    let rest = empty_loop fuel l (remove_from_parent (s.lists l).head s) in
    if (s.lists l).head == 0 then some s else rest

-- ClearList.
unfoldable pub clear_list : ℕ → Store → Store
clear_list l s = set_count l 0 (set_tail l 0 (set_head l 0 s))

unfoldable pub set_empty_list : ℕ → Store → Option Store
set_empty_list l s = elim (empty_loop (s.lists l).count l s) [
  | none ↦ none
  | some s ↦ some (clear_list l s)
]
