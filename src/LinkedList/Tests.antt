-- ===== src/LinkedList/Tests.antt =====
-- Two lists, the nodes of which are moved about.
use gray_core.Base.{ℕ, List, [], ◌∷◌, ◌≡◌, refl, arith}
use gray_core.LinkedList.{
  Store, remove_list_node, remove_from_parent, link_node, insert_list_node, insert_head,
  insert_tail, insert_before, get_at, walk, move_list_nodes, set_empty_list,
}
use gray_core.LinkedList.Ring.{has, distinct, ends}
use gray_core.LinkedList.Contents.{IsStore}
use gray_core.LinkedList.Removing.{without, remove_from_parent-IsStore}
use gray_core.LinkedList.Inserting.{inserted, insert_after, after, insert_list_node-IsStore}
use gray_core.LinkedList.Moving.{Moved, move_list_nodes-Moved}
use gray_core.LinkedList.Walking.{Emptied, set_empty_list-Emptied}

abbrev nothing : Store
nothing = record {
  nodes = λ p. record { parent = 0; next = 0; prev = 0 };
  lists = λ l. record { head = 0; tail = 0; count = 0 };
}

nothing-IsStore : IsStore nothing (λ l. [])
unfolding has distinct
nothing-IsStore l some_l = record {
  chain = ends (ground arith) (ground arith);
  apart = refl;
  owned = λ a h. ground arith;
  mine = λ a h k. ground (arith, some_l);
  count = refl;
}

-- List 1 holds the nodes 11 and 12, and list 2 the node 13.
abbrev two_lists : Store
two_lists = insert_list_node 2 13 0 (insert_list_node 1 12 11 (insert_list_node 1 11 0 nothing))

abbrev held_first : ℕ → List ℕ
held_first = inserted (λ l. []) 1 11 0

abbrev held_second : ℕ → List ℕ
held_second = inserted held_first 1 12 11

abbrev held : ℕ → List ℕ
held = inserted held_second 2 13 0

two_lists-IsStore : IsStore two_lists held
unfolding inserted insert_after after has without
two_lists-IsStore =
    insert_list_node-IsStore (insert_list_node 1 12 11 (insert_list_node 1 11 0 nothing))
      held_second 2 13 0 refl refl
      (insert_list_node-IsStore (insert_list_node 1 11 0 nothing) held_first 1 12 11 refl refl
        (insert_list_node-IsStore nothing (λ l. []) 1 11 0 refl refl nothing-IsStore refl) refl)
      refl

held_one : held 1 ≡ 11 ∷ 12 ∷ []
unfolding inserted insert_after after has without
held_one = refl

insert_list_node-IsStore_example :
    IsStore (insert_list_node 2 11 13 two_lists) (inserted held 2 11 13)
unfolding inserted insert_after after has without
insert_list_node-IsStore_example =
    insert_list_node-IsStore two_lists held 2 11 13 refl refl two_lists-IsStore refl

remove_from_parent-IsStore_example :
    IsStore (remove_from_parent 11 two_lists) (λ l. without 11 (held l))
remove_from_parent-IsStore_example =
    remove_from_parent-IsStore two_lists held 11 refl two_lists-IsStore

move_list_nodes-Moved_example :
    Moved held 1 2 (11 ∷ 13 ∷ 12 ∷ []) (move_list_nodes 1 2 11 two_lists)
unfolding inserted insert_after after has without
move_list_nodes-Moved_example =
    move_list_nodes-Moved two_lists held 1 2 (11 ∷ []) (12 ∷ []) refl refl refl two_lists-IsStore
      refl

set_empty_list-Emptied_example : Emptied held 1 (set_empty_list 1 two_lists)
set_empty_list-Emptied_example = set_empty_list-Emptied two_lists held 1 refl two_lists-IsStore

-- A node that is put at the end, and one before another.
built : get_at 1 1 (insert_before 1 12 11 (insert_tail 1 11 (insert_head 1 13 nothing))) ≡ 12
unfolding insert_before insert_tail insert_head insert_list_node link_node remove_from_parent
    remove_list_node get_at walk
built = refl

taken_from_list : get_at 1 0 (insert_list_node 2 11 13 two_lists) ≡ 12
unfolding insert_list_node link_node remove_from_parent remove_list_node get_at walk
taken_from_list = refl
