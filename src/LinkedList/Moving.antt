-- ===== src/LinkedList/Moving.antt =====
-- MoveListNodes: all nodes of a list go into another, in their order.
use mathlib.Core.List.{append_assoc}
use gray_core.Base.{
  ℕ, zero, suc, ◌≡◌, ◌≤◌, refl, sym, ap, ◌∙◌, true, false, ◌||◌, Option, some, List, [], ◌∷◌, ◌++◌,
  length, ◌==◌, arith,
}
use gray_core.LinkedList.{Store, insert_list_node, remove_from_parent, move_loop, move_list_nodes}
use gray_core.LinkedList.Ring.{
  has, distinct, last_or, head_or, has-append, has-last_or, Chain-next_at, Chain-next,
}
use gray_core.LinkedList.Contents.{IsList, IsStore}
use gray_core.LinkedList.Removing.{without, without-absent, absent, remove_from_parent-IsStore}
use gray_core.LinkedList.Inserting.{after, insert_after, inserted, insert_list_node-IsStore}

-- A store that an operation returns, where the list at l holds `all`, the list at `source` nothing,
-- and the other lists what they held.
pub record Moved (contents : ℕ → List ℕ) (l source : ℕ) (all : List ℕ) (outcome : Option Store)
    : Type 0 where
  pub store : Store
  pub returned : outcome ≡ some store
  pub contents_after : ℕ → List ℕ
  pub in_order : IsStore store contents_after
  pub target : contents_after l ≡ all
  pub emptied : contents_after source ≡ []
  pub others :
      (m : ℕ)
      → (m == 0) ≡ false
      → (m == l) ≡ false
      → (m == source) ≡ false
      → contents_after m ≡ contents m

after-last_or :
    (y new : ℕ) (front back : List ℕ)
    → distinct (y ∷ front ++ back) ≡ true
    → after (last_or y front) new ((y ∷ front) ++ back) ≡ (y ∷ front) ++ new ∷ back
unfolding after distinct has
after-last_or y new [] back d = ground arith
after-last_or y new (x ∷ front) back d =
    rw (after, not_y) (ap (λ (xs : List ℕ). y ∷ xs) (after-last_or x new front back (ground arith)))
  where
    not_y : (y == last_or x front) ≡ false
    not_y = ground (arith, has-last_or x front, has-append y front back)

insert_after-last_or :
    (new : ℕ) (front back : List ℕ)
    → distinct (0 ∷ front ++ back) ≡ true
    → insert_after (last_or 0 front) new (front ++ back) ≡ front ++ new ∷ back
unfolding insert_after
insert_after-last_or new [] back d = refl
insert_after-last_or new (y ∷ front) back d =
    rw some_last (after-last_or y new front back (unfold distinct in ground arith))
  where
    some_last : (last_or y front == 0) ≡ false
    some_last = unfold distinct has in ground (arith, has-last_or y front, has-append 0 front back)

last_or-append : (p x : ℕ) (front : List ℕ) → last_or p (front ++ x ∷ []) ≡ x
last_or-append p x [] = refl
last_or-append p x (y ∷ front) = last_or-append y x front

-- A node is taken from the front of a list and put into another.
module _ (s : Store) (contents : ℕ → List ℕ) (l source x : ℕ) (front back rest : List ℕ)
    (some_l : (l == 0) ≡ false) (some_source : (source == 0) ≡ false)
    (other : (l == source) ≡ false) (all : IsStore s contents) (at_l : contents l ≡ front ++ back)
    (at_source : contents source ≡ x ∷ rest) where
  is_source : IsList s source (x ∷ rest)
  is_source = rw (sym at_source) (all source some_source)

  is_target : IsList s l (front ++ back)
  is_target = rw (sym at_l) (all l some_l)

  some_x : (x == 0) ≡ false
  some_x = unfold distinct has in ground (arith, is_source.apart)

  next_x : (s.nodes x).next ≡ head_or 0 rest
  next_x = ground (arith, Chain-next_at 0 0 x [] rest is_source.chain, some_x)

  parent_x : (s.nodes x).parent ≡ source
  parent_x = is_source.owned x (unfold has in ground arith)

  elsewhere :
      (m : ℕ) → (m == 0) ≡ false → (m == source) ≡ false → without x (contents m) ≡ contents m
  elsewhere m some_m h =
      without-absent x (contents m) (absent s contents x some_x all m some_m (rw parent_x h))

  target_same : without x (contents l) ≡ front ++ back
  target_same = elsewhere l some_l other ∙ at_l

  outside : has x (front ++ back) ≡ false
  outside = rw (sym at_l) (absent s contents x some_x all l some_l (rw parent_x other))

  source_same : without x (contents source) ≡ rest
  source_same =
      rw at_source
        (unfold without distinct has in ground (arith, is_source.apart, without-absent x rest))

  rest_outside : has x rest ≡ false
  rest_outside = unfold distinct has in ground (arith, is_source.apart)

  taken : ℕ → List ℕ
  taken m = without x (contents m)

  turned : ℕ → List ℕ
  unfolding taken
  turned = inserted taken l x (last_or 0 front)

  turned_target : turned l ≡ front ++ x ∷ back
  unfolding turned taken inserted
  turned_target =
      rw (target_same, outside, sure) (insert_after-last_or x front back is_target.apart)
    where
      sure : (l == l) ≡ true
      sure = ground arith

  turned_source : turned source ≡ rest
  unfolding turned taken inserted
  turned_source =
      rw (target_same, outside, differs, source_same) (without-absent x rest rest_outside)
    where
      differs : (source == l) ≡ false
      differs = ground (arith, other)

  turned_other :
      (m : ℕ) → (m == 0) ≡ false → (m == l) ≡ false → (m == source) ≡ false → turned m ≡ contents m
  unfolding turned taken inserted
  turned_other m some_m h k =
      rw (target_same, outside, h, elsewhere m some_m k) (elsewhere m some_m k)

  turned-IsStore : IsStore (insert_list_node l x (last_or 0 front) (remove_from_parent x s)) turned
  unfolding turned taken
  turned-IsStore =
      insert_list_node-IsStore (remove_from_parent x s) taken l x (last_or 0 front) some_l some_x
        (remove_from_parent-IsStore s contents x some_x all) (rw target_same known)
    where
      known : (last_or 0 front == 0 || has (last_or 0 front) (front ++ back)) ≡ true
      known =
          unfold has in ground (arith, has-last_or 0 front, has-append (last_or 0 front) front back)

  turned_back : turned l ≡ (front ++ x ∷ []) ++ back
  turned_back = turned_target ∙ sym (append_assoc front (x ∷ []) back)

  turn-Moved :
      (fuel : ℕ)
      → Moved turned l source ((front ++ x ∷ []) ++ (rest ++ back)) (
          move_loop fuel l
            (head_or 0 rest)
            x
            (insert_list_node l x (last_or 0 front) (remove_from_parent x s)))
      → Moved contents l source
          (front ++ ((x ∷ rest) ++ back))
          (move_loop (suc fuel) l x (last_or 0 front) s)
  unfolding move_loop
  turn-Moved fuel later = record {
    store = later.store;
    returned = rw (move_loop, some_x, next_x) later.returned;
    contents_after = later.contents_after;
    in_order = later.in_order;
    target = later.target ∙ append_assoc front (x ∷ []) (rest ++ back);
    emptied = later.emptied;
    others = λ m z h k. later.others m z h k ∙ turned_other m z h k;
  }

move_loop-Moved :
    (fuel : ℕ) (s : Store) (contents : ℕ → List ℕ) (l source : ℕ) (front back rest : List ℕ)
    → (l == 0) ≡ false
    → (source == 0) ≡ false
    → (l == source) ≡ false
    → IsStore s contents
    → contents l ≡ front ++ back
    → contents source ≡ rest
    → length rest ≤ fuel
    → Moved contents l source
        (front ++ (rest ++ back))
        (move_loop fuel l (head_or 0 rest) (last_or 0 front) s)
unfolding move_loop
move_loop-Moved fuel s contents l source front back [] some_l some_s other all at_l at_s enough =
    record {
      store = s;
      returned = nothing fuel;
      contents_after = contents;
      in_order = all;
      target = at_l;
      emptied = at_s;
      others = λ m z h k. refl;
    }
  where
    nothing : (fuel : ℕ) → move_loop fuel l 0 (last_or 0 front) s ≡ some s
    nothing zero = refl
    nothing (suc fuel) = refl
move_loop-Moved zero s contents l source front back (x ∷ rest) some_l some_s other all at_l at_s
      enough =
    absurd (omega arith)
move_loop-Moved (suc fuel) s contents l source front back (x ∷ rest) some_l some_s other all at_l
      at_s enough =
    turn-Moved s contents l source x front back rest some_l some_s other all at_l at_s fuel (
      rw (last_or-append 0 x front) at (
        move_loop-Moved fuel _
          (turned s contents l source x front back rest some_l some_s other all at_l at_s) l source
          (front ++ x ∷ []) back rest some_l some_s other
          (turned-IsStore s contents l source x front back rest some_l some_s other all at_l at_s)
          (turned_back s contents l source x front back rest some_l some_s other all at_l at_s)
          (turned_source s contents l source x front back rest some_l some_s other all at_l at_s)
          (omega arith)))

-- MoveListNodes puts the nodes of another list behind a node of this one, or in front for nullptr,
-- in their order; it leaves the other list empty and every list in order, and it ends.
pub move_list_nodes-Moved :
    (s : Store) (contents : ℕ → List ℕ) (l source : ℕ) (front back : List ℕ)
    → (l == 0) ≡ false
    → (source == 0) ≡ false
    → (source == l) ≡ false
    → IsStore s contents
    → contents l ≡ front ++ back
    → Moved contents l source
        (front ++ (contents source ++ back))
        (move_list_nodes l source (last_or 0 front) s)
unfolding move_list_nodes
move_list_nodes-Moved s contents l source front back some_l some_s other all at_l =
    rw (other, some_s, (all source some_s).count, head)
      (move_loop-Moved (length (contents source)) s contents l source front back (contents source)
        some_l some_s (ground (arith, other)) all at_l refl (omega arith))
  where
    head : (s.lists source).head ≡ head_or 0 (contents source)
    head = Chain-next 0 0 [] (contents source) (all source some_s).chain
