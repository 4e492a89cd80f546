-- ===== src/LinkedList/Inserting.antt =====
-- InsertListNode, in a store in which every list is in order.
use gray_core.Base.{
  ℕ, ◌≡◌, refl, sym, ap, ◌∙◌, true, false, not, ◌||◌, Bool-cases, inl, inr, List, [], ◌∷◌, ◌++◌,
  ◌==◌, ==→eq, if◌then◌else◌, arith,
}
use gray_core.LinkedList.{
  Store, put, link_node, insert_list_node, remove_from_parent, remove_list_node,
}
use gray_core.LinkedList.Ring.{
  has, last_or, head_or, has-append, has-last_or, has-head_or, Chain-next,
}
use gray_core.LinkedList.Effects.{next_of, Inserted, link_node-Inserted}
use gray_core.LinkedList.Contents.{IsList, IsStore, Inserted-IsList, Beside-IsList, apart-lists}
use gray_core.LinkedList.Removing.{without, without-absent, absent, remove_from_parent-IsStore}

unfoldable pub after : ℕ → ℕ → List ℕ → List ℕ
after prev new [] = new ∷ []
after prev new (x ∷ xs) =
    let rest = after prev new xs in if x == prev then x ∷ new ∷ xs else x ∷ rest

-- A list with a node put after another, or in front for 0.
unfoldable pub insert_after : ℕ → ℕ → List ℕ → List ℕ
unfolding after
insert_after prev new xs = if prev == 0 then new ∷ xs else after prev new xs

-- The place behind a node of a list, or behind 0.
pub record Gap (prev new : ℕ) (xs : List ℕ) (result : List ℕ) : Type 0 where
  pub front : List ℕ
  pub back : List ℕ
  pub whole : xs ≡ front ++ back
  pub here : last_or 0 front ≡ prev
  pub result_is : result ≡ front ++ new ∷ back

-- The place behind a node, with the list not empty.
record GapFrom (first prev new : ℕ) (xs : List ℕ) : Type 0 where
  front : List ℕ
  back : List ℕ
  whole : xs ≡ front ++ back
  here : last_or first front ≡ prev
  result_is : after prev new xs ≡ front ++ new ∷ back

gap_after : (first prev new : ℕ) (xs : List ℕ) → has prev xs ≡ true → GapFrom first prev new xs
unfolding after has
gap_after first prev new [] h = absurd (ground arith)
gap_after first prev new (x ∷ xs) h = elim (Bool-cases (x == prev)) [
  | inl found ↦ record {
    front = x ∷ [];
    back = xs;
    whole = refl;
    here = ==→eq x prev found;
    result_is = rw found refl;
  }
  | inr later ↦
      let r = gap_after x prev new xs (ground (arith, later)) in
      record {
        front = x ∷ r.front;
        back = r.back;
        whole = ap (λ (ys : List ℕ). x ∷ ys) r.whole;
        here = r.here;
        result_is = rw later (ap (λ (ys : List ℕ). x ∷ ys) r.result_is);
      }
]

gap :
    (prev new : ℕ) (xs : List ℕ)
    → (prev == 0 || has prev xs) ≡ true
    → Gap prev new xs (insert_after prev new xs)
unfolding insert_after
gap prev new xs h = elim (Bool-cases (prev == 0)) [
  | inl start ↦ record {
    front = [];
    back = xs;
    whole = refl;
    here = sym (==→eq prev 0 start);
    result_is = rw start refl;
  }
  | inr inside ↦
      let r = gap_after 0 prev new xs (ground (arith, inside, h)) in
      record {
        front = r.front;
        back = r.back;
        whole = r.whole;
        here = r.here;
        result_is = rw inside r.result_is;
      }
]

module _ (s : Store) (contents : ℕ → List ℕ) (l new prev : ℕ) (some_l : (l == 0) ≡ false)
    (some_new : (new == 0) ≡ false) (all : IsStore s contents)
    (known : (prev == 0 || has prev (contents l)) ≡ true)
    (free : ((s.nodes new).parent == 0) ≡ true) where
  place : Gap prev new (contents l) (insert_after prev new (contents l))
  place = gap prev new (contents l) known

  split : IsList s l (place.front ++ place.back)
  split = rw (sym place.whole) (all l some_l)

  nowhere : (m : ℕ) → (m == 0) ≡ false → has new (contents m) ≡ false
  nowhere m some_m = absent s contents new some_new all m some_m (ground (arith, free, some_m))

  fresh : has new (place.front ++ place.back) ≡ false
  fresh = rw (sym place.whole) (nowhere l some_l)

  member : (a : ℕ) → has a (contents l) ≡ (has a place.front || has a place.back)
  member a = ap (has a) place.whole ∙ has-append a place.front place.back

  -- The neighbours are 0 or nodes of the list, so they are not the new node.
  listed_prev : (last_or 0 place.front == 0 || has (last_or 0 place.front) (contents l)) ≡ true
  unfolding has
  listed_prev = ground (arith, has-last_or 0 place.front, member (last_or 0 place.front))

  listed_next : (head_or 0 place.back == 0 || has (head_or 0 place.back) (contents l)) ≡ true
  unfolding has
  listed_next = ground (arith, has-head_or 0 place.back, member (head_or 0 place.back))

  listed_differs : (a : ℕ) → (a == 0 || has a (contents l)) ≡ true → (a == new) ≡ false
  listed_differs a h = ground (arith, some_new, nowhere l some_l)

  linked : Inserted s (link_node l new prev s) l new (last_or 0 place.front) (head_or 0 place.back)
  linked =
      rw (place.here, sym behind)
        (link_node-Inserted s l new prev some_new (listed_differs prev known)
          (rw behind (listed_differs (head_or 0 place.back) listed_next)))
    where
      behind : next_of s l prev ≡ head_or 0 place.back
      behind = ap (next_of s l) (sym place.here) ∙ Chain-next 0 0 place.front place.back split.chain

  link_node-IsStore :
      IsStore (link_node l new prev s) (put contents l (insert_after prev new (contents l)))
  link_node-IsStore m some_m = elim (Bool-cases (m == l)) [
    | inl here ↦
        rw (here, ==→eq m l here, place.result_is)
          (Inserted-IsList some_l place.front place.back some_new fresh linked split)
    | inr other ↦ rw other (
        Beside-IsList some_l (last_or 0 place.front) (head_or 0 place.back) m (contents m)
          linked.beside other (nowhere m some_m)
          (reached m some_m other (last_or 0 place.front) listed_prev)
          (reached m some_m other (head_or 0 place.back) listed_next)
          (ground (arith, linked.parent, other)) (all m some_m))
  ]
    where
      reached :
          (m : ℕ)
          → (m == 0) ≡ false
          → (m == l) ≡ false
          → (a : ℕ) → (a == 0 || has a (contents l)) ≡ true
          → (a == 0 || not (has a (contents m))) ≡ true
      reached m some_m other a h =
          apart-lists s l m a (contents l) (contents m) other (all l some_l) (all m some_m) h

-- What InsertListNode makes of the contents of the lists: nothing new for a node that is there
-- already; else the node is taken from its list and put behind another.
unfoldable pub inserted : (ℕ → List ℕ) → ℕ → ℕ → ℕ → ℕ → List ℕ
inserted contents l new prev =
    if has new (contents l)
    then contents
    else put (λ m. without new (contents m)) l (insert_after prev new (contents l))

removed_parent : (s : Store) (p : ℕ) → ((remove_from_parent p s).nodes p).parent ≡ 0
unfolding remove_from_parent remove_list_node
removed_parent s p = ground arith

module _ (contents : ℕ → List ℕ) (l new prev : ℕ) (some_l : (l == 0) ≡ false)
    (some_new : (new == 0) ≡ false) (known : (prev == 0 || has prev (contents l)) ≡ true) where
  -- The new node is taken out of its list, and is put into another.
  link_without-IsStore :
      (s : Store)
      → has new (contents l) ≡ false
      → IsStore s (λ m. without new (contents m))
      → (s.nodes new).parent ≡ 0
      → IsStore (link_node l new prev s) (inserted contents l new prev)
  unfolding inserted
  link_without-IsStore s outside all free =
      rw (outside, sym here)
        (link_node-IsStore s (λ m. without new (contents m)) l new prev some_l some_new all
          (rw here known) (ground (arith, free)))
    where
      here : without new (contents l) ≡ contents l
      here = without-absent new (contents l) outside

  not_in :
      (s : Store)
      → IsStore s contents
      → (l == (s.nodes new).parent) ≡ false
      → has new (contents l) ≡ false
  not_in s all other = absent s contents new some_new all l some_l other

-- InsertListNode puts a node behind another node of the list, or in front for nullptr, and takes it
-- out of the list that it was in; a node that is in the list already stays where it is. All lists
-- stay in order.
pub insert_list_node-IsStore :
    (s : Store) (contents : ℕ → List ℕ) (l new prev : ℕ)
    → (l == 0) ≡ false
    → (new == 0) ≡ false
    → IsStore s contents
    → (prev == 0 || has prev (contents l)) ≡ true
    → IsStore (insert_list_node l new prev s) (inserted contents l new prev)
unfolding insert_list_node inserted
insert_list_node-IsStore s contents l new prev some_l some_new all known =
    elim (Bool-cases ((s.nodes new).parent == 0)) [
      | inl free ↦
          rw (some_new, free)
            (link_without-IsStore contents l new prev some_l some_new known s
              (not_in contents l new prev some_l some_new known s all
                (ground (arith, free, some_l)))
              (λ m some_m.
                rw
                  (without-absent new (contents m)
                    (absent s contents new some_new all m some_m (ground (arith, free, some_m))))
                  (all m some_m))
              (==→eq (s.nodes new).parent 0 free))
      | inr listed ↦ elim (Bool-cases ((s.nodes new).parent == l)) [
        | inl here ↦
            rw
              (
                some_new,
                listed,
                here,
                (all l some_l).mine new some_new (==→eq (s.nodes new).parent l here),
              )
              all
        | inr other ↦
            rw (some_new, listed, other)
              (link_without-IsStore contents l new prev some_l some_new known
                (remove_from_parent new s)
                (not_in contents l new prev some_l some_new known s all (ground (arith, other)))
                (remove_from_parent-IsStore s contents new some_new all) (removed_parent s new))
      ]
    ]
