-- ===== src/LinkedList/Walking.antt =====
-- GetAt and SetEmptyList.
use gray_core.Base.{
  ℕ, zero, suc, ◌≡◌, ◌≤◌, ◌<◌, refl, sym, ap, ◌∙◌, false, Bool-cases, inl, inr, Option, some, List,
  [], ◌∷◌, length, get_or, ltb, ltb→lt, ◌==◌, ==→eq, arith,
}
use gray_core.LinkedList.{
  Store, clear_list, remove_from_parent, walk, get_at, empty_loop, set_empty_list,
}
use gray_core.LinkedList.Ring.{has, distinct, Chain, ends, link, Chain-frame, Chain-next}
use gray_core.LinkedList.Effects.{next_of, prev_of}
use gray_core.LinkedList.Contents.{IsList, IsStore}
use gray_core.LinkedList.Removing.{without, without-absent, remove_from_parent-IsStore, absent}

walk-get_or :
    (s : Store) (l p : ℕ) (xs : List ℕ) (index : ℕ)
    → Chain (next_of s l) (prev_of s l) 0 p xs
    → has 0 xs ≡ false
    → index < length xs
    → walk s.nodes index (next_of s l p) ≡ get_or xs index 0
unfolding walk has
walk-get_or s l p [] index c out h = absurd (omega arith)
walk-get_or s l p (x ∷ xs) zero (link n b c) out h = n
walk-get_or s l p (x ∷ xs) (suc index) (link n b c) out h =
    ap (walk s.nodes (suc index)) n
    ∙ rw (walk, some_x)
        (ap (walk s.nodes index) same ∙ walk-get_or s l x xs index c (ground arith) (omega arith))
  where
    some_x : (x == 0) ≡ false
    some_x = ground (arith, out)

    same : (s.nodes x).next ≡ next_of s l x
    same = ground (arith, some_x)

get_or-outside : (xs : List ℕ) (index : ℕ) → ltb index (length xs) ≡ false → get_or xs index 0 ≡ 0
get_or-outside [] index h = refl
get_or-outside (x ∷ xs) zero h = ground arith
get_or-outside (x ∷ xs) (suc index) h = get_or-outside xs index (ground arith)

-- GetAt gives the node at an index of the list, and nullptr past its end.
pub get_at-get_or :
    (s : Store) (l index : ℕ) (xs : List ℕ) → IsList s l xs → get_at l index s ≡ get_or xs index 0
unfolding get_at
get_at-get_or s l index xs is = elim (Bool-cases (ltb index (length xs))) [
  | inl inside ↦
      rw (is.count, inside)
        (walk-get_or s l 0 xs index is.chain (unfold distinct in ground (arith, is.apart))
          (ltb→lt index (length xs) inside))
  | inr outside ↦ rw (is.count, outside) (sym (get_or-outside xs index outside))
]

-- A store that an operation returns, where the list at l holds nothing, and the other lists what
-- they held.
pub record Emptied (contents : ℕ → List ℕ) (l : ℕ) (outcome : Option Store) : Type 0 where
  pub store : Store
  pub returned : outcome ≡ some store
  pub contents_after : ℕ → List ℕ
  pub in_order : IsStore store contents_after
  pub emptied : contents_after l ≡ []
  pub others : (m : ℕ) → (m == 0) ≡ false → (m == l) ≡ false → contents_after m ≡ contents m

module _ (s : Store) (contents : ℕ → List ℕ) (l x : ℕ) (rest : List ℕ) (some_l : (l == 0) ≡ false)
    (all : IsStore s contents) (at_l : contents l ≡ x ∷ rest) where
  is_l : IsList s l (x ∷ rest)
  is_l = rw (sym at_l) (all l some_l)

  some_x : (x == 0) ≡ false
  some_x = unfold distinct has in ground (arith, is_l.apart)

  head_x : (s.lists l).head ≡ x
  head_x = Chain-next 0 0 [] (x ∷ rest) is_l.chain

  rest_left : without x (contents l) ≡ rest
  rest_left =
      rw at_l (unfold without distinct has in ground (arith, is_l.apart, without-absent x rest))

  others_left : (m : ℕ) → (m == 0) ≡ false → (m == l) ≡ false → without x (contents m) ≡ contents m
  others_left m some_m h =
      without-absent x (contents m) (absent s contents x some_x all m some_m (rw parent h))
    where
      parent : (s.nodes x).parent ≡ l
      parent = is_l.owned x (unfold has in ground arith)

empty_loop-Emptied :
    (fuel : ℕ) (s : Store) (contents : ℕ → List ℕ) (l : ℕ) (rest : List ℕ)
    → (l == 0) ≡ false
    → IsStore s contents
    → contents l ≡ rest
    → length rest ≤ fuel
    → Emptied contents l (empty_loop fuel l s)
unfolding empty_loop
empty_loop-Emptied fuel s contents l [] some_l all at_l enough = record {
  store = s;
  returned = finished fuel;
  contents_after = contents;
  in_order = all;
  emptied = at_l;
  others = λ m z h. refl;
}
  where
    no_head : (s.lists l).head ≡ 0
    no_head = Chain-next 0 0 [] [] (IsList.chain (rw at_l at (all l some_l)))

    finished : (fuel : ℕ) → empty_loop fuel l s ≡ some s
    finished zero = rw no_head refl
    finished (suc fuel) = rw no_head refl
empty_loop-Emptied zero s contents l (x ∷ rest) some_l all at_l enough = absurd (omega arith)
empty_loop-Emptied (suc fuel) s contents l (x ∷ rest) some_l all at_l enough =
    let later =
      empty_loop-Emptied fuel (remove_from_parent x s) (λ m. without x (contents m)) l rest some_l
        (remove_from_parent-IsStore s contents x (some_x s contents l x rest some_l all at_l) all)
        (rest_left s contents l x rest some_l all at_l) (omega arith) in
    record {
      store = later.store;
      returned =
          rw
            (
              empty_loop,
              head_x s contents l x rest some_l all at_l,
              some_x s contents l x rest some_l all at_l,
            )
            later.returned;
      contents_after = later.contents_after;
      in_order = later.in_order;
      emptied = later.emptied;
      others = λ m z h. later.others m z h ∙ others_left s contents l x rest some_l all at_l m z h;
    }

-- ClearList at the end of SetEmptyList finds nothing to write.
cleared-IsStore :
    (s : Store) (contents : ℕ → List ℕ) (l : ℕ)
    → (l == 0) ≡ false
    → IsStore s contents
    → contents l ≡ []
    → IsStore (clear_list l s) contents
unfolding clear_list
cleared-IsStore s contents l some_l all empty m some_m = elim (Bool-cases (m == l)) [
  | inl here ↦ rw (==→eq m l here, empty) (cleared (rw empty at (all l some_l)))
  | inr other ↦
      let is = all m some_m in
      record {
        chain =
            Chain-frame 0 0 (contents m) is.chain (λ a h. ground (arith, other))
              (λ a h. ground (arith, other));
        apart = is.apart;
        owned = is.owned;
        mine = is.mine;
        count = ground (arith, other, is.count);
      }
]
  where
    cleared : IsList s l [] → IsList (clear_list l s) l []
    cleared is = record {
      chain = ends (ground arith) (ground arith);
      apart = is.apart;
      owned = is.owned;
      mine = is.mine;
      count = ground arith;
    }

-- SetEmptyList takes every node out of a list, and leaves the other lists; it ends.
pub set_empty_list-Emptied :
    (s : Store) (contents : ℕ → List ℕ) (l : ℕ)
    → (l == 0) ≡ false
    → IsStore s contents
    → Emptied contents l (set_empty_list l s)
unfolding set_empty_list
set_empty_list-Emptied s contents l some_l all =
    let loop =
      empty_loop-Emptied (s.lists l).count s contents l (contents l) some_l all refl
        (omega (arith, (all l some_l).count)) in
    record {
      store = clear_list l loop.store;
      returned = rw (set_empty_list, loop.returned) refl;
      contents_after = loop.contents_after;
      in_order = cleared-IsStore loop.store loop.contents_after l some_l loop.in_order loop.emptied;
      emptied = loop.emptied;
      others = loop.others;
    }
