-- ===== src/LinkedList/Removing.antt =====
-- RemoveFromParent, in a store in which every list is in order.
use gray_core.Base.{
  ℕ, ◌≡◌, refl, sym, ap, true, false, not, ◌||◌, Bool-cases, inl, inr, List, [], ◌∷◌, ◌++◌, ◌==◌,
  ==→eq, if◌then◌else◌, arith,
}
use gray_core.LinkedList.{Store, remove_list_node, remove_from_parent}
use gray_core.LinkedList.Ring.{
  has, distinct, last_or, head_or, has-append, has-last_or, has-head_or, Chain-prev, Chain-next_at,
  distinct-around,
}
use gray_core.LinkedList.Effects.{Removed, remove_list_node-Removed}
use gray_core.LinkedList.Contents.{IsList, IsStore, Removed-IsList, Beside-IsList, apart-lists}

-- A list without a node.
unfoldable pub without : ℕ → List ℕ → List ℕ
without p [] = []
without p (x ∷ xs) = let rest = without p xs in if p == x then rest else x ∷ rest

pub without-absent : (p : ℕ) (xs : List ℕ) → has p xs ≡ false → without p xs ≡ xs
unfolding without has
without-absent p [] h = refl
without-absent p (x ∷ xs) h = ground (arith, without-absent p xs)

-- Where a node stands in a list.
pub record Around (p : ℕ) (xs : List ℕ) : Type 0 where
  pub front : List ℕ
  pub back : List ℕ
  pub whole : xs ≡ front ++ p ∷ back
  pub rest : without p xs ≡ front ++ back

pub around : (p : ℕ) (xs : List ℕ) → has p xs ≡ true → distinct xs ≡ true → Around p xs
unfolding without has distinct
around p [] h d = absurd (ground arith)
around p (x ∷ xs) h d = elim (Bool-cases (p == x)) [
  | inl here ↦ record {
    front = [];
    back = xs;
    whole = ap (λ (y : ℕ). y ∷ xs) (sym (==→eq p x here));
    rest = ground (arith, here, without-absent p xs);
  }
  | inr later ↦
      let r = around p xs (ground (arith, later)) (ground arith) in
      record {
        front = x ∷ r.front;
        back = r.back;
        whole = ap (λ (ys : List ℕ). x ∷ ys) r.whole;
        rest = ground (arith, later, r.rest);
      }
]

module _ (s : Store) (l p : ℕ) (front back : List ℕ) (some_p : (p == 0) ≡ false)
    (is : IsList s l (front ++ p ∷ back)) where
  neighbours : ((s.nodes p).prev ≡ last_or 0 front) × ((s.nodes p).next ≡ head_or 0 back)
  neighbours = (
    ground (arith, Chain-prev 0 0 front (p ∷ back) is.chain, some_p),
    ground (arith, Chain-next_at 0 0 p front back is.chain, some_p),
  )

  -- The neighbours of a node are other nodes.
  neighbours_differ : ((last_or 0 front == p) ≡ false) × ((head_or 0 back == p) ≡ false)
  unfolding has distinct
  neighbours_differ = (
    ground (arith, some_p, is.apart, has-last_or 0 front, out, has-append p front back),
    ground (arith, some_p, is.apart, has-head_or 0 back, out, has-append p front back),
  )
    where
      out : has p (front ++ back) ≡ false
      out = (distinct-around p front back (ground (arith, is.apart))).0

  removed : Removed s (remove_list_node l p s) l p (last_or 0 front) (head_or 0 back)
  removed =
      rw (sym neighbours.0, sym neighbours.1)
        (remove_list_node-Removed s l p some_p (rw neighbours.0 neighbours_differ.0)
          (rw neighbours.1 neighbours_differ.1))

  removed-other :
      (m : ℕ) (ys : List ℕ)
      → (l == 0) ≡ false
      → (m == 0) ≡ false
      → (m == l) ≡ false
      → IsList s m ys
      → IsList (remove_list_node l p s) m ys
  unfolding has
  removed-other m ys some_l some_m other is' =
      Beside-IsList some_l (last_or 0 front) (head_or 0 back) m ys removed.beside other
        (ground (arith, reached p (ground (arith, member p)), some_p))
        (reached (last_or 0 front) (ground (arith, has-last_or 0 front, member (last_or 0 front))))
        (reached (head_or 0 back) (ground (arith, has-head_or 0 back, member (head_or 0 back))))
        (ground (arith, removed.parent, some_m)) is'
    where
      member : (a : ℕ) → has a (front ++ p ∷ back) ≡ (has a front || ((a == p) || has a back))
      member a = has-append a front (p ∷ back)

      reached :
          (a : ℕ) → (a == 0 || has a (front ++ p ∷ back)) ≡ true → (a == 0 || not (has a ys)) ≡ true
      reached a h = apart-lists s l m a (front ++ p ∷ back) ys other is is' h

module _ (s : Store) (contents : ℕ → List ℕ) (p : ℕ) (some_p : (p == 0) ≡ false)
    (all : IsStore s contents) where
  -- A node is in the list of its parent only.
  pub absent :
      (m : ℕ) → (m == 0) ≡ false → (m == (s.nodes p).parent) ≡ false → has p (contents m) ≡ false
  absent m some_m other = elim (Bool-cases (has p (contents m))) [
    | inl inside ↦ ground (arith, (all m some_m).owned p inside, other)
    | inr outside ↦ outside
  ]

  remove_list_node-IsStore :
      (l : ℕ)
      → (s.nodes p).parent ≡ l
      → (l == 0) ≡ false
      → IsStore (remove_list_node l p s) (λ m. without p (contents m))
  remove_list_node-IsStore l is some_l m some_m = elim (Bool-cases (m == l)) [
    | inl here ↦
        rw (==→eq m l here, place.rest)
          (Removed-IsList some_l place.front place.back
            (removed s l p place.front place.back some_p in_place) in_place)
    | inr other ↦ rw (without-absent p (contents m) (absent m some_m (rw is other))) (
        removed-other s l p place.front place.back some_p in_place m (contents m) some_l some_m
          other (all m some_m))
  ]
    where
      place : Around p (contents l)
      place =
          around p (contents l) ((all l some_l).mine p some_p is)
            (unfold distinct in ground (arith, (all l some_l).apart))

      in_place : IsList s l (place.front ++ p ∷ place.back)
      in_place = rw (sym place.whole) (all l some_l)

  -- RemoveFromParent takes a node out of the list that it is in, and leaves every other list.
  pub remove_from_parent-IsStore : IsStore (remove_from_parent p s) (λ l. without p (contents l))
  unfolding remove_from_parent
  remove_from_parent-IsStore = elim (Bool-cases ((s.nodes p).parent == 0)) [
    | inl free ↦ rw free λ m some_m.
        rw (without-absent p (contents m) (absent m some_m (nowhere m some_m free))) (all m some_m)
    | inr listed ↦ rw listed (remove_list_node-IsStore (s.nodes p).parent refl listed)
  ]
    where
      nowhere :
          (m : ℕ)
          → (m == 0) ≡ false
          → ((s.nodes p).parent == 0) ≡ true
          → (m == (s.nodes p).parent) ≡ false
      nowhere m some_m free = ground arith
