-- ===== src/LinkedList/Contents.antt =====
-- The nodes that a list holds, and a store in which every list is in order.
use gray_core.Base.{
  ℕ, ◌≡◌, ◌≢◌, ◌∙◌, true, false, not, ◌||◌, Bool-cases, inl, inr, List, ◌∷◌, ◌++◌, length,
  length-append, ◌==◌, arith,
}
use gray_core.LinkedList.{Store}
use gray_core.LinkedList.Ring.{
  has, distinct, last_or, head_or, Chain, has-append, Chain-insert, Chain-remove, Chain-frame,
  distinct-around, distinct-insert,
}
use gray_core.LinkedList.Effects.{next_of, prev_of, Beside, Removed, Inserted}

-- The list at l holds the nodes xs, in this order, and no other node is its child.
pub record IsList (s : Store) (l : ℕ) (xs : List ℕ) : Type 0 where
  pub chain : Chain (next_of s l) (prev_of s l) 0 0 xs
  pub apart : distinct (0 ∷ xs) ≡ true
  pub owned : (a : ℕ) → has a xs ≡ true → (s.nodes a).parent ≡ l
  pub mine : (a : ℕ) → (a == 0) ≡ false → (s.nodes a).parent ≡ l → has a xs ≡ true
  pub count : (s.lists l).count ≡ length xs

abbrev pub IsStore : Store → (ℕ → List ℕ) → Type 0
IsStore s contents = (l : ℕ) → (l == 0) ≡ false → IsList s l (contents l)

module _ {s s' : Store} {l p : ℕ} (some_l : (l == 0) ≡ false) where
  pub Removed-IsList :
      (front back : List ℕ)
      → Removed s s' l p (last_or 0 front) (head_or 0 back)
      → IsList s l (front ++ p ∷ back)
      → IsList s' l (front ++ back)
  unfolding has distinct
  Removed-IsList front back r is = record {
    chain =
        Chain-remove p 0 0 front back is.chain is.apart (ground (arith, is.apart)) r.next_prev
          r.beside.next_else r.prev_next r.beside.prev_else;
    apart =
        ground (arith, is.apart, around.1, has-append 0 front (p ∷ back), has-append 0 front back);
    owned = λ a h. ground (
      arith,
      h,
      r.beside.parent_else a,
      is.owned a,
      around.0,
      has-append a front (p ∷ back),
      has-append a front back,
    );
    mine = λ a some_a h. ground (
      arith,
      h,
      r.beside.parent_else a,
      r.parent,
      is.mine a,
      has-append a front (p ∷ back),
      has-append a front back,
    );
    count =
        omega (arith, r.count, is.count, length-append front (p ∷ back), length-append front back);
  }
    where
      around : (has p (front ++ back) ≡ false) × (distinct (front ++ back) ≡ true)
      around = distinct-around p front back (ground (arith, is.apart))

  pub Inserted-IsList :
      (front back : List ℕ)
      → (p == 0) ≡ false
      → has p (front ++ back) ≡ false
      → Inserted s s' l p (last_or 0 front) (head_or 0 back)
      → IsList s l (front ++ back)
      → IsList s' l (front ++ p ∷ back)
  unfolding has distinct
  Inserted-IsList front back some_p fresh r is = record {
    chain =
        Chain-insert p 0 0 front back is.chain is.apart (ground (arith, is.apart)) (ground arith)
          r.next_prev r.next_p r.beside.next_else r.prev_p r.prev_next r.beside.prev_else;
    apart = ground (
      arith,
      is.apart,
      distinct-insert p front back (ground (arith, is.apart)) fresh,
      has-append 0 front (p ∷ back),
      has-append 0 front back,
    );
    owned = λ a h. ground (
      arith,
      h,
      r.beside.parent_else a,
      r.parent,
      is.owned a,
      has-append a front (p ∷ back),
      has-append a front back,
    );
    mine = λ a some_a h. ground (
      arith,
      h,
      r.beside.parent_else a,
      r.parent,
      is.mine a,
      has-append a front (p ∷ back),
      has-append a front back,
    );
    count =
        omega (arith, r.count, is.count, length-append front (p ∷ back), length-append front back);
  }

  -- Another list, which the writes do not reach.
  pub Beside-IsList :
      (prev next m : ℕ) (xs : List ℕ)
      → Beside s s' l p prev next
      → (m == l) ≡ false
      → has p xs ≡ false
      → (prev == 0 || not (has prev xs)) ≡ true
      → (next == 0 || not (has next xs)) ≡ true
      → (s'.nodes p).parent ≢ m
      → IsList s m xs
      → IsList s' m xs
  unfolding has distinct
  Beside-IsList prev next m xs r other p_out prev_out next_out not_m is = record {
    chain =
        Chain-frame 0 0 xs is.chain (λ a h. r.other_next m a other (ground arith))
          (λ a h. r.other_prev m a other (ground arith));
    apart = is.apart;
    owned = λ a h. ground (arith, h, r.parent_else a, is.owned a);
    mine = λ a some_a h. ground (arith, h, r.parent_else a, is.mine a);
    count = r.other_count m other ∙ is.count;
  }

-- Two lists share no node.
pub apart-lists :
    (s : Store) (l m a : ℕ) (xs ys : List ℕ)
    → (m == l) ≡ false
    → IsList s l xs
    → IsList s m ys
    → (a == 0 || has a xs) ≡ true
    → (a == 0 || not (has a ys)) ≡ true
apart-lists s l m a xs ys other is is' h = elim (Bool-cases (has a ys)) [
  | inl inside ↦ ground (arith, other, is.owned a, is'.owned a, inside, h)
  | inr outside ↦ ground (arith, outside)
]
