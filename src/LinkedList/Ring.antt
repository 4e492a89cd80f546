-- ===== src/LinkedList/Ring.antt =====
-- The links of a list as a ring through nullptr: the functions N and P lead from each node to the
-- next and to the one before, and from 0 to the head and to the tail.
use mathlib.Core.Bool.{or_assoc}
use gray_core.Base.{
  ℕ, ◌≡◌, refl, ◌∙◌, Bool, true, false, not, ◌||◌, ◌&&◌, List, [], ◌∷◌, ◌++◌, ◌==◌, arith,
}

unfoldable pub has : ℕ → List ℕ → Bool
has a [] = false
has a (x ∷ xs) = (a == x) || has a xs

unfoldable pub distinct : List ℕ → Bool
distinct [] = true
distinct (x ∷ xs) = not (has x xs) && distinct xs

abbrev pub last_or : ℕ → List ℕ → ℕ
last_or p [] = p
last_or p (x ∷ xs) = last_or x xs

abbrev pub head_or : ℕ → List ℕ → ℕ
head_or q [] = q
head_or q (x ∷ xs) = x

-- From p through the nodes of a list to q.
pub data Chain (N P : ℕ → ℕ) (q : ℕ) : ℕ → List ℕ → Type 0 where
  ends : {p : ℕ} → N p ≡ q → P q ≡ p → Chain N P q p []
  link : {p x : ℕ} {xs : List ℕ} → N p ≡ x → P x ≡ p → Chain N P q x xs → Chain N P q p (x ∷ xs)

pub has-append : (a : ℕ) (xs ys : List ℕ) → has a (xs ++ ys) ≡ (has a xs || has a ys)
unfolding has
has-append a [] ys = refl
has-append a (x ∷ xs) ys = rw (has-append a xs ys, or_assoc)

pub has-last_or : (p : ℕ) (xs : List ℕ) → has (last_or p xs) (p ∷ xs) ≡ true
unfolding has
has-last_or p [] = ground arith
has-last_or p (x ∷ xs) = ground (arith, has-last_or x xs)

pub has-head_or : (q : ℕ) (xs : List ℕ) → has (head_or q xs) (q ∷ xs) ≡ true
unfolding has
has-head_or q [] = ground arith
has-head_or q (x ∷ xs) = ground arith

-- A list around one of its nodes.
pub distinct-around :
    (x : ℕ) (front back : List ℕ)
    → distinct (front ++ x ∷ back) ≡ true
    → (has x (front ++ back) ≡ false) × (distinct (front ++ back) ≡ true)
unfolding has distinct
distinct-around x [] back d = (ground arith, ground arith)
distinct-around x (y ∷ front) back d =
    let rest = distinct-around x front back (ground arith) in
    (
      ground (arith, rest.0, has-append y front (x ∷ back)),
      ground (arith, rest.1, has-append y front (x ∷ back), has-append y front back),
    )

pub distinct-insert :
    (x : ℕ) (front back : List ℕ)
    → distinct (front ++ back) ≡ true
    → has x (front ++ back) ≡ false
    → distinct (front ++ x ∷ back) ≡ true
unfolding has distinct
distinct-insert x [] back d out = ground arith
distinct-insert x (y ∷ front) back d out = ground (
  arith,
  distinct-insert x front back (ground arith) (ground arith),
  has-append y front (x ∷ back),
  has-append y front back,
)

module _ {N P : ℕ → ℕ} where
  pub Chain-next :
      (p q : ℕ) (front back : List ℕ)
      → Chain N P q p (front ++ back)
      → N (last_or p front) ≡ head_or q back
  Chain-next p q [] [] (ends n b) = n
  Chain-next p q [] (y ∷ back) (link n b c) = n
  Chain-next p q (x ∷ front) back (link n b c) = Chain-next x q front back c

  pub Chain-prev :
      (p q : ℕ) (front back : List ℕ)
      → Chain N P q p (front ++ back)
      → P (head_or q back) ≡ last_or p front
  Chain-prev p q [] [] (ends n b) = b
  Chain-prev p q [] (y ∷ back) (link n b c) = b
  Chain-prev p q (x ∷ front) back (link n b c) = Chain-prev x q front back c

  pub Chain-next_at :
      (p q x : ℕ) (front back : List ℕ) → Chain N P q p (front ++ x ∷ back) → N x ≡ head_or q back
  Chain-next_at p q x [] [] (link n b (ends n' b')) = n'
  Chain-next_at p q x [] (y ∷ back) (link n b (link n' b' c)) = n'
  Chain-next_at p q x (y ∷ front) back (link n b c) = Chain-next_at y q x front back c

  pub Chain-frame :
      {N' P' : ℕ → ℕ} (p q : ℕ) (xs : List ℕ)
      → Chain N P q p xs
      → ((a : ℕ) → has a (p ∷ xs) ≡ true → N' a ≡ N a)
      → ((a : ℕ) → has a (q ∷ xs) ≡ true → P' a ≡ P a)
      → Chain N' P' q p xs
  unfolding has
  Chain-frame p q [] (ends n b) same_n same_p =
      ends (same_n p (ground arith) ∙ n) (same_p q (ground arith) ∙ b)
  Chain-frame p q (x ∷ xs) (link n b c) same_n same_p =
      link (same_n p (ground arith) ∙ n) (same_p x (ground arith) ∙ b)
        (Chain-frame x q xs c (λ a h. same_n a (ground arith)) (λ a h. same_p a (ground arith)))

  -- A new node between the front and the back.
  pub Chain-insert :
      {N' P' : ℕ → ℕ} (new p q : ℕ) (front back : List ℕ)
      → Chain N P q p (front ++ back)
      → distinct (p ∷ front ++ back) ≡ true
      → has q (front ++ back) ≡ false
      → has new (p ∷ q ∷ front ++ back) ≡ false
      → N' (last_or p front) ≡ new
      → N' new ≡ head_or q back
      → ((a : ℕ) → (a == last_or p front) ≡ false → (a == new) ≡ false → N' a ≡ N a)
      → P' new ≡ last_or p front
      → P' (head_or q back) ≡ new
      → ((a : ℕ) → (a == head_or q back) ≡ false → (a == new) ≡ false → P' a ≡ P a)
      → Chain N' P' q p (front ++ new ∷ back)
  unfolding has distinct
  Chain-insert new p q [] [] c d out fresh n1 n2 n3 p1 p2 p3 = link n1 p1 (ends n2 p2)
  Chain-insert new p q [] (y ∷ back) (link n b c) d out fresh n1 n2 n3 p1 p2 p3 = link n1 p1 (
      link n2 p2 (
        Chain-frame y q back c (λ a h. n3 a (ground arith) (ground arith))
          (λ a h. p3 a (ground arith) (ground arith))))
  Chain-insert new p q (x ∷ front) back (link n b c) d out fresh n1 n2 n3 p1 p2 p3 =
      link (n3 p (ground (arith, has-last_or x front, has-append p front back)) (ground arith) ∙ n)
        (p3 x (ground (arith, has-head_or q back, has-append x front back)) (ground arith) ∙ b)
        (Chain-insert new x q front back c (ground arith) (ground arith) (ground arith) n1 n2 n3 p1
          p2 p3)

  -- A node between the front and the back is taken out.
  pub Chain-remove :
      {N' P' : ℕ → ℕ} (old p q : ℕ) (front back : List ℕ)
      → Chain N P q p (front ++ old ∷ back)
      → distinct (p ∷ front ++ old ∷ back) ≡ true
      → has q (front ++ old ∷ back) ≡ false
      → N' (last_or p front) ≡ head_or q back
      → ((a : ℕ) → (a == last_or p front) ≡ false → (a == old) ≡ false → N' a ≡ N a)
      → P' (head_or q back) ≡ last_or p front
      → ((a : ℕ) → (a == head_or q back) ≡ false → (a == old) ≡ false → P' a ≡ P a)
      → Chain N' P' q p (front ++ back)
  unfolding has distinct
  Chain-remove old p q [] [] c d out n1 n2 p1 p2 = ends n1 p1
  Chain-remove old p q [] (y ∷ back) (link n b (link n' b' c)) d out n1 n2 p1 p2 = link n1 p1 (
      Chain-frame y q back c (λ a h. n2 a (ground arith) (ground arith))
        (λ a h. p2 a (ground arith) (ground arith)))
  Chain-remove old p q (x ∷ front) back (link n b c) d out n1 n2 p1 p2 =
      link
        (n2 p (ground (arith, has-last_or x front, has-append p front (old ∷ back)))
            (ground (arith, has-append p front (old ∷ back)))
          ∙ n)
        (p2 x (ground (arith, has-head_or q back, has-append x front (old ∷ back)))
            (ground (arith, has-append x front (old ∷ back)))
          ∙ b)
        (Chain-remove old x q front back c (ground arith) (ground arith) n1 n2 p1 p2)
