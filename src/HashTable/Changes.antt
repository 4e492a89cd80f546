-- ===== src/HashTable/Changes.antt =====
-- AddSpecial and DeleteKey change one entry of the table.
use gray_core.Base.{
  ℕ, suc, ◌+◌, ◌-◌, ◌≤◌, ◌≡◌, ◌≢◌, ◌⊎◌, ◌↔◌, inl, inr, refl, sym, ap, ◌∙◌, true, false, Bool-cases,
  Option, some, none, List, ◌∷◌, ◌++◌, take, drop, length, get_elem?, ltb, ◌==◌, ==→eq, arith,
  tests,
}
use gray_core.Base.Insert.{get_elem?-insert_before, get_elem?-insert_here, get_elem?-insert_after}
use gray_core.Sorted.Laws.{IsSorted}
use gray_core.Base.Insert.{insert_at, insert_at-take}
use gray_core.Sorted.{Near, add_presorted, find_near}
use gray_core.Sorted.Search.{Above, Below, Place, found, after, before, find_near-Place}
use gray_core.Sorted.Laws.{InOrder-elems}
use gray_core.Sorted.Adding.{
  Inserted, earlier, new, later, get_elem-Inserted, insert-IsSorted, none_equal,
}
use gray_core.HashTable.{Hashed, by_code, get_bucket_num, set_bucket, add_special}
use gray_core.HashTable.Entries.{
  compare_codes-equal, by_code-SortLaws, Holds, Unique, IsTable, Entry, NoEntry, no_entry,
}

module _ {ℓ} {A : Type ℓ} (hashed : Hashed A) (bits : ℕ) where
  pub set_bucket-IsTable :
      (table : ℕ → List A) (b : ℕ) (xs : List A)
      → IsTable hashed bits table
      → IsSorted (by_code hashed bits) xs
      → Unique hashed bits xs
      → ((y : A) → Holds hashed bits xs y → get_bucket_num hashed bits (hashed.get_hash_code y) ≡ b)
      → IsTable hashed bits (set_bucket hashed bits table b xs)
  set_bucket-IsTable table b xs is sorted unique placed = record {
    sorted = λ a. elim (Bool-cases (a == b)) [
      | inl here ↦ rw here sorted
      | inr other ↦ rw other (is.sorted a)
    ];
    unique = λ a. elim (Bool-cases (a == b)) [
      | inl here ↦ rw here unique
      | inr other ↦ rw other (is.unique a)
    ];
    placed = λ a y (i, at). elim (Bool-cases (a == b)) [
      | inl here ↦ placed y (i, rw here at at) ∙ sym (==→eq a b here)
      | inr other ↦ is.placed a y (i, rw other at at)
    ];
  }

  -- What a table holds when the bucket b is replaced.
  module _ (table : ℕ → List A) (b : ℕ) (xs : List A) (y : A) where
    pub in_bucket :
        Holds hashed bits xs y → Holds hashed bits (set_bucket hashed bits table b xs b) y
    in_bucket (i, at) = rw here (i, at)
      where
        here : (b == b) ≡ true
        here = ground arith

    pub in_table :
        (a : ℕ)
        → (Holds hashed bits (table b) y → Holds hashed bits xs y)
        → Holds hashed bits (table a) y
        → (c : ℕ) × Holds hashed bits (set_bucket hashed bits table b xs c) y
    in_table a keep (i, at) = elim (Bool-cases (a == b)) [
      | inl here ↦
          (b, in_bucket (keep (i, ap (λ c. get_elem? (table c) i) (sym (==→eq a b here)) ∙ at)))
      | inr other ↦ (a, (i, rw other at))
    ]

    pub out_of_table :
        (a : ℕ)
        → Holds hashed bits (set_bucket hashed bits table b xs a) y
        → Holds hashed bits xs y ⊎ (((a == b) ≡ false) × Holds hashed bits (table a) y)
    out_of_table a (i, at) = elim (Bool-cases (a == b)) [
      | inl here ↦ inl (i, rw here at at)
      | inr other ↦ inr (other, (i, rw other at at))
    ]

  -- What an array holds after an insertion.
  Holds-insert :
      (xs : List A) (p : ℕ) (x y : A)
      → p ≤ length xs
      → Holds hashed bits (take p xs ++ x ∷ drop p xs) y ↔ ((x ≡ y) ⊎ Holds hashed bits xs y)
  Holds-insert xs p x y le = (
    λ (i, at). held (get_elem-Inserted xs p x i y le at),
    λ h. elim h [
      | inl is_new ↦ (p, get_elem?-insert_here xs p x le ∙ ap some is_new)
      | inr (i, at) ↦ elim (Bool-cases (ltb i p)) [
        | inl below ↦ (i, get_elem?-insert_before xs p i x (omega (tests, below)) le ∙ at)
        | inr above ↦ (suc i, get_elem?-insert_after xs p i x (omega (tests, above)) le ∙ at)
      ]
    ],
  )
    where
      held : {i : ℕ} → Inserted xs p x i y → (x ≡ y) ⊎ Holds hashed bits xs y
      held (earlier h at) = inr (_, at)
      held (new h is_new) = inl is_new
      held (later h at) = inr (_, at)

  Unique-insert :
      (xs : List A) (p : ℕ) (x : A)
      → p ≤ length xs
      → Unique hashed bits xs
      → ((y : A) → Holds hashed bits xs y → hashed.get_hash_code y ≢ hashed.get_hash_code x)
      → Unique hashed bits (take p xs ++ x ∷ drop p xs)
  Unique-insert xs p x le unique fresh i j y z at_i at_j same =
      alike (get_elem-Inserted xs p x i y le at_i) (get_elem-Inserted xs p x j z le at_j)
    where
      alike : Inserted xs p x i y → Inserted xs p x j z → i ≡ j
      alike (earlier h e) (earlier k f) = unique i j y z e f same
      alike (earlier h e) (new k f) =
          absurd (fresh y (i, e) (same ∙ sym (ap hashed.get_hash_code f)))
      alike (earlier h e) (later k f) = omega (arith, h, k, unique i (j - 1) y z e f same)
      alike (new h e) (earlier k f) =
          absurd (fresh z (j, f) (sym same ∙ sym (ap hashed.get_hash_code e)))
      alike (new h e) (new k f) = h ∙ sym k
      alike (new h e) (later k f) =
          absurd (fresh z (j - 1, f) (sym same ∙ sym (ap hashed.get_hash_code e)))
      alike (later h e) (earlier k f) = omega (arith, h, k, unique (i - 1) j y z e f same)
      alike (later h e) (new k f) =
          absurd (fresh y (i - 1, e) (same ∙ sym (ap hashed.get_hash_code f)))
      alike (later h e) (later k f) = omega (arith, h, k, unique (i - 1) (j - 1) y z e f same)

  -- The table after an insertion.
  pub record Gains (table table' : ℕ → List A) (x : A) : Type ℓ where
    pub is_table : IsTable hashed bits table'
    pub entries :
        (rid : ℕ) (y : A)
        → Entry hashed bits table' rid y
          ↔ (((hashed.get_hash_code y ≡ rid) × (x ≡ y)) ⊎ Entry hashed bits table rid y)

  insert-Gains :
      (table : ℕ → List A) (x : A) (p : ℕ)
      → IsTable hashed bits table
      → NoEntry hashed bits table (hashed.get_hash_code x)
      → p ≤ length (table (get_bucket_num hashed bits (hashed.get_hash_code x)))
      → IsSorted (by_code hashed bits) (
          take p (table (get_bucket_num hashed bits (hashed.get_hash_code x)))
          ++ x ∷ drop p (table (get_bucket_num hashed bits (hashed.get_hash_code x))))
      → Gains table
          (set_bucket hashed bits table (get_bucket_num hashed bits (hashed.get_hash_code x)) (
            take p (table (get_bucket_num hashed bits (hashed.get_hash_code x)))
            ++ x ∷ drop p (table (get_bucket_num hashed bits (hashed.get_hash_code x)))))
          x
  insert-Gains table x p is missing le sorted =
      let b = get_bucket_num hashed bits (hashed.get_hash_code x) in
      let xs = table b in
      record {
        is_table =
            set_bucket-IsTable table b (take p xs ++ x ∷ drop p xs) is sorted
              (Unique-insert xs p x le (is.unique b) (λ y h same. missing y same b h))
              (λ y h. elim ((Holds-insert xs p x y le).0 h) [
                | inl is_new ↦
                    ap (λ (z : A). get_bucket_num hashed bits (hashed.get_hash_code z)) (sym is_new)
                | inr old ↦ is.placed b y old
              ]);
        entries = λ rid y. (
          λ (code, (a, h)). elim (out_of_table table b (take p xs ++ x ∷ drop p xs) y a h) [
            | inl changed ↦ elim ((Holds-insert xs p x y le).0 changed) [
              | inl is_new ↦ inl (code, is_new)
              | inr old ↦ inr (code, (b, old))
            ]
            | inr (other, old) ↦ inr (code, (a, old))
          ],
          λ h. elim h [
            | inl (code, is_new) ↦ (
              code,
              (
                b,
                in_bucket table b (take p xs ++ x ∷ drop p xs) y
                    ((Holds-insert xs p x y le).1 (inl is_new)),
              ),
            )
            | inr (code, (a, old)) ↦ (
              code,
              in_table table b (take p xs ++ x ∷ drop p xs) y a
                  (λ k. (Holds-insert xs p x y le).1 (inr k)) old,
            )
          ],
        );
      }

  -- What AddSpecial does: it gives the element that is there, or puts in the new one.
  abbrev pub Special : (ℕ → List A) → A → Option ((ℕ → List A) × Option A) → Type ℓ
  Special table x outcome =
      ((y : A) × (outcome ≡ some (table, some y))
        × Entry hashed bits table (hashed.get_hash_code x) y)
      ⊎ ((table' : ℕ → List A) × (outcome ≡ some (table', none))
          × NoEntry hashed bits table (hashed.get_hash_code x)
          × Gains table table' x)

  module _ (table : ℕ → List A) (x : A) (is : IsTable hashed bits table) where
    abbrev bucket : List A
    bucket = table (get_bucket_num hashed bits (hashed.get_hash_code x))

    -- The new element at its place, and the table with it.
    abbrev inserted_at : ℕ → ℕ → List A
    inserted_at p =
        set_bucket hashed bits table (get_bucket_num hashed bits (hashed.get_hash_code x))
          (insert_at hashed.blank bucket p x)

    inserted_at-Gains :
        (p : ℕ)
        → p ≤ length bucket
        → Above ((by_code hashed bits).compare_elems x) bucket p
        → Below ((by_code hashed bits).compare_elems x) bucket p
        → NoEntry hashed bits table (hashed.get_hash_code x) × Gains table (inserted_at p) x
    inserted_at-Gains p le above below =
        let missing : NoEntry hashed bits table (hashed.get_hash_code x) =
          no_entry hashed bits table (hashed.get_hash_code x) is (
            none_equal (by_code hashed bits) (by_code-SortLaws hashed bits) bucket p x above
              below) in
        (
          missing,
          rw (insert_at-take hashed.blank bucket p x le) (
              insert-Gains table x p is missing le (
                insert-IsSorted (by_code hashed bits) (by_code-SortLaws hashed bits) bucket p x
                  (is.sorted (get_bucket_num hashed bits (hashed.get_hash_code x))) le above
                  below)),
        )

    by_place :
        (near : Near)
        → find_near ((by_code hashed bits).compare_elems x) bucket ≡ some near
        → Place ((by_code hashed bits).compare_elems x) bucket near
        → Special table x (add_special hashed bits x table)
    unfolding add_special add_presorted
    by_place near ends (found old at same is_equal) = inl (
      old,
      rw (add_special, ends, is_equal, at) refl,
      (
        sym (compare_codes-equal (hashed.get_hash_code x) (hashed.get_hash_code old) same),
        (get_bucket_num hashed bits (hashed.get_hash_code x), (near.index, at)),
      ),
    )
    by_place near ends (after lt is_greater above below) =
        let gains = inserted_at-Gains (near.index + 1) (omega arith) above below in
        inr
          (inserted_at (near.index + 1), rw (add_special, ends, is_greater) refl, gains.0, gains.1)
    by_place near ends (before le is_less above below) =
        let gains = inserted_at-Gains near.index le above below in
        inr (inserted_at near.index, rw (add_special, ends, is_less) refl, gains.0, gains.1)

    -- AddSpecial ends. It gives the element of the table with the hash code of the new one and
    -- changes nothing; if there is none it gives nullptr and puts in the new element, and the other
    -- entries of the table stay as they are.
    pub add_special-Special : Special table x (add_special hashed bits x table)
    add_special-Special =
        let (near, ends, place) = find_near-Place ((by_code hashed bits).compare_elems x) bucket (
          InOrder-elems (by_code hashed bits) (by_code-SortLaws hashed bits) bucket x
            (is.sorted (get_bucket_num hashed bits (hashed.get_hash_code x)))) in
        by_place near ends place
