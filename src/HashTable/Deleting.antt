-- ===== src/HashTable/Deleting.antt =====
-- DeleteKey removes the entry of a hash code.
use mathlib.Core.Option.{some-injective}
use gray_core.Base.{
  ℕ, suc, ◌-◌, ◌<◌, ◌≡◌, ◌≢◌, ◌⊎◌, ◌↔◌, inl, inr, refl, sym, ap, ◌∙◌, Bool, true, false, Bool-cases,
  Option, some, List, ◌++◌, take, drop, get_elem?, ltb, ◌==◌, ==→eq, ==_false→ne, if◌then◌else◌,
  arith, tests,
}
use gray_core.Base.Insert.{get_elem?-remove_before, get_elem?-remove_after}
use gray_core.Sorted.Laws.{IsSorted}
use gray_core.Sorted.Keys.{remove_key-removes}
use gray_core.HashTable.{Hashed, by_code, get_bucket_num, set_bucket, delete_key}
use gray_core.HashTable.Entries.{
  compare_codes-equal, by_code-SortLaws, Holds, Unique, IsTable, Entry, NoEntry, no_entry,
}
use gray_core.HashTable.Changes.{set_bucket-IsTable, in_table, out_of_table}

module _ {ℓ} {A : Type ℓ} (hashed : Hashed A) (bits : ℕ) where
  -- The index that an element of the array left had before.
  abbrev source_index : ℕ → ℕ → ℕ
  source_index p i = if ltb i p then i else suc i

  left_at :
      (xs : List A) (p i : ℕ)
      → get_elem? (take p xs ++ drop (suc p) xs) i ≡ get_elem? xs (source_index p i)
  left_at xs p i = elim (Bool-cases (ltb i p)) [
    | inl lower ↦ rw lower (get_elem?-remove_before xs p i (omega (tests, lower)))
    | inr upper ↦ rw upper (get_elem?-remove_after xs p i (omega (tests, upper)))
  ]

  source_index_other : (p i : ℕ) → source_index p i ≢ p
  source_index_other p i = ground arith

  source_index_once : (p i j : ℕ) → source_index p i ≡ source_index p j → i ≡ j
  source_index_once p i j h = ground arith

  Unique-remove :
      (xs : List A) (p : ℕ)
      → Unique hashed bits xs
      → Unique hashed bits (take p xs ++ drop (suc p) xs)
  Unique-remove xs p unique i j y z at_i at_j same = source_index_once p i j (
      unique (source_index p i) (source_index p j) y z (sym (left_at xs p i) ∙ at_i)
        (sym (left_at xs p j) ∙ at_j) same)

  -- What an array without one of its elements holds.
  Holds-remove :
      (xs : List A) (p : ℕ) (x y : A)
      → get_elem? xs p ≡ some x
      → hashed.get_hash_code y ≢ hashed.get_hash_code x
      → Holds hashed bits xs y
      → Holds hashed bits (take p xs ++ drop (suc p) xs) y
  Holds-remove xs p x y at_p other (i, at) = elim (Bool-cases (ltb i p)) [
    | inl lower ↦ (i, get_elem?-remove_before xs p i (omega (tests, lower)) ∙ at)
    | inr upper ↦ elim (Bool-cases (i == p)) [
      | inl here ↦ absurd (
          other (
            ap hashed.get_hash_code
              (some-injective y x (sym at ∙ ap (get_elem? xs) (==→eq i p here) ∙ at_p))))
      | inr past ↦ (
        i - 1,
        get_elem?-remove_after xs p (i - 1) (omega (tests, upper, past))
            ∙ ap (get_elem? xs) (back (omega (tests, upper, past)))
            ∙ at,
      )
    ]
  ]
    where
      back : p < i → suc (i - 1) ≡ i
      back h = omega arith

  -- The table without the entry of a hash code.
  pub record Loses (table table' : ℕ → List A) (rid : ℕ) : Type ℓ where
    pub is_table : IsTable hashed bits table'
    pub gone : NoEntry hashed bits table' rid
    pub others :
        (other : ℕ) (y : A)
        → other ≢ rid
        → Entry hashed bits table' other y ↔ Entry hashed bits table other y

  -- What DeleteKey does: it removes an entry, or finds none and leaves every bucket.
  abbrev pub Deletes : (ℕ → List A) → ℕ → Option ((ℕ → List A) × Bool) → Type ℓ
  Deletes table rid outcome =
      ((table' : ℕ → List A) × (x : A) × (outcome ≡ some (table', true))
        × Entry hashed bits table rid x
        × Loses table table' rid)
      ⊎ ((table' : ℕ → List A) × (outcome ≡ some (table', false))
          × NoEntry hashed bits table rid
          × ((b : ℕ) → table' b ≡ table b))

  module _ (table : ℕ → List A) (rid : ℕ) (is : IsTable hashed bits table) where
    abbrev bucket : List A
    bucket = table (get_bucket_num hashed bits rid)

    abbrev without_at : ℕ → List A
    without_at p = take p bucket ++ drop (suc p) bucket

    remove-Loses :
        (p : ℕ) (x : A)
        → get_elem? bucket p ≡ some x
        → hashed.get_hash_code x ≡ rid
        → IsSorted (by_code hashed bits) (without_at p)
        → Loses table
            (set_bucket hashed bits table (get_bucket_num hashed bits rid) (without_at p))
            rid
    remove-Loses p x at_p code sorted = record {
      is_table =
          set_bucket-IsTable hashed bits table (get_bucket_num hashed bits rid) (without_at p) is
            sorted (Unique-remove bucket p (is.unique (get_bucket_num hashed bits rid)))
            (λ y (i, at).
              is.placed (get_bucket_num hashed bits rid) y
                (source_index p i, sym (left_at bucket p i) ∙ at));
      gone = λ y same a h. elim (left y a h) [
        | inl (i, at) ↦ source_index_other p i (
            is.unique (get_bucket_num hashed bits rid) (source_index p i) p y x
              (sym (left_at bucket p i) ∙ at) at_p (same ∙ sym code))
        | inr (elsewhere, old) ↦
            ==_false→ne a (get_bucket_num hashed bits rid) elsewhere
              (sym (is.placed a y old) ∙ ap (get_bucket_num hashed bits) same)
      ];
      others = λ other y differs. (
        λ (held, (a, h)). elim (left y a h) [
          | inl (i, at) ↦ (
            held,
            (get_bucket_num hashed bits rid, (source_index p i, sym (left_at bucket p i) ∙ at)),
          )
          | inr (elsewhere, old) ↦ (held, (a, old))
        ],
        λ (held, (a, old)). (
          held,
          in_table hashed bits table (get_bucket_num hashed bits rid) (without_at p) y a
              (Holds-remove bucket p x y at_p (λ same. differs (sym held ∙ same ∙ code))) old,
        ),
      );
    }
      where
        left :
            (y : A) (a : ℕ)
            → Holds hashed bits
                (set_bucket hashed bits table (get_bucket_num hashed bits rid) (without_at p) a)
                y
            → Holds hashed bits (without_at p) y
              ⊎ (((a == get_bucket_num hashed bits rid) ≡ false) × Holds hashed bits (table a) y)
        left y a =
            out_of_table hashed bits table (get_bucket_num hashed bits rid) (without_at p) y a

    -- DeleteKey ends. It removes the entry of a hash code, keeps the others and the table in order,
    -- and answers true; it answers false and leaves every bucket when there is no entry.
    pub delete_key-Deletes : Deletes table rid (delete_key hashed bits rid table)
    unfolding delete_key
    delete_key-Deletes =
        elim (remove_key-removes (by_code hashed bits) (by_code-SortLaws hashed bits) rid bucket
          (is.sorted (get_bucket_num hashed bits rid))) [
            | inl (p, e, ends, sorted) ↦
                let code =
                  sym (compare_codes-equal rid (hashed.get_hash_code e.element) e.is_equal) in
                inl (
                  set_bucket hashed bits table (get_bucket_num hashed bits rid) (without_at p),
                  e.element,
                  rw (delete_key, ends) refl,
                  (code, (get_bucket_num hashed bits rid, (p, e.at))),
                  remove-Loses p e.element e.at code sorted,
                )
            | inr (ends, missing) ↦ inr (
              set_bucket hashed bits table (get_bucket_num hashed bits rid) bucket,
              rw (delete_key, ends) refl,
              no_entry hashed bits table rid is missing,
              unchanged,
            )
          ]
      where
        unchanged :
            (b : ℕ)
            → set_bucket hashed bits table (get_bucket_num hashed bits rid) bucket b ≡ table b
        unchanged b = elim (Bool-cases (b == get_bucket_num hashed bits rid)) [
          | inl here ↦ rw here (sym (ap table (==→eq b (get_bucket_num hashed bits rid) here)))
          | inr other ↦ rw other refl
        ]
