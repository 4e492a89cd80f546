-- ===== src/Queue/Static/Copy.antt =====
-- `cValSpan::CopyQty` of include/cValSpan.h, entry by entry.
use gray_core.Base.{
  ℕ, zero, suc, ◌+◌, ◌≤◌, ◌<◌, ◌≡◌, ◌∙◌, ap, refl, ◌⊎◌, List, [], ◌∷◌, length, get_or, set,
  length-set, get_or-set_self, get_or-set_ne, arith,
}
use gray_core.Queue.Static.{copy_qty}

module _ {ℓ} {A : Type ℓ} where
  pub length-copy_qty :
      (dest : List A) (i : ℕ) (src : List A) → length (copy_qty dest i src) ≡ length dest
  unfolding copy_qty
  length-copy_qty dest i [] = refl
  length-copy_qty dest i (x ∷ src) =
      length-copy_qty (set dest i x) (suc i) src ∙ length-set dest i x

  -- Outside the range that is written nothing changes.
  pub get_or-copy_qty_outside :
      (dest : List A) (i : ℕ) (src : List A) (j : ℕ) (d : A)
      → (j < i) ⊎ (i + length src ≤ j)
      → get_or (copy_qty dest i src) j d ≡ get_or dest j d
  unfolding copy_qty
  get_or-copy_qty_outside dest i [] j d h = refl
  get_or-copy_qty_outside dest i (x ∷ src) j d h =
      get_or-copy_qty_outside (set dest i x) (suc i) src j d (omega arith)
      ∙ get_or-set_ne dest i j x d (omega arith)

  -- Inside it stands the source.
  pub get_or-copy_qty_inside :
      (dest : List A) (i : ℕ) (src : List A) (j k : ℕ) (d : A)
      → j ≡ i + k
      → k < length src
      → i + length src ≤ length dest
      → get_or (copy_qty dest i src) j d ≡ get_or src k d
  unfolding copy_qty
  get_or-copy_qty_inside dest i [] j k d e h fits = absurd (omega arith)
  get_or-copy_qty_inside dest i (x ∷ src) j zero d e h fits =
      get_or-copy_qty_outside (set dest i x) (suc i) src j d (omega arith)
      ∙ ap (λ n. get_or (set dest i x) n d) at_start
      ∙ get_or-set_self dest i x d (omega arith)
    where
      at_start : j ≡ i
      at_start = omega arith
  get_or-copy_qty_inside dest i (x ∷ src) j (suc k) d e h fits =
      get_or-copy_qty_inside (set dest i x) (suc i) src j k d (omega arith) (omega arith)
        (omega (arith, length-set dest i x))
