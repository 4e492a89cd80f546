-- ===== src/StrChar/Case.antt =====
-- Case, and the comparison that ignores it.
use gray_core.Base.{ℕ, ◌≡◌, ◌<◌, ◌≢◌, true, ◌==◌, arith, refl, ==→eq, Bool-cases, inl, inr}
use gray_core.Base.Int.{pos, ◌-ℤ◌}
use gray_core.StrChar.{is_upper, is_lower, to_upper_w, to_lower_w, cmp_i_char}

-- Below the pairs of 0x100 and above, upper case and lower case are each other's inverse.
pub to_upper_w-to_lower_w :
    (ch : ℕ)
    → ch < 0x100
    → (is_upper ch ≡ true → to_upper_w (to_lower_w ch) ≡ ch)
      × (is_lower ch ≡ true → to_lower_w (to_upper_w ch) ≡ ch)
      × (to_lower_w (to_upper_w ch) ≡ to_lower_w ch)
unfolding to_upper_w to_lower_w
to_upper_w-to_lower_w ch h = (λ u. ground arith, λ l. ground arith, ground arith)

-- Lower case is lower case already.
pub to_lower_w-idempotent : (ch : ℕ) → ch ≢ 0x100 → to_lower_w (to_lower_w ch) ≡ to_lower_w ch
unfolding to_lower_w
to_lower_w-idempotent ch h = ground arith

difference_self : (n : ℕ) → pos 0 ≡ pos n -ℤ pos n
unfolding ◌-ℤ◌
difference_self n = ground arith

-- CmpI of two characters is the difference of their lower cases.
pub cmp_i_char-to_lower_w : (a b : ℕ) → cmp_i_char a b ≡ pos (to_lower_w a) -ℤ pos (to_lower_w b)
unfolding cmp_i_char ◌-ℤ◌
cmp_i_char-to_lower_w a b = elim (Bool-cases (a == b)) [
  | inl same ↦ rw (cmp_i_char, same, ==→eq a b same) (difference_self (to_lower_w b))
  | inr different ↦ rw different refl
]

pub to_lower_w_pos : (ch : ℕ) → 0 < ch → 0 < to_lower_w ch
unfolding to_lower_w
to_lower_w_pos ch h = ground arith
