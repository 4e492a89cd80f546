-- ===== src/Base/Loops.antt =====
-- Loops that a test inside ends, run on fuel: `none` only stands for fuel that ran out.
use Prim.Native.Nat.{ℕ, zero, suc}
use mathlib.Core.Path.{◌≡◌, refl}
use mathlib.Core.Option.{Option, none, some}

pub data Step {ℓ κ} (A : Type ℓ) (B : Type κ) : Type (ℓ ⊔ κ) where
  again : A → Step A B
  stop : B → Step A B

unfoldable pub loop {ℓ κ} : {A : Type ℓ} {B : Type κ} → (A → Step A B) → ℕ → A → Option B
loop step zero a = none
loop step (suc fuel) a = elim (step a) [ again b ↦ loop step fuel b | stop b ↦ some b ]

pub loop-again {ℓ κ} :
    {A : Type ℓ} {B : Type κ} (step : A → Step A B) (fuel : ℕ) (a b : A)
    → step a ≡ again b
    → loop step (suc fuel) a ≡ loop step fuel b
unfolding loop
loop-again step fuel a b h = rw (h, loop) refl

pub loop-stop {ℓ κ} :
    {A : Type ℓ} {B : Type κ} (step : A → Step A B) (fuel : ℕ) (a : A) (b : B)
    → step a ≡ stop b
    → loop step (suc fuel) a ≡ some b
unfolding loop
loop-stop step fuel a b h = rw (h, loop) refl
