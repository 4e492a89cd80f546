-- ===== src/UInt64/Euclid.antt =====
-- EuclideanAlgorithm: the greatest common divisor, and the factors that give it.
use gray_core.Base.{
  ℕ, zero, suc, ◌+◌, ◌-◌, ◌*◌, ◌%◌, ◌≡◌, ◌≤◌, ◌<◌, ◌∙◌, sym, ap, ap₂, Option, none, some, leb,
  if◌then◌else◌, ◌==◌, arith, tests, Bool-cases, inl, inr,
}
use gray_core.UInt64.{Bezout, divide, sub_u64, euclid_loop, euclidean_algorithm}
use gray_core.UInt64.Division.{divide-IsDivision}

-- ax - by = g, 1 <= a <= y and 0 <= b < x, as the source says, and g divides both numbers.
pub record IsBezout (x y : ℕ) (e : Bezout) : Type 0 where
  pub combined : e.a * x ≡ e.b * y + e.g
  pub a_low : 1 ≤ e.a
  pub a_high : e.a ≤ y
  pub b_high : e.b < x
  pub divides_x : (k : ℕ) × (x ≡ k * e.g)
  pub divides_y : (k : ℕ) × (y ≡ k * e.g)

-- The outputs are written and meet this.
abbrev pub Outputs : ℕ → ℕ → Option Bezout → Type 0
Outputs x y none = ⊥
Outputs x y (some e) = IsBezout x y e

combine-divided : (x r q a b g : ℕ) → a * x ≡ b * r + g → (b * q + a) * x ≡ b * (q * x + r) + g
combine-divided x r q a b g h = expand_left ∙ ap (λ (t : ℕ). b * q * x + t) h ∙ expand_right
  where
    expand_left : (b * q + a) * x ≡ b * q * x + a * x
    expand_left = grind arith

    expand_right : b * q * x + (b * r + g) ≡ b * (q * x + r) + g
    expand_right = grind arith

divides-divided : (q k j g : ℕ) → q * (k * g) + j * g ≡ (q * k + j) * g
divides-divided q k j g = grind arith

last_step :
    (x y q : ℕ) → 0 < x → x ≤ y → q * x + 0 ≡ y → IsBezout x y (record { a = 1; b = 0; g = x })
last_step x y q pos le e = record {
  combined = omega arith;
  a_low = omega arith;
  a_high = omega arith;
  b_high = pos;
  divides_x = (1, omega arith);
  divides_y = (q, omega arith);
}

sub_split : (m n k : ℕ) → n ≤ m → (m - n) * k + n * k ≡ m * k
sub_split m n k h = sym (distrib (m - n) n k) ∙ ap (λ (t : ℕ). t * k) rejoin
  where
    distrib : (a b c : ℕ) → (a + b) * c ≡ a * c + b * c
    distrib a b c = grind arith

    rejoin : m - n + n ≡ m
    rejoin = omega arith

mul_comm : (m n : ℕ) → m * n ≡ n * m
mul_comm m n = grind arith

quotient-le : (x y q r b a : ℕ) → q * x + r ≡ y → b < x → a ≤ r → b * q + a ≤ y
quotient-le x y q r b a e h k = omega (arith, sub_split x b q (omega arith), mul_comm x q)

divided :
    (x y q r : ℕ) (e : Bezout)
    → q * x + r ≡ y
    → IsBezout x r e
    → y < 0x1_0000_0000_0000_0000
    → IsBezout x y (record {
      a = (e.b * q % 0x1_0000_0000_0000_0000 + e.a) % 0x1_0000_0000_0000_0000;
      b = e.b;
      g = e.g;
    })
divided x y q r e is z fits = rw wrapped record {
  combined = combine-divided x r q e.a e.b e.g z.combined ∙ ap (λ (t : ℕ). e.b * t + e.g) is;
  a_low = omega (arith, z.a_low);
  a_high = quotient-le x y q r e.b e.a is z.b_high z.a_high;
  b_high = z.b_high;
  divides_x = z.divides_x;
  divides_y = (
    q * z.divides_x.0 + z.divides_y.0,
    sym is
        ∙ ap₂ (λ (m n : ℕ). q * m + n) z.divides_x.1 z.divides_y.1
        ∙ divides-divided q z.divides_x.0 z.divides_y.0 e.g,
  );
}
  where
    wrapped : (e.b * q % 0x1_0000_0000_0000_0000 + e.a) % 0x1_0000_0000_0000_0000 ≡ e.b * q + e.a
    wrapped = omega (arith, quotient-le x y q r e.b e.a is z.b_high z.a_high)

swapped :
    (x y : ℕ) (e : Bezout)
    → x < 0x1_0000_0000_0000_0000
    → y < 0x1_0000_0000_0000_0000
    → IsBezout y x e
    → IsBezout x y (record { a = sub_u64 y e.b; b = sub_u64 x e.a; g = e.g })
swapped x y e fx fy z =
    rw (less_b, less_a)
      record {
        combined = omega (
          arith,
          z.combined,
          sub_split y e.b x (omega (arith, z.b_high)),
          sub_split x e.a y z.a_high,
          mul_comm x y,
        );
        a_low = omega (arith, z.b_high);
        a_high = omega arith;
        b_high = omega (arith, z.a_low, z.a_high);
        divides_x = z.divides_y;
        divides_y = z.divides_x;
      }
  where
    less_b : sub_u64 y e.b ≡ y - e.b
    less_b = omega (arith, z.b_high)

    less_a : sub_u64 x e.a ≡ x - e.a
    less_a = omega (arith, z.a_high)

module _ (x y : ℕ) (fx : x < 0x1_0000_0000_0000_0000) (fy : y < 0x1_0000_0000_0000_0000) where
  abbrev from_remainder : ℕ → Option Bezout → Option Bezout
  from_remainder q result = elim result [
    | none ↦ none
    | some part ↦ some (record {
      a = (part.b * q % 0x1_0000_0000_0000_0000 + part.a) % 0x1_0000_0000_0000_0000;
      b = part.b;
      g = part.g;
    })
  ]

  from_remainder-Outputs :
      (q r : ℕ) (result : Option Bezout)
      → q * x + r ≡ y
      → Outputs x r result
      → Outputs x y (from_remainder q result)
  from_remainder-Outputs q r none e o = o
  from_remainder-Outputs q r (some part) e o = divided x y q r part e o fy

  abbrev from_swapped : Option Bezout → Option Bezout
  from_swapped result = elim result [
    | none ↦ none
    | some part ↦ some (record { a = sub_u64 y part.b; b = sub_u64 x part.a; g = part.g })
  ]

  from_swapped-Outputs :
      (result : Option Bezout) → Outputs y x result → Outputs x y (from_swapped result)
  from_swapped-Outputs none o = o
  from_swapped-Outputs (some part) o = swapped x y part fx fy o

-- The calls that are needed.
abbrev calls : ℕ → ℕ → ℕ
calls x y = if leb x y then 2 * x else 2 * y + 1

euclid_loop-IsBezout :
    (fuel x y : ℕ)
    → calls x y < fuel
    → 0 < x
    → 0 < y
    → x < 0x1_0000_0000_0000_0000
    → y < 0x1_0000_0000_0000_0000
    → Outputs x y (euclid_loop fuel x y)
unfolding euclid_loop
euclid_loop-IsBezout zero x y h px py fx fy = absurd (omega arith)
euclid_loop-IsBezout (suc fuel) x y h px py fx fy = elim (Bool-cases (leb x y)) [
  | inl le ↦
      let d = divide-IsDivision y x 0 0 fy px in
      elim (Bool-cases ((divide y x 0 0).1 == 0)) [
        | inl exact ↦
            rw (euclid_loop, le, exact)
              (last_step x y (divide y x 0 0).0 px (omega (tests, le)) (omega (tests, d.0, exact)))
        | inr more ↦
            let r = (divide y x 0 0).1 in
            rw (euclid_loop, le, more)
              (from_remainder-Outputs x y fx fy (divide y x 0 0).0 r (euclid_loop fuel x r) d.0 (
                euclid_loop-IsBezout fuel x r (ground (arith, d.1, h, le)) px (omega (tests, more))
                  fx (omega (arith, d.1, fx))))
      ]
  | inr above ↦
      rw (euclid_loop, above)
        (from_swapped-Outputs x y fx fy (euclid_loop fuel y x)
          (euclid_loop-IsBezout fuel y x (ground (arith, h, above)) py px fy fx))
]

-- For positive 64-bit numbers EuclideanAlgorithm ends with a, b and g such that ax - by = g,
-- 1 <= a <= y, b < x and g divides both numbers.
pub euclidean_algorithm-IsBezout :
    (x y : ℕ)
    → 0 < x
    → 0 < y
    → x < 0x1_0000_0000_0000_0000
    → y < 0x1_0000_0000_0000_0000
    → Outputs x y (euclidean_algorithm x y)
unfolding euclidean_algorithm
euclidean_algorithm-IsBezout x y px py fx fy =
    euclid_loop-IsBezout (2 * y + 2) x y (ground arith) px py fx fy
