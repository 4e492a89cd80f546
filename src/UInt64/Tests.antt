-- ===== src/UInt64/Tests.antt =====
-- Divisions, powers and greatest common divisors, some at the ends of the range.
use gray_core.Base.{◌≡◌, ◌^◌, ◌%◌, some, refl, arith}
use gray_core.UInt64.{
  divide, divide_loop, set_power_mod, power_loop, euclidean_algorithm, euclid_loop,
}
use gray_core.UInt64.Power.{set_power_mod-power}
use gray_core.UInt64.Euclid.{Outputs, euclidean_algorithm-IsBezout}

top : divide 0xFFFF_FFFF_FFFF_FFFF 0x8000_0000_0000_0001 0 0 ≡ (1, 0x7FFF_FFFF_FFFF_FFFE)
unfolding divide divide_loop
top = refl

by_zero : divide 5 0 1 2 ≡ (1, 2)
unfolding divide
by_zero = refl

power : set_power_mod 7 130 1000 ≡ 249
unfolding set_power_mod power_loop
power = refl

-- The power modulo 1 is 0.
no_factor : set_power_mod 7 0 1 ≡ 1
unfolding set_power_mod power_loop
no_factor = refl

twelve : euclidean_algorithm 84 60 ≡ some (record { a = 58; b = 81; g = 12 })
unfolding euclidean_algorithm euclid_loop divide divide_loop
twelve = refl

euclidean_algorithm-IsBezout_example : Outputs 84 60 (euclidean_algorithm 84 60)
euclidean_algorithm-IsBezout_example =
    euclidean_algorithm-IsBezout 84 60 (omega arith) (omega arith) (omega arith) (omega arith)

set_power_mod-power_example : set_power_mod 7 130 1000 ≡ 7 ^ 130 % 1000
set_power_mod-power_example =
    set_power_mod-power 7 130 1000 (omega arith) (omega arith) (omega arith) (omega arith)
      (omega arith)
