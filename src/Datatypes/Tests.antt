-- ===== src/Datatypes/Tests.antt =====
-- Datatypes at concrete values.
use finn_cpp_driver.Prelude.{
  Bool, ℕ, ◌*◌, ◌-◌, ◌^◌, ◌≤◌, ◌<◌, ok, ◌≡◌, refl, ◌↔◌, arith, true, false,
}
use finn_cpp_driver.Datatypes.{int, bitwidth}
use finn_cpp_driver.Datatypes.Elements.{required_elements, required_elements_lem}
use finn_cpp_driver.Datatypes.Values.{pos, negsuc, allowed_int, allowed_bipolar, allowed_ternary}
use finn_cpp_driver.Datatypes.Fixed.{allowed_fixed, allowed_fixed_zero}
use finn_cpp_driver.Datatypes.Exact.{FitsInt, allowed_int_lem}

allowed_int_lem_example : (allowed_int 4 (negsuc 7) ≡ true) ↔ FitsInt 4 (negsuc 7)
allowed_int_lem_example = allowed_int_lem 4 (omega arith) (omega arith) (negsuc 7)

bipolar-zero : allowed_bipolar (pos 0) ≡ false
unfolding allowed_bipolar
bipolar-zero = refl

ternary-zero : allowed_ternary (pos 0) ≡ true
unfolding allowed_ternary
ternary-zero = refl

-- 8 bits, 4 of them a fraction: 1 lies between the bounds -8 and 7.9375.
allowed_fixed_zero_example :
    (a : Bool) × (allowed_fixed 8 4 (pos 1) ≡ ok a) × ((a ≡ true) ↔ (pos 1 ≡ pos 0))
allowed_fixed_zero_example =
    allowed_fixed_zero 8 4 (omega arith) (omega arith) (omega arith) (omega arith) (pos 1)
      (omega arith)

required_elements_lem_example :
    (r : ℕ) × (required_elements (2 ^ 0) (int 14) ≡ ok r)
    × (bitwidth (int 14) ≤ r * (2 ^ 0 * 8))
    × ((r - 1) * (2 ^ 0 * 8) < bitwidth (int 14))
unfolding bitwidth
required_elements_lem_example =
    required_elements_lem 0 (omega arith) (int 14) (omega arith) (omega arith)
