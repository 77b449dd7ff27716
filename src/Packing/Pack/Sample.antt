-- ===== src/Packing/Pack/Sample.antt =====
-- Conversions for runs at concrete values: a number is its own pattern.
use finn_cpp_driver.Prelude.{◌*◌, ◌/◌, ◌^◌, ok}
use finn_cpp_driver.Packing.Pack.{Conversions}

abbrev pub conversions : Conversions
conversions = record {
  to_unsigned = λ m n x. ok x;
  to_float = λ t x. x;
  scale = λ m k x. x * 2 ^ k;
  quotient = λ m k x. x / 2 ^ k;
}
