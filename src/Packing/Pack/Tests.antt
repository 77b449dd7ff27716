-- ===== src/Packing/Pack/Tests.antt =====
-- Packing at concrete values: 1 and -1 as fixed-point numbers of four bits, two of them a fraction.
use finn_cpp_driver.Prelude.{◌≡◌, ◌≤◌, refl, arith, inl, inr, true, [], ◌∷◌, ok}
use finn_cpp_driver.Datatypes.{fixed, int, bitwidth, is_integer, sign}
use finn_cpp_driver.Packing.Pack.{signed_integer, type_size, auto_ret_type, pack}
use finn_cpp_driver.Packing.Pack.Correct.{is_correct_finn_type, auto_ret_type-least}
use finn_cpp_driver.Packing.Pack.Sample.{conversions}
use finn_cpp_driver.Packing.Pack.Fixed.{pack-fixed_lem}

pack-fixed_lem_example :
    pack conversions (fixed 4 2) (signed_integer 1) (1 ∷ 255 ∷ []) ≡ ok (196 ∷ [])
pack-fixed_lem_example =
    pack-fixed_lem 4 2 (omega arith) (omega arith) (omega arith) (omega arith) conversions
      (signed_integer 1) (1 ∷ 255 ∷ []) tt (omega arith)

auto_ret_type-least_example :
    (is_correct_finn_type (int 14) (auto_ret_type (int 14)) ≡ true)
    × (type_size (auto_ret_type (int 14)) ≤ type_size (signed_integer 4))
unfolding is_correct_finn_type bitwidth is_integer sign
auto_ret_type-least_example =
    auto_ret_type-least (int 14) (signed_integer 4) (inr (inr (inl refl))) (omega arith) refl
