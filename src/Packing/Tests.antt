-- ===== src/Packing/Tests.antt =====
-- Packing and unpacking at concrete values.
use finn_cpp_driver.Prelude.{
  ℕ, ◌-◌, ◌*◌, ◌≡◌, refl, arith, inl, inr, true, false, List, [], ◌∷◌, length, ok,
}
use finn_cpp_driver.Bytes.{to_bytes}
use finn_cpp_driver.Bitset.{bytes_for}
use finn_cpp_driver.Datatypes.{int, uint, bipolar, sign, bitwidth, is_bipolar, is_fixed_point}
use finn_cpp_driver.Packing.{pack_impl, buffer_size}
use finn_cpp_driver.Packing.Pack.{unpack}
use finn_cpp_driver.Packing.Pack.Sample.{conversions}
use finn_cpp_driver.Packing.Layout.{pack_impl_lem, digits_value, cut}
use finn_cpp_driver.Packing.RoundTrip.{unpack-pack_impl}
use finn_cpp_driver.Packing.Limits.{unpack-pack_impl_bipolar, unpack-wide}

-- Four-bit numbers 1, -2 and 7 in bytes.
abbrev nibbles : List ℕ
nibbles = 1 ∷ 254 ∷ 7 ∷ []

abbrev thirds : List ℕ
thirds = 5 ∷ 6 ∷ 1 ∷ []

unpack-pack_impl_example :
    (packed : List ℕ) × (pack_impl (int 4) 1 nibbles ≡ ok packed)
    × (unpack conversions (int 4) 1 packed (8 * length packed - 3 * 4) ≡ ok nibbles)
unfolding bitwidth sign is_bipolar is_fixed_point buffer_size
unpack-pack_impl_example =
    unpack-pack_impl conversions (int 4) 1 nibbles refl refl (omega arith) (omega arith)
      (omega arith) (omega arith)
      (inl (omega arith), (inr (omega arith, omega arith), (inl (omega arith), tt))) (omega arith)
      (omega arith)

pack_impl_lem_example :
    pack_impl (uint 3) 1 thirds
    ≡ ok (to_bytes (bytes_for (length thirds * 3)) (digits_value 3 (cut 3 thirds)))
unfolding bitwidth is_bipolar
pack_impl_lem_example =
    pack_impl_lem (uint 3) 1 thirds refl (omega arith) (omega arith) (omega arith)

unpack-pack_impl_bipolar_example :
    (packed : List ℕ) × (pack_impl bipolar 1 (1 ∷ 255 ∷ []) ≡ ok packed)
    × (unpack conversions bipolar 1 packed (8 * length packed - 2) ≡ ok (255 ∷ 0 ∷ []))
unpack-pack_impl_bipolar_example =
    unpack-pack_impl_bipolar conversions 1 (true ∷ false ∷ []) (omega arith) (omega arith)
      (omega arith)

unpack-wide_example :
    unpack conversions (int 4) 8 (14 ∷ []) 4 ≡ unpack conversions (int 4) 2 (14 ∷ []) 4
unfolding bitwidth buffer_size
unpack-wide_example = unpack-wide conversions (int 4) 8 (14 ∷ []) 4 refl (omega arith) (omega arith)
