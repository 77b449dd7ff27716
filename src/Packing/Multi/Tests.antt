-- ===== src/Packing/Multi/Tests.antt =====
-- Packing of folded inputs at concrete values.
use finn_cpp_driver.Prelude.{ℕ, ◌≡◌, refl, arith, inl, inr, List, [], ◌∷◌, length, ok}
use finn_cpp_driver.MdSpan
use finn_cpp_driver.MdSpan.{DynamicMdSpan}
use finn_cpp_driver.Datatypes.{int, sign, bitwidth, is_bipolar, is_integer}
use finn_cpp_driver.Packing.{ret_size}
use finn_cpp_driver.Packing.Pack.Sample.{conversions}
use finn_cpp_driver.Packing.Pack.{auto_ret_type}
use finn_cpp_driver.Packing.Multi.{pack_multi_dimensional_inputs, unpack_multi_dimensional_outputs}
use finn_cpp_driver.Packing.Multi.Folded.{unpack-pack_multi}

-- Two rows of three four-bit numbers.
abbrev six : List ℕ
six = 1 ∷ 254 ∷ 7 ∷ 0 ∷ 255 ∷ 3 ∷ []

unpack-pack_multi_example :
    (span span' : DynamicMdSpan ℕ) × (packed : List ℕ) × (MdSpan.new six (2 ∷ 3 ∷ []) ≡ ok span)
    × (pack_multi_dimensional_inputs conversions (int 4) (auto_ret_type (int 4)) span 3 ≡ ok packed)
    × (length packed ≡ 4)
    × (MdSpan.new packed (2 ∷ 2 ∷ []) ≡ ok span')
    × (unpack_multi_dimensional_outputs conversions (int 4) span' (2 ∷ 3 ∷ []) ≡ ok six)
unfolding bitwidth sign is_bipolar is_integer ret_size
unpack-pack_multi_example =
    unpack-pack_multi (int 4) refl (omega arith) (omega arith) conversions (2 ∷ []) 3 six refl refl
      (omega arith) (omega arith) (omega arith)
      (
        inl (omega arith),
        (
          inr (omega arith, omega arith),
          (
            inl (omega arith),
            (inl (omega arith), (inr (omega arith, omega arith), (inl (omega arith), tt))),
          ),
        ),
      )
