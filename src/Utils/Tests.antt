-- ===== src/Utils/Tests.antt =====
-- Sizes and shapes at concrete values.
use finn_cpp_driver.Prelude.{ℕ, ◌+◌, ◌-◌, ◌*◌, ◌^◌, ◌≤◌, ◌<◌, ◌≡◌, refl, arith, ◌⊎◌, [], ◌∷◌}
use finn_cpp_driver.Utils.{
  bit_width, fast_log2, fast_log2_ceil, get_actual_buffer_size, shape_to_elements,
}
use finn_cpp_driver.Utils.BufferSize.{get_actual_buffer_size_lem}
use finn_cpp_driver.Utils.Shapes.{product, shape_to_elements_wraps}

get_actual_buffer_size_lem_example :
    (k : ℕ) × (get_actual_buffer_size 5000 ≡ 2 ^ k)
    × (5000 ≤ get_actual_buffer_size 5000)
    × (4096 ≤ get_actual_buffer_size 5000)
    × ((get_actual_buffer_size 5000 ≡ 4096) ⊎ (get_actual_buffer_size 5000 < 2 * 5000))
get_actual_buffer_size_lem_example = get_actual_buffer_size_lem 5000 (omega arith)

shape_to_elements_wraps_example :
    shape_to_elements (65536 ∷ 32768 ∷ []) ≡ product (65536 ∷ 32768 ∷ []) + (2 ^ 64 - 2 ^ 32)
shape_to_elements_wraps_example =
    shape_to_elements_wraps (65536 ∷ 32768 ∷ []) (omega arith) (omega arith)

buffer_size-page : get_actual_buffer_size 5000 ≡ 8192
unfolding get_actual_buffer_size fast_log2_ceil fast_log2 bit_width
buffer_size-page = refl
