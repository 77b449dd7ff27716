-- ===== src/Utils.antt =====
-- src/FINNCppDriver/utils/FinnUtils.h: the arithmetic on sizes and shapes. A `size_t` has 64 bits,
-- an `int` and an `unsigned int` have 32.
pub mod BufferSize
pub mod Shapes
pub mod Rounding
pub mod Floats
mod Text
mod Tests
use finn_cpp_driver.Prelude.{
  ℕ, zero, suc, ◌+◌, ◌-◌, ◌*◌, ◌/◌, ◌%◌, ◌^◌, max, List, [], ◌∷◌, ltb, ◌==◌, if◌then◌else◌, Result,
  ok, err, undefined,
}

abbrev pub Shape : Type 0
Shape = List ℕ

-- `std::bit_width`, on fuel: the number of binary digits.
pub bit_width_fuel : ℕ → ℕ → ℕ
bit_width_fuel zero n = 0
bit_width_fuel (suc f) n = let more = suc (bit_width_fuel f (n / 2)) in if n == 0 then 0 else more

unfoldable pub bit_width : ℕ → ℕ
unfolding bit_width_fuel
bit_width n = bit_width_fuel n n

unfoldable pub fast_log2 : ℕ → ℕ
fast_log2 value = if value == 0 then 0 else bit_width value - 1

unfoldable pub fast_log2_ceil : ℕ → ℕ
fast_log2_ceil value = if value == 0 then 0 else fast_log2 (value - 1) + 1

unfoldable pub fast_div_ceil : ℕ → ℕ → ℕ
fast_div_ceil value value2 = if value == 0 then 0 else 1 + (value - 1) / value2

-- `-` binds tighter than `<<`: the shift is by the logarithm less 1.
unfoldable pub get_actual_buffer_size : ℕ → ℕ
get_actual_buffer_size required_bytes =
    if required_bytes == 0
    then 4096
    else max 4096 (2 * 2 ^ (fast_log2_ceil required_bytes - 1) % 2 ^ 64)

-- `shape.back()`, undefined on an empty shape.
unfoldable pub innermost_dimension : Shape → Result ℕ
innermost_dimension [] = err undefined
innermost_dimension (d ∷ []) = ok d
innermost_dimension (d ∷ e ∷ ds) = innermost_dimension (e ∷ ds)

-- `std::accumulate` with the `int` 1 as its start: each product is cut to 32 bits.
unfoldable pub accumulate_int : ℕ → Shape → ℕ
accumulate_int acc [] = acc
accumulate_int acc (d ∷ ds) = accumulate_int (acc * d % 2 ^ 32) ds

-- An `int`, by its pattern, converted to `size_t`.
unfoldable pub int_to_size : ℕ → ℕ
int_to_size p = if ltb p (2 ^ 31) then p else p + (2 ^ 64 - 2 ^ 32)

unfoldable pub shape_to_elements : Shape → ℕ
unfolding accumulate_int int_to_size
shape_to_elements [] = 0
shape_to_elements (d ∷ ds) = int_to_size (accumulate_int 1 (d ∷ ds))
