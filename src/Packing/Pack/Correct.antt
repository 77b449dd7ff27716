-- ===== src/Packing/Pack/Correct.antt =====
-- utils/DataPacking.hpp: the C++ types that `unpack` can return for a datatype, and the one that it
-- returns by default.
use finn_cpp_driver.Prelude.{
  ℕ, ◌*◌, ◌≤◌, ◌<◌, ◌≡◌, refl, arith, ◌⊎◌, Bool, true, false, not, ◌&&◌, leb, ◌==◌, ◌||◌,
}
use finn_cpp_driver.Datatypes.{
  Datatype, float, int, fixed, uint, bipolar, ternary, sign, bitwidth, is_integer,
}
use finn_cpp_driver.Packing.{ret_size}
use finn_cpp_driver.Packing.Pack.{
  ScalarType, floating, signed_integer, unsigned_integer, type_size, auto_ret_type,
}

abbrev is_floating_point : ScalarType → Bool
is_floating_point (floating w) = true
is_floating_point (signed_integer w) = false
is_floating_point (unsigned_integer w) = false

-- `std::is_signed_v`
abbrev is_signed : ScalarType → Bool
is_signed (floating w) = true
is_signed (signed_integer w) = true
is_signed (unsigned_integer w) = false

-- `std::is_same<float, T>`
abbrev is_float : ScalarType → Bool
is_float (floating w) = w == 4
is_float (signed_integer w) = false
is_float (unsigned_integer w) = false

abbrev same : Bool → Bool → Bool
same true b = b
same false b = not b

-- `IsCorrectFinnType`; every arithmetic type is floating-point or integral.
unfoldable pub is_correct_finn_type : Datatype → ScalarType → Bool
is_correct_finn_type u t =
    same (is_floating_point t) (not (is_integer u))
    && same (is_signed t) (sign u)
    && leb (bitwidth u) (type_size t * 8)
    && (is_integer u || is_float t)

-- The sizes that arithmetic types have.
abbrev pub IsSize : ℕ → Type 0
IsSize w = (w ≡ 1) ⊎ (w ≡ 2) ⊎ (w ≡ 4) ⊎ (8 ≤ w)

-- Whenever `unpack` can return some C++ type for a datatype of at most 64 bits, it can return the
-- automatic one, and that is no larger.
pub auto_ret_type-least :
    (u : Datatype) (t : ScalarType)
    → IsSize (type_size t)
    → bitwidth u ≤ 64
    → is_correct_finn_type u t ≡ true
    → (is_correct_finn_type u (auto_ret_type u) ≡ true)
      × (type_size (auto_ret_type u) ≤ type_size t)
unfolding is_correct_finn_type auto_ret_type is_integer sign bitwidth ret_size
auto_ret_type-least float (floating w) size few h = ground arith
auto_ret_type-least float (signed_integer w) size few h = ground arith
auto_ret_type-least float (unsigned_integer w) size few h = ground arith
auto_ret_type-least (fixed b i) (floating w) size few h = ground arith
auto_ret_type-least (fixed b i) (signed_integer w) size few h = cc
auto_ret_type-least (fixed b i) (unsigned_integer w) size few h = cc
auto_ret_type-least (int b) (floating w) size few h = cc
auto_ret_type-least (int b) (signed_integer w) size few h = ground arith
auto_ret_type-least (int b) (unsigned_integer w) size few h = cc
auto_ret_type-least (uint b) (floating w) size few h = cc
auto_ret_type-least (uint b) (signed_integer w) size few h = cc
auto_ret_type-least (uint b) (unsigned_integer w) size few h = ground arith
auto_ret_type-least bipolar (floating w) size few h = ground arith
auto_ret_type-least bipolar (signed_integer w) size few h = ground arith
auto_ret_type-least bipolar (unsigned_integer w) size few h = ground arith
auto_ret_type-least ternary (floating w) size few h = ground arith
auto_ret_type-least ternary (signed_integer w) size few h = ground arith
auto_ret_type-least ternary (unsigned_integer w) size few h = ground arith

-- Fixed-point numbers of more than 32 bits are returned as no type.
pub is_correct_finn_type-wide :
    (b i : ℕ) (t : ScalarType) → 32 < b → is_correct_finn_type (fixed b i) t ≡ false
unfolding is_correct_finn_type is_integer sign bitwidth
is_correct_finn_type-wide b i (floating w) wide = ground arith
is_correct_finn_type-wide b i (signed_integer w) wide = refl
is_correct_finn_type-wide b i (unsigned_integer w) wide = refl
