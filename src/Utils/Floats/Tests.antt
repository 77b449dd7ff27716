-- ===== src/Utils/Floats/Tests.antt =====
-- Floating-point numbers at concrete patterns.
use finn_cpp_driver.Prelude.{◌≡◌, ◌*◌, refl, true, false, ok}
use finn_cpp_driver.Utils.{bit_width}
use finn_cpp_driver.Utils.Floats.{float_format, finite, one, is_nan, decode, ceil}

-- 2.5 is rounded up to 3.
half : ceil float_format (decode float_format 0x40200000) ≡ ok (finite false (3 * one float_format))
unfolding ceil decode bit_width
half = refl

-- The sum of 1 and the number before it is rounded to 2.
below_one :
    ceil float_format (decode float_format 0x3f7fffff) ≡ ok (finite false (2 * one float_format))
unfolding ceil decode bit_width
below_one = refl

quiet_nan : is_nan float_format 0x7fc00000 ≡ true
unfolding is_nan
quiet_nan = refl
