-- ===== src/Bitset/Tests.antt =====
-- The bitset at concrete values.
use finn_cpp_driver.Prelude.{◌+◌, ◌*◌, ◌^◌, ◌≡◌, refl, arith, true, ok}
use finn_cpp_driver.Bitset.{set_byte, new, all, is_none}
use finn_cpp_driver.Bitset.SetByte.{holding, set_byte-holding}

set_byte-holding_example : set_byte 1 5 6 (holding 2 3) ≡ ok (holding 2 (3 + 5 * 2 ^ 6))
set_byte-holding_example =
    set_byte-holding 1 5 6 2 3 (omega arith) (omega arith) (omega arith) (omega arith) (omega arith)

new-is_none : is_none (new 11) ≡ true
unfolding new is_none
new-is_none = refl

all-ones : all (holding 1 255) ≡ true
unfolding all
all-ones = refl
