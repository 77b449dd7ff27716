-- ===== src/Datatypes/Floating.antt =====
-- utils/FinnDatatypes.hpp: `min`, `max` and `allowed` of `DatatypeFloat`, whose bounds are those of
-- `float`.
use finn_cpp_driver.Prelude.{ℕ, zero, suc, ◌+◌, ◌-◌, ◌^◌, ◌≤◌, ◌<◌, ◌≡◌, arith, Bool, true, ◌&&◌}
use native.Mathlib.Nat.{div-add-mod}
use finn_cpp_driver.Prelude.Powers.{two-pow-pos, two-pow-le}
use finn_cpp_driver.Utils.{bit_width}
use finn_cpp_driver.Utils.BufferSize.{bit_width_lem}
use finn_cpp_driver.Utils.Rounding.{round_at}
use finn_cpp_driver.Datatypes.Values.{
  ℤ, pos, negsuc, negate, leb_int, round_double, to_double, between,
}

abbrev pub max_float : ℤ
max_float = pos (2 ^ 128 - 2 ^ 104)

unfoldable pub min_float : ℤ
unfolding negate
min_float = negate (2 ^ 128 - 2 ^ 104)

unfoldable pub allowed_float : ℤ → Bool
unfolding leb_int to_double min_float
allowed_float v = between min_float max_float v

round_at-above : (s n : ℕ) → round_at s n ≤ n + 2 ^ s
unfolding round_at
round_at-above zero n = omega arith
round_at-above (suc s) n = ground (arith, div-add-mod n (2 ^ suc s), two-pow-pos (suc s))

round_double-above : (n : ℕ) → n ≤ 2 ^ 64 → round_double n ≤ 2 ^ 66
unfolding round_double
round_double-above n h = ground (
  arith,
  round_at-above (bit_width n - 53) n,
  two-pow-le (bit_width n - 53) (bit_width n) (omega arith),
  (bit_width_lem n).1,
)

negate-between :
    (m : ℕ) → m ≤ 2 ^ 66 → leb_int min_float (negate m) && leb_int (negate m) max_float ≡ true
unfolding min_float leb_int negate
negate-between zero h = ground arith
negate-between (suc m) h = ground arith

-- `DatatypeFloat` accepts every integer of up to 64 bits, though `float` has only some of them.
pub allowed_float_lem :
    (n : ℕ) → n < 2 ^ 64 → (allowed_float (pos n) ≡ true) × (allowed_float (negsuc n) ≡ true)
unfolding allowed_float min_float leb_int to_double negate
allowed_float_lem n h = (
  ground (arith, round_double-above n (omega arith)),
  negate-between (round_double (suc n)) (round_double-above (suc n) (omega arith)),
)
