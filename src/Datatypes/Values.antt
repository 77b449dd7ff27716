-- ===== src/Datatypes/Values.antt =====
-- utils/FinnDatatypes.hpp: `min`, `max` and `allowed` of the integer datatypes. The bounds are
-- `double`s, and the value is converted to one for the comparison: it is rounded to 53 binary
-- digits, to even where two are equally near.
use finn_cpp_driver.Prelude.{ℕ, zero, suc, ◌-◌, ◌^◌, Bool, true, false, ◌&&◌, ◌||◌, leb, ◌==◌}
use finn_cpp_driver.Utils.{bit_width}
use finn_cpp_driver.Utils.Rounding.{round_at}

pub data ℤ : Type 0 where
  pos negsuc : ℕ → ℤ

unfoldable pub negate : ℕ → ℤ
negate zero = pos zero
negate (suc n) = negsuc n

unfoldable pub leb_int : ℤ → ℤ → Bool
leb_int (pos m) (pos n) = leb m n
leb_int (pos m) (negsuc n) = false
leb_int (negsuc m) (pos n) = true
leb_int (negsuc m) (negsuc n) = leb n m

-- The nearest `double`.
unfoldable pub round_double : ℕ → ℕ
unfolding round_at
round_double n = round_at (bit_width n - 53) n

unfoldable pub to_double : ℤ → ℤ
unfolding round_double negate
to_double (pos n) = pos (round_double n)
to_double (negsuc n) = negate (round_double (suc n))

-- `val >= min() && val <= max()`
abbrev pub between : ℤ → ℤ → ℤ → Bool
between low high v = leb_int low (to_double v) && leb_int (to_double v) high

-- `DatatypeInt`, for 1 to 64 bits.
unfoldable pub min_int : ℕ → ℤ
unfolding round_double negate
min_int b = negate (round_double (2 ^ (b - 1)))

unfoldable pub max_int : ℕ → ℤ
unfolding round_double
max_int b = pos (round_double (2 ^ (b - 1) - 1))

unfoldable pub allowed_int : ℕ → ℤ → Bool
unfolding leb_int to_double min_int max_int
allowed_int b v = between (min_int b) (max_int b) v

-- `DatatypeUInt`, for 1 to 127 bits.
unfoldable pub max_uint : ℕ → ℤ
unfolding round_double
max_uint b = pos (round_double (2 ^ b - 1))

unfoldable pub allowed_uint : ℕ → ℤ → Bool
unfolding leb_int to_double max_uint
allowed_uint b v = between (pos 0) (max_uint b) v

-- `DatatypeBipolar`
unfoldable pub allowed_bipolar : ℤ → Bool
allowed_bipolar (pos n) = n == 1
allowed_bipolar (negsuc n) = n == 0

-- `DatatypeTernary`
unfoldable pub allowed_ternary : ℤ → Bool
allowed_ternary (pos n) = n == 1 || n == 0
allowed_ternary (negsuc n) = n == 0
