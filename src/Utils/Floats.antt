-- ===== src/Utils/Floats.antt =====
-- src/FINNCppDriver/utils/FinnUtils.h: `isInf`, `isNaN` and `ceil` on `float` and `double`, by their
-- bit patterns.
pub mod Classes
pub mod Ceil
mod Tests
use finn_cpp_driver.Prelude.{
  ℕ, ◌+◌, ◌-◌, ◌*◌, ◌/◌, ◌%◌, ◌^◌, Bool, true, false, not, ◌&&◌, ◌||◌, leb, ltb, ◌==◌, bit_and,
  if◌then◌else◌, Result, ok, err, undefined, ◌>>=◌,
}
use finn_cpp_driver.Utils.{bit_width}
use finn_cpp_driver.Utils.Rounding.{round_at}

-- A floating-point type: the bits of its mantissa and of its exponent. The sign is the bit above.
pub record Format : Type 0 where
  pub mantissa_bits : ℕ
  pub exponent_bits : ℕ

abbrev pub float_format : Format
float_format = record { mantissa_bits = 23; exponent_bits = 8 }

abbrev pub double_format : Format
double_format = record { mantissa_bits = 52; exponent_bits = 11 }

module _ (F : Format) where
  -- `numeric_limits<intN_t>::max() + 1`, which is the value of the sign bit.
  abbrev pub sign_bit : ℕ
  sign_bit = 2 ^ (F.mantissa_bits + F.exponent_bits)

  -- `infinityExponentValue << mantissaBitNumber`
  abbrev pub exponent_mask : ℕ
  exponent_mask = (2 ^ F.exponent_bits - 1) * 2 ^ F.mantissa_bits

  unfoldable pub is_inf : ℕ → Bool
  is_inf x = bit_and x (sign_bit - 1) == exponent_mask

  -- `(~exponentMask) & signRemovalMask`
  abbrev pub mantissa_mask : ℕ
  mantissa_mask = bit_and (2 * sign_bit - 1 - exponent_mask) (sign_bit - 1)

  unfoldable pub is_nan : ℕ → Bool
  is_nan x = bit_and x exponent_mask == exponent_mask && not (bit_and x mantissa_mask == 0)

-- A floating-point number: a finite one by its sign and how many times the least positive number it
-- is, any other by its pattern.
pub data Float : Type 0 where
  finite : Bool → ℕ → Float
  special : ℕ → Float

module _ (F : Format) where
  -- How many times the least positive number 1 is, which has an exponent of its own.
  abbrev pub one : ℕ
  one = 2 ^ (2 ^ (F.exponent_bits - 1) + F.mantissa_bits - 2)

  abbrev magnitude : ℕ → ℕ → ℕ
  magnitude exponent mantissa =
      if exponent == 0 then mantissa else (2 ^ F.mantissa_bits + mantissa) * 2 ^ (exponent - 1)

  -- The number of a pattern.
  unfoldable pub decode : ℕ → Float
  unfolding is_inf is_nan
  decode x =
      if is_inf F x || is_nan F x
      then special x
      else finite (leb (sign_bit F) x)
          (magnitude (x / 2 ^ F.mantissa_bits % 2 ^ F.exponent_bits) (x % 2 ^ F.mantissa_bits))

  -- A sum with 1, rounded to the digits of the type, to even where two are equally near.
  unfoldable pub add_one : ℕ → ℕ
  unfolding round_at
  add_one a = round_at (bit_width (a + one) - (F.mantissa_bits + 1)) (a + one)

  -- `static_cast<intN_t>`, by the magnitude, which is undefined out of the range.
  unfoldable pub to_int : Bool → ℕ → Result ℕ
  to_int negative a =
      if (if negative then leb (a / one) (sign_bit F) else ltb (a / one) (sign_bit F))
      then ok (a / one)
      else err undefined

  -- `ceil`; an integer that it makes is converted back, which is exact.
  unfoldable pub ceil : Float → Result Float
  unfolding add_one to_int
  ceil (special x) = ok (special x)
  ceil (finite true a) = to_int true a >>= λ i. ok (finite (not (i == 0)) (i * one))
  ceil (finite false a) = do
    i ← to_int false a
    if ltb 0 a && not (a == i * one)
        then (to_int false (add_one a) >>= λ j. ok (finite false (j * one)))
        else ok (finite false (i * one))
