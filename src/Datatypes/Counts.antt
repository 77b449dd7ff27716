-- ===== src/Datatypes/Counts.antt =====
-- utils/FinnDatatypes.hpp: `getNumPossibleValues` of the integer datatypes, a `double`: each step of
-- the sum is rounded.
use finn_cpp_driver.Prelude.{ℕ, suc, ◌+◌, ◌-◌, ◌*◌, ◌^◌, ◌≤◌, ◌≡◌, ap, ◌∙◌, arith}
use finn_cpp_driver.Prelude.Powers.{two-pow-suc, two-pow-pos, two-pow-le}
use finn_cpp_driver.Datatypes.Values.{round_double}
use finn_cpp_driver.Datatypes.Exact.{round_double-small}

-- `-min() + max() + 1` of `DatatypeInt`.
unfoldable pub num_int : ℕ → ℕ
num_int b =
    round_double (round_double (round_double (2 ^ (b - 1)) + round_double (2 ^ (b - 1) - 1)) + 1)

-- `min() + max() + 1` of `DatatypeUInt`.
unfoldable pub num_uint : ℕ → ℕ
num_uint b = round_double (round_double (round_double (2 ^ b - 1)) + 1)

-- Those of `DatatypeBipolar` and `DatatypeTernary`.
abbrev pub num_bipolar : ℕ
num_bipolar = 2

abbrev pub num_ternary : ℕ
num_ternary = 3

-- For fewer than 53 bits, the number of values of `DatatypeInt`.
pub num_int_lem : (b : ℕ) → 1 ≤ b → b ≤ 52 → num_int b ≡ 2 ^ b
unfolding num_int
num_int_lem b some few =
    ap (λ (k : ℕ). round_double (round_double (k + round_double (2 ^ (b - 1) - 1)) + 1))
      (round_double-small (2 ^ (b - 1)) (omega (arith, whole, wide)))
    ∙ ap (λ (k : ℕ). round_double (round_double (2 ^ (b - 1) + k) + 1))
        (round_double-small (2 ^ (b - 1) - 1) (omega (arith, whole, wide)))
    ∙ ap (λ (k : ℕ). round_double (k + 1))
        (round_double-small (2 ^ (b - 1) + (2 ^ (b - 1) - 1)) (omega (arith, whole, wide)))
    ∙ round_double-small (2 ^ (b - 1) + (2 ^ (b - 1) - 1) + 1) (omega (arith, whole, wide))
    ∙ omega (arith, whole, two-pow-pos (b - 1))
  where
    places : b ≡ suc (b - 1)
    places = omega arith

    whole : 2 ^ b ≡ 2 * 2 ^ (b - 1)
    whole = ap (λ (k : ℕ). 2 ^ k) places ∙ two-pow-suc (b - 1)

    wide : 2 ^ b ≤ 2 ^ 52
    wide = two-pow-le b 52 few

-- The same for `DatatypeUInt`.
pub num_uint_lem : (b : ℕ) → b ≤ 52 → num_uint b ≡ 2 ^ b
unfolding num_uint
num_uint_lem b few =
    ap (λ (k : ℕ). round_double (round_double k + 1))
      (round_double-small (2 ^ b - 1) (omega (arith, wide)))
    ∙ ap (λ (k : ℕ). round_double (k + 1)) (round_double-small (2 ^ b - 1) (omega (arith, wide)))
    ∙ round_double-small (2 ^ b - 1 + 1) (omega (arith, wide))
    ∙ omega (arith, two-pow-pos b)
  where
    wide : 2 ^ b ≤ 2 ^ 52
    wide = two-pow-le b 52 few
