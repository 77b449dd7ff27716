-- ===== src/Datatypes/Elements.antt =====
-- utils/FinnDatatypes.hpp: `requiredElements`, the number of C++ values that hold one value of a
-- datatype, which goes through `float` and `FinnUtils::ceil`.
use native.Mathlib.Nat.{
  mul-div_cancel, mul-le-mul_right, le_of_mul-le-mul_right, lt_of_mul-lt-mul_right,
}
use finn_cpp_driver.Prelude.{
  ℕ, zero, suc, ◌+◌, ◌-◌, ◌*◌, ◌/◌, ◌^◌, ◌≤◌, ◌<◌, ◌≡◌, refl, sym, ap, ◌∙◌, arith, Bool-cases, inl,
  inr, true, false, ltb, lt→ltb, if◌then◌else◌, Result, ok, err, undefined, ◌>>=◌,
}
use finn_cpp_driver.Prelude.Powers.{two-pow-pos, two-pow-add, two-pow-le}
use finn_cpp_driver.Utils.{bit_width}
use finn_cpp_driver.Utils.Rounding.{round_at}
use finn_cpp_driver.Utils.Floats.{float_format, one, Float, finite, special, ceil, add_one}
use finn_cpp_driver.Utils.Floats.Ceil.{round_at-digits, ceil_lem}
use finn_cpp_driver.Datatypes.{Datatype, bitwidth}

-- `static_cast<float>` of a `size_t`, by the value.
unfoldable pub to_float : ℕ → ℕ
unfolding round_at
to_float n = round_at (bit_width n - 24) n

-- `static_cast<unsigned int>`, undefined out of the range.
unfoldable pub to_unsigned : Float → Result ℕ
to_unsigned (special x) = err undefined
to_unsigned (finite true a) = if ltb a (one float_format) then ok 0 else err undefined
to_unsigned (finite false a) =
    if ltb (a / one float_format) (2 ^ 32) then ok (a / one float_format) else err undefined

-- `requiredElements` for a C++ type of `size` bytes, a power of two, by which a division is exact.
unfoldable pub required_elements : ℕ → Datatype → Result ℕ
unfolding to_float to_unsigned
required_elements size u =
    let quotient = to_float (bitwidth u) * one float_format / (size * 8) in
    if ltb (bitwidth u) (size * 8)
    then ok 1
    else (ceil float_format (finite false quotient) >>= to_unsigned)

-- `float` has 149 binary digits below 1.
one-split : (k : ℕ) → k ≤ 149 → one float_format ≡ 2 ^ k * 2 ^ (149 - k)
one-split k h = ap (λ (t : ℕ). 2 ^ t) places ∙ two-pow-add k (149 - k)
  where
    places : 149 ≡ k + (149 - k)
    places = omega arith

to_float-small : (n : ℕ) → n < 2 ^ 24 → to_float n ≡ n
unfolding to_float
to_float-small n small =
    ap (λ (t : ℕ). round_at (bit_width t - 24) t) same ∙ round_at-digits 24 0 n small ∙ sym same
  where
    same : n ≡ n * 2 ^ 0
    same = omega arith

one_less : (r c b : ℕ) → 1 ≤ b → r * c < b + c → (r - 1) * c < b
one_less zero c b some h = omega arith
one_less (suc r) c b some h =
    let e : suc r - 1 ≡ r = omega arith in omega (arith, h, ap (λ (k : ℕ). k * c) e)

module _ (j : ℕ) (few : j ≤ 4) where
  -- For a datatype of 1 to `2 ^ 23 - 1` bits and a C++ type of 1, 2, 4, 8 or 16 bytes,
  -- `requiredElements` is the least number of C++ values with as many bits.
  pub required_elements_lem :
      (u : Datatype)
      → 1 ≤ bitwidth u
      → bitwidth u < 2 ^ 23
      → (r : ℕ) × (required_elements (2 ^ j) u ≡ ok r)
        × (bitwidth u ≤ r * (2 ^ j * 8))
        × ((r - 1) * (2 ^ j * 8) < bitwidth u)
  unfolding required_elements to_unsigned add_one
  required_elements_lem u some small = elim (Bool-cases (ltb (bitwidth u) (2 ^ j * 8))) [
    | inl one_is_enough ↦ (1, rw one_is_enough refl, ground arith, omega arith)
    | inr more ↦
        let (r, rounded, above, below) = ceil_lem float_format (bitwidth u * h) exact in_range in
        let enough : bitwidth u ≤ r * size =
          le_of_mul-le-mul_right {k = h} (omega (arith, above, ap (λ (k : ℕ). r * k) one_lem))
            h_pos in
        let least : r * size < bitwidth u + size =
          lt_of_mul-lt-mul_right h (omega (arith, below, one_lem, ap (λ (k : ℕ). r * k) one_lem)) in
        let few_values : r < 2 ^ 32 = grind (arith, least, size_pos, size_small) in
        (
          r,
          rw (more, quotient_lem, rounded, mul-div_cancel r one_pos, lt→ltb r (2 ^ 32) few_values)
              refl,
          enough,
          one_less r size (bitwidth u) some least,
        )
  ]
    where
      size : ℕ
      size = 2 ^ j * 8

      h : ℕ
      h = 2 ^ (149 - (j + 3))

      h_pos : 0 < h
      h_pos = two-pow-pos (149 - (j + 3))

      one_pos : 0 < one float_format
      one_pos = two-pow-pos 149

      size_lem : size ≡ 2 ^ (j + 3)
      size_lem = omega (arith, two-pow-add j 3)

      size_pos : 1 ≤ size
      size_pos = omega (arith, two-pow-pos j)

      size_small : size ≤ 128
      size_small = omega (arith, two-pow-le j 4 few)

      one_lem : one float_format ≡ size * h
      one_lem = one-split (j + 3) (omega arith) ∙ ap (λ (k : ℕ). k * h) (sym size_lem)

      quotient_lem : to_float (bitwidth u) * one float_format / size ≡ bitwidth u * h
      quotient_lem =
          ap (λ (k : ℕ). k * one float_format / size) (to_float-small (bitwidth u) (omega arith))
          ∙ ap (λ (k : ℕ). k / size) (ap (λ (k : ℕ). bitwidth u * k) one_lem ∙ omega arith)
          ∙ mul-div_cancel (bitwidth u * h) size_pos

      sum : bitwidth u * h + one float_format ≡ (bitwidth u + size) * h
      sum = omega (arith, one_lem)

      exact : add_one float_format (bitwidth u * h) ≡ bitwidth u * h + one float_format
      exact =
          ap (λ (t : ℕ). round_at (bit_width t - 24) t) sum
          ∙ round_at-digits 24 (149 - (j + 3)) (bitwidth u + size) (omega (arith, size_small))
          ∙ sym sum

      in_range : bitwidth u * h + one float_format < 2 ^ 31 * one float_format
      in_range =
          omega (
            arith,
            sum,
            one_lem,
            mul-le-mul_right h few_digits,
            mul-le-mul_right h size_pos,
            one_pos,
          )
        where
          few_digits : bitwidth u + size ≤ 2 ^ 24
          few_digits = omega (arith, size_small)
