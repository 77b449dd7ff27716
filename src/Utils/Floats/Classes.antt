-- ===== src/Utils/Floats/Classes.antt =====
-- `isInf` and `isNaN` by the fields of a pattern.
use native.Mathlib.Nat.{
  div-add-mod, eq_of_mul-eq-mul_left, eq_of_mul-eq-mul_right, add-mul-mod_self_left, mod-eq_of_lt,
  mod-lt, mul-mod_left, mod_self,
}
use finn_cpp_driver.Prelude.{
  ℕ, ◌+◌, ◌-◌, ◌*◌, ◌/◌, ◌%◌, ◌^◌, ◌<◌, ◌≡◌, ◌≢◌, ◌↔◌, sym, ap, ap₂, ◌∙◌, arith, true, bit_and,
  ==_iff,
}
use finn_cpp_driver.Prelude.Powers.{two-pow-pos, two-pow-add, mod-mul, pred-mul}
use finn_cpp_driver.Prelude.Bits.{and_fields, and_mask, and_swap, and_ones, and-zero_left}
use finn_cpp_driver.Utils.Floats.{Format, sign_bit, exponent_mask, mantissa_mask, is_inf, is_nan}

-- A number below `b`, and a multiple of `b`, are known by their sum.
fields_unique : (b t k c : ℕ) → t < b → t + b * k ≡ c * b → (t ≡ 0) × (k ≡ c)
fields_unique b t k c small e =
    (none, eq_of_mul-eq-mul_left b (omega arith) k c (omega (arith, e, none)))
  where
    none : t ≡ 0
    none =
        sym (mod-eq_of_lt small)
        ∙ sym (add-mul-mod_self_left t b k)
        ∙ ap (λ (n : ℕ). n % b) e
        ∙ mul-mod_left c b

module _ (F : Format) where
  abbrev exponent : ℕ → ℕ
  exponent x = x / 2 ^ F.mantissa_bits % 2 ^ F.exponent_bits

  abbrev mantissa : ℕ → ℕ
  mantissa x = x % 2 ^ F.mantissa_bits

  -- The pattern without its sign.
  unsigned_lem :
      (x : ℕ) → bit_and x (sign_bit F - 1) ≡ mantissa x + 2 ^ F.mantissa_bits * exponent x
  unsigned_lem x =
      and_swap x (sign_bit F - 1)
      ∙ and_mask (F.mantissa_bits + F.exponent_bits) x
      ∙ ap (λ (p : ℕ). x % p) (two-pow-add F.mantissa_bits F.exponent_bits)
      ∙ mod-mul x (2 ^ F.mantissa_bits) (2 ^ F.exponent_bits)

  exponent_lem : (x : ℕ) → bit_and x (exponent_mask F) ≡ exponent x * 2 ^ F.mantissa_bits
  exponent_lem x =
      ap₂ bit_and fields (omega arith)
      ∙ and_fields F.mantissa_bits (x / 2 ^ F.mantissa_bits) (mantissa x) (2 ^ F.exponent_bits - 1)
          0 (mod-lt x (two-pow-pos F.mantissa_bits)) (two-pow-pos F.mantissa_bits)
      ∙ omega (
        arith,
        and_swap (mantissa x) 0,
        and-zero_left (mantissa x),
        ap (λ (k : ℕ). k * 2 ^ F.mantissa_bits)
            (and_swap (x / 2 ^ F.mantissa_bits) (2 ^ F.exponent_bits - 1)
              ∙ and_mask F.exponent_bits (x / 2 ^ F.mantissa_bits)),
      )
    where
      fields : x ≡ x / 2 ^ F.mantissa_bits * 2 ^ F.mantissa_bits + mantissa x
      fields = omega (arith, div-add-mod x (2 ^ F.mantissa_bits))

  mantissa_mask_lem : mantissa_mask F ≡ 2 ^ F.mantissa_bits - 1
  mantissa_mask_lem =
      ap₂ bit_and
        (omega (
          arith,
          whole,
          pred-mul (2 ^ F.exponent_bits) (2 ^ F.mantissa_bits) (two-pow-pos F.exponent_bits),
          two-pow-pos F.mantissa_bits,
        ))
        (omega (
          arith,
          whole,
          pred-mul (2 ^ F.exponent_bits) (2 ^ F.mantissa_bits) (two-pow-pos F.exponent_bits),
          two-pow-pos F.mantissa_bits,
        ))
      ∙ and_fields F.mantissa_bits (2 ^ F.exponent_bits) (2 ^ F.mantissa_bits - 1)
          (2 ^ F.exponent_bits - 1) (2 ^ F.mantissa_bits - 1) below below
      ∙ omega (
        arith,
        and_ones F.mantissa_bits (2 ^ F.mantissa_bits - 1) below,
        ap (λ (k : ℕ). k * 2 ^ F.mantissa_bits)
            (and_swap (2 ^ F.exponent_bits) (2 ^ F.exponent_bits - 1)
              ∙ and_mask F.exponent_bits (2 ^ F.exponent_bits)
              ∙ mod_self (2 ^ F.exponent_bits)),
      )
    where
      below : 2 ^ F.mantissa_bits - 1 < 2 ^ F.mantissa_bits
      below = omega (arith, two-pow-pos F.mantissa_bits)

      whole : sign_bit F ≡ 2 ^ F.exponent_bits * 2 ^ F.mantissa_bits
      whole = omega (arith, two-pow-add F.mantissa_bits F.exponent_bits)

  known :
      (x : ℕ)
      → exponent x * 2 ^ F.mantissa_bits ≡ exponent_mask F
      → exponent x ≡ 2 ^ F.exponent_bits - 1
  known x =
      eq_of_mul-eq-mul_right (2 ^ F.mantissa_bits) (two-pow-pos F.mantissa_bits) (exponent x)
        (2 ^ F.exponent_bits - 1)

  -- `isInf` accepts exactly the patterns whose exponent is all ones and whose mantissa is 0.
  pub is_inf_lem :
      (x : ℕ) → (is_inf F x ≡ true) ↔ ((exponent x ≡ 2 ^ F.exponent_bits - 1) × (mantissa x ≡ 0))
  unfolding is_inf
  is_inf_lem x = (
    λ h.
        let (t, k) =
          fields_unique (2 ^ F.mantissa_bits) (mantissa x) (exponent x) (2 ^ F.exponent_bits - 1)
            (mod-lt x (two-pow-pos F.mantissa_bits)) (sym (unsigned_lem x) ∙ (==_iff _ _).0 h) in
        (k, t),
    λ h.
        (==_iff _ _).1
          (unsigned_lem x ∙ omega (arith, h.1, ap (λ (k : ℕ). k * 2 ^ F.mantissa_bits) h.0)),
  )

  -- `isNaN` accepts exactly those whose exponent is all ones and whose mantissa is not 0.
  pub is_nan_lem :
      (x : ℕ) → (is_nan F x ≡ true) ↔ ((exponent x ≡ 2 ^ F.exponent_bits - 1) × (mantissa x ≢ 0))
  unfolding is_nan
  is_nan_lem x =
      rw (exponent_lem x, mantissa_mask_lem, low)
        (
          λ h. ground (arith, known x),
          λ h. ground (arith, ap (λ (k : ℕ). k * 2 ^ F.mantissa_bits) h.0),
        )
    where
      low : bit_and x (2 ^ F.mantissa_bits - 1) ≡ mantissa x
      low = and_swap x (2 ^ F.mantissa_bits - 1) ∙ and_mask F.mantissa_bits x
