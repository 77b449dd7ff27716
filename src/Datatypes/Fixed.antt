-- ===== src/Datatypes/Fixed.antt =====
-- utils/FinnDatatypes.hpp: `allowed` of `DatatypeFixed`, on an `int32_t`. The bounds and the value
-- have few enough digits that their comparison in `double`s is exact; it is made on integers here,
-- with both sides multiplied by `2 ^ (B - I)`.
use native.Mathlib.Nat.{mod-eq_of_lt, mul-add-mod_self_left}
use finn_cpp_driver.Prelude.{
  ℕ, zero, suc, ◌+◌, ◌-◌, ◌*◌, ◌%◌, ◌^◌, ◌≤◌, ◌<◌, ◌≡◌, refl, sym, ap, ◌∙◌, arith, ◌↔◌, Bool, true,
  false, ◌&&◌, leb, ltb, if◌then◌else◌, Result, ok, err, undefined, ◌>>=◌,
}
use finn_cpp_driver.Prelude.Powers.{two-pow-add, two-pow-pos, two-pow-suc}
use finn_cpp_driver.Datatypes.{frac_bits}
use finn_cpp_driver.Datatypes.Values.{ℤ, pos, negsuc}

-- The conversions between `int32_t` and `uint32_t`.
pub to_uint32 : ℤ → ℕ
to_uint32 (pos n) = n % 2 ^ 32
to_uint32 (negsuc n) = 2 ^ 32 - 1 - n % 2 ^ 32

pub to_int32 : ℕ → ℤ
to_int32 p = if ltb p (2 ^ 31) then pos p else negsuc (2 ^ 32 - 1 - p)

-- `val * scale`, for a `scale` of type `uint32_t`.
unfoldable pub int_equivalent : ℕ → ℤ → ℤ
unfolding to_uint32 to_int32
int_equivalent scale v = to_int32 (to_uint32 v * scale % 2 ^ 32)

-- `v >= min()`, where `min` is `-bound / unit`
pub at_least_min : ℕ → ℕ → ℤ → Bool
at_least_min bound unit (pos n) = true
at_least_min bound unit (negsuc n) = leb (suc n * unit) bound

-- `v <= max()`, where `max` is `(bound - 1) / unit`
pub at_most_max : ℕ → ℕ → ℤ → Bool
at_most_max bound unit (pos n) = leb (n * unit) (bound - 1)
at_most_max bound unit (negsuc n) = true

-- `1U << k`, whose left operand has 32 bits.
unfoldable pub shift_one : ℕ → Result ℕ
shift_one k = if ltb k 32 then ok (2 ^ k) else err undefined

-- `DatatypeFixed`, with the shifts of `allowed` itself and of both bounds. `B - 1` is a `size_t`.
unfoldable pub allowed_fixed : ℕ → ℕ → ℤ → Result Bool
unfolding shift_one int_equivalent at_least_min at_most_max
allowed_fixed b i v = do
  scale ← shift_one i
  bound ← shift_one ((2 ^ 64 + b - 1) % 2 ^ 64)
  unit ← shift_one (frac_bits b i)
  ok (
      at_least_min bound unit (int_equivalent scale v)
      && at_most_max bound unit (int_equivalent scale v))

-- The product with `2 ^ i` fits an `int32_t`.
abbrev pub FitsScaled : ℕ → ℤ → Type 0
FitsScaled i (pos n) = n * 2 ^ i < 2 ^ 31
FitsScaled i (negsuc n) = suc n * 2 ^ i ≤ 2 ^ 31

module _ (i : ℕ) where
  int_equivalent-pos :
      (n : ℕ) → n * 2 ^ i < 2 ^ 31 → int_equivalent (2 ^ i) (pos n) ≡ pos (n * 2 ^ i)
  unfolding int_equivalent to_uint32 to_int32
  int_equivalent-pos n small =
      rw
        (
          mod-eq_of_lt {n = n} {m = 2 ^ 32} narrow,
          mod-eq_of_lt {n = n * 2 ^ i} {m = 2 ^ 32} (omega arith),
        )
        (ground arith)
    where
      narrow : n < 2 ^ 32
      narrow = grind (arith, two-pow-pos i)

  int_equivalent-negsuc :
      (n : ℕ)
      → suc n * 2 ^ i ≤ 2 ^ 31
      → int_equivalent (2 ^ i) (negsuc n) ≡ negsuc (suc n * 2 ^ i - 1)
  unfolding int_equivalent to_uint32 to_int32
  int_equivalent-negsuc n small =
      rw (mod-eq_of_lt {n = n} {m = 2 ^ 32} narrow, wrapped) (ground (arith, some))
    where
      some : 1 ≤ suc n * 2 ^ i
      some = grind (arith, two-pow-pos i)

      narrow : n < 2 ^ 32
      narrow = grind (arith, two-pow-pos i)

      wrapped : (2 ^ 32 - 1 - n) * 2 ^ i % 2 ^ 32 ≡ 2 ^ 32 - suc n * 2 ^ i
      wrapped =
          ap (λ (k : ℕ). k % 2 ^ 32) split
          ∙ mul-add-mod_self_left (2 ^ 32) (2 ^ i - 1) (2 ^ 32 - suc n * 2 ^ i)
          ∙ mod-eq_of_lt (omega (arith, some))
        where
          split : (2 ^ 32 - 1 - n) * 2 ^ i ≡ 2 ^ 32 * (2 ^ i - 1) + (2 ^ 32 - suc n * 2 ^ i)
          split = omega (arith, ap (λ (k : ℕ). k * 2 ^ i) sum, two-pow-pos i)
            where
              sum : 2 ^ 32 - 1 - n + suc n ≡ 2 ^ 32
              sum = omega (arith, narrow)

shift_one_lem : (k : ℕ) → k < 32 → shift_one k ≡ ok (2 ^ k)
unfolding shift_one
shift_one_lem k h = ground arith

-- With no more integer bits than bits, the others are a fraction.
pub frac_bits_lem : (b i : ℕ) → i ≤ b → b ≤ 64 → frac_bits b i ≡ b - i
unfolding frac_bits
frac_bits_lem b i h h64 = omega arith

module _ (b i : ℕ) (hi : 1 ≤ i) (hb : i ≤ b) where
  -- The scaled value, times `2 ^ (b - i)`.
  scaled : (m : ℕ) → m * 2 ^ i * 2 ^ (b - i) ≡ m * (2 * 2 ^ (b - 1))
  scaled m = omega (arith, ap (λ (k : ℕ). m * k) product)
    where
      places : i + (b - i) ≡ suc (b - 1)
      places = omega arith

      product : 2 ^ i * 2 ^ (b - i) ≡ 2 * 2 ^ (b - 1)
      product = sym (two-pow-add i (b - i)) ∙ ap (λ (k : ℕ). 2 ^ k) places ∙ two-pow-suc (b - 1)

  -- The scaled value is compared with the bounds of the value.
  in_bounds_zero :
      (v : ℤ)
      → FitsScaled i v
      → let e = int_equivalent (2 ^ i) v in
        ((at_least_min (2 ^ (b - 1)) (2 ^ (b - i)) e && at_most_max (2 ^ (b - 1)) (2 ^ (b - i)) e)
          ≡ true)
        ↔ (v ≡ pos 0)
  unfolding at_least_min at_most_max
  in_bounds_zero (pos zero) fits =
      rw (int_equivalent-pos i 0 fits, scaled 0) (λ h. refl, λ h. ground arith)
  in_bounds_zero (pos (suc n)) fits =
      rw (int_equivalent-pos i (suc n) fits, scaled (suc n), above) (λ h. absurd cc, λ h. absurd cc)
    where
      above : leb (suc n * (2 * 2 ^ (b - 1))) (2 ^ (b - 1) - 1) ≡ false
      above = ground (arith, two-pow-pos (b - 1))
  in_bounds_zero (negsuc n) fits =
      rw (int_equivalent-negsuc i n fits, digits, scaled (suc n), below)
        (λ h. absurd cc, λ h. absurd cc)
    where
      digits : suc (suc n * 2 ^ i - 1) ≡ suc n * 2 ^ i
      digits = grind (arith, two-pow-pos i)

      below : leb (suc n * (2 * 2 ^ (b - 1))) (2 ^ (b - 1)) ≡ false
      below = ground (arith, two-pow-pos (b - 1))

  -- `DatatypeFixed` of at most 32 bits, with at least one integer bit, fewer than 32 of them and no
  -- more than it has bits, accepts 0 and no other of the values whose product with `2 ^ i` fits an
  -- `int32_t`: `allowed` returns for all of these, and `true` for 0 only.
  pub allowed_fixed_zero :
      b ≤ 32
      → i < 32
      → (v : ℤ) → FitsScaled i v
      → (a : Bool) × (allowed_fixed b i v ≡ ok a) × ((a ≡ true) ↔ (v ≡ pos 0))
  unfolding allowed_fixed
  allowed_fixed_zero h32 hi' v fits = (
    _,
    rw
        (
          shift_one_lem i hi',
          top,
          shift_one_lem (b - 1) (omega arith),
          frac_bits_lem b i hb (omega arith),
          shift_one_lem (b - i) (omega arith),
        )
        refl,
    in_bounds_zero v fits,
  )
    where
      top : (2 ^ 64 + b - 1) % 2 ^ 64 ≡ b - 1
      top = omega arith
