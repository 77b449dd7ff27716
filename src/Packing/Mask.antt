-- ===== src/Packing/Mask.antt =====
-- `createMask` builds a run of ones, and `&` with it takes a remainder.
use native.Mathlib.Nat.{mod-eq_of_lt}
use finn_cpp_driver.Prelude.{
  ℕ, zero, suc, ◌-◌, ◌*◌, ◌%◌, ◌^◌, ◌≤◌, ◌≡◌, refl, ap, ap₂, ◌∙◌, arith, bit_and, bit_or,
}
use finn_cpp_driver.Prelude.Powers.{two-pow-suc, two-pow-pos, two-pow-lt}
use finn_cpp_driver.Prelude.Bits.{or_fields, and_mask, and_swap}
use finn_cpp_driver.Packing.{create_mask}

-- As long as the mask fits its type, it is `2 ^ bits - 1`.
pub create_mask_lem : (w bits : ℕ) → bits ≤ w → create_mask w bits ≡ 2 ^ bits - 1
unfolding create_mask
create_mask_lem w zero h = refl
create_mask_lem w (suc i) h =
    ap₂ bit_or (create_mask_lem w i (omega arith)) (mod-eq_of_lt (two-pow-lt i w h) ∙ one_bit)
    ∙ or_fields i (2 ^ i - 1) 1 (omega (arith, two-pow-pos i))
    ∙ omega (arith, two-pow-suc i, two-pow-pos i)
  where
    one_bit : 2 ^ i ≡ 1 * 2 ^ i
    one_bit = omega arith

pub and-create_mask : (w bits x : ℕ) → bits ≤ w → bit_and x (create_mask w bits) ≡ x % 2 ^ bits
and-create_mask w bits x h =
    ap (bit_and x) (create_mask_lem w bits h) ∙ and_swap x (2 ^ bits - 1) ∙ and_mask bits x
