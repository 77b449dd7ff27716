-- ===== src/Utils/Shapes.antt =====
-- The number of elements of a shape.
use native.Mathlib.Nat.{mul-add-mod_self_right}
use finn_cpp_driver.Prelude.{
  ℕ, ◌+◌, ◌-◌, ◌*◌, ◌/◌, ◌%◌, ◌^◌, ◌≤◌, ◌<◌, ◌≡◌, refl, sym, ap, ◌∙◌, arith, ◌≢◌, [], ◌∷◌,
}
use finn_cpp_driver.Utils.{Shape, accumulate_int, int_to_size, shape_to_elements}

-- The product of the dimensions.
abbrev pub product : Shape → ℕ
product [] = 1
product (d ∷ ds) = d * product ds

mod-mul_left : (a b : ℕ) → a % 2 ^ 32 * b % 2 ^ 32 ≡ a * b % 2 ^ 32
mod-mul_left a b =
    sym (mul-add-mod_self_right (a / 2 ^ 32 * b) (2 ^ 32) (a % 2 ^ 32 * b))
    ∙ ap (λ (k : ℕ). k % 2 ^ 32) (omega (arith, ap (λ (k : ℕ). k * b) whole))
  where
    whole : a ≡ a / 2 ^ 32 * 2 ^ 32 + a % 2 ^ 32
    whole = omega arith

pub accumulate_int_lem :
    (acc : ℕ) (ds : Shape) → acc < 2 ^ 32 → accumulate_int acc ds ≡ acc * product ds % 2 ^ 32
unfolding accumulate_int
accumulate_int_lem acc [] h = omega arith
accumulate_int_lem acc (d ∷ ds) h =
    accumulate_int_lem (acc * d % 2 ^ 32) ds (omega arith)
    ∙ mod-mul_left (acc * d) (product ds)
    ∙ ap (λ (k : ℕ). k % 2 ^ 32) (omega arith)

pub counted : (shape : Shape) → product shape < 2 ^ 32 → accumulate_int 1 shape ≡ product shape
counted shape h = accumulate_int_lem 1 shape (omega arith) ∙ omega arith

-- For a shape that is not empty and has fewer than `2 ^ 31` elements, the count is the product of
-- the dimensions.
pub shape_to_elements_lem :
    (shape : Shape) → shape ≢ [] → product shape < 2 ^ 31 → shape_to_elements shape ≡ product shape
unfolding shape_to_elements int_to_size
shape_to_elements_lem [] ne h = absurd (ne refl)
shape_to_elements_lem (d ∷ ds) ne h = ap int_to_size (counted (d ∷ ds) (omega arith)) ∙ ground arith

-- From `2 ^ 31` elements on, and below `2 ^ 32`, the `int` accumulator is negative, and the count is off by
-- `2 ^ 64 - 2 ^ 32`.
pub shape_to_elements_wraps :
    (shape : Shape)
    → 2 ^ 31 ≤ product shape
    → product shape < 2 ^ 32
    → shape_to_elements shape ≡ product shape + (2 ^ 64 - 2 ^ 32)
unfolding shape_to_elements int_to_size
shape_to_elements_wraps [] h h' = absurd (omega arith)
shape_to_elements_wraps (d ∷ ds) h h' = ap int_to_size (counted (d ∷ ds) h') ∙ ground arith
