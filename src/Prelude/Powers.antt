-- ===== src/Prelude/Powers.antt =====
-- Powers of two, and remainders by a product.
use Prim.Native.Nat.{ℕ, zero, suc, ◌+◌, ◌-◌, ◌*◌, ◌/◌, ◌%◌, ◌^◌, ◌≤◌, ◌<◌}
use mathlib.Core.Path.{◌≡◌, ap}
use native.Mathlib.Nat.{pow-suc, one-le-pow, zero-add, suc-add, pow-le-pow_right}
use native.Mathlib.Nat.{div-div-eq-div-mul, div-add-mod}
use native.Mathlib.Omega.{arith}

pub two-pow-suc : (k : ℕ) → 2 ^ suc k ≡ 2 * 2 ^ k
two-pow-suc k = omega (arith, pow-suc 2 k)

pub two-pow-pos : (k : ℕ) → 1 ≤ 2 ^ k
two-pow-pos k = one-le-pow k 2 (omega arith)

pub two-pow-add : (a b : ℕ) → 2 ^ (a + b) ≡ 2 ^ a * 2 ^ b
two-pow-add zero b = rw zero-add (omega arith)
two-pow-add (suc a) b = omega (
  arith,
  ap (λ (k : ℕ). 2 ^ k) (suc-add a b),
  two-pow-suc (a + b),
  two-pow-add a b,
  ap (λ (k : ℕ). k * 2 ^ b) (two-pow-suc a),
)

pub two-pow-le : (a b : ℕ) → a ≤ b → 2 ^ a ≤ 2 ^ b
two-pow-le a b h = pow-le-pow_right (omega arith) h

pub two-pow-lt : (a b : ℕ) → a < b → 2 ^ a < 2 ^ b
two-pow-lt a b h = omega (arith, two-pow-le (suc a) b h, two-pow-suc a, two-pow-pos a)

-- `256 ^ n` is `2 ^ (8 * n)`, by bytes.
pub byte-pow-suc : (n : ℕ) → 2 ^ (8 * suc n) ≡ 256 * 2 ^ (8 * n)
byte-pow-suc n = omega (arith, ap (λ (k : ℕ). 2 ^ k) (bits n), two-pow-add 8 (8 * n))
  where
    bits : (n : ℕ) → 8 * suc n ≡ 8 + 8 * n
    bits n = omega arith

-- A remainder by a product, digit by digit.
pub mod-mul : (v a b : ℕ) → v % (a * b) ≡ v % a + a * (v / a % b)
mod-mul v a b = omega (
  arith,
  div-add-mod v (a * b),
  div-add-mod v a,
  ap (λ (t : ℕ). a * t) (div-add-mod (v / a) b),
  ap (λ (t : ℕ). a * b * t) (div-div-eq-div-mul v a b),
)

pub pred-mul : (a b : ℕ) → 1 ≤ a → (a - 1) * b + b ≡ a * b
pred-mul zero b h = absurd (omega arith)
pred-mul (suc a) b h = grind arith
