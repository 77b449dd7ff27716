-- ===== src/Prelude/Bits.antt =====
-- `|` and `&` on numbers that are written as a high and a low part, at every width.
use Prim.Native.Nat.{
  ℕ, zero, suc, ◌+◌, ◌-◌, ◌*◌, ◌/◌, ◌%◌, ◌^◌, ◌≤◌, ◌<◌, min, max, bit_and, bit_or, digits, bitwise,
  bit_and-bitwise, bit_or-bitwise,
}
use mathlib.Core.Path.{◌≡◌, refl, ap}
use native.Mathlib.Nat.{le_refl}
use native.Mathlib.Omega.{arith}
use finn_cpp_driver.Prelude.Powers.{two-pow-suc, two-pow-pos}

-- The digit recursion gives the same result on any fuel that is enough.
module _ (rest : ℕ → ℕ) (bit : ℕ → ℕ → ℕ) where
  digits_enough : (m n a b : ℕ) → a ≤ m → a ≤ n → digits rest bit m a b ≡ digits rest bit n a b
  digits_enough m n zero b hm hn = digits_zero m n
    where
      digits_zero : (m n : ℕ) → digits rest bit m 0 b ≡ digits rest bit n 0 b
      digits_zero zero zero = refl
      digits_zero zero (suc n) = refl
      digits_zero (suc m) zero = refl
      digits_zero (suc m) (suc n) = refl
  digits_enough zero n (suc a) b hm hn = absurd (omega arith)
  digits_enough (suc m) zero (suc a) b hm hn = absurd (omega arith)
  digits_enough (suc m) (suc n) (suc a) b hm hn =
      rw (digits_enough m n (suc a / 2) (b / 2) (omega arith) (omega arith))

  bitwise_step :
      (a b : ℕ)
      → bitwise rest bit (suc a) b
        ≡ bitwise rest bit (suc a / 2) (b / 2) * 2 + bit (suc a % 2) (b % 2)
  bitwise_step a b =
      omega (arith, digits_enough a (suc a / 2) (suc a / 2) (b / 2) (omega arith) (le_refl _))

pub or_step : (a b : ℕ) → bit_or a b ≡ bit_or (a / 2) (b / 2) * 2 + max (a % 2) (b % 2)
or_step zero b = simp bit_or-bitwise (omega arith)
or_step (suc a) b = simp bit_or-bitwise (bitwise_step (λ y. y) max a b)

pub and_step : (a b : ℕ) → bit_and a b ≡ bit_and (a / 2) (b / 2) * 2 + min (a % 2) (b % 2)
and_step zero b = simp bit_and-bitwise (omega arith)
and_step (suc a) b = simp bit_and-bitwise (bitwise_step (λ y. 0) min a b)

pub or-zero_left : (b : ℕ) → bit_or 0 b ≡ b
or-zero_left b = simp bit_or-bitwise

pub and-zero_left : (b : ℕ) → bit_and 0 b ≡ 0
and-zero_left b = simp bit_and-bitwise

times_two : (q k : ℕ) → q * 2 ^ suc k ≡ 2 * (q * 2 ^ k)
times_two q k = omega (arith, ap (λ (t : ℕ). q * t) (two-pow-suc k))

-- Disjoint fields: `v | (q << k)` is a sum when `v` fits `k` bits.
pub or_fields : (k v q : ℕ) → v < 2 ^ k → bit_or v (q * 2 ^ k) ≡ v + q * 2 ^ k
or_fields zero v q h = ground (arith, or-zero_left q)
or_fields (suc k) v q h = ground (
  arith,
  or_step v (q * 2 ^ suc k),
  times_two q k,
  two-pow-suc k,
  or_fields k (v / 2) q (omega (arith, two-pow-suc k)),
)

-- `&` works on the fields one by one.
pub and_fields :
    (k p r q s : ℕ)
    → r < 2 ^ k
    → s < 2 ^ k
    → bit_and (p * 2 ^ k + r) (q * 2 ^ k + s) ≡ bit_and p q * 2 ^ k + bit_and r s
and_fields zero p r q s h h' = ground (arith, and-zero_left 0)
and_fields (suc k) p r q s h h' = ground (
  arith,
  and_step (p * 2 ^ suc k + r) (q * 2 ^ suc k + s),
  and_step r s,
  times_two p k,
  times_two q k,
  times_two (bit_and p q) k,
  two-pow-suc k,
  and_fields k p (r / 2) q (s / 2) (omega (arith, two-pow-suc k)) (omega (arith, two-pow-suc k)),
)

-- A mask of `k` ones takes the remainder.
pub and_ones : (k x : ℕ) → x < 2 ^ k → bit_and (2 ^ k - 1) x ≡ x
and_ones zero x h = omega (arith, and-zero_left x)
and_ones (suc k) x h = ground (
  arith,
  and_step (2 ^ suc k - 1) x,
  two-pow-suc k,
  two-pow-pos k,
  and_ones k (x / 2) (omega (arith, two-pow-suc k)),
)

pub and_mask : (k x : ℕ) → bit_and (2 ^ k - 1) x ≡ x % 2 ^ k
and_mask k x = ground (
  arith,
  and_fields k 0 (2 ^ k - 1) (x / 2 ^ k) (x % 2 ^ k),
  and-zero_left (x / 2 ^ k),
  and_ones k (x % 2 ^ k),
  two-pow-pos k,
)

and_swap_fuel : (n x y : ℕ) → x ≤ n → y ≤ n → bit_and x y ≡ bit_and y x
and_swap_fuel zero x y h h' = ground arith
and_swap_fuel (suc n) x y h h' =
    ground (
      arith,
      and_step x y,
      and_step y x,
      and_swap_fuel n (x / 2) (y / 2) (omega arith) (omega arith),
    )

pub and_swap : (x y : ℕ) → bit_and x y ≡ bit_and y x
and_swap x y = and_swap_fuel (x + y) x y (omega arith) (omega arith)

or_swap_fuel : (n x y : ℕ) → x ≤ n → y ≤ n → bit_or x y ≡ bit_or y x
or_swap_fuel zero x y hx hy = ground arith
or_swap_fuel (suc n) x y hx hy =
    ground
      (arith, or_step x y, or_step y x, or_swap_fuel n (x / 2) (y / 2) (omega arith) (omega arith))

pub or_swap : (x y : ℕ) → bit_or x y ≡ bit_or y x
or_swap x y = or_swap_fuel (x + y) x y (omega arith) (omega arith)
