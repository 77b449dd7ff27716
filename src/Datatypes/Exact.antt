-- ===== src/Datatypes/Exact.antt =====
-- Where the comparison in `double`s is exact.
use finn_cpp_driver.Prelude.{
  ℕ, zero, suc, ◌+◌, ◌-◌, ◌*◌, ◌/◌, ◌^◌, ◌≤◌, ◌<◌, ◌≡◌, refl, sym, ap, ap₂, ◌∙◌, arith, ◌↔◌, Bool,
  true, false, leb, ◌&&◌,
}
use native.Mathlib.Nat.{div-add-mod, mod-lt, mul-le-mul_left, mul-le-mul_right}
use mathlib.Core.Bool.{true≢false}
use native.Mathlib.Decide.{dec_le}
use finn_cpp_driver.Prelude.Powers.{two-pow-suc, two-pow-pos, two-pow-le, two-pow-add}
use finn_cpp_driver.Utils.{bit_width}
use finn_cpp_driver.Utils.Rounding.{round_at}
use finn_cpp_driver.Utils.BufferSize.{bit_width_lem}
use finn_cpp_driver.Datatypes.Values.{
  ℤ, pos, negsuc, negate, leb_int, round_double, to_double, between, min_int, max_int, allowed_int,
  max_uint, allowed_uint,
}

-- Rounding keeps numbers of at most 53 digits, and keeps the others at or above `2 ^ 53`.
pub round_double-small : (n : ℕ) → n < 2 ^ 53 → round_double n ≡ n
unfolding round_double round_at
round_double-small n h = rw width refl
  where
    width : bit_width n - 53 ≡ 0
    width = elim (dec_le (bit_width n) 53) [
      | yes few ↦ omega arith
      | no many ↦ absurd (omega (arith, bit_width_lem n, two-pow-le 54 (bit_width n) (omega arith)))
    ]

round_double-large : (n : ℕ) → 2 ^ 53 ≤ n → 2 ^ 53 ≤ round_double n
unfolding round_double round_at
round_double-large n h = rw (split) (large (bit_width n - 54) (omega (arith, wide)))
  where
    wide : 54 ≤ bit_width n
    wide = elim (dec_le 54 (bit_width n)) [
      | yes many ↦ many
      | no few ↦ absurd (omega (arith, bit_width_lem n, two-pow-le (bit_width n) 53 (omega arith)))
    ]

    split : bit_width n - 53 ≡ suc (bit_width n - 54)
    split = omega (arith, wide)

    top : 2 ^ (bit_width n - 1) ≤ n
    top = omega (arith, bit_width_lem n, two-pow-suc (bit_width n - 1), ap (λ (k : ℕ). 2 ^ k) same)
      where
        same : bit_width n ≡ suc (bit_width n - 1)
        same = omega (arith, wide)

    large : (s : ℕ) → suc s + 53 ≡ bit_width n → 2 ^ 53 ≤ round_at (suc s) n
    large s e = ground (arith, kept, unit, two-pow-pos s)
      where
        unit : 2 ^ suc s ≡ 2 * 2 ^ s
        unit = two-pow-suc s

        whole : 2 ^ 52 * 2 ^ suc s ≤ n
        whole = omega (arith, top, two-pow-add 52 (suc s), ap (λ (k : ℕ). 2 ^ k) places)
          where
            places : bit_width n - 1 ≡ 52 + suc s
            places = omega (arith, e)

        quotient : 2 ^ 52 ≤ n / 2 ^ suc s
        quotient = elim (dec_le (2 ^ 52) (n / 2 ^ suc s)) [
          | yes enough ↦ enough
          | no few ↦ absurd (
              omega (
                arith,
                whole,
                div-add-mod n (2 ^ suc s),
                mod-lt n (two-pow-pos (suc s)),
                mul-le-mul_left (2 ^ suc s) (below few),
              ))
        ]
          where
            below : (2 ^ 52 ≤ n / 2 ^ suc s → ⊥) → n / 2 ^ suc s ≤ 2 ^ 52 - 1
            below few = omega arith

        kept : 2 ^ 53 ≤ n / 2 ^ suc s * 2 ^ suc s
        kept = omega (arith, mul-le-mul_right (2 ^ suc s) quotient, unit, two-pow-pos s)

leb-round : (n bound : ℕ) → bound < 2 ^ 53 → leb (round_double n) bound ≡ leb n bound
leb-round n bound h = elim (dec_le (2 ^ 53) n) [
  | yes large ↦ ground (arith, round_double-large n large)
  | no small ↦ rw (round_double-small n (omega arith)) refl
]

negate-low : (m p : ℕ) → leb_int (negsuc p) (negate m) ≡ leb m (suc p)
unfolding leb_int negate
negate-low zero p = ground arith
negate-low (suc m) p = ground arith

negate-high : (m q : ℕ) → leb_int (negate m) (pos q) ≡ true
unfolding leb_int negate
negate-high zero q = ground arith
negate-high (suc m) q = refl

-- The values of a two's complement type of `b` bits, and of an unsigned one.
abbrev pub FitsInt : ℕ → ℤ → Type 0
FitsInt b (pos n) = n < 2 ^ (b - 1)
FitsInt b (negsuc n) = n < 2 ^ (b - 1)

abbrev pub FitsUint : ℕ → ℤ → Type 0
FitsUint b (pos n) = n < 2 ^ b
FitsUint b (negsuc n) = ⊥

module _ (b : ℕ) (hb : 1 ≤ b) (h : b ≤ 53) where
  half_small : 2 ^ (b - 1) ≤ 2 ^ 52
  half_small = two-pow-le (b - 1) 52 (omega arith)

  min_int_lem : min_int b ≡ negsuc (2 ^ (b - 1) - 1)
  unfolding min_int negate
  min_int_lem =
      rw (round_double-small (2 ^ (b - 1)) (omega (arith, half_small)))
        (predecessor (2 ^ (b - 1)) (two-pow-pos (b - 1)))
    where
      predecessor : (k : ℕ) → 1 ≤ k → negate k ≡ negsuc (k - 1)
      predecessor zero h = absurd (omega arith)
      predecessor (suc k) h = ap negsuc (omega arith)

  max_int_lem : max_int b ≡ pos (2 ^ (b - 1) - 1)
  unfolding max_int
  max_int_lem = ap pos (round_double-small (2 ^ (b - 1) - 1) (omega (arith, half_small)))

  allowed_int-pos : (n : ℕ) → allowed_int b (pos n) ≡ leb n (2 ^ (b - 1) - 1)
  unfolding allowed_int to_double leb_int
  allowed_int-pos n =
      ap₂ (λ l u. between l u (pos n)) min_int_lem max_int_lem
      ∙ leb-round n (2 ^ (b - 1) - 1) (omega (arith, half_small))

  allowed_int-negsuc : (n : ℕ) → allowed_int b (negsuc n) ≡ leb (suc n) (suc (2 ^ (b - 1) - 1))
  unfolding allowed_int to_double
  allowed_int-negsuc n =
      ap₂ (λ l u. between l u (negsuc n)) min_int_lem max_int_lem
      ∙ ap₂ ◌&&◌ (negate-low (round_double (suc n)) (2 ^ (b - 1) - 1))
          (negate-high (round_double (suc n)) (2 ^ (b - 1) - 1))
      ∙ and_true (leb (round_double (suc n)) (suc (2 ^ (b - 1) - 1)))
      ∙ leb-round (suc n) (suc (2 ^ (b - 1) - 1)) (omega (arith, half_small))
    where
      and_true : (c : Bool) → (c && true) ≡ c
      and_true true = refl
      and_true false = refl

  -- `DatatypeInt<B>::allowed`, for 1 to 53 bits: it accepts exactly the values of a two's complement
  -- type of so many bits, whatever integer it is given.
  pub allowed_int_lem : (v : ℤ) → (allowed_int b v ≡ true) ↔ FitsInt b v
  allowed_int_lem (pos n) = ground (arith, allowed_int-pos n, two-pow-pos (b - 1))
  allowed_int_lem (negsuc n) = ground (arith, allowed_int-negsuc n, two-pow-pos (b - 1))

round_double-pos : (n : ℕ) → 1 ≤ n → 1 ≤ round_double n
round_double-pos n h = elim (dec_le (2 ^ 53) n) [
  | yes large ↦ omega (arith, round_double-large n large)
  | no small ↦ omega (arith, round_double-small n (omega arith))
]

negate-below : (m : ℕ) → 1 ≤ m → leb_int (pos 0) (negate m) ≡ false
unfolding leb_int negate
negate-below zero h = absurd (omega arith)
negate-below (suc m) h = refl

from_zero : (m : ℕ) (c : Bool) → (leb 0 m && c) ≡ c
from_zero m c = ground arith

allowed_uint-pos : (b n : ℕ) → b ≤ 53 → allowed_uint b (pos n) ≡ leb n (2 ^ b - 1)
unfolding allowed_uint to_double leb_int max_uint
allowed_uint-pos b n h =
    from_zero (round_double n) (leb (round_double n) (round_double (2 ^ b - 1)))
    ∙ ap (leb (round_double n)) (round_double-small (2 ^ b - 1) (omega (arith, wide)))
    ∙ leb-round n (2 ^ b - 1) (omega (arith, wide))
  where
    wide : (2 ^ b ≤ 2 ^ 53) × (1 ≤ 2 ^ b)
    wide = (two-pow-le b 53 h, two-pow-pos b)

allowed_uint-negsuc : (b n : ℕ) → allowed_uint b (negsuc n) ≡ false
unfolding allowed_uint to_double
allowed_uint-negsuc b n =
    ap (λ c. c && leb_int (negate (round_double (suc n))) (max_uint b))
      (negate-below (round_double (suc n)) (round_double-pos (suc n) (omega arith)))

-- `DatatypeUInt<B>::allowed`, for up to 53 bits: it accepts exactly the numbers below `2 ^ B`.
allowed_uint_lem : (b : ℕ) → b ≤ 53 → (v : ℤ) → (allowed_uint b v ≡ true) ↔ FitsUint b v
allowed_uint_lem b h (pos n) = ground (arith, allowed_uint-pos b n h, two-pow-pos b)
allowed_uint_lem b h (negsuc n) =
    (λ e. absurd (true≢false (sym e ∙ allowed_uint-negsuc b n)), λ f. absurd f)
