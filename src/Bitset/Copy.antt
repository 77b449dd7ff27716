-- ===== src/Bitset/Copy.antt =====
-- The writes that `setByte` makes into bytes that are still zero, and the facts on one byte.
use Prim.Native.Nat.{min}
use native.Mathlib.Nat.{zero-min, min-zero, suc-min-suc}
use finn_cpp_driver.Prelude.{
  ℕ, zero, suc, ◌+◌, ◌-◌, ◌*◌, ◌/◌, ◌%◌, ◌^◌, ◌<◌, ◌≡◌, refl, ap, ap₂, arith, false, ◌∷◌, take, leb,
  ltb, if◌then◌else◌, ok,
}
use finn_cpp_driver.Prelude.Powers.{byte-pow-suc}
use finn_cpp_driver.Prelude.Bits.{or-zero_left}
use finn_cpp_driver.Bytes.{to_bytes}
use finn_cpp_driver.Bitset.{or_at, copy_to}

-- A write into bytes that are all zero.
pub or_at-zeros :
    (m t o : ℕ) → t < m → o < 256 → or_at (to_bytes m 0) t o ≡ ok (to_bytes m (o * 2 ^ (8 * t)))
unfolding or_at
or_at-zeros zero t o h ho = absurd (omega arith)
or_at-zeros (suc m) zero o h ho =
    rw (or-zero_left o) (ap ok (ap₂ ◌∷◌ (omega arith) (ap (to_bytes m) (omega arith))))
or_at-zeros (suc m) (suc t) o h ho =
    rw (or_at-zeros m t o (omega arith) ho)
      (ap ok (ap₂ ◌∷◌ (omega (arith, high)) (ap (to_bytes m) (omega (arith, high)))))
  where
    high : o * 2 ^ (8 * suc t) ≡ 256 * (o * 2 ^ (8 * t))
    high = omega (arith, ap (λ (k : ℕ). o * k) (byte-pow-suc t))

-- A copy of the low bytes of `z` in front of a byte `o` that stands behind them.
pub copy_to-below :
    (m t z o : ℕ)
    → z < 2 ^ (8 * t)
    → copy_to (to_bytes m (o * 2 ^ (8 * t))) 0 (take (min m t) (to_bytes t z))
      ≡ ok (to_bytes m (z + o * 2 ^ (8 * t)))
unfolding copy_to
copy_to-below zero t z o h = rw (zero-min t)
copy_to-below (suc m) zero z o h =
    rw (min-zero (suc m)) (ap ok (ap (to_bytes (suc m)) (omega arith)))
copy_to-below (suc m) (suc t) z o h =
    rw (suc-min-suc m t, shrink, copy_to-below m t (z / 256) o (omega (arith, byte-pow-suc t)))
      (ap ok (ap₂ ◌∷◌ (omega (arith, high)) (ap (to_bytes m) (omega (arith, high)))))
  where
    high : o * 2 ^ (8 * suc t) ≡ 256 * (o * 2 ^ (8 * t))
    high = omega (arith, ap (λ (k : ℕ). o * k) (byte-pow-suc t))

    shrink : o * 2 ^ (8 * suc t) / 256 ≡ o * 2 ^ (8 * t)
    shrink = omega (arith, high)

-- The copy behind the first byte `b`, on both branches of its length.
pub copy_behind :
    (m t z o s b : ℕ)
    → s ≡ suc t
    → z < 2 ^ (8 * t)
    → (if leb (suc m) 1
        then ok (b ∷ to_bytes m (o * 2 ^ (8 * t)))
        else copy_to
            (b ∷ to_bytes m (o * 2 ^ (8 * t)))
            (0 + 1)
            (take (if ltb (suc m) s then suc m - 1 else s - 1) (to_bytes t z)))
      ≡ ok (b ∷ to_bytes m (z + o * 2 ^ (8 * t)))
unfolding copy_to
copy_behind zero t z o s b e h = refl
copy_behind (suc m) t z o s b e h = rw (long, count, copy_to-below (suc m) t z o h)
  where
    long : leb (suc (suc m)) 1 ≡ false
    long = ground arith

    count : (if ltb (suc (suc m)) s then suc (suc m) - 1 else s - 1) ≡ min (suc m) t
    count = ground arith

-- A bit offset inside a byte has eight values.
below_eight {κ} :
    (P : ℕ → Type κ) → P 0 × P 1 × P 2 × P 3 × P 4 × P 5 × P 6 × P 7 → (k : ℕ) → k < 8 → P k
below_eight P p zero h = p.0
below_eight P p (suc zero) h = p.1
below_eight P p (suc (suc zero)) h = p.2
below_eight P p (suc (suc (suc zero))) h = p.3
below_eight P p (suc (suc (suc (suc zero)))) h = p.4
below_eight P p (suc (suc (suc (suc (suc zero))))) h = p.5
below_eight P p (suc (suc (suc (suc (suc (suc zero)))))) h = p.6
below_eight P p (suc (suc (suc (suc (suc (suc (suc zero))))))) h = p.7
below_eight P p (suc (suc (suc (suc (suc (suc (suc (suc k)))))))) h = absurd (omega arith)

pub ones_below : (k : ℕ) → k < 8 → 255 % 2 ^ k ≡ 2 ^ k - 1
ones_below =
    below_eight (λ k. 255 % 2 ^ k ≡ 2 ^ k - 1) (refl, refl, refl, refl, refl, refl, refl, refl)

-- What a shift leaves in the lowest byte.
pub low_byte : (r k : ℕ) → k < 8 → r * 2 ^ k % 256 ≡ r % 2 ^ (8 - k) * 2 ^ k
low_byte r = below_eight (λ k. r * 2 ^ k % 256 ≡ r % 2 ^ (8 - k) * 2 ^ k) (omega arith)

-- Bits below a shift do not carry.
pub no_carry :
    (v x k : ℕ)
    → k < 8
    → v < 2 ^ k
    → ((v + x * 2 ^ k) % 256 ≡ v + x * 2 ^ k % 256) × ((v + x * 2 ^ k) / 256 ≡ x * 2 ^ k / 256)
no_carry v x =
    below_eight
      (λ k.
        v < 2 ^ k
        → ((v + x * 2 ^ k) % 256 ≡ v + x * 2 ^ k % 256) × ((v + x * 2 ^ k) / 256 ≡ x * 2 ^ k / 256))
      (omega arith)
