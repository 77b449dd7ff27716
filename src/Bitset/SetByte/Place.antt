-- ===== src/Bitset/SetByte/Place.antt =====
-- utils/CustomDynamicBitset.h: where `setByte` puts the bytes of a value.
use native.Mathlib.Decide.{dec_lt, ℕ_discrete}
use native.Mathlib.Nat.{
  mod-eq_of_lt, div-eq_of_lt, div-add-mod', mod-lt, mul-mod_left, mul-div_cancel,
}
use native.Mathlib.Nat.{div-lt_iff_lt-mul, mul-one, mul-add-mod_self_right, suc-add, zero-add}
use finn_cpp_driver.Prelude.{
  ℕ, zero, suc, ◌+◌, ◌-◌, ◌*◌, ◌/◌, ◌%◌, ◌^◌, ◌≤◌, ◌<◌, ◌≡◌, sym, ap, ap₂, ◌∙◌, arith, inl, inr,
  ◌≢◌, true, false, Bool-cases, ==_iff, ◌||◌, List, ◌∷◌, bit_and, bit_or, ◌==◌, if◌then◌else◌, ok,
  ◌>>=◌,
}
use finn_cpp_driver.Prelude.Powers.{byte-pow-suc, two-pow-add, two-pow-pos, two-pow-le, mod-mul}
use finn_cpp_driver.Prelude.Bits.{or_fields, and_fields, and_ones, and-zero_left}
use finn_cpp_driver.Bytes.{to_bytes}
use finn_cpp_driver.Bitset.{or_at, copy_to, overflow, shifted, place}
use finn_cpp_driver.Bitset.Copy.{or_at-zeros, copy_behind, ones_below, low_byte, no_carry}

-- The value `x`, of `8 * s` bits, as `o` above `8 * s - off` low bits `r`.
module _ (s off x : ℕ) (small : off < 8) (fits : x < 2 ^ (s * 8)) (pos : 1 ≤ s) where
  abbrev bit_shift : ℕ
  bit_shift = s * 8 - off

  split_width : 2 ^ (s * 8) ≡ 2 ^ bit_shift * 2 ^ off
  split_width = ap (λ (k : ℕ). 2 ^ k) (omega arith) ∙ two-pow-add bit_shift off

  mask_lem : 255 * 2 ^ bit_shift % 2 ^ (s * 8) ≡ (2 ^ off - 1) * 2 ^ bit_shift + 0
  mask_lem =
      rw
        (
          split_width,
          mod-mul (255 * 2 ^ bit_shift) (2 ^ bit_shift) (2 ^ off),
          mul-mod_left 255 (2 ^ bit_shift),
          mul-div_cancel 255 (two-pow-pos bit_shift),
          ones_below off small,
        )
        (omega arith)

  above-lt : x / 2 ^ bit_shift < 2 ^ off
  above-lt = (div-lt_iff_lt-mul (two-pow-pos bit_shift)).1 (omega (arith, split_width))

  overflow_lem : overflow s x off ≡ x / 2 ^ bit_shift * 2 ^ bit_shift
  unfolding overflow
  overflow_lem =
      ap₂ bit_and mask_lem (sym (div-add-mod' x (2 ^ bit_shift)))
      ∙ and_fields bit_shift (2 ^ off - 1) 0 (x / 2 ^ bit_shift) (x % 2 ^ bit_shift)
          (two-pow-pos bit_shift) (mod-lt x (two-pow-pos bit_shift))
      ∙ omega (
        arith,
        ap (λ (k : ℕ). k * 2 ^ bit_shift) (and_ones off (x / 2 ^ bit_shift) above-lt),
        and-zero_left (x % 2 ^ bit_shift),
      )

  -- The two parts of the shifted value: what stays in the type, and what spills over.
  shifted_parts : x * 2 ^ off ≡ x / 2 ^ bit_shift * 2 ^ (s * 8) + x % 2 ^ bit_shift * 2 ^ off
  shifted_parts = omega (
    arith,
    ap (λ (k : ℕ). k * 2 ^ off) (div-add-mod' x (2 ^ bit_shift)),
    ap (λ (k : ℕ). x / 2 ^ bit_shift * k) split_width,
  )

  low_part-lt : x % 2 ^ bit_shift * 2 ^ off < 2 ^ (s * 8)
  low_part-lt = rw split_width (grind (arith, mod-lt x (two-pow-pos bit_shift), two-pow-pos off))

  -- At offset 0 nothing spills.
  unshifted : off ≡ 0 → (x / 2 ^ bit_shift ≡ 0) × (x % 2 ^ bit_shift * 2 ^ off ≡ x)
  unshifted e =
      let wide : 2 ^ bit_shift ≡ 2 ^ (s * 8) = ap (λ (k : ℕ). 2 ^ k) (omega arith) in
      let below : x < 2 ^ bit_shift = omega arith in
      (div-eq_of_lt below, ap₂ ◌*◌ (mod-eq_of_lt below) (ap (λ (k : ℕ). 2 ^ k) e) ∙ mul-one x)

  shifted_lem : shifted s x off ≡ to_bytes s (x % 2 ^ bit_shift * 2 ^ off)
  unfolding shifted
  shifted_lem = elim (Bool-cases (off == 0)) [
    | inl e ↦ rw e (ap (to_bytes s) (sym (unshifted ((==_iff off 0).0 e)).1))
    | inr e ↦
        rw (e, shifted_parts, mul-add-mod_self_right (x / 2 ^ bit_shift) (2 ^ (s * 8)))
          (ap (to_bytes s) (mod-eq_of_lt low_part-lt))
  ]

  overflow-zero : x / 2 ^ bit_shift ≡ 0 → overflow s x off ≡ 0
  overflow-zero e = omega (arith, overflow_lem, ap (λ (k : ℕ). k * 2 ^ bit_shift) e)

  overflow-pos : x / 2 ^ bit_shift ≢ 0 → (off ≢ 0) × (overflow s x off ≢ 0)
  overflow-pos ne =
      (λ e. ne (unshifted e).0, rw overflow_lem (grind (arith, two-pow-pos bit_shift)))

  offset-le : 2 ^ off ≤ 128
  offset-le = two-pow-le off 7 (omega arith)

  spilled_byte : overflow s x off / 2 ^ bit_shift % 256 ≡ x / 2 ^ bit_shift
  spilled_byte =
      rw (overflow_lem, mul-div_cancel (x / 2 ^ bit_shift) (two-pow-pos bit_shift))
        (mod-eq_of_lt (omega (arith, above-lt, offset-le)))

  spill_in_range :
      (m t v : ℕ) → s ≡ suc t → v + x * 2 ^ off < 2 ^ (8 * suc m) → x / 2 ^ bit_shift ≢ 0 → t < m
  spill_in_range m t v e room ne = elim (dec_lt t m) [
    | yes h ↦ h
    | no h ↦
        absurd (omega (arith, shifted_parts, two-pow-le (8 * suc m) (s * 8) (omega arith), grow))
  ]
    where
      grow : 2 ^ (s * 8) ≤ x / 2 ^ bit_shift * 2 ^ (s * 8)
      grow = grind arith

  -- With enough room behind it, what spills lands in byte `s`; the bytes before hold `v`.
  spill_lem :
      (m t v : ℕ)
      → s ≡ suc t
      → v < 2 ^ off
      → v + x * 2 ^ off < 2 ^ (8 * suc m)
      → (if off == 0 || overflow s x off == 0
          then ok (v ∷ to_bytes m 0)
          else or_at (v ∷ to_bytes m 0) (0 + s) (overflow s x off / 2 ^ bit_shift % 256))
        ≡ ok (v ∷ to_bytes m (x / 2 ^ bit_shift * 2 ^ (8 * t)))
  unfolding or_at
  spill_lem m t v e hv room = elim (ℕ_discrete (x / 2 ^ bit_shift) 0) [
    | yes z ↦ rw (quiet z) (ap (λ k. ok (v ∷ to_bytes m k)) (omega (arith, zero_product z)))
    | no ne ↦ rw (
      loud ne,
      spilled_byte,
      index,
      or_at-zeros m t (x / 2 ^ bit_shift) (spill_in_range m t v e room ne)
          (omega (arith, above-lt, offset-le)),
    )
  ]
    where
      index : 0 + s ≡ suc t
      index = omega arith

      zero_product : x / 2 ^ bit_shift ≡ 0 → x / 2 ^ bit_shift * 2 ^ (8 * t) ≡ 0
      zero_product z = omega (arith, ap (λ (k : ℕ). k * 2 ^ (8 * t)) z)

      quiet : x / 2 ^ bit_shift ≡ 0 → (off == 0 || overflow s x off == 0) ≡ true
      quiet z = ground (arith, overflow-zero z)

      loud : x / 2 ^ bit_shift ≢ 0 → (off == 0 || overflow s x off == 0) ≡ false
      loud ne = ground (arith, overflow-pos ne)

  -- From the byte that the offset points into, `setByte` adds the shifted value.
  place_here :
      (m t v : ℕ)
      → s ≡ suc t
      → v < 2 ^ off
      → v + x * 2 ^ off < 2 ^ (8 * suc m)
      → place s x off 0 (suc m) (to_bytes (suc m) v) ≡ ok (to_bytes (suc m) (v + x * 2 ^ off))
  unfolding place or_at copy_to
  place_here m t v e hv room =
      rw
        (
          first_byte,
          shifted_lem,
          spill_lem m t v e hv room,
          input_bytes,
          merged,
          copy_behind m t (y / 256) (x / 2 ^ bit_shift) s (v + y % 256) e fits_below,
        )
        (ap ok (
          ap₂ ◌∷◌ (omega (arith, no_carry v x off small hv, shifted_parts, high))
            (ap (to_bytes m) (omega (arith, no_carry v x off small hv, shifted_parts, high)))))
    where
      y : ℕ
      y = x % 2 ^ bit_shift * 2 ^ off

      first_byte : to_bytes (suc m) v ≡ v ∷ to_bytes m 0
      first_byte = ap₂ ◌∷◌ (omega (arith, offset-le)) (ap (to_bytes m) (omega (arith, offset-le)))

      input_bytes : to_bytes s y ≡ y % 256 ∷ to_bytes t (y / 256)
      input_bytes = ap (λ k. to_bytes k y) e

      merged : bit_or v (y % 256) ≡ v + y % 256
      merged =
          let low = low_byte (x % 2 ^ bit_shift) off small in
          rw low (or_fields off v (x % 2 ^ bit_shift % 2 ^ (8 - off)) hv)

      width : 2 ^ (s * 8) ≡ 256 * 2 ^ (8 * t)
      width = ap (λ (k : ℕ). 2 ^ k) (omega arith) ∙ byte-pow-suc t

      high : x / 2 ^ bit_shift * 2 ^ (s * 8) ≡ 256 * (x / 2 ^ bit_shift * 2 ^ (8 * t))
      high = omega (arith, ap (λ (k : ℕ). x / 2 ^ bit_shift * k) width)

      fits_below : y / 256 < 2 ^ (8 * t)
      fits_below = omega (arith, low_part-lt, width)

  -- The bytes in front of the offset stay as they are.
  place-cons :
      (i n b : ℕ) (bs : List ℕ)
      → place s x off (suc i) n (b ∷ bs) ≡ (place s x off i n bs >>= λ r. ok (b ∷ r))
  unfolding place or_at copy_to
  place-cons i n b bs = rw (suc-add i s, suc-add i 1) (ground arith)

  -- So at every index.
  pub place_lem :
      (i m t v : ℕ)
      → s ≡ suc t
      → v < 2 ^ (8 * i + off)
      → v + x * 2 ^ (8 * i + off) < 2 ^ (8 * (i + suc m))
      → place s x off i (suc m) (to_bytes (i + suc m) v)
        ≡ ok (to_bytes (i + suc m) (v + x * 2 ^ (8 * i + off)))
  place_lem zero m t v e hv room =
      rw (zero-add (suc m), zero-add off)
        (place_here m t v e (omega (arith, ap (λ (k : ℕ). 2 ^ k) (zero-add off))) (
          omega (
            arith,
            ap (λ (k : ℕ). x * 2 ^ k) (zero-add off),
            ap (λ (k : ℕ). 2 ^ (8 * k)) (zero-add (suc m)),
          )))
  place_lem (suc i) m t v e hv room =
      rw
        (
          suc-add i (suc m),
          place-cons i (suc m) (v % 256) (to_bytes (i + suc m) (v / 256)),
          place_lem i m t (v / 256) e (omega (arith, unit)) (omega (arith, high, width)),
        )
        (ap ok (ap₂ ◌∷◌ (omega (arith, high)) (ap (to_bytes (i + suc m)) (omega (arith, high)))))
    where
      unit : 2 ^ (8 * suc i + off) ≡ 256 * 2 ^ (8 * i + off)
      unit = ap (λ (k : ℕ). 2 ^ k) (omega arith) ∙ two-pow-add 8 (8 * i + off)

      high : x * 2 ^ (8 * suc i + off) ≡ 256 * (x * 2 ^ (8 * i + off))
      high = omega (arith, ap (λ (k : ℕ). x * k) unit)

      width : 2 ^ (8 * (suc i + suc m)) ≡ 256 * 2 ^ (8 * (i + suc m))
      width = ap (λ (k : ℕ). 2 ^ (8 * k)) (suc-add i (suc m)) ∙ byte-pow-suc (i + suc m)
