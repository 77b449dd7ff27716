-- ===== src/Allocator/Bytes.antt =====
-- How much memory `AlignedAllocator::allocate` asks for.
use native.Mathlib.Nat.{
  mod-eq_of_lt, div-add-mod, mod-lt, mul-mod_left, mul-le-mul_left, lt_of_mul-lt-mul_right,
}
use native.Mathlib.Decide.{dec_le}
use finn_cpp_driver.Prelude.{
  ℕ, ◌+◌, ◌-◌, ◌*◌, ◌/◌, ◌%◌, ◌^◌, ◌≤◌, ◌<◌, ◌≡◌, ◌⊎◌, inl, inr, refl, sym, ap, ◌∙◌, arith, ◌==◌,
  if◌then◌else◌,
}
use finn_cpp_driver.Prelude.Powers.{two-pow-pos, two-pow-add}
use finn_cpp_driver.Allocator.{max_size, alloc_bytes}

-- The multiple of `a` that is taken, before it is cut to 64 bits.
abbrev rounded : ℕ → ℕ → ℕ
rounded bytes a = (bytes / a + (if bytes % a == 0 then 0 else 1)) * a

rounded_lem : (bytes a : ℕ) → 1 ≤ a → (bytes ≤ rounded bytes a) × (rounded bytes a < bytes + a)
rounded_lem bytes a some = ground (arith, div-add-mod bytes a, mod-lt bytes some)

module _ (k : ℕ) (aligned : k ≤ 63) where
  whole : 2 ^ 64 ≡ 2 ^ (64 - k) * 2 ^ k
  whole = ap (λ (t : ℕ). 2 ^ t) places ∙ two-pow-add (64 - k) k
    where
      places : 64 ≡ 64 - k + k
      places = omega arith

  -- The only multiple near the end of the range.
  rounded-top :
      (bytes : ℕ) → bytes < 2 ^ 64 → 2 ^ 64 < bytes + 2 ^ k → rounded bytes (2 ^ k) ≡ 2 ^ 64
  rounded-top bytes small top = ap (λ (t : ℕ). t * 2 ^ k) count ∙ sym whole
    where
      bounds : (bytes ≤ rounded bytes (2 ^ k)) × (rounded bytes (2 ^ k) < bytes + 2 ^ k)
      bounds = rounded_lem bytes (2 ^ k) (two-pow-pos k)

      m : ℕ
      m = bytes / 2 ^ k + (if bytes % 2 ^ k == 0 then 0 else 1)

      below : m < 2 ^ (64 - k) + 1
      below = lt_of_mul-lt-mul_right (2 ^ k) (omega (arith, bounds, whole))

      above : 2 ^ (64 - k) < m + 1
      above = lt_of_mul-lt-mul_right (2 ^ k) (omega (arith, bounds, whole))

      count : m ≡ 2 ^ (64 - k)
      count = omega (arith, below, above)

  -- What a call of `allocate` that passes its check asks for, with an alignment of `2 ^ k`: the least
  -- multiple of the alignment that holds the values, if they end at least an alignment below
  -- `2 ^ 64`; and no byte at all, if not.
  pub alloc_bytes_lem :
      (size n : ℕ)
      → 1 ≤ size
      → n ≤ max_size size
      → ((size * n + 2 ^ k ≤ 2 ^ 64)
          × (size * n ≤ alloc_bytes (2 ^ k) size n)
          × (alloc_bytes (2 ^ k) size n < size * n + 2 ^ k)
          × (alloc_bytes (2 ^ k) size n % 2 ^ k ≡ 0))
        ⊎ ((2 ^ 64 < size * n + 2 ^ k) × (alloc_bytes (2 ^ k) size n ≡ 0))
  unfolding max_size alloc_bytes
  alloc_bytes_lem size n some checked = elim (dec_le (size * n + 2 ^ k) (2 ^ 64)) [
    | yes inside ↦
        let kept : rounded (size * n) (2 ^ k) % 2 ^ 64 ≡ rounded (size * n) (2 ^ k) =
          mod-eq_of_lt (omega (arith, bounds, inside)) in
        inl (rw (fits, kept) (inside, bounds.0, bounds.1, mul-mod_left _ (2 ^ k)))
    | no outside ↦ inr (rw (fits, rounded-top (size * n) small (omega arith)) (omega arith, refl))
  ]
    where
      small : size * n < 2 ^ 64
      small = omega (arith, mul-le-mul_left size checked, div-add-mod (2 ^ 64 - 1) size)

      fits : size * n % 2 ^ 64 ≡ size * n
      fits = mod-eq_of_lt small

      bounds :
          (size * n ≤ rounded (size * n) (2 ^ k)) × (rounded (size * n) (2 ^ k) < size * n + 2 ^ k)
      bounds = rounded_lem (size * n) (2 ^ k) (two-pow-pos k)
