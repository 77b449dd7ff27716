-- ===== src/Utils/BufferSize.antt =====
-- The sizes of device buffers.
use native.Mathlib.Nat.{mod-eq_of_lt, mod-lt, mod-add-div'}
use native.Mathlib.Decide.{dec_le}
use finn_cpp_driver.Prelude.{
  ℕ, zero, suc, ◌+◌, ◌-◌, ◌*◌, ◌/◌, ◌%◌, ◌^◌, ◌≤◌, ◌<◌, ◌≡◌, refl, sym, ap, ◌∙◌, arith, ◌⊎◌, inl,
  inr, max, Bool-cases, ==_iff, ◌==◌,
}
use finn_cpp_driver.Prelude.Powers.{two-pow-suc, two-pow-le}
use finn_cpp_driver.Utils.{
  bit_width, bit_width_fuel, fast_log2, fast_log2_ceil, get_actual_buffer_size, fast_div_ceil,
}

bit_width_fuel_lem :
    (f n : ℕ) → n ≤ f → (n < 2 ^ bit_width_fuel f n) × (2 ^ bit_width_fuel f n ≤ max 1 (2 * n))
unfolding bit_width_fuel
bit_width_fuel_lem zero n h = (omega arith, omega arith)
bit_width_fuel_lem (suc f) n h = elim (Bool-cases (n == 0)) [
  | inl e ↦ rw e (omega (arith, (==_iff n 0).0 e))
  | inr e ↦ rw e (
      ground (
        arith,
        bit_width_fuel_lem f (n / 2) (ground arith),
        two-pow-suc (bit_width_fuel f (n / 2)),
      ))
]

-- `bit_width n` is the least power of two above `n`.
pub bit_width_lem : (n : ℕ) → (n < 2 ^ bit_width n) × (2 ^ bit_width n ≤ max 1 (2 * n))
unfolding bit_width
bit_width_lem n = bit_width_fuel_lem n n (omega arith)

-- The logarithm that is taken: the least power of two that reaches `n`, but 2 for 1.
log2_ceil_lem :
    (n : ℕ)
    → 1 ≤ n
    → (n ≤ 2 ^ fast_log2_ceil n)
      × (1 ≤ fast_log2_ceil n)
      × (2 ^ fast_log2_ceil n ≤ 2 * n)
      × ((n ≡ 1) ⊎ (2 ^ fast_log2_ceil n < 2 * n))
unfolding fast_log2_ceil fast_log2
log2_ceil_lem zero h = elim h [ ]
log2_ceil_lem (suc zero) h = (omega arith, omega arith, omega arith, inl refl)
log2_ceil_lem (suc (suc m)) h =
    rw (value, next)
      (
        omega (arith, bound),
        omega (arith, bound, positive),
        omega (arith, bound),
        inr (omega (arith, bound)),
      )
  where
    bound : (suc m < 2 ^ bit_width (suc m)) × (2 ^ bit_width (suc m) ≤ max 1 (2 * suc m))
    bound = bit_width_lem (suc m)

    positive : 1 ≤ bit_width (suc m)
    positive = ground (arith, bound)

    next : bit_width (suc m) - 1 + 1 ≡ bit_width (suc m)
    next = ground (arith, bound)

    value : fast_log2_ceil (suc (suc m)) ≡ bit_width (suc m) - 1 + 1
    value = ground arith

-- For requests up to `2 ^ 63` bytes the size is a power of two, at least 4096 and at least what is
-- required, and above 4096 less than twice that.
pub get_actual_buffer_size_lem :
    (n : ℕ)
    → n ≤ 2 ^ 63
    → (k : ℕ) × (get_actual_buffer_size n ≡ 2 ^ k)
      × (n ≤ get_actual_buffer_size n)
      × (4096 ≤ get_actual_buffer_size n)
      × ((get_actual_buffer_size n ≡ 4096) ⊎ (get_actual_buffer_size n < 2 * n))
unfolding get_actual_buffer_size
get_actual_buffer_size_lem zero h = (12, omega arith, omega arith, omega arith, inl refl)
get_actual_buffer_size_lem (suc n) h = rw value (elim (dec_le 12 log) [
  | yes large ↦ (
    log,
    ground (arith, two-pow-le 12 log),
    omega (arith, facts),
    omega arith,
    ground (arith, facts, two-pow-le 12 log),
  )
  | no small ↦ (
    12,
    ground (arith, two-pow-le log 12),
    omega (arith, facts),
    omega arith,
    inl (ground (arith, two-pow-le log 12)),
  )
])
  where
    log : ℕ
    log = fast_log2_ceil (suc n)

    facts :
        (suc n ≤ 2 ^ log)
        × (1 ≤ log)
        × (2 ^ log ≤ 2 * suc n)
        × ((suc n ≡ 1) ⊎ (2 ^ log < 2 * suc n))
    facts = log2_ceil_lem (suc n) (omega arith)

    shift : 2 * 2 ^ (log - 1) % 2 ^ 64 ≡ 2 ^ log
    shift =
        ap (λ (k : ℕ). k % 2 ^ 64)
          (sym (two-pow-suc (log - 1)) ∙ ap (λ (k : ℕ). 2 ^ k) (omega (arith, facts)))
        ∙ mod-eq_of_lt (ground (arith, facts))

    value : get_actual_buffer_size (suc n) ≡ max 4096 (2 ^ log)
    value = ground (arith, shift)

-- For a positive divisor, division rounded up: the least number of parts of `d` that reach `n`.
pub fast_div_ceil_lem :
    (n d : ℕ) → 1 ≤ d → (n ≤ fast_div_ceil n d * d) × (fast_div_ceil n d * d < n + d)
unfolding fast_div_ceil
fast_div_ceil_lem zero d h = (omega arith, omega arith)
fast_div_ceil_lem (suc n) d h = rw value (omega (arith, mod-add-div' n d, mod-lt n h))
  where
    value : fast_div_ceil (suc n) d ≡ 1 + n / d
    value = ground arith
