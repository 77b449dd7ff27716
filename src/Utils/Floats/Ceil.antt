-- ===== src/Utils/Floats/Ceil.antt =====
-- `ceil` where the sum with 1 is exact.
use native.Mathlib.Nat.{div-add-mod, mul-mod_left, add-mul-div_right, div-lt_iff_lt-mul, mod-lt}
use finn_cpp_driver.Prelude.{
  ℕ, zero, suc, ◌+◌, ◌-◌, ◌*◌, ◌/◌, ◌%◌, ◌^◌, ◌≤◌, ◌<◌, ◌≡◌, refl, ap, ◌∙◌, arith, true, false, ok,
  ltb, lt→ltb, not, ◌==◌, ◌&&◌, inl, inr, Bool-cases,
}
use finn_cpp_driver.Prelude.Powers.{two-pow-pos, two-pow-le, two-pow-add, two-pow-suc}
use native.Mathlib.Decide.{dec_le}
use finn_cpp_driver.Utils.{bit_width}
use finn_cpp_driver.Utils.BufferSize.{bit_width_lem}
use finn_cpp_driver.Utils.Rounding.{round_at}
use finn_cpp_driver.Utils.Floats.{Format, sign_bit, finite, one, add_one, to_int, ceil}

round_at-whole : (k n : ℕ) → n % 2 ^ k ≡ 0 → round_at k n ≡ n
unfolding round_at
round_at-whole zero n h = refl
round_at-whole (suc k) n h = ground (arith, div-add-mod n (2 ^ suc k), two-pow-pos k)

bit_width-le : (k n : ℕ) → n < 2 ^ k → bit_width n ≤ k
bit_width-le k n small = elim (dec_le (bit_width n) k) [
  | yes few ↦ few
  | no many ↦ absurd (
      omega (
        arith,
        bit_width_lem n,
        two-pow-le (suc k) (bit_width n) (omega arith),
        two-pow-suc k,
        two-pow-pos k,
      ))
]

-- A number of at most `p` digits with `s` zeros behind them keeps its value.
pub round_at-digits :
    (p s n : ℕ) → n < 2 ^ p → round_at (bit_width (n * 2 ^ s) - p) (n * 2 ^ s) ≡ n * 2 ^ s
round_at-digits p s n small =
    round_at-whole (bit_width (n * 2 ^ s) - p) (n * 2 ^ s) (whole (bit_width (n * 2 ^ s) - p) shift)
  where
    below : n * 2 ^ s < 2 ^ (p + s)
    below = grind (arith, small, two-pow-add p s, two-pow-pos s)

    shift : bit_width (n * 2 ^ s) - p ≤ s
    shift = omega (arith, bit_width-le (p + s) (n * 2 ^ s) below)

    whole : (k : ℕ) → k ≤ s → n * 2 ^ s % 2 ^ k ≡ 0
    whole k h =
        ap (λ (t : ℕ). t % 2 ^ k) (ap (λ (t : ℕ). n * t) split ∙ omega arith)
        ∙ mul-mod_left (n * 2 ^ (s - k)) (2 ^ k)
      where
        places : s ≡ s - k + k
        places = omega arith

        split : 2 ^ s ≡ 2 ^ (s - k) * 2 ^ k
        split = ap (λ (t : ℕ). 2 ^ t) places ∙ two-pow-add (s - k) k

div-add_self : (a u : ℕ) → 1 ≤ u → (a + u) / u ≡ a / u + 1
div-add_self a u h =
    let once : u ≡ 1 * u = omega arith in ap (λ (k : ℕ). (a + k) / u) once ∙ add-mul-div_right a 1 h

module _ (F : Format) where
  -- Where the sum with 1 is exact and its integer part in range, the least integer from the number
  -- on.
  pub ceil_lem :
      (a : ℕ)
      → add_one F a ≡ a + one F
      → a + one F < sign_bit F * one F
      → (j : ℕ) × (ceil F (finite false a) ≡ ok (finite false (j * one F)))
        × (a ≤ j * one F)
        × (j * one F < a + one F)
  unfolding ceil to_int
  ceil_lem a exact small = elim (Bool-cases (ltb 0 a && not (a == a / one F * one F))) [
    | inl up ↦ (
      (a + one F) / one F,
      rw (low, up, exact, high) refl,
      omega (arith, next, parts, ap (λ (k : ℕ). k * one F) next, rest),
      ground (arith, ap (λ (k : ℕ). k * one F) next, parts),
    )
    | inr down ↦ (a / one F, rw (low, down) refl, ground (arith, parts), omega (arith, parts, some))
  ]
    where
      some : 0 < one F
      some = two-pow-pos (2 ^ (F.exponent_bits - 1) + F.mantissa_bits - 2)

      parts : one F * (a / one F) + a % one F ≡ a
      parts = div-add-mod a (one F)

      rest : a % one F < one F
      rest = mod-lt a some

      next : (a + one F) / one F ≡ a / one F + 1
      next = div-add_self a (one F) some

      low : ltb (a / one F) (sign_bit F) ≡ true
      low = lt→ltb _ _ ((div-lt_iff_lt-mul some).1 (omega (arith, small)))

      high : ltb ((a + one F) / one F) (sign_bit F) ≡ true
      high = lt→ltb _ _ ((div-lt_iff_lt-mul some).1 small)
