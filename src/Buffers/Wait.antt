-- ===== src/Buffers/Wait.antt =====
-- core/DeviceBuffer/DeviceBuffer.hpp: `busyWait`, which reads the control register of the kernel until
-- it says that the kernel is idle. What the reads return, in order, is a parameter.
use mathlib.Core.Bool.{false≢true}
use native.Mathlib.Decide.{dec_le}
use finn_cpp_driver.Prelude.{
  ℕ, zero, suc, ◌+◌, ◌≤◌, ◌<◌, ◌≡◌, refl, sym, ap, ◌∙◌, arith, inl, inr, Bool, true, false,
  Bool-cases, ◌==◌, bit_and, Option, none, some, if◌then◌else◌,
}

-- `(axi_ctrl & IP_IDLE) == IP_IDLE`
unfoldable pub is_idle : ℕ → Bool
is_idle axi_ctrl = bit_and axi_ctrl 4 == 4

-- The loop, on fuel, after `i` reads: how many reads it made, unless the fuel ran out.
pub busy_wait_from : ℕ → (ℕ → ℕ) → ℕ → ℕ → Option ℕ
busy_wait_from zero read_register i axi_ctrl = if is_idle axi_ctrl then some i else none
busy_wait_from (suc fuel) read_register i axi_ctrl =
    let rest = busy_wait_from fuel read_register (i + 1) (read_register i) in
    if is_idle axi_ctrl then some i else rest

unfoldable pub busy_wait : ℕ → (ℕ → ℕ) → Option ℕ
unfolding busy_wait_from
busy_wait fuel read_register = busy_wait_from fuel read_register 0 0

-- It stops on an idle kernel.
stops :
    (fuel : ℕ) (read_register : ℕ → ℕ) (i axi_ctrl : ℕ)
    → is_idle axi_ctrl ≡ true
    → busy_wait_from fuel read_register i axi_ctrl ≡ some i
unfolding busy_wait_from
stops zero read_register i axi_ctrl h = rw h refl
stops (suc fuel) read_register i axi_ctrl h = rw h refl

-- `n` is the first read from `i` on that shows an idle kernel.
abbrev pub IsFirstIdle : (ℕ → ℕ) → ℕ → ℕ → Type 0
IsFirstIdle read_register i n =
    (i ≤ n)
    × (is_idle (read_register n) ≡ true)
    × ((j : ℕ) → i ≤ j → j < n → is_idle (read_register j) ≡ false)

ends :
    (fuel : ℕ) (read_register : ℕ → ℕ) (i k axi_ctrl : ℕ)
    → i ≤ k
    → k < i + fuel
    → is_idle (read_register k) ≡ true
    → is_idle axi_ctrl ≡ false
    → (n : ℕ) × (busy_wait_from fuel read_register i axi_ctrl ≡ some (n + 1))
      × (n ≤ k)
      × IsFirstIdle read_register i n
unfolding busy_wait_from
ends zero read_register i k axi_ctrl le enough idle busy = absurd (omega arith)
ends (suc fuel) read_register i k axi_ctrl le enough idle busy =
    elim (Bool-cases (is_idle (read_register i))) [
      | inl now ↦ (
        i,
        rw busy (stops fuel read_register (i + 1) (read_register i) now),
        le,
        (omega arith, now, λ j h h'. absurd (omega arith)),
      )
      | inr later ↦
          let (n, found, below, first) =
            ends fuel read_register (i + 1) k (read_register i) (further later) (omega arith) idle
              later in
          (
            n,
            rw busy found,
            below,
            (
              omega (arith, first.0),
              first.1,
              λ j h h'. elim (dec_le (i + 1) j) [
                | yes past ↦ first.2 j past h'
                | no here ↦
                    let at : j ≡ i = omega arith in
                    ap (λ (m : ℕ). is_idle (read_register m)) at ∙ later
              ],
            ),
          )
    ]
  where
    further : is_idle (read_register i) ≡ false → i + 1 ≤ k
    further later = elim (dec_le (i + 1) k) [
      | yes h ↦ h
      | no h ↦
          let at : i ≡ k = omega arith in
          absurd (false≢true (sym later ∙ ap (λ (m : ℕ). is_idle (read_register m)) at ∙ idle))
    ]

-- When some read, number `k` counted from 0, shows an idle kernel, `busyWait` ends: on any fuel above
-- `k` it makes at most `k + 1` reads, the last of them the first one that shows an idle kernel.
pub busy_wait_ends :
    (fuel k : ℕ) (read_register : ℕ → ℕ)
    → k < fuel
    → is_idle (read_register k) ≡ true
    → (n : ℕ) × (busy_wait fuel read_register ≡ some (n + 1))
      × (n ≤ k)
      × IsFirstIdle read_register 0 n
unfolding busy_wait is_idle
busy_wait_ends fuel k read_register enough idle =
    ends fuel read_register 0 k 0 (omega arith) (omega arith) idle refl

-- Without one it never ends: no fuel is enough.
pub busy_wait_never :
    (fuel : ℕ) (read_register : ℕ → ℕ)
    → ((k : ℕ) → is_idle (read_register k) ≡ false)
    → busy_wait fuel read_register ≡ none
unfolding busy_wait is_idle
busy_wait_never fuel read_register busy = from fuel 0 0 refl
  where
    from :
        (fuel i axi_ctrl : ℕ)
        → is_idle axi_ctrl ≡ false
        → busy_wait_from fuel read_register i axi_ctrl ≡ none
    from zero i axi_ctrl h = unfold busy_wait_from in rw h refl
    from (suc fuel) i axi_ctrl h =
        unfold busy_wait_from in rw h (from fuel (i + 1) (read_register i) (busy i))
