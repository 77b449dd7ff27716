-- ===== src/Packing/Shuffle/ToBitset.antt =====
-- src/FINNCppDriver/utils/DataPacking.hpp: `toBitset` with its two flags.
use native.Mathlib.Nat.{mod-eq_of_lt, mod-lt, div-div-eq-div-mul}
use finn_cpp_driver.Prelude.{
  ℕ, zero, suc, ◌+◌, ◌-◌, ◌*◌, ◌/◌, ◌%◌, ◌^◌, ◌≤◌, ◌<◌, ◌≡◌, sym, ap, ◌∙◌, arith, Bool, false, List,
  map, bit_and, ltb, if◌then◌else◌,
}
use mathlib.Core.List.{reverse}
use finn_cpp_driver.Prelude.Powers.{two-pow-add, two-pow-pos, two-pow-le}
use finn_cpp_driver.Datatypes.{Datatype, bitwidth, is_bipolar}
use finn_cpp_driver.Packing.{ret_size, create_mask, to_bits}
use finn_cpp_driver.Packing.Mask.{and-create_mask}
use finn_cpp_driver.Packing.Windows.{field_of_window}
use finn_cpp_driver.Packing.Shuffle.{detail, bitshuffle_mem_copy, wrapper}
use finn_cpp_driver.Packing.Shuffle.Reversal.{bitshuffle_mem_copy_bit}

-- `(val + 1) >> (shift - 1)` for a type of `w` bytes: below 4 bytes the sum is an `int`.
pub shift_to_binary : ℕ → ℕ → ℕ → ℕ
shift_to_binary w shift val =
    if ltb w 4
    then (val + 1) / 2 ^ (shift - 1) % 2 ^ (8 * w)
    else (val + 1) % 2 ^ (8 * w) / 2 ^ (shift - 1)

-- One element of `toBitsetImpl` with `reverseBits` on, from a type of `w` bytes.
unfoldable pub to_bits_reversed : Datatype → ℕ → ℕ → ℕ
unfolding shift_to_binary
to_bits_reversed u w val =
    let shift = 8 * w - bitwidth u in
    let wrapped = wrapper w val in
    bit_and (if is_bipolar u then shift_to_binary w shift wrapped else wrapped / 2 ^ shift)
      (create_mask (8 * w) (bitwidth u))
    % 2 ^ (8 * ret_size (bitwidth u))

-- `toBitsetImpl`: the order is kept with `invertBytes` on, and reversed with it off.
unfoldable pub to_bitset_impl : Datatype → Bool → Bool → ℕ → List ℕ → List ℕ
unfolding to_bits_reversed
to_bitset_impl u invert_bytes reverse_bits w vals =
    let ret = if reverse_bits then map (to_bits_reversed u w) vals else map (to_bits u w) vals in
    if invert_bytes then ret else reverse ret

wrapper_bit :
    (w x j : ℕ)
    → x < 2 ^ (8 * w)
    → j < 8 * w
    → wrapper w x / 2 ^ j % 2 ≡ x / 2 ^ (8 * w - 1 - j) % 2
unfolding wrapper
wrapper_bit zero x j hx h = absurd (omega arith)
wrapper_bit (suc zero) x j hx h =
    ap (λ (k : ℕ). k / 2 ^ j % 2) one_byte ∙ bitshuffle_mem_copy_bit 1 x j h
  where
    one_byte : detail x ≡ bitshuffle_mem_copy detail 1 x
    one_byte =
        let same : x ≡ x % 256 = omega arith in
        let alone : detail (x % 256) ≡ bitshuffle_mem_copy detail 1 x =
          unfold bitshuffle_mem_copy in omega arith in
        ap (λ (k : ℕ). detail k) same ∙ alone
wrapper_bit (suc (suc w)) x j hx h = bitshuffle_mem_copy_bit (suc (suc w)) x j h

-- With `reverseBits` on, for a datatype other than bipolar of 1 to 64 bits and a pattern of a type
-- that holds it: bit `j` of the result is bit `bitwidth - 1 - j` of the pattern, for every bit of the
-- datatype, and no bit above is set.
pub to_bits_reversed_lem :
    (u : Datatype) (w x : ℕ)
    → is_bipolar u ≡ false
    → 1 ≤ bitwidth u
    → bitwidth u ≤ 64
    → bitwidth u ≤ 8 * w
    → x < 2 ^ (8 * w)
    → (to_bits_reversed u w x < 2 ^ bitwidth u)
      × ((j : ℕ)
          → j < bitwidth u
          → to_bits_reversed u w x / 2 ^ j % 2 ≡ x / 2 ^ (bitwidth u - 1 - j) % 2)
unfolding to_bits_reversed
to_bits_reversed_lem u w x e hb h64 hw hx =
    rw (e, masked)
      (
        mod-lt shifted (two-pow-pos (bitwidth u)),
        λ j h.
            field_of_window shifted j 1 (bitwidth u) (omega arith)
            ∙ ap (λ (k : ℕ). k % 2) (div-div-eq-div-mul (wrapper w x) (2 ^ shift) (2 ^ j))
            ∙ ap (λ (k : ℕ). wrapper w x / k % 2) (sym (two-pow-add shift j))
            ∙ wrapper_bit w x (shift + j) hx (omega arith)
            ∙ (let at : 8 * w - 1 - (shift + j) ≡ bitwidth u - 1 - j = omega arith in
                ap (λ (k : ℕ). x / 2 ^ k % 2) at),
      )
  where
    shift : ℕ
    shift = 8 * w - bitwidth u

    shifted : ℕ
    shifted = wrapper w x / 2 ^ shift

    wide : bitwidth u ≤ 8 * ret_size (bitwidth u)
    wide = unfold ret_size in ground arith

    masked :
        bit_and shifted (create_mask (8 * w) (bitwidth u)) % 2 ^ (8 * ret_size (bitwidth u))
        ≡ shifted % 2 ^ bitwidth u
    masked =
        ap (λ (k : ℕ). k % 2 ^ (8 * ret_size (bitwidth u)))
          (and-create_mask (8 * w) (bitwidth u) shifted hw)
        ∙ mod-eq_of_lt (
            omega (
              arith,
              mod-lt shifted (two-pow-pos (bitwidth u)),
              two-pow-le (bitwidth u) (8 * ret_size (bitwidth u)) wide,
            ))
