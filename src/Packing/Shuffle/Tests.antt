-- ===== src/Packing/Shuffle/Tests.antt =====
-- Reversed bits at concrete values.
use finn_cpp_driver.Prelude.{
  ℕ, ◌-◌, ◌*◌, ◌/◌, ◌%◌, ◌^◌, ◌<◌, ◌≡◌, refl, arith, [], ◌∷◌, true, false,
}
use finn_cpp_driver.Datatypes.{uint, bipolar, bitwidth, is_bipolar}
use finn_cpp_driver.Packing.{ret_size, create_mask}
use finn_cpp_driver.Packing.Shuffle.{detail, wrapper, bitshuffle, bitshuffle_mem_copy}
use finn_cpp_driver.Packing.Shuffle.Agree.{bitshuffle_mem_copy-bitshuffle}
use finn_cpp_driver.Packing.Shuffle.Reversal.{detail-OnBytes, bitshuffle_mem_copy_bit}
use finn_cpp_driver.Packing.Shuffle.ToBitset.{
  to_bits_reversed, to_bitset_impl, to_bits_reversed_lem,
}

bitshuffle_mem_copy-bitshuffle_example :
    bitshuffle_mem_copy detail 2 0x1234 ≡ bitshuffle detail 2 0x1234
bitshuffle_mem_copy-bitshuffle_example =
    bitshuffle_mem_copy-bitshuffle detail 2 0x1234 detail-OnBytes

to_bits_reversed_lem_example :
    (to_bits_reversed (uint 3) 1 6 < 2 ^ 3)
    × ((j : ℕ) → j < 3 → to_bits_reversed (uint 3) 1 6 / 2 ^ j % 2 ≡ 6 / 2 ^ (3 - 1 - j) % 2)
unfolding bitwidth is_bipolar
to_bits_reversed_lem_example =
    to_bits_reversed_lem (uint 3) 1 6 refl (omega arith) (omega arith) (omega arith) (omega arith)

three_bits : to_bitset_impl (uint 3) false true 1 (6 ∷ 1 ∷ []) ≡ 4 ∷ 3 ∷ []
unfolding to_bitset_impl to_bits_reversed bitwidth is_bipolar wrapper detail ret_size create_mask
three_bits = refl

-- Both bipolar values become 0.
reversed_signs : to_bitset_impl bipolar true true 1 (1 ∷ 255 ∷ []) ≡ 0 ∷ 0 ∷ []
unfolding to_bitset_impl to_bits_reversed bitwidth is_bipolar wrapper detail ret_size create_mask
reversed_signs = refl

bitshuffle_mem_copy_bit_example :
    bitshuffle_mem_copy detail 2 0x1234 / 2 ^ 3 % 2 ≡ 0x1234 / 2 ^ (8 * 2 - 1 - 3) % 2
bitshuffle_mem_copy_bit_example = bitshuffle_mem_copy_bit 2 0x1234 3 (omega arith)
