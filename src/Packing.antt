-- ===== src/Packing.antt =====
-- src/FINNCppDriver/utils/DataPacking.hpp: packing and unpacking of integer datatypes. A value of
-- an integral C++ type of `w` bytes is its bit pattern, a number below `2 ^ (8 * w)`.
mod Mask
mod Tests
pub mod Layout
mod Windows
pub mod Elements
pub mod Loops
pub mod RoundTrip
pub mod Reversed
pub mod Limits
pub mod Pack
pub mod Multi
pub mod Shuffle
use finn_cpp_driver.Prelude.{
  ℕ, zero, suc, ◌+◌, ◌-◌, ◌*◌, ◌/◌, ◌%◌, ◌^◌, Bool, not, ◌&&◌, List, [], ◌∷◌, map, length, take,
  drop, get_or, bit_and, bit_or, leb, ltb, ◌==◌, if◌then◌else◌, Result, ok, err, runtime_error,
  undefined, ◌>>=◌, ◌>>◌, throw_if,
}
use finn_cpp_driver.Bytes.{of_bytes}
use finn_cpp_driver.Bitset
use finn_cpp_driver.Bitset.{DynamicBitset}
use finn_cpp_driver.Datatypes.{Datatype, sign, bitwidth, is_bipolar}

-- `sizeof(UnsignedRetType<U>)`, which is `sizeof(SignedRetType<U>)` too, by the bit width of `U`.
unfoldable pub ret_size : ℕ → ℕ
ret_size bits = if leb bits 8 then 1 else if leb bits 16 then 2 else if leb bits 32 then 4 else 8

-- `createMask`, after `bits` rounds of its loop, for an unsigned type of `w` bits.
pub create_mask : ℕ → ℕ → ℕ
create_mask w zero = 0
create_mask w (suc i) = bit_or (create_mask w i) (2 ^ i % 2 ^ w)

-- `(val + 1) >> 1` for a type of `w` bytes: below 4 bytes the sum is an `int`.
pub to_binary : ℕ → ℕ → ℕ
to_binary w val = if ltb w 4 then (val + 1) / 2 % 2 ^ (8 * w) else (val + 1) % 2 ^ (8 * w) / 2

-- One element of `toBitsetImpl` with `reverseBits` off, from a type of `w` bytes.
unfoldable pub to_bits : Datatype → ℕ → ℕ → ℕ
unfolding create_mask to_binary
to_bits u w val =
    bit_and (if is_bipolar u then to_binary w val else val) (create_mask (8 * w) (bitwidth u))
    % 2 ^ (8 * ret_size (bitwidth u))

-- `toBitset<U, true, false>`
unfoldable pub to_bitset : Datatype → ℕ → List ℕ → List ℕ
to_bitset u w vals = map (to_bits u w) vals

-- The loop of `mergeBitsets` from element `i` on, for elements of `size` bytes and `bits` bits.
pub merge_from : ℕ → ℕ → ℕ → List ℕ → DynamicBitset → Result DynamicBitset
merge_from size bits i [] ret = ok ret
merge_from size bits i (x ∷ xs) ret =
    Bitset.set_byte size x (i * bits) ret >>= merge_from size bits (i + 1) xs

unfoldable pub merge_bitsets : ℕ → List ℕ → Result DynamicBitset
merge_bitsets bits input =
    merge_from (ret_size bits) bits 0 input (Bitset.new (length input * bits))

-- `packImpl`
unfoldable pub pack_impl : Datatype → ℕ → List ℕ → Result (List ℕ)
pack_impl u w vals = if bitwidth u == 8 then ok (map (λ v. v % 256) vals) else do
  merged ← merge_bitsets (bitwidth u) (to_bitset u w vals)
  ok (Bitset.get_storage_vec merged).0

-- `sizeof` of the buffer that holds one element and its neighbours' bits.
unfoldable pub buffer_size : ℕ → ℕ
buffer_size bits =
    if leb bits 8 then 2 else if leb bits 16 then 4 else if leb bits 32 then 8 else 16

-- `std::memcpy` of the bytes `[i, i + n)` of the input into a zeroed integer of `size` bytes.
pub read_bytes : ℕ → ℕ → ℕ → List ℕ → Result ℕ
read_bytes size i n inp =
    if leb n size && leb (i + n) (length inp)
    then ok (of_bytes (take n (drop i inp)))
    else err undefined

-- One round of the loop for elements of whole bytes: `needed` bytes into a type of `r` bytes.
pub whole_element : Bool → ℕ → ℕ → List ℕ → ℕ → Result ℕ
whole_element signed needed r inp i = do
  low ← read_bytes r (i * needed) needed inp
  if signed && not (bit_and 128 (get_or inp (i * needed + needed - 1) 0) == 0)
      then ok (low + (2 ^ (8 * r) - 2 ^ (8 * needed)))
      else ok low

-- One round of the loop for elements that do not fill their bytes.
pub part_element : Bool → ℕ → ℕ → List ℕ → ℕ → Result ℕ
part_element signed bits r inp i =
    let lower_bit = i * bits in
    let lower_byte = lower_bit / 8 in
    let upper_byte = (lower_bit + bits - 1) / 8 in
    let mask = create_mask (8 * buffer_size bits) bits in
    do
      read ← read_bytes (buffer_size bits) lower_byte (upper_byte - lower_byte + 1) inp
      let buffer = bit_and (read / 2 ^ (lower_bit - lower_byte * 8)) mask
      let extended =
          if signed && not (bit_and (2 ^ (bits - 1)) buffer == 0)
          then bit_or buffer (2 ^ (8 * buffer_size bits) - 1 - mask)
          else buffer
      ok (extended % 2 ^ (8 * r))

-- `for (index = i; …)` with `left` rounds to go.
pub collect : (ℕ → Result ℕ) → ℕ → ℕ → Result (List ℕ)
collect body i zero = ok []
collect body i (suc left) = do x ← body i; rest ← collect body (i + 1) left; ok (x ∷ rest)

-- `unpack` with `reverseByte` off and `RetType` of `r` bytes, up to the contents of `ret`. Sizes are
-- `size_t`.
unfoldable pub unpack_elements : Datatype → ℕ → List ℕ → ℕ → Result (List ℕ)
unpack_elements u r inp padding =
    let bits = bitwidth u in
    let payload = (2 ^ 64 + length inp * 8 - padding) % 2 ^ 64 in
    do
      throw_if (length inp == 0) runtime_error
      throw_if (not (payload % bits == 0)) runtime_error
      if bits % 8 == 0
          then collect (whole_element (sign u) (bits / 8) r inp) 0 (length inp / (bits / 8))
          else collect (part_element (sign u) bits r inp) 0 (payload / bits)
