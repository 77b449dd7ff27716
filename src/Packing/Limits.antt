-- ===== src/Packing/Limits.antt =====
-- Where `pack` and `unpack` do not match: bipolar values, and return types wider than the buffer.
use native.Mathlib.Nat.{mod-eq_of_lt, mod-lt, mod_self, le_trans}
use mathlib.Core.Path.{fun_ext}
use finn_cpp_driver.Prelude.{
  ℕ, ◌+◌, ◌-◌, ◌*◌, ◌/◌, ◌%◌, ◌^◌, ◌≤◌, ◌<◌, ◌≡◌, refl, sym, ap, ap₂, ◌∙◌, arith, Bool, true, false,
  not, List, [], ◌∷◌, map, length, length-map, ◌==◌, ◌&&◌, if◌then◌else◌, bit_and, bit_or, ok,
  ◌>>=◌, Bool-cases, inl, inr,
}
use finn_cpp_driver.Prelude.Powers.{two-pow-add, two-pow-pos, two-pow-le, pred-mul}
use finn_cpp_driver.Prelude.Bits.{or_fields}
use finn_cpp_driver.Bytes.{to_bytes, length-to_bytes}
use finn_cpp_driver.Bitset
use finn_cpp_driver.Bitset.{bytes_for}
use finn_cpp_driver.Datatypes.{Datatype, bipolar, sign, bitwidth, is_bipolar, is_fixed_point}
use finn_cpp_driver.Packing.{
  buffer_size, part_element, to_binary, to_bits, to_bitset, create_mask, ret_size, read_bytes,
  unpack_elements, pack_impl,
}
use finn_cpp_driver.Packing.Pack.{Conversions, unpack, unpack-unpack_elements}
use finn_cpp_driver.Packing.Mask.{create_mask_lem, and-create_mask}
use finn_cpp_driver.Packing.Layout.{digits_value, AreDigits, merge_bitsets_lem}
use finn_cpp_driver.Packing.Elements.{sign_extend, buffer_size-le}
use finn_cpp_driver.Packing.Loops.{unpack_lem}

-- The pattern of `1` or `-1` in a type of `w` bytes.
abbrev pub sign_pattern : ℕ → Bool → ℕ
sign_pattern w true = 1
sign_pattern w false = 2 ^ (8 * w) - 1

abbrev bit_of : Bool → ℕ
bit_of true = 1
bit_of false = 0

byte_split : (w : ℕ) → 1 ≤ w → 2 ^ (8 * w) ≡ 256 * 2 ^ (8 * w - 8)
byte_split w h = ap (λ (k : ℕ). 2 ^ k) (omega arith) ∙ two-pow-add 8 (8 * w - 8)

to_binary-sign : (w : ℕ) (b : Bool) → 1 ≤ w → to_binary w (sign_pattern w b) % 2 ≡ bit_of b
unfolding to_binary
to_binary-sign w true h = ground (
  arith,
  byte_split w h,
  two-pow-pos (8 * w - 8),
  mod-eq_of_lt {n = 1} {m = 2 ^ (8 * w)},
  mod-eq_of_lt {n = 2} {m = 2 ^ (8 * w)},
)
to_binary-sign w false h = ground (
  arith,
  byte_split w h,
  two-pow-pos (8 * w - 8),
  mod-eq_of_lt {n = 128 * 2 ^ (8 * w - 8)} {m = 2 ^ (8 * w)},
  mod_self (2 ^ (8 * w)),
)

to_bits-sign : (w : ℕ) (b : Bool) → 1 ≤ w → to_bits bipolar w (sign_pattern w b) ≡ bit_of b
unfolding to_bits is_bipolar bitwidth ret_size
to_bits-sign w b h =
    rw
      (
        and-create_mask (8 * w) 1 (to_binary w (sign_pattern w b)) (omega arith),
        to_binary-sign w b h,
      )
      (small b)
  where
    small : (b : Bool) → bit_of b % 2 ^ (8 * ret_size 1) ≡ bit_of b
    small true = refl
    small false = refl

bits-AreDigits : (bs : List Bool) → AreDigits 1 (map bit_of bs)
bits-AreDigits [] = tt
bits-AreDigits (true ∷ bs) = (omega arith, bits-AreDigits bs)
bits-AreDigits (false ∷ bs) = (omega arith, bits-AreDigits bs)

-- What `unpack` makes of a packed bipolar value: `-1` for `1`, and `0` for `-1`.
abbrev pub unpacked_sign : Bool → ℕ
unpacked_sign true = 255
unpacked_sign false = 0

to_bitset-signs :
    (w : ℕ) (bs : List Bool) → 1 ≤ w → to_bitset bipolar w (map (sign_pattern w) bs) ≡ map bit_of bs
unfolding to_bitset
to_bitset-signs w [] h = refl
to_bitset-signs w (b ∷ bs) h = ap₂ ◌∷◌ (to_bits-sign w b h) (to_bitset-signs w bs h)

extended_signs :
    (bs : List Bool) → map (sign_extend true 1 1) (map bit_of bs) ≡ map unpacked_sign bs
extended_signs [] = refl
extended_signs (true ∷ bs) = ap (◌∷◌ 255) (extended_signs bs)
extended_signs (false ∷ bs) = ap (◌∷◌ 0) (extended_signs bs)

-- `unpack` has no inverse of the bipolar conversion in `pack`: packed values `1` and `-1` of a type of
-- at least one byte come back as `-1` and `0` at the one-byte type, for every non-empty list of
-- fewer than `2 ^ 60` of them.
pub unpack-pack_impl_bipolar :
    (K : Conversions) (w : ℕ) (bs : List Bool)
    → 1 ≤ w
    → 1 ≤ length bs
    → length bs < 2 ^ 60
    → (packed : List ℕ) × (pack_impl bipolar w (map (sign_pattern w) bs) ≡ ok packed)
      × (unpack K bipolar 1 packed (8 * length packed - length bs) ≡ ok (map unpacked_sign bs))
unfolding pack_impl Bitset.get_storage_vec bitwidth sign is_fixed_point
unpack-pack_impl_bipolar K w bs h hl small = (
  to_bytes (bytes_for (length digits * 1)) (digits_value 1 digits),
  rw (
    to_bitset-signs w bs h,
    merge_bitsets_lem 1 digits (omega arith) (omega arith) (bits-AreDigits bs),
  ),
  unpack-unpack_elements K bipolar 1 packed (8 * length packed - length bs) refl
      ∙ ap (λ (n : ℕ). unpack_elements bipolar 1 packed n)
          (omega (
            arith,
            length-to_bytes (bytes_for (length digits * 1)) (digits_value 1 digits),
            same_length,
          ))
      ∙ unpack_lem bipolar 1 digits (omega arith) (omega arith) (omega arith)
          (omega (arith, buffer_size-le 1 (omega arith))) (bits-AreDigits bs)
          (omega (arith, same_length)) (omega (arith, same_length))
      ∙ ap ok (extended_signs bs),
)
  where
    digits : List ℕ
    digits = map bit_of bs

    packed : List ℕ
    packed = to_bytes (bytes_for (length digits * 1)) (digits_value 1 digits)

    same_length : length digits ≡ length bs
    same_length = length-map bit_of bs

-- What the code leaves in the buffer fits the buffer, whatever was read.
extended-lt :
    (bits w y : ℕ) (c : Bool)
    → bits ≤ w
    → (if c
        then bit_or (bit_and y (create_mask w bits)) (2 ^ w - 1 - create_mask w bits)
        else bit_and y (create_mask w bits))
      < 2 ^ w
extended-lt bits w y false h =
    rw (and-create_mask w bits y h)
      (omega (arith, mod-lt y (two-pow-pos bits), two-pow-le bits w h))
extended-lt bits w y true h =
    rw
      (
        and-create_mask w bits y h,
        create_mask_lem w bits h,
        high,
        or_fields bits (y % 2 ^ bits) (2 ^ (w - bits) - 1) (mod-lt y (two-pow-pos bits)),
      )
      (omega (arith, high, two-pow-le bits w h, two-pow-pos bits, mod-lt y (two-pow-pos bits)))
  where
    high : 2 ^ w - 1 - (2 ^ bits - 1) ≡ (2 ^ (w - bits) - 1) * 2 ^ bits
    high = omega (
      arith,
      ap (λ (k : ℕ). 2 ^ k) split,
      two-pow-add (w - bits) bits,
      pred-mul (2 ^ (w - bits)) (2 ^ bits) (two-pow-pos (w - bits)),
      two-pow-pos bits,
    )
      where
        split : w ≡ w - bits + bits
        split = omega arith

part_element-wide :
    (bits r : ℕ) (signed : Bool) (inp : List ℕ) (i : ℕ)
    → bits ≤ 64
    → buffer_size bits ≤ r
    → part_element signed bits r inp i ≡ part_element signed bits (buffer_size bits) inp i
unfolding part_element
part_element-wide bits r signed inp i h hr =
    ap
      (◌>>=◌ (
        read_bytes (buffer_size bits) (i * bits / 8) ((i * bits + bits - 1) / 8 - i * bits / 8 + 1)
          inp))
      (fun_ext (λ read. ap ok (same read)))
  where
    same :
        (read : ℕ)
        → let y = read / 2 ^ (i * bits - i * bits / 8 * 8) in
          let w = 8 * buffer_size bits in
          let e =
            if signed && not (bit_and (2 ^ (bits - 1)) (bit_and y (create_mask w bits)) == 0)
            then bit_or (bit_and y (create_mask w bits)) (2 ^ w - 1 - create_mask w bits)
            else bit_and y (create_mask w bits) in
          e % 2 ^ (8 * r) ≡ e % 2 ^ w
    same read =
        let y = read / 2 ^ (i * bits - i * bits / 8 * 8) in
        let w = 8 * buffer_size bits in
        let bound =
          extended-lt bits w y
            (signed && not (bit_and (2 ^ (bits - 1)) (bit_and y (create_mask w bits)) == 0))
            (buffer_size-le bits h).0 in
        mod-eq_of_lt (le_trans bound (two-pow-le w (8 * r) (omega arith)))
        ∙ sym (mod-eq_of_lt bound)

unpack_elements-wide :
    (u : Datatype) (r : ℕ) (inp : List ℕ) (padding : ℕ)
    → (bitwidth u % 8 == 0) ≡ false
    → bitwidth u ≤ 64
    → buffer_size (bitwidth u) ≤ r
    → unpack_elements u r inp padding ≡ unpack_elements u (buffer_size (bitwidth u)) inp padding
unfolding unpack_elements
unpack_elements-wide u r inp padding e h hr =
    rw (e, fun_ext (λ i. part_element-wide (bitwidth u) r (sign u) inp i h hr))

-- `unpack` sign-extends in its buffer only: for a width of at most 64 bits that does not fill its
-- bytes, a return type at least as wide as the buffer gets the numbers that a type of the width of
-- the buffer gets, so that a negative value comes out positive at a wider one. It holds for every
-- input and padding.
pub unpack-wide :
    (K : Conversions) (u : Datatype) (r : ℕ) (inp : List ℕ) (padding : ℕ)
    → (bitwidth u % 8 == 0) ≡ false
    → bitwidth u ≤ 64
    → buffer_size (bitwidth u) ≤ r
    → unpack K u r inp padding ≡ unpack K u (buffer_size (bitwidth u)) inp padding
unfolding unpack
unpack-wide K u r inp padding e h hr = elim (Bool-cases (is_fixed_point u)) [
  | inl fix ↦ rw fix refl
  | inr other ↦ rw (other, unpack_elements-wide u r inp padding e h hr) refl
]
