-- ===== src/Packing/Reversed.antt =====
-- src/FINNCppDriver/utils/DataPacking.hpp: `unpack` with `reverseByte` on.
use finn_cpp_driver.Prelude.{
  ℕ, ◌-◌, ◌*◌, ◌^◌, ◌≤◌, ◌<◌, ◌≡◌, refl, false, List, All, length, Result, ok,
}
use mathlib.Core.List.{reverse, reverse-reverse}
use finn_cpp_driver.Datatypes.{Datatype, sign, bitwidth, is_bipolar, is_fixed_point}
use finn_cpp_driver.Packing.{buffer_size, pack_impl}
use finn_cpp_driver.Packing.Pack.{Conversions, unpack}
use finn_cpp_driver.Packing.RoundTrip.{Fits, unpack-pack_impl}

-- What it ends in, and the bytes of the caller after, which are reversed in place.
unfoldable pub unpack_reversed : Conversions → Datatype → ℕ → List ℕ → ℕ → Result (List ℕ) × List ℕ
unpack_reversed K u w inp padding = (unpack K u w (reverse inp) padding, reverse inp)

-- Bytes that arrive in the reverse of the order in which `packImpl` makes them are unpacked to the
-- values that were packed, under the conditions of the round trip of `unpack`; the bytes of the
-- caller are then in the order of `packImpl`.
pub unpack_reversed-pack_impl :
    (K : Conversions) (u : Datatype) (w : ℕ) (vals : List ℕ)
    → is_bipolar u ≡ false
    → is_fixed_point u ≡ false
    → 1 ≤ bitwidth u
    → bitwidth u ≤ 64
    → bitwidth u ≤ 8 * w
    → w ≤ buffer_size (bitwidth u)
    → All (Fits (sign u) (bitwidth u) w) vals
    → 1 ≤ length vals
    → length vals * bitwidth u < 2 ^ 60
    → (packed : List ℕ) × (pack_impl u w vals ≡ ok packed)
      × (unpack_reversed K u w (reverse packed) (8 * length packed - length vals * bitwidth u)
          ≡ (ok vals, packed))
unfolding unpack_reversed
unpack_reversed-pack_impl K u w vals e e' hb h64 hw hw' h hl small =
    let (packed, made, same) = unpack-pack_impl K u w vals e e' hb h64 hw hw' h hl small in
    (packed, made, rw (reverse-reverse packed, same) refl)
