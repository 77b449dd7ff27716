-- ===== src/Packing/Pack/Fixed.antt =====
-- utils/DataPacking.hpp: `pack` on integers for a fixed-point datatype.
use native.Mathlib.Nat.{mod-mod, mul-sub, add-mul-mod_self_left}
use finn_cpp_driver.Prelude.{
  ℕ, ◌+◌, ◌-◌, ◌*◌, ◌/◌, ◌%◌, ◌^◌, ◌≤◌, ◌≡◌, refl, sym, ap, ap₂, ◌∙◌, arith, Bool, true, false,
  ◌&&◌, List, [], ◌∷◌, map, length, leb, ltb, Bool-cases, inl, inr, ok, length-map, if◌then◌else◌,
}
use finn_cpp_driver.Prelude.Powers.{two-pow-add, mod-mul}
use finn_cpp_driver.Bytes.{to_bytes}
use finn_cpp_driver.Bitset.{bytes_for}
use finn_cpp_driver.Datatypes.{fixed, int, bitwidth, is_bipolar, frac_bits}
use finn_cpp_driver.Datatypes.Fixed.{frac_bits_lem}
use finn_cpp_driver.Packing.{ret_size}
use finn_cpp_driver.Packing.Layout.{digits_value, cut, bits-le-ret_size, pack_impl_lem}
use finn_cpp_driver.Packing.Pack.{
  ScalarType, floating, signed_integer, unsigned_integer, type_size, IsIntegral, Conversions,
  resize, pack_shifted, pack_fixed, pack,
}

two-pow-split : (b m : ℕ) → b ≤ m → 2 ^ m ≡ 2 ^ b * 2 ^ (m - b)
two-pow-split b m h = ap (λ (k : ℕ). 2 ^ k) places ∙ two-pow-add b (m - b)
  where
    places : m ≡ b + (m - b)
    places = omega arith

-- The low `b` of the low `m` bits.
low-low : (b m x : ℕ) → b ≤ m → x % 2 ^ m % 2 ^ b ≡ x % 2 ^ b
low-low b m x h =
    ap (λ (p : ℕ). x % p % 2 ^ b) (two-pow-split b m h)
    ∙ ap (λ (r : ℕ). r % 2 ^ b) (mod-mul x (2 ^ b) (2 ^ (m - b)))
    ∙ add-mul-mod_self_left (x % 2 ^ b) (2 ^ b) (x / 2 ^ b % 2 ^ (m - b))
    ∙ mod-mod x (2 ^ b)

-- A conversion keeps the bits that both types have.
resize-low :
    (signed : Bool) (w n b x : ℕ) → b ≤ 8 * w → b ≤ 8 * n → resize signed w n x % 2 ^ b ≡ x % 2 ^ b
unfolding resize
resize-low signed w n b x hw hn = elim (Bool-cases (leb n w)) [
  | inl narrow ↦ rw narrow (low-low b (8 * n) x hn)
  | inr wide ↦ elim (Bool-cases (signed && leb (2 ^ (8 * w - 1)) x)) [
    | inl negative ↦ rw (wide, negative) extended
    | inr positive ↦ rw (wide, positive) refl
  ]
]
  where
    extended : (x + (2 ^ (8 * n) - 2 ^ (8 * w))) % 2 ^ b ≡ x % 2 ^ b
    extended =
        ap₂ (λ (p q : ℕ). (x + (p - q)) % 2 ^ b) (two-pow-split b (8 * n) hn)
          (two-pow-split b (8 * w) hw)
        ∙ ap (λ (d : ℕ). (x + d) % 2 ^ b)
            (sym (mul-sub (2 ^ b) (2 ^ (8 * n - b)) (2 ^ (8 * w - b))))
        ∙ add-mul-mod_self_left x (2 ^ b) (2 ^ (8 * n - b) - 2 ^ (8 * w - b))

-- The fields of the shifted values.
abbrev pub fields : ℕ → ℕ → List ℕ → List ℕ
fields b i vals = map (λ v. v * 2 ^ (b - i) % 2 ^ b) vals

fields-cut :
    (signed : Bool) (b i w : ℕ) (vals : List ℕ)
    → b ≤ 8 * w
    → b ≤ 64
    → cut b (map (λ v. resize signed w (ret_size b) (v * 2 ^ (b - i) % 2 ^ (8 * w))) vals)
      ≡ fields b i vals
fields-cut signed b i w [] hw h64 = refl
fields-cut signed b i w (v ∷ vals) hw h64 =
    ap₂ ◌∷◌
      (resize-low signed w (ret_size b) b (v * 2 ^ (b - i) % 2 ^ (8 * w)) hw
          (omega (arith, (bits-le-ret_size b h64).1))
        ∙ low-low b (8 * w) (v * 2 ^ (b - i)) hw)
      (fields-cut signed b i w vals hw h64)

module _ (b i : ℕ) (hb : 1 ≤ b) (h64 : b ≤ 64) (hi : 1 ≤ i) (hi' : i ≤ b) where
  pack_shifted_lem :
      (w : ℕ) (signed : Bool) (vals : List ℕ)
      → b ≤ 8 * w
      → pack_shifted b (frac_bits b i) signed w vals
        ≡ ok (to_bytes (bytes_for (length vals * b)) (digits_value b (fields b i vals)))
  unfolding pack_shifted is_bipolar bitwidth
  pack_shifted_lem w signed vals hw =
      rw (frac_bits_lem b i hi' h64, shifts)
        (pack_impl_lem (int b) (ret_size b) (map resized vals) refl hb h64
            (omega (arith, (bits-le-ret_size b h64).1))
          ∙ ap₂ (λ (n : ℕ) ds. ok (to_bytes (bytes_for (n * b)) (digits_value b ds)))
              (length-map resized vals) (fields-cut signed b i w vals hw h64))
    where
      resized : ℕ → ℕ
      resized v = resize signed w (ret_size b) (v * 2 ^ (b - i) % 2 ^ (8 * w))

      shifts : leb (if ltb w 4 then 32 else 8 * w) (b - i) ≡ false
      shifts = ground arith

  -- For a fixed-point datatype of 1 to 64 bits with at least one integer bit and no more of them than
  -- bits, `pack` on integers of a type that has as many bits puts the values, shifted by the number
  -- of fraction bits and cut to the bits of the datatype, one after another without gaps.
  pub pack-fixed_lem :
      (K : Conversions) (t : ScalarType) (vals : List ℕ)
      → IsIntegral t
      → b ≤ 8 * type_size t
      → pack K (fixed b i) t vals
        ≡ ok (to_bytes (bytes_for (length vals * b)) (digits_value b (fields b i vals)))
  unfolding pack pack_fixed
  pack-fixed_lem K (floating w) vals h hw = elim h [ ]
  pack-fixed_lem K (signed_integer w) vals h hw = pack_shifted_lem w true vals hw
  pack-fixed_lem K (unsigned_integer w) vals h hw = pack_shifted_lem w false vals hw
