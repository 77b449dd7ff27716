-- ===== src/Packing/RoundTrip.antt =====
-- `unpack` after `pack`.
use native.Mathlib.Nat.{mod-eq_of_lt, mul-add-mod_self_right}
use finn_cpp_driver.Prelude.{
  ℕ, ◌-◌, ◌*◌, ◌%◌, ◌^◌, ◌≤◌, ◌<◌, ◌≡◌, refl, sym, ap, ap₂, ◌∙◌, arith, ◌⊎◌, inl, inr, Bool, true,
  false, List, [], ◌∷◌, map, length, length-map, All, ok,
}
use finn_cpp_driver.Prelude.Powers.{two-pow-add, two-pow-pos, two-pow-le, two-pow-suc, pred-mul}
use finn_cpp_driver.Bytes.{to_bytes, length-to_bytes}
use finn_cpp_driver.Bitset.{bytes_for}
use finn_cpp_driver.Datatypes.{Datatype, sign, bitwidth, is_bipolar, is_fixed_point}
use finn_cpp_driver.Packing.{buffer_size, unpack_elements, pack_impl}
use finn_cpp_driver.Packing.Layout.{digits_value, cut, cut-AreDigits, pack_impl_lem}
use finn_cpp_driver.Packing.Pack.{Conversions, unpack, unpack-unpack_elements}
use finn_cpp_driver.Packing.Loops.{unpack_lem}
use finn_cpp_driver.Packing.Elements.{sign_extend}

-- The patterns of a type of `w` bytes that stand for the values of a datatype of `bits` bits.
abbrev pub Fits : Bool → ℕ → ℕ → ℕ → Type 0
Fits true bits w x = (x < 2 ^ (bits - 1)) ⊎ ((2 ^ (8 * w) - 2 ^ (bits - 1) ≤ x) × (x < 2 ^ (8 * w)))
Fits false bits w x = x < 2 ^ bits

double : (k : ℕ) → 1 ≤ k → 2 ^ k ≡ 2 * 2 ^ (k - 1)
double k h = ap (λ (j : ℕ). 2 ^ j) (omega arith) ∙ two-pow-suc (k - 1)

half_lt : (k : ℕ) → 1 ≤ k → 2 ^ (k - 1) < 2 ^ k
half_lt k h = omega (arith, double k h, two-pow-pos (k - 1))

-- Cutting such a pattern down and extending it gives it back.
sign_extend-cut :
    (signed : Bool) (b w x : ℕ)
    → 1 ≤ b
    → b ≤ 8 * w
    → Fits signed b w x
    → sign_extend signed b w (x % 2 ^ b) ≡ x
sign_extend-cut false b w x hb hw h = mod-eq_of_lt h
sign_extend-cut true b w x hb hw (inl h) =
    ground (arith, mod-eq_of_lt {n = x} {m = 2 ^ b}, half_lt b hb)
sign_extend-cut true b w x hb hw (inr h) = ground (arith, double b hb, wide, remainder)
  where
    wide : 2 ^ b ≤ 2 ^ (8 * w)
    wide = two-pow-le b (8 * w) hw

    multiple : 2 ^ (8 * w) ≡ 2 ^ (8 * w - b) * 2 ^ b
    multiple = ap (λ (k : ℕ). 2 ^ k) (omega arith) ∙ two-pow-add (8 * w - b) b

    remainder : x % 2 ^ b ≡ x - (2 ^ (8 * w) - 2 ^ b)
    remainder =
        ap (λ (k : ℕ). k % 2 ^ b)
          (omega (
            arith,
            multiple,
            pred-mul (2 ^ (8 * w - b)) (2 ^ b) (two-pow-pos (8 * w - b)),
            double b hb,
            wide,
          ))
        ∙ mul-add-mod_self_right (2 ^ (8 * w - b) - 1) (2 ^ b) (x - (2 ^ (8 * w) - 2 ^ b))
        ∙ mod-eq_of_lt (omega (arith, double b hb, wide, two-pow-pos b))

map-sign_extend-cut :
    (signed : Bool) (b w : ℕ) (vals : List ℕ)
    → 1 ≤ b
    → b ≤ 8 * w
    → All (Fits signed b w) vals
    → map (sign_extend signed b w) (cut b vals) ≡ vals
map-sign_extend-cut signed b w [] hb hw h = refl
map-sign_extend-cut signed b w (x ∷ xs) hb hw h =
    ap₂ ◌∷◌ (sign_extend-cut signed b w x hb hw h.0) (map-sign_extend-cut signed b w xs hb hw h.1)

-- The values that were packed are what `unpack` reads.
pub unpack_elements-pack_impl :
    (u : Datatype) (w : ℕ) (vals : List ℕ)
    → is_bipolar u ≡ false
    → 1 ≤ bitwidth u
    → bitwidth u ≤ 64
    → bitwidth u ≤ 8 * w
    → w ≤ buffer_size (bitwidth u)
    → All (Fits (sign u) (bitwidth u) w) vals
    → 1 ≤ length vals
    → length vals * bitwidth u < 2 ^ 60
    → (packed : List ℕ) × (pack_impl u w vals ≡ ok packed)
      × (unpack_elements u w packed (8 * length packed - length vals * bitwidth u) ≡ ok vals)
unpack_elements-pack_impl u w vals e hb h64 hw hw' h hl small = (
  to_bytes size (digits_value (bitwidth u) digits),
  pack_impl_lem u w vals e hb h64 hw,
  ap (λ (n : ℕ). unpack_elements u w (bytes n) (8 * length (bytes n) - n * bitwidth u))
        (sym same_length)
      ∙ ap
          (λ (n : ℕ).
            unpack_elements u w (bytes (length digits)) (8 * n - length digits * bitwidth u))
          (length-to_bytes (bytes_for (length digits * bitwidth u))
            (digits_value (bitwidth u) digits))
      ∙ unpack_lem u w digits hb h64 hw hw' (cut-AreDigits (bitwidth u) vals)
          (omega (arith, same_length))
          (omega (arith, small, ap (λ (n : ℕ). n * bitwidth u) same_length))
      ∙ ap ok (map-sign_extend-cut (sign u) (bitwidth u) w vals hb hw h),
)
  where
    digits : List ℕ
    digits = cut (bitwidth u) vals

    size : ℕ
    size = bytes_for (length vals * bitwidth u)

    bytes : ℕ → List ℕ
    bytes n = to_bytes (bytes_for (n * bitwidth u)) (digits_value (bitwidth u) digits)

    same_length : length digits ≡ length vals
    same_length = length-map (λ (v : ℕ). v % 2 ^ bitwidth u) vals

-- For a datatype of 1 to 64 bits that is neither bipolar nor fixed-point, and a C++ type that holds
-- it and is no wider than the buffer of an element, values that fit the datatype come back from the
-- packed bytes: `packImpl` succeeds, and `unpack` at the same C++ type, told the padding of the last
-- byte, returns the values that went in. There is at least one value, and there are fewer than
-- `2 ^ 60` bits.
pub unpack-pack_impl :
    (K : Conversions) (u : Datatype) (w : ℕ) (vals : List ℕ)
    → is_bipolar u ≡ false
    → is_fixed_point u ≡ false
    → 1 ≤ bitwidth u
    → bitwidth u ≤ 64
    → bitwidth u ≤ 8 * w
    → w ≤ buffer_size (bitwidth u)
    → All (Fits (sign u) (bitwidth u) w) vals
    → 1 ≤ length vals
    → length vals * bitwidth u < 2 ^ 60
    → (packed : List ℕ) × (pack_impl u w vals ≡ ok packed)
      × (unpack K u w packed (8 * length packed - length vals * bitwidth u) ≡ ok vals)
unpack-pack_impl K u w vals e e' hb h64 hw hw' h hl small =
    let (packed, made, back) = unpack_elements-pack_impl u w vals e hb h64 hw hw' h hl small in
    (
      packed,
      made,
      unpack-unpack_elements K u w packed (8 * length packed - length vals * bitwidth u) e' ∙ back,
    )
