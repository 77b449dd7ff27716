-- ===== src/Packing/Layout.antt =====
-- Where `pack` puts each element: `bits` bits apart, the first one lowest.
use native.Mathlib.Nat.{mod-eq_of_lt, mod-lt, zero-add, zero-mul}
use mathlib.Core.Path.{fun_ext}
use finn_cpp_driver.Prelude.{
  ℕ, suc, ◌+◌, ◌*◌, ◌%◌, ◌^◌, ◌≤◌, ◌<◌, ◌≡◌, refl, sym, ap, ap₂, ◌∙◌, arith, false, Bool-cases,
  ==_iff, inl, inr, List, [], ◌∷◌, map, length, length-map, All, ◌==◌, ok,
}
use finn_cpp_driver.Prelude.Powers.{two-pow-add, two-pow-pos, two-pow-le}
use finn_cpp_driver.Bytes.{to_bytes, to_bytes-zero}
use finn_cpp_driver.Bitset
use finn_cpp_driver.Bitset.{bytes_for}
use finn_cpp_driver.Bitset.SetByte.{holding, set_byte-holding}
use finn_cpp_driver.Datatypes.{Datatype, bitwidth, is_bipolar}
use finn_cpp_driver.Packing.{merge_from, merge_bitsets, ret_size, to_bits, to_bitset, pack_impl}
use finn_cpp_driver.Packing.Mask.{and-create_mask}

-- The number with `xs` as its digits in base `2 ^ bits`, least significant first.
abbrev pub digits_value : ℕ → List ℕ → ℕ
digits_value bits [] = 0
digits_value bits (x ∷ xs) = x + digits_value bits xs * 2 ^ bits

abbrev pub AreDigits : ℕ → List ℕ → Type 0
AreDigits bits = All (λ x. x < 2 ^ bits)

pub digits_value-lt :
    (bits : ℕ) (xs : List ℕ) → AreDigits bits xs → digits_value bits xs < 2 ^ (length xs * bits)
digits_value-lt bits [] h = two-pow-pos (0 * bits)
digits_value-lt bits (x ∷ xs) h = grind (arith, digits_value-lt bits xs h.1, width, h.0)
  where
    width : 2 ^ (suc (length xs) * bits) ≡ 2 ^ (length xs * bits) * 2 ^ bits
    width = ap (λ (k : ℕ). 2 ^ k) (omega arith) ∙ two-pow-add (length xs * bits) bits

merge_from-holding :
    (size bits i n v : ℕ) (xs : List ℕ)
    → 1 ≤ size
    → 1 ≤ bits
    → bits ≤ size * 8
    → AreDigits bits xs
    → v < 2 ^ (i * bits)
    → (i + length xs) * bits ≤ 8 * n
    → merge_from size bits i xs (holding n v)
      ≡ ok (holding n (v + digits_value bits xs * 2 ^ (i * bits)))
unfolding merge_from
merge_from-holding size bits i n v [] hs hb hw h hv room = ap (λ k. ok (holding n k)) (omega arith)
merge_from-holding size bits i n v (x ∷ xs) hs hb hw h hv room =
    rw
      (set_byte-holding size x (i * bits) n v hs (omega (arith, h.0, two-pow-le bits (size * 8) hw))
        (omega (arith, inside)) hv
        (omega (arith, below, two-pow-le ((i + 1) * bits) (8 * n) (omega (arith, inside)))))
      (merge_from-holding size bits (i + 1) n (v + x * 2 ^ (i * bits)) xs hs hb hw h.1 below
          (omega arith)
        ∙ ap (λ k. ok (holding n k)) (omega (arith, ap (λ (k : ℕ). digits_value bits xs * k) next)))
  where
    next : 2 ^ ((i + 1) * bits) ≡ 2 ^ (i * bits) * 2 ^ bits
    next = ap (λ (k : ℕ). 2 ^ k) (omega arith) ∙ two-pow-add (i * bits) bits

    inside : (i + 1) * bits ≤ 8 * n
    inside = grind arith

    below : v + x * 2 ^ (i * bits) < 2 ^ ((i + 1) * bits)
    below = rw next (grind (arith, h.0))

new-holding : (n : ℕ) → Bitset.new n ≡ holding (bytes_for n) 0
unfolding Bitset.new
new-holding n =
    ap (λ bs. record { bytes = bytes_for n; capacity = bytes_for n * 8; bits = bs })
      (sym (to_bytes-zero (bytes_for n)))

pub bits-le-ret_size : (bits : ℕ) → bits ≤ 64 → (1 ≤ ret_size bits) × (bits ≤ ret_size bits * 8)
unfolding ret_size
bits-le-ret_size bits h = ground arith

-- Merging digits of `bits` bits gives the bytes of the number that they make up.
pub merge_bitsets_lem :
    (bits : ℕ) (xs : List ℕ)
    → 1 ≤ bits
    → bits ≤ 64
    → AreDigits bits xs
    → merge_bitsets bits xs ≡ ok (holding (bytes_for (length xs * bits)) (digits_value bits xs))
unfolding merge_bitsets
merge_bitsets_lem bits xs hb h64 h = rw (new-holding (length xs * bits)) (
    merge_from-holding (ret_size bits) bits 0 (bytes_for (length xs * bits)) 0 xs
      (bits-le-ret_size bits h64).0 hb (bits-le-ret_size bits h64).1 h (two-pow-pos (0 * bits))
      (rw zero-add (le-bytes_for (length xs * bits)))
    ∙ ap (λ k. ok (holding (bytes_for (length xs * bits)) k)) at_zero)
  where
    le-bytes_for : (n : ℕ) → n ≤ 8 * bytes_for n
    le-bytes_for n = ground arith

    at_zero : 0 + digits_value bits xs * 2 ^ (0 * bits) ≡ digits_value bits xs
    at_zero = rw zero-mul (omega arith)

-- The low bits of each value.
abbrev pub cut : ℕ → List ℕ → List ℕ
cut bits = map (λ v. v % 2 ^ bits)

pub cut-AreDigits : (bits : ℕ) (vals : List ℕ) → AreDigits bits (cut bits vals)
cut-AreDigits bits [] = tt
cut-AreDigits bits (v ∷ vals) = (mod-lt v (two-pow-pos bits), cut-AreDigits bits vals)

to_bits_lem :
    (u : Datatype) (w v : ℕ)
    → is_bipolar u ≡ false
    → bitwidth u ≤ 64
    → bitwidth u ≤ 8 * w
    → to_bits u w v ≡ v % 2 ^ bitwidth u
unfolding to_bits
to_bits_lem u w v e h64 hw =
    rw (e, and-create_mask (8 * w) (bitwidth u) v hw)
      (mod-eq_of_lt (
        omega (
          arith,
          mod-lt v (two-pow-pos (bitwidth u)),
          two-pow-le (bitwidth u) (8 * ret_size (bitwidth u))
              (omega (arith, bits-le-ret_size (bitwidth u) h64)),
        )))

bytes_of_bytes :
    (vals : List ℕ) → map (λ v. v % 256) vals ≡ to_bytes (length vals) (digits_value 8 (cut 8 vals))
bytes_of_bytes [] = refl
bytes_of_bytes (v ∷ vals) =
    ap₂ ◌∷◌ (omega arith) (bytes_of_bytes vals ∙ ap (to_bytes (length vals)) (omega arith))

-- `packImpl` on a datatype other than bipolar of 1 to 64 bits, at a C++ type that holds it: the low
-- bits of the values, one after another without gaps, in as many bytes as they need.
pub pack_impl_lem :
    (u : Datatype) (w : ℕ) (vals : List ℕ)
    → is_bipolar u ≡ false
    → 1 ≤ bitwidth u
    → bitwidth u ≤ 64
    → bitwidth u ≤ 8 * w
    → pack_impl u w vals
      ≡ ok (
          to_bytes
            (bytes_for (length vals * bitwidth u))
            (digits_value (bitwidth u) (cut (bitwidth u) vals)))
unfolding pack_impl to_bitset Bitset.get_storage_vec
pack_impl_lem u w vals e hb h64 hw = elim (Bool-cases (bitwidth u == 8)) [
  | inl e8 ↦ rw e8 (ap ok (bytes_of_bytes vals ∙ whole_bytes ((==_iff (bitwidth u) 8).0 e8)))
  | inr e8 ↦ rw (
    e8,
    fun_ext (λ v. to_bits_lem u w v e h64 hw),
    merge_bitsets_lem (bitwidth u) (cut (bitwidth u) vals) hb h64 (cut-AreDigits (bitwidth u) vals),
    length-map (λ (v : ℕ). v % 2 ^ bitwidth u) vals,
  )
]
  where
    whole_bytes :
        bitwidth u ≡ 8
        → to_bytes (length vals) (digits_value 8 (cut 8 vals))
          ≡ to_bytes
              (bytes_for (length vals * bitwidth u))
              (digits_value (bitwidth u) (cut (bitwidth u) vals))
    whole_bytes e8 =
        ap (λ k. to_bytes k (digits_value 8 (cut 8 vals))) (ground arith)
        ∙ ap (λ b. to_bytes (bytes_for (length vals * b)) (digits_value b (cut b vals))) (sym e8)
