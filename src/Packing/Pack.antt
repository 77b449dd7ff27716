-- ===== src/Packing/Pack.antt =====
-- src/FINNCppDriver/utils/DataPacking.hpp: `pack`, which prepares values of any arithmetic C++ type
-- for `packImpl`, and `unpack` with the conversion of fixed-point numbers at its end. A value of a
-- floating-point type is its bit pattern too. A shift by the width of its type or more is undefined
-- for each value that is shifted.
pub mod Sample
pub mod Fixed
pub mod Correct
mod Tests
use mathlib.Core.Path.{fun_ext}
use finn_cpp_driver.Prelude.{
  ℕ, ◌+◌, ◌-◌, ◌*◌, ◌%◌, ◌^◌, ◌≡◌, refl, Bool, true, false, not, ◌&&◌, List, length, map, ltb, leb,
  if◌then◌else◌, Result, Bool-cases, inl, inr, undefined, throw_if, ◌>>=◌, ◌>>◌, ok, ◌==◌, traverse,
  >>=-ok, ap, ◌∙◌,
}
use finn_cpp_driver.Datatypes.{
  Datatype, float, int, fixed, uint, bipolar, ternary, sign, bitwidth, is_integer, is_fixed_point,
  frac_bits,
}
use finn_cpp_driver.Packing.{pack_impl, unpack_elements, ret_size}

-- An arithmetic type, by its size in bytes.
pub data ScalarType : Type 0 where
  floating signed_integer unsigned_integer : ℕ → ScalarType

abbrev pub type_size : ScalarType → ℕ
type_size (floating w) = w
type_size (signed_integer w) = w
type_size (unsigned_integer w) = w

abbrev pub IsIntegral : ScalarType → Type 0
IsIntegral (floating w) = ⊥
IsIntegral (signed_integer w) = Unit
IsIntegral (unsigned_integer w) = Unit

-- `std::is_same<T, uint8_t>`
unfoldable pub is_uint8 : ScalarType → Bool
is_uint8 (floating w) = false
is_uint8 (signed_integer w) = false
is_uint8 (unsigned_integer w) = w == 1

-- `AutoRetType`, the type that `unpack` returns.
unfoldable pub auto_ret_type : Datatype → ScalarType
auto_ret_type u =
    let size = ret_size (bitwidth u) in
    if is_integer u
    then (if sign u then signed_integer size else unsigned_integer size)
    else floating 4

-- What the language does with floating-point numbers, on patterns: the conversion from a number of
-- `m` bytes to an unsigned integer of `n`, which is undefined out of its range, the one to `float`,
-- the product of a number of `m` bytes and the `int` that `1 << k` is, and the quotient of the `float`
-- that a signed integer of `m` bytes is converted to and that `int`.
pub record Conversions : Type 0 where
  pub to_unsigned : ℕ → ℕ → ℕ → Result ℕ
  pub to_float : ScalarType → ℕ → ℕ
  pub scale : ℕ → ℕ → ℕ → ℕ
  pub quotient : ℕ → ℕ → ℕ → ℕ

-- A conversion of a pattern of `w` bytes to one of `n`.
unfoldable pub resize : Bool → ℕ → ℕ → ℕ → ℕ
resize signed w n x =
    if leb n w
    then x % 2 ^ (8 * n)
    else if signed && leb (2 ^ (8 * w - 1)) x
    then x + (2 ^ (8 * n) - 2 ^ (8 * w))
    else x

-- `val << k` of an integral type of `w` bytes, which is undefined from the width of its promoted
-- type on, and the cast to a type of `n` bytes behind it.
pub pack_shifted : ℕ → ℕ → Bool → ℕ → List ℕ → Result (List ℕ)
unfolding resize
pack_shifted b k signed w vals = do
  throw_if (leb (if ltb w 4 then 32 else 8 * w) k && not (length vals == 0)) undefined
  pack_impl (int b) (ret_size b)
      (map (λ v. resize signed w (ret_size b) (v * 2 ^ k % 2 ^ (8 * w))) vals)

module _ (K : Conversions) where
  -- The branch for fixed-point datatypes, by the bytes that `packImpl` gets. The shifted values also
  -- overwrite the range that was passed.
  pub pack_fixed : ℕ → ℕ → ScalarType → List ℕ → Result (List ℕ)
  unfolding pack_shifted
  pack_fixed b i (floating w) vals = do
    throw_if (leb 32 (frac_bits b i) && not (length vals == 0)) undefined
    vec ← traverse (K.to_unsigned w (ret_size b)) (map (K.scale w (frac_bits b i)) vals)
    pack_impl (int b) (ret_size b) vec
  pack_fixed b i (signed_integer w) vals = pack_shifted b (frac_bits b i) true w vals
  pack_fixed b i (unsigned_integer w) vals = pack_shifted b (frac_bits b i) false w vals

  -- The branches for integer datatypes.
  pub pack_integer : Datatype → ScalarType → List ℕ → Result (List ℕ)
  pack_integer u (floating w) vals = do
    let size = if w == 4 then 4 else 8
    vec ← traverse (K.to_unsigned w size) vals
    pack_impl u size vec
  pack_integer u (signed_integer w) vals = pack_impl u w vals
  pack_integer u (unsigned_integer w) vals = pack_impl u w vals

  -- The branches for the floating-point datatype. The code compiles for 4 and 8 bytes only.
  pub pack_float : ScalarType → List ℕ → Result (List ℕ)
  pack_float (floating w) vals =
      if w == 4
      then pack_impl float 4 vals
      else pack_impl float 4 (map (K.to_float (floating w)) vals)
  pack_float (signed_integer w) vals = pack_impl float 4 (map (K.to_float (signed_integer w)) vals)
  pack_float (unsigned_integer w) vals =
      pack_impl float 4 (map (K.to_float (unsigned_integer w)) vals)

  -- The overload for a pair of iterators.
  unfoldable pub pack : Datatype → ScalarType → List ℕ → Result (List ℕ)
  unfolding pack_fixed pack_integer pack_float
  pack float t vals = pack_float t vals
  pack (fixed b i) t vals = pack_fixed b i t vals
  pack (int b) t vals = pack_integer (int b) t vals
  pack (uint b) t vals = pack_integer (uint b) t vals
  pack bipolar t vals = pack_integer bipolar t vals
  pack ternary t vals = pack_integer ternary t vals

  -- The overload for a vector.
  unfoldable pub pack_vector : Datatype → ScalarType → List ℕ → Result (List ℕ)
  unfolding is_uint8
  pack_vector u t vals = if bitwidth u == 8 && is_uint8 t then ok vals else pack u t vals

  -- Values of an integral type are packed as they are, for an integer datatype.
  pub pack-pack_impl :
      (u : Datatype) (t : ScalarType) (vals : List ℕ)
      → is_integer u ≡ true
      → IsIntegral t
      → pack u t vals ≡ pack_impl u (type_size t) vals
  unfolding pack is_integer
  pack-pack_impl float t vals h h' = absurd cc
  pack-pack_impl (fixed b i) t vals h h' = absurd cc
  pack-pack_impl (int b) (floating w) vals h h' = elim h' [ ]
  pack-pack_impl (uint b) (floating w) vals h h' = elim h' [ ]
  pack-pack_impl bipolar (floating w) vals h h' = elim h' [ ]
  pack-pack_impl ternary (floating w) vals h h' = elim h' [ ]
  pack-pack_impl (int b) (signed_integer w) vals h h' = refl
  pack-pack_impl (int b) (unsigned_integer w) vals h h' = refl
  pack-pack_impl (uint b) (signed_integer w) vals h h' = refl
  pack-pack_impl (uint b) (unsigned_integer w) vals h h' = refl
  pack-pack_impl bipolar (signed_integer w) vals h h' = refl
  pack-pack_impl bipolar (unsigned_integer w) vals h h' = refl
  pack-pack_impl ternary (signed_integer w) vals h h' = refl
  pack-pack_impl ternary (unsigned_integer w) vals h h' = refl

module _ (K : Conversions) where
  -- The end of `unpack`, which makes floating-point numbers of fixed-point ones.
  unfoldable pub fixed_ret : Datatype → List ℕ → Result (List ℕ)
  fixed_ret (fixed b i) ret = do
    throw_if (leb 32 (frac_bits b i) && not (length ret == 0)) undefined
    ok (map (K.quotient (ret_size b) (frac_bits b i)) ret)
  fixed_ret float ret = ok ret
  fixed_ret (int b) ret = ok ret
  fixed_ret (uint b) ret = ok ret
  fixed_ret bipolar ret = ok ret
  fixed_ret ternary ret = ok ret

  -- `unpack` with `reverseByte` off and a `T` of `w` bytes. `RetType` is `FixedPointType` for
  -- fixed-point datatypes, and `T` for the others.
  unfoldable pub unpack : Datatype → ℕ → List ℕ → ℕ → Result (List ℕ)
  unfolding fixed_ret
  unpack u w inp padding =
      unpack_elements u (if is_fixed_point u then ret_size (bitwidth u) else w) inp padding
      >>= fixed_ret u

  -- `unpack` with the `T` that it has by default.
  unfoldable pub unpack_auto : Datatype → List ℕ → ℕ → Result (List ℕ)
  unpack_auto u inp padding = unpack u (type_size (auto_ret_type u)) inp padding

  fixed_ret-ok : (u : Datatype) (ret : List ℕ) → is_fixed_point u ≡ false → fixed_ret u ret ≡ ok ret
  unfolding fixed_ret is_fixed_point
  fixed_ret-ok float ret h = refl
  fixed_ret-ok (fixed b i) ret h = absurd cc
  fixed_ret-ok (int b) ret h = refl
  fixed_ret-ok (uint b) ret h = refl
  fixed_ret-ok bipolar ret h = refl
  fixed_ret-ok ternary ret h = refl

  -- All but fixed-point numbers are returned as they are.
  pub unpack-unpack_elements :
      (u : Datatype) (w : ℕ) (inp : List ℕ) (padding : ℕ)
      → is_fixed_point u ≡ false
      → unpack u w inp padding ≡ unpack_elements u w inp padding
  unfolding unpack
  unpack-unpack_elements u w inp padding h = rw h (
      ap (λ next. unpack_elements u w inp padding >>= next) (fun_ext (λ ret. fixed_ret-ok u ret h))
      ∙ >>=-ok (unpack_elements u w inp padding))

pub is_integer-is_fixed_point : (u : Datatype) → is_integer u ≡ true → is_fixed_point u ≡ false
unfolding is_integer is_fixed_point
is_integer-is_fixed_point float h = refl
is_integer-is_fixed_point (fixed b i) h = absurd cc
is_integer-is_fixed_point (int b) h = refl
is_integer-is_fixed_point (uint b) h = refl
is_integer-is_fixed_point bipolar h = refl
is_integer-is_fixed_point ternary h = refl

-- `unpack` returns integers of the least size that holds an integer datatype.
pub auto_ret_type-size :
    (u : Datatype)
    → is_integer u ≡ true
    → IsIntegral (auto_ret_type u) × (type_size (auto_ret_type u) ≡ ret_size (bitwidth u))
unfolding auto_ret_type
auto_ret_type-size u whole = elim (Bool-cases (sign u)) [
  | inl e ↦ rw (whole, e) (tt, refl)
  | inr e ↦ rw (whole, e) (tt, refl)
]

-- The default for an integer datatype.
pub unpack_auto-unpack :
    (K : Conversions) (u : Datatype) (inp : List ℕ) (padding : ℕ)
    → is_integer u ≡ true
    → unpack_auto K u inp padding ≡ unpack K u (ret_size (bitwidth u)) inp padding
unfolding unpack_auto
unpack_auto-unpack K u inp padding whole =
    ap (λ w. unpack K u w inp padding) (auto_ret_type-size u whole).1
