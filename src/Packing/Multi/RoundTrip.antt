-- ===== src/Packing/Multi/RoundTrip.antt =====
-- Packing and unpacking a folded input.
use native.Mathlib.Nat.{mod-eq_of_lt}
use finn_cpp_driver.Prelude.{
  ℕ, ◌+◌, ◌-◌, ◌*◌, ◌%◌, ◌^◌, ◌≤◌, ◌<◌, ◌≡◌, refl, sym, ap, ap₂, ◌∙◌, arith, true, false, List, [],
  ◌∷◌, map, length, take, drop, concat, take_append, drop_append, All, ok, ok-inj, replicate,
  length-replicate,
}
use finn_cpp_driver.Bytes.{to_bytes, length-to_bytes}
use finn_cpp_driver.Bitset.{bytes_for}
use finn_cpp_driver.Utils.{Shape, shape_to_elements, innermost_dimension, fast_div_ceil}
use finn_cpp_driver.MdSpan.{DynamicMdSpan}
use finn_cpp_driver.Datatypes.{Datatype, sign, bitwidth, is_bipolar, is_integer}
use finn_cpp_driver.Packing.Pack.{
  ScalarType, IsIntegral, type_size, Conversions, pack, pack-pack_impl, unpack_auto,
  unpack_auto-unpack, is_integer-is_fixed_point,
}
use finn_cpp_driver.Packing.{ret_size, buffer_size}
use finn_cpp_driver.Packing.Layout.{digits_value, cut, pack_impl_lem}
use finn_cpp_driver.Packing.RoundTrip.{Fits, unpack-pack_impl}
use finn_cpp_driver.Packing.Multi.{
  copy_rows, pack_multi_dimensional_inputs, unpack_multi_dimensional_outputs,
}
use finn_cpp_driver.Packing.Multi.Rows.{copy_rows_lem}

-- Rows of one width, taken out of their concatenation.
pub concat-rows {ℓ} :
    {A : Type ℓ} (width : ℕ) (xss yss : List (List A))
    → All (λ r. length r ≡ width) xss
    → All (λ r. length r ≡ width) yss
    → length xss ≡ length yss
    → concat xss ≡ concat yss
    → xss ≡ yss
concat-rows width [] [] h h' e same = refl
concat-rows width [] (ys ∷ yss) h h' e same = absurd (omega arith)
concat-rows width (xs ∷ xss) [] h h' e same = absurd (omega arith)
concat-rows width (xs ∷ xss) (ys ∷ yss) h h' e same =
    ap₂ ◌∷◌ front (concat-rows width xss yss h.1 h'.1 (omega arith) back)
  where
    wide : length ys ≡ length xs
    wide = omega (arith, h.0, h'.0)

    front : xs ≡ ys
    front =
        sym (take_append xs (concat xss)) ∙ ap₂ take (sym wide) same ∙ take_append ys (concat yss)

    back : concat xss ≡ concat yss
    back =
        sym (drop_append xs (concat xss)) ∙ ap₂ drop (sym wide) same ∙ drop_append ys (concat yss)

map_id {ℓ} : {A : Type ℓ} (xs : List A) → map (λ x. x) xs ≡ xs
map_id [] = refl
map_id (x ∷ xs) = ap (◌∷◌ x) (map_id xs)

module _ (u : Datatype) (whole : is_bipolar u ≡ false) (hb : 1 ≤ bitwidth u)
    (h64 : bitwidth u ≤ 64) where
  -- The bytes of one row.
  abbrev pub packed_row : List ℕ → List ℕ
  packed_row row =
      to_bytes (bytes_for (length row * bitwidth u))
        (digits_value (bitwidth u) (cut (bitwidth u) row))

  pub length-packed_row :
      (last : ℕ) (row : List ℕ)
      → length row ≡ last
      → length (packed_row row) ≡ bytes_for (last * bitwidth u)
  length-packed_row last row e =
      length-to_bytes (bytes_for (length row * bitwidth u))
        (digits_value (bitwidth u) (cut (bitwidth u) row))
      ∙ ap (λ (n : ℕ). bytes_for (n * bitwidth u)) e

  fast_div_ceil-bytes : (n : ℕ) → n < 2 ^ 60 → fast_div_ceil (n % 2 ^ 64) 8 ≡ bytes_for n
  unfolding fast_div_ceil
  fast_div_ceil-bytes n h = ground arith

  -- Packing a span gives the packed rows one after another.
  pub pack_multi_dimensional_inputs_lem :
      (K : Conversions) (t : ScalarType) (last : ℕ) (span : DynamicMdSpan ℕ)
      → is_integer u ≡ true
      → IsIntegral t
      → bitwidth u ≤ 8 * type_size t
      → last * bitwidth u < 2 ^ 60
      → bytes_for (last * bitwidth u) * length span.most_inner_dims < 2 ^ 64
      → All (λ row. length row ≡ last) span.most_inner_dims
      → pack_multi_dimensional_inputs K u t span last
        ≡ ok (concat (map packed_row span.most_inner_dims))
  unfolding pack_multi_dimensional_inputs
  pack_multi_dimensional_inputs_lem K t last span hi ht hw small total even =
      rw (fast_div_ceil-bytes (last * bitwidth u) small) (
        ap₂ (copy_rows (pack K u t) needed 0) (sym (map_id span.most_inner_dims))
          (ap (λ (k : ℕ). replicate k 0) (mod-eq_of_lt total))
        ∙ copy_rows_lem (pack K u t) needed (λ row. row) packed_row 0 span.most_inner_dims []
            (replicate (needed * length span.most_inner_dims) 0) (each span.most_inner_dims even)
            (omega arith)
            (omega (arith, length-replicate {A = ℕ} (needed * length span.most_inner_dims) 0))
            (omega arith))
    where
      needed : ℕ
      needed = bytes_for (last * bitwidth u)

      each :
          (rows : List (List ℕ))
          → All (λ row. length row ≡ last) rows
          → All
              (λ row. (pack K u t row ≡ ok (packed_row row)) × (length (packed_row row) ≡ needed))
              rows
      each [] h = tt
      each (row ∷ rows) h = (
        (
          pack-pack_impl K u t row hi ht ∙ pack_impl_lem u (type_size t) row whole hb h64 hw,
          length-packed_row last row h.0,
        ),
        each rows h.1,
      )

  pub ret_size-fits :
      (bitwidth u ≤ 8 * ret_size (bitwidth u)) × (ret_size (bitwidth u) ≤ buffer_size (bitwidth u))
  unfolding ret_size buffer_size
  ret_size-fits = ground arith

  -- A packed row is unpacked to the values that it was made of.
  unpack-packed_row :
      (K : Conversions) (last : ℕ) (row : List ℕ)
      → is_integer u ≡ true
      → length row ≡ last
      → 1 ≤ last
      → last * bitwidth u < 2 ^ 60
      → All (Fits (sign u) (bitwidth u) (ret_size (bitwidth u))) row
      → unpack_auto K u (packed_row row) (8 * bytes_for (last * bitwidth u) - last * bitwidth u)
        ≡ ok row
  unpack-packed_row K last row hi e pos small fits =
      let (packed, made, back) =
        unpack-pack_impl K u (ret_size (bitwidth u)) row whole (is_integer-is_fixed_point u hi) hb
          h64 ret_size-fits.0 ret_size-fits.1 fits (omega arith) (omega (arith, bits)) in
      let same : packed ≡ packed_row row =
        ok-inj
          (sym made ∙ pack_impl_lem u (ret_size (bitwidth u)) row whole hb h64 ret_size-fits.0) in
      ap₂ (unpack_auto K u) (sym same)
        (omega (arith, ap length same, length-packed_row last row e, bits))
      ∙ unpack_auto-unpack K u packed (8 * length packed - length row * bitwidth u) hi
      ∙ back
    where
      bits : length row * bitwidth u ≡ last * bitwidth u
      bits = ap (λ (n : ℕ). n * bitwidth u) e

  -- Unpacking a span of packed rows gives the values of the rows.
  pub unpack_multi_dimensional_outputs_lem :
      (K : Conversions) (last : ℕ) (rows : List (List ℕ)) (span : DynamicMdSpan ℕ)
      (folded_shape : Shape)
      → is_integer u ≡ true
      → span.most_inner_dims ≡ map packed_row rows
      → innermost_dimension folded_shape ≡ ok last
      → shape_to_elements folded_shape ≡ length rows * last
      → 1 ≤ length rows
      → 1 ≤ last
      → last * bitwidth u < 2 ^ 60
      → length rows * last < 2 ^ 64
      → All (λ row. length row ≡ last) rows
      → All (All (Fits (sign u) (bitwidth u) (ret_size (bitwidth u)))) rows
      → unpack_multi_dimensional_outputs K u span folded_shape ≡ ok (concat rows)
  unfolding unpack_multi_dimensional_outputs
  unpack_multi_dimensional_outputs_lem K last [] span shape hi rows_are inner count some pos small
        total even fits =
      absurd (omega arith)
  unpack_multi_dimensional_outputs_lem K last (row ∷ rows) span shape hi rows_are inner count some
        pos small total even fits =
      rw (rows_are, inner, count)
        (ap
            (λ (p : ℕ).
              copy_rows (λ packed. unpack_auto K u packed p) last 0 (map packed_row (row ∷ rows))
                (replicate (length (row ∷ rows) * last) 0))
            padding
          ∙ copy_rows_lem (λ packed. unpack_auto K u packed rest) last packed_row (λ o. o) 0
              (row ∷ rows) [] (replicate (length (row ∷ rows) * last) 0)
              (each (row ∷ rows) even fits) (omega arith)
              (length-replicate {A = ℕ} (length (row ∷ rows) * last) 0) (omega arith)
          ∙ ap (λ rs. ok (concat rs)) (map_id (row ∷ rows)))
    where
      rest : ℕ
      rest = 8 * bytes_for (last * bitwidth u) - last * bitwidth u

      padding : (2 ^ 64 + length (packed_row row) * 8 - last * bitwidth u % 2 ^ 64) % 2 ^ 64 ≡ rest
      padding = ground (arith, length-packed_row last row even.0)

      each :
          (rows : List (List ℕ))
          → All (λ row. length row ≡ last) rows
          → All (All (Fits (sign u) (bitwidth u) (ret_size (bitwidth u)))) rows
          → All (λ o. (unpack_auto K u (packed_row o) rest ≡ ok o) × (length o ≡ last)) rows
      each [] h f = tt
      each (o ∷ os) h f = ((unpack-packed_row K last o hi h.0 pos small f.0, h.0), each os h.1 f.1)
