-- ===== src/Packing/Multi/Folded.antt =====
-- A folded input that is packed, and unpacked from the packed shape, as inference does it with the
-- input and the output shapes of a configuration.
use native.Mathlib.Nat.{mul-le-mul_left}
use finn_cpp_driver.Prelude.{
  ℕ, ◌*◌, ◌^◌, ◌≤◌, ◌<◌, ◌≡◌, ◌≢◌, refl, sym, ap, ◌∙◌, arith, true, false, List, [], ◌∷◌, ◌++◌, map,
  length, concat, length-concat, All, All-append, ok, ok-inj, length-map,
}
use finn_cpp_driver.Bitset.{bytes_for}
use finn_cpp_driver.Utils.{Shape, innermost_dimension}
use finn_cpp_driver.Utils.Shapes.{product, shape_to_elements_lem}
use finn_cpp_driver.MdSpan
use finn_cpp_driver.MdSpan.{DynamicMdSpan}
use finn_cpp_driver.MdSpan.Chunks.{AreRows, new-Describes}
use finn_cpp_driver.Datatypes.{Datatype, sign, bitwidth, is_bipolar, is_integer}
use finn_cpp_driver.Packing.Pack.{Conversions, auto_ret_type, auto_ret_type-size}
use finn_cpp_driver.Packing.{ret_size}
use finn_cpp_driver.Packing.RoundTrip.{Fits}
use finn_cpp_driver.Packing.Multi.{pack_multi_dimensional_inputs, unpack_multi_dimensional_outputs}
use finn_cpp_driver.Packing.Multi.RoundTrip.{
  concat-rows, ret_size-fits, packed_row, length-packed_row, pack_multi_dimensional_inputs_lem,
  unpack_multi_dimensional_outputs_lem,
}

-- A shape by its last dimension and those before it.
abbrev pub ending : Shape → ℕ → Shape
ending lead last = lead ++ last ∷ []

pub innermost_dimension-ending :
    (lead : Shape) (last : ℕ) → innermost_dimension (ending lead last) ≡ ok last
unfolding innermost_dimension
innermost_dimension-ending [] last = refl
innermost_dimension-ending (d ∷ []) last = refl
innermost_dimension-ending (d ∷ e ∷ ds) last = innermost_dimension-ending (e ∷ ds) last

pub product-ending : (lead : Shape) (last : ℕ) → product (ending lead last) ≡ product lead * last
product-ending [] last = omega arith
product-ending (d ∷ ds) last = grind (arith, product-ending ds last)

ending-≢-nil : (lead : Shape) (last : ℕ) → ending lead last ≢ []
ending-≢-nil [] last h = cc
ending-≢-nil (d ∷ ds) last h = cc

All-concat {ℓ κ} :
    {A : Type ℓ} (P : A → Type κ) (xss : List (List A)) → All P (concat xss) → All (All P) xss
All-concat P [] h = tt
All-concat P (xs ∷ xss) h =
    let (front, back) = All-append P xs (concat xss) h in (front, All-concat P xss back)

-- A container under a shape with a positive number of elements: its rows.
pub new-ending {ℓ} :
    {A : Type ℓ} (xs : List A) (lead : Shape) (last : ℕ)
    → length xs ≡ product lead * last
    → 1 ≤ length xs
    → length xs < 2 ^ 31
    → (span : DynamicMdSpan A) × (MdSpan.new xs (ending lead last) ≡ ok span)
      × AreRows xs (product lead) last span.most_inner_dims
new-ending xs lead last e pos small =
    let (span, last', made, described) =
      new-Describes xs (ending lead last) (ending-≢-nil lead last)
        (e ∙ sym (product-ending lead last)) pos small in
    let same : last' ≡ last =
      ok-inj (sym described.last_dimension ∙ innermost_dimension-ending lead last) in
    let counts : described.lead * last ≡ product lead * last =
      ap (λ (k : ℕ). described.lead * k) (sym same)
      ∙ sym described.all_rows
      ∙ product-ending lead last in
    let leads : described.lead ≡ product lead = grind (arith, counts, e) in
    (span, made, rw (← same, ← leads) described.rows)

module _ (u : Datatype) (whole : is_bipolar u ≡ false) (hb : 1 ≤ bitwidth u)
    (h64 : bitwidth u ≤ 64) where
  packed_rows_even :
      (last : ℕ) (rows : List (List ℕ))
      → All (λ r. length r ≡ last) rows
      → All (λ r. length r ≡ bytes_for (last * bitwidth u)) (map (packed_row u whole hb h64) rows)
  packed_rows_even last [] h = tt
  packed_rows_even last (row ∷ rows) h =
      (length-packed_row u whole hb h64 last row h.0, packed_rows_even last rows h.1)

  -- For an integer datatype other than bipolar of 1 to 64 bits, and at least one but fewer than `2 ^ 31`
  -- values that fit it, under a shape with as many elements: packing row by row, at the C++ type
  -- that `unpack` returns, makes as many bytes as the packed shape has, the same shape with the bytes
  -- of a row as its last dimension; and these bytes, unpacked under the packed shape, are the
  -- values again. All four calls succeed. The packed shape has fewer than `2 ^ 31` bytes.
  pub unpack-pack_multi :
      (K : Conversions) (lead : Shape) (last : ℕ) (vals : List ℕ)
      → is_integer u ≡ true
      → length vals ≡ product lead * last
      → 1 ≤ length vals
      → length vals < 2 ^ 31
      → product lead * bytes_for (last * bitwidth u) < 2 ^ 31
      → All (Fits (sign u) (bitwidth u) (ret_size (bitwidth u))) vals
      → (span span' : DynamicMdSpan ℕ) × (packed : List ℕ) × (MdSpan.new vals (ending lead last)
          ≡ ok span)
        × (pack_multi_dimensional_inputs K u (auto_ret_type u) span last ≡ ok packed)
        × (length packed ≡ product lead * bytes_for (last * bitwidth u))
        × (MdSpan.new packed (ending lead (bytes_for (last * bitwidth u))) ≡ ok span')
        × (unpack_multi_dimensional_outputs K u span' (ending lead last) ≡ ok vals)
  unpack-pack_multi K lead last vals hi e pos small small' fits =
      let (span, made, rows) = new-ending vals lead last e pos small in
      let packed_rows = map (packed_row u whole hb h64) span.most_inner_dims in
      let widths = packed_rows_even last span.most_inner_dims rows.even in
      let count : length packed_rows ≡ product lead =
        length-map (packed_row u whole hb h64) span.most_inner_dims ∙ rows.counted_rows in
      let size : length (concat packed_rows) ≡ product lead * needed =
        length-concat needed packed_rows widths ∙ ap (λ (k : ℕ). k * needed) count in
      let (span', made', rows') =
        new-ending (concat packed_rows) lead needed size (omega (arith, size, some_bytes))
          (omega (arith, size)) in
      let same : span'.most_inner_dims ≡ packed_rows =
        concat-rows needed span'.most_inner_dims packed_rows rows'.even widths
          (rows'.counted_rows ∙ sym count) rows'.joined in
      (
        span,
        span',
        concat packed_rows,
        made,
        pack_multi_dimensional_inputs_lem u whole hb h64 K (auto_ret_type u) last span hi
            (auto_ret_type-size u hi).0
            (omega (arith, (auto_ret_type-size u hi).1, (ret_size-fits u whole hb h64).0)) narrow
            (grind (arith, rows.counted_rows)) rows.even,
        size,
        made',
        unpack_multi_dimensional_outputs_lem u whole hb h64 K last span.most_inner_dims span'
              (ending lead last) hi same (innermost_dimension-ending lead last)
              (shape_to_elements_lem (ending lead last) (ending-≢-nil lead last)
                  (omega (arith, product-ending lead last, e))
                ∙ product-ending lead last
                ∙ ap (λ (k : ℕ). k * last) (sym rows.counted_rows))
              (omega (arith, rows.counted_rows, some_lead)) some_last narrow
              (omega (arith, e, ap (λ (k : ℕ). k * last) rows.counted_rows)) rows.even
              (All-concat (Fits (sign u) (bitwidth u) (ret_size (bitwidth u))) span.most_inner_dims
                (rw rows.joined fits))
            ∙ ap ok rows.joined,
      )
    where
      needed : ℕ
      needed = bytes_for (last * bitwidth u)

      some_lead : 1 ≤ product lead
      some_lead = grind arith

      some_last : 1 ≤ last
      some_last = grind arith

      narrow : last * bitwidth u < 2 ^ 60
      narrow = omega (arith, fewer, mul-le-mul_left last h64, e)
        where
          fewer : last ≤ product lead * last
          fewer = grind (arith, some_lead)

      some_bytes : 1 ≤ product lead * needed
      some_bytes = grind (arith, some_lead, some_needed)
        where
          some_needed : 1 ≤ needed
          some_needed =
              let row : 1 ≤ last * bitwidth u = grind (arith, some_last, hb) in ground (arith, row)
