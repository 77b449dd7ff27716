-- ===== src/Packing/Multi.antt =====
-- src/FINNCppDriver/utils/DataPacking.hpp: `packMultiDimensionalInputs` and
-- `unpackMultiDimensionalOutputs`. The rows that OpenMP hands to its threads are taken one after
-- another: they write to different places.
pub mod Rows
pub mod RoundTrip
pub mod Folded
mod Tests
use finn_cpp_driver.Prelude.{
  ℕ, ◌+◌, ◌-◌, ◌*◌, ◌%◌, ◌^◌, List, [], ◌∷◌, ◌++◌, length, take, drop, replicate, leb,
  if◌then◌else◌, Result, ok, err, undefined, ◌>>=◌,
}
use finn_cpp_driver.Utils.{Shape, shape_to_elements, innermost_dimension, fast_div_ceil}
use finn_cpp_driver.MdSpan.{DynamicMdSpan}
use finn_cpp_driver.Datatypes.{Datatype, bitwidth}
use finn_cpp_driver.Packing.Pack.{ScalarType, Conversions, pack, unpack_auto}

-- `std::copy(xs.begin(), xs.end(), out.begin() + at)`, undefined past the end of `out`.
unfoldable pub copy_at : ℕ → List ℕ → List ℕ → Result (List ℕ)
copy_at at xs out =
    if leb (at + length xs) (length out)
    then ok (take at out ++ (xs ++ drop (at + length xs) out))
    else err undefined

-- The loop over the rows, from row `i` on: what `body` makes of a row goes to `i * width`.
pub copy_rows : (List ℕ → Result (List ℕ)) → ℕ → ℕ → List (List ℕ) → List ℕ → Result (List ℕ)
copy_rows body width i [] out = ok out
copy_rows body width i (row ∷ rows) out = do
  made ← body row
  out' ← copy_at (i * width % 2 ^ 64) made out
  copy_rows body width (i + 1) rows out'

-- `packMultiDimensionalInputs`, from the C++ type `t`.
unfoldable pub pack_multi_dimensional_inputs :
    Conversions → Datatype → ScalarType → DynamicMdSpan ℕ → ℕ → Result (List ℕ)
unfolding copy_rows
pack_multi_dimensional_inputs K u t span elements_inner_most_dim =
    let inner_vecs = span.most_inner_dims in
    let needed = fast_div_ceil (elements_inner_most_dim * bitwidth u % 2 ^ 64) 8 in
    copy_rows (pack K u t) needed 0 inner_vecs (replicate (needed * length inner_vecs % 2 ^ 64) 0)

-- `innerDimVecs[0]`
pub first_row : List (List ℕ) → Result (List ℕ)
first_row [] = err undefined
first_row (row ∷ rows) = ok row

-- `unpackMultiDimensionalOutputs`, into the type that `unpack` returns.
unfoldable pub unpack_multi_dimensional_outputs :
    Conversions → Datatype → DynamicMdSpan ℕ → Shape → Result (List ℕ)
unfolding first_row copy_rows
unpack_multi_dimensional_outputs K u span folded_shape = do
  let inner_dim_vecs = span.most_inner_dims
  row ← first_row inner_dim_vecs
  last ← innermost_dimension folded_shape
  let padding = (2 ^ 64 + length row * 8 - last * bitwidth u % 2 ^ 64) % 2 ^ 64
  copy_rows (λ packed. unpack_auto K u packed padding) last 0 inner_dim_vecs
      (replicate (shape_to_elements folded_shape) 0)
