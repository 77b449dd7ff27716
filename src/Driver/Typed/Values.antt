-- ===== src/Driver/Typed/Values.antt =====
-- core/BaseDriver.hpp: synchronous inference on values, where the device works on packed data.
use finn_cpp_driver.Prelude.{
  ℕ, ◌*◌, ◌^◌, ◌≤◌, ◌<◌, ◌≡◌, refl, sym, ap, ◌∙◌, true, false, List, length, All, none, ok, ok-inj,
}
use finn_cpp_driver.Bitset.{bytes_for}
use finn_cpp_driver.Utils.{Shape, innermost_dimension}
use finn_cpp_driver.Utils.Shapes.{product}
use finn_cpp_driver.Types.{Name, BufferDescriptor}
use finn_cpp_driver.MdSpan
use finn_cpp_driver.MdSpan.{DynamicMdSpan}
use finn_cpp_driver.Datatypes.{Datatype, sign, bitwidth, is_bipolar, is_integer}
use finn_cpp_driver.Packing.Pack.{ScalarType, Conversions, auto_ret_type}
use finn_cpp_driver.Packing.{ret_size}
use finn_cpp_driver.Packing.RoundTrip.{Fits}
use finn_cpp_driver.Packing.Multi.{pack_multi_dimensional_inputs}
use finn_cpp_driver.Packing.Multi.Folded.{ending, unpack-pack_multi}
use finn_cpp_driver.Buffers.{set_first}
use finn_cpp_driver.Handler.{DeviceBuffers}
use finn_cpp_driver.Driver.{BaseDriver, infer}
use finn_cpp_driver.Driver.Typed.Cached.{kept}
use finn_cpp_driver.Driver.Typed.{Statics, once, first_idma, first_odma, infer_synchronous}

-- Before the first call.
abbrev pub fresh : Statics
fresh = record { folded_shape = none; packed_output = none; folded_output = none }

module _ (B : DeviceBuffers) (K : Conversions) (F S : Datatype) (t : ScalarType) where
  -- The first synchronous inference on values. The configuration gives shapes for the batch size of
  -- the driver: a folded input shape with `last` values in a row, and for the results a folded shape
  -- with rows of `wide` values under leading dimensions `lead`, packed into rows of as many bytes as
  -- these need. When the device turns the packed form of `values`, of datatype `F`, into the packed
  -- form of `results`, of datatype `S`, then `inferSynchronous` turns `values` into `results`. `S` is
  -- an integer datatype other than bipolar and has 1 to 64 bits, and the results fit it, are fewer
  -- than `2 ^ 31`, at least one, and are packed into fewer than `2 ^ 31` bytes.
  pub infer_synchronous_lem :
      (d after : BaseDriver B) (index : ℕ) (i : Name) (index' : ℕ) (o : Name)
      (idma odma : BufferDescriptor) (folded lead : Shape) (last wide : ℕ)
      (values results packed bytes : List ℕ) (span spread : DynamicMdSpan ℕ)
      → first_idma index d.configuration ≡ ok idma
      → first_odma index d.configuration ≡ ok odma
      → set_first d.batch_elements idma.folded_shape ≡ ok folded
      → innermost_dimension folded ≡ ok last
      → set_first d.batch_elements odma.folded_shape ≡ ok (ending lead wide)
      → set_first d.batch_elements odma.packed_shape
        ≡ ok (ending lead (bytes_for (wide * bitwidth S)))
      → is_integer S ≡ true
      → is_bipolar S ≡ false
      → 1 ≤ bitwidth S
      → bitwidth S ≤ 64
      → length results ≡ product lead * wide
      → 1 ≤ length results
      → length results < 2 ^ 31
      → product lead * bytes_for (wide * bitwidth S) < 2 ^ 31
      → All (Fits (sign S) (bitwidth S) (ret_size (bitwidth S))) results
      → MdSpan.new values folded ≡ ok span
      → pack_multi_dimensional_inputs K F t span last ≡ ok packed
      → infer B packed index i index' o d ≡ ok (bytes, after)
      → MdSpan.new results (ending lead wide) ≡ ok spread
      → pack_multi_dimensional_inputs K S (auto_ret_type S) spread wide ≡ ok bytes
      → infer_synchronous B K F S t values index i index' o fresh d
        ≡ ok (
          results,
          kept folded (ending lead (bytes_for (wide * bitwidth S))) (ending lead wide),
          after,
        )
  unfolding infer_synchronous once
  infer_synchronous_lem d after index i index' o idma odma folded lead last wide values results
        packed bytes span spread at_in at_out shape_in inner shape_out shape_packed hi whole hb h64
        count enough small small' fits spanned made inferred spanned' made' =
      let (spread₂, reshaped, bytes₂, spanned₂, made₂, _, again, unpacked) =
        unpack-pack_multi S whole hb h64 K lead wide results hi count enough small small' fits in
      let same : spread₂ ≡ spread = ok-inj (sym spanned₂ ∙ spanned') in
      let same' : bytes₂ ≡ bytes = ok-inj (
        sym made₂
        ∙ ap (λ s. pack_multi_dimensional_inputs K S (auto_ret_type S) s wide) same
        ∙ made') in
      let again' : MdSpan.new bytes (ending lead (bytes_for (wide * bitwidth S))) ≡ ok reshaped =
        ap (λ bs. MdSpan.new bs (ending lead (bytes_for (wide * bitwidth S)))) (sym same')
        ∙ again in
      rw
        (
          at_in, shape_in, spanned, inner, made, inferred, at_out, shape_packed, shape_out, again',
          unpacked,
        )
        refl
