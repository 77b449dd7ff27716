-- ===== src/Driver/Typed.antt =====
-- core/BaseDriver.hpp: `inferSynchronous` and `input`, which pack values, and unpack results, of the
-- datatypes `F` and `S` around what the driver does on bytes. The shapes that `inferSynchronous`
-- keeps in function-local statics are a state of their own.
pub mod Cached
pub mod Values
mod Tests
use finn_cpp_driver.Prelude.{
  ℕ, zero, suc, ◌*◌, ◌%◌, ◌^◌, not, List, [], ◌∷◌, Option, none, some, length, ◌==◌, Result, ok,
  err, undefined, runtime_error, throw_if, ◌>>=◌, ◌>>◌,
}
use finn_cpp_driver.Utils.{Shape, innermost_dimension}
use finn_cpp_driver.Types.{Name, BufferDescriptor, Config, featuremap_size}
use finn_cpp_driver.MdSpan
use finn_cpp_driver.Datatypes.{Datatype}
use finn_cpp_driver.Packing.Pack.{ScalarType, Conversions, pack}
use finn_cpp_driver.Packing.Multi.{pack_multi_dimensional_inputs, unpack_multi_dimensional_outputs}
use finn_cpp_driver.Buffers.{set_first}
use finn_cpp_driver.Handler
use finn_cpp_driver.Handler.{DeviceBuffers}
use finn_cpp_driver.Driver.{BaseDriver, front, store_factory, size, on_device, infer}

-- The statics `foldedShape`, `packedOutput` and `foldedOutput`, `none` before the first call.
pub record Statics : Type 0 where
  pub folded_shape : Option Shape
  pub packed_output : Option Shape
  pub folded_output : Option Shape

-- `static auto shape = first;`
unfoldable pub once : Option Shape → Result Shape → Result Shape
once none first = first
once (some shape) first = ok shape

-- `[index]` of a vector, undefined past its end.
unfoldable pub at {ℓ} : {A : Type ℓ} → ℕ → List A → Result A
at index [] = err undefined
at zero (x ∷ xs) = ok x
at (suc index) (x ∷ xs) = at index xs

-- `configuration.deviceWrappers[index].idmas[0]` and `.odmas[0]`
unfoldable pub first_idma : ℕ → Config → Result BufferDescriptor
unfolding at front
first_idma index config = at index config >>= λ w. front w.idmas

unfoldable pub first_odma : ℕ → Config → Result BufferDescriptor
unfolding at front
first_odma index config = at index config >>= λ w. front w.odmas

module _ (B : DeviceBuffers) (K : Conversions) (F S : Datatype) (t : ScalarType) where
  -- `inferSynchronous` on values of the type `t`: the results, and the statics and
  -- the driver after.
  unfoldable pub infer_synchronous :
      List ℕ
      → ℕ
      → Name
      → ℕ
      → Name
      → Statics
      → BaseDriver B
      → Result (List ℕ × Statics × BaseDriver B)
  unfolding once
  infer_synchronous values input_index input_name output_index output_name st d = do
    folded₀ ←
        once st.folded_shape (first_idma input_index d.configuration >>= λ b. ok b.folded_shape)
    folded ← set_first d.batch_elements folded₀
    reshaped_input ← MdSpan.new values folded
    last ← innermost_dimension folded
    packed ← pack_multi_dimensional_inputs K F t reshaped_input last
    result ← infer B packed input_index input_name output_index output_name d
    packed_out₀ ←
        once st.packed_output (first_odma input_index d.configuration >>= λ b. ok b.packed_shape)
    packed_out ← set_first d.batch_elements packed_out₀
    folded_out₀ ←
        once st.folded_output (first_odma input_index d.configuration >>= λ b. ok b.folded_shape)
    folded_out ← set_first d.batch_elements folded_out₀
    reshaped_output ← MdSpan.new result.0 packed_out
    unpacked ← unpack_multi_dimensional_outputs K S reshaped_output folded_out
    ok (
      unpacked,
      record {
        folded_shape = some folded;
        packed_output = some packed_out;
        folded_output = some folded_out;
      },
      result.1,
    )

  -- The call with the defaults of the driver.
  unfoldable pub infer_synchronous_default :
      List ℕ → Statics → BaseDriver B → Result (List ℕ × Statics × BaseDriver B)
  unfolding infer_synchronous
  infer_synchronous_default values st d =
      infer_synchronous values d.default_input_device_index d.default_input_kernel_name
        d.default_output_device_index d.default_output_kernel_name st d

  -- `input`: the packed values are not padded row by row, and the return of the store is dropped.
  unfoldable pub input : List ℕ → ℕ → Name → ℕ → BaseDriver B → Result (BaseDriver B)
  input values input_index input_name batch_size d = do
    packed ← pack K F t values
    store_factory B input_index input_name d.accelerator
    part ← size B featuremap_size input_index input_name d.accelerator
    throw_if (not (length packed == part * batch_size % 2 ^ 64)) runtime_error
    stored ← on_device B input_index (Handler.store_unchecked B packed input_name) d.accelerator
    ok (record d { accelerator = stored.1 })

  unfoldable pub input_default : List ℕ → BaseDriver B → Result (BaseDriver B)
  unfolding input
  input_default values d =
      input values d.default_input_device_index d.default_input_kernel_name d.batch_elements d
