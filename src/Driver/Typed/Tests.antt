-- ===== src/Driver/Typed/Tests.antt =====
-- Inference on values at a concrete configuration: two four-bit numbers in, two out.
use finn_cpp_driver.Prelude.{
  ℕ, ◌≡◌, refl, ap, ◌∙◌, arith, inl, inr, true, false, List, [], ◌∷◌, length, take, replicate,
  length-take, ok, ◌>>=◌,
}
use finn_cpp_driver.Utils.{innermost_dimension, accumulate_int, int_to_size}
use finn_cpp_driver.Types.{Name, BufferDescriptor, Config}
use finn_cpp_driver.MdSpan
use finn_cpp_driver.MdSpan.{DynamicMdSpan}
use finn_cpp_driver.Datatypes.{int, sign, bitwidth, is_bipolar, is_integer}
use finn_cpp_driver.Packing.Pack.Sample.{conversions}
use finn_cpp_driver.Packing.Pack.{signed_integer, auto_ret_type}
use finn_cpp_driver.Packing.{ret_size}
use finn_cpp_driver.Packing.Multi.{pack_multi_dimensional_inputs}
use finn_cpp_driver.Packing.Multi.RoundTrip.{pack_multi_dimensional_inputs_lem}
use finn_cpp_driver.Utils
use finn_cpp_driver.Buffers
use finn_cpp_driver.Buffers.{DeviceBuffer, set_first}
use finn_cpp_driver.Buffers.Input
use finn_cpp_driver.Buffers.Output
use finn_cpp_driver.Handler.{DeviceBuffers, DeviceHandler}
use finn_cpp_driver.Handler.Sync.{sync_buffers}
use finn_cpp_driver.Driver.{BaseDriver, infer}
use finn_cpp_driver.Driver.Inference.{holds}
use finn_cpp_driver.Driver.Sync.{infer-sync_buffers}
use finn_cpp_driver.Driver.Typed.{first_idma, first_odma, infer_synchronous}
use finn_cpp_driver.Driver.Typed.Cached.{kept, infer_synchronous-kept}
use finn_cpp_driver.Driver.Typed.Values.{fresh, infer_synchronous_lem}

abbrev address : Name → ℕ
address name = 8192

-- The device leaves the byte of the numbers 7 and -1.
abbrev fetch : Name → ℕ → List ℕ → List ℕ
fetch name count mapped = take (length mapped) (247 ∷ mapped)

abbrev buffers : DeviceBuffers
buffers = sync_buffers address fetch

abbrev idma : BufferDescriptor
idma = record {
  kernel_name = 105 ∷ [];
  packed_shape = 1 ∷ 1 ∷ [];
  normal_shape = 1 ∷ 2 ∷ [];
  folded_shape = 1 ∷ 2 ∷ [];
}

abbrev odma : BufferDescriptor
odma = record idma { kernel_name = 111 ∷ [] }

abbrev config : Config
config = record { xclbin = []; xrt_device_index = 0; idmas = idma ∷ []; odmas = odma ∷ [] } ∷ []

abbrev handler : DeviceHandler buffers
handler = record {
  synchronous_inference = true;
  dev_information = record {
    xclbin = [];
    xrt_device_index = 0;
    idmas = idma ∷ [];
    odmas = odma ∷ [];
  };
  batchsize = 1;
  input_buffer_map = [];
  output_buffer_map = [];
}

abbrev device : DeviceBuffer
device = record {
  name = 111 ∷ [];
  shape_packed = 1 ∷ 1 ∷ [];
  map_size = 4096;
  mapped = replicate 4096 0;
  buf_adr = 8192;
  old_repetitions = 0;
  calls = [];
}

abbrev input_buffer : DeviceBuffer
input_buffer = record device { name = 105 ∷ [] }

abbrev output_buffer : Output.OutputBuffer
output_buffer = record { base = device; element_count = 1 }

abbrev driver : BaseDriver buffers
driver = record {
  accelerator = holds buffers handler (105 ∷ []) (111 ∷ []) input_buffer output_buffer ∷ [];
  configuration = config;
  default_input_device_index = 0;
  default_input_kernel_name = 105 ∷ [];
  default_output_device_index = 0;
  default_output_kernel_name = 111 ∷ [];
  batch_elements = 1;
  force_achieval = false;
}

input_made : Input.make 8192 (105 ∷ []) (1 ∷ 1 ∷ []) 1 ≡ ok input_buffer
unfolding Input.make Buffers.new Utils.shape_to_elements Utils.get_actual_buffer_size
    Utils.fast_log2_ceil Utils.fast_log2 Utils.bit_width
input_made = refl

output_made : Output.make 8192 (111 ∷ []) (1 ∷ 1 ∷ []) 1 ≡ ok output_buffer
unfolding Output.make Buffers.new Utils.shape_to_elements Utils.get_actual_buffer_size
    Utils.fast_log2_ceil Utils.fast_log2 Utils.bit_width
output_made = refl

inferred :
    (bytes : List ℕ) × (after : BaseDriver buffers) × (infer buffers
        (225 ∷ [])
        0
        (105 ∷ [])
        0
        (111 ∷ [])
        driver
      ≡ ok (bytes, after))
    × (bytes ≡ 247 ∷ [])
    × (length bytes ≡ 1)
inferred =
    infer-sync_buffers address fetch handler (105 ∷ []) (111 ∷ []) 1 1 1 (1 ∷ []) (1 ∷ [])
      (225 ∷ []) input_buffer output_buffer driver (omega arith) (omega arith) (omega arith)
      (omega arith) (omega arith) refl
      (λ name count mapped. omega (arith, length-take (length mapped) (247 ∷ mapped))) input_made
      output_made refl

-- Rows of two numbers.
abbrev row_span : List ℕ → DynamicMdSpan ℕ
row_span xs = record { elements = xs; strides = 2 ∷ 2 ∷ 1 ∷ []; most_inner_dims = xs ∷ [] }

abbrev given : List ℕ
given = 1 ∷ 254 ∷ []

abbrev computed : List ℕ
computed = 7 ∷ 255 ∷ []

given_spanned : MdSpan.new given (1 ∷ 2 ∷ []) ≡ ok (row_span given)
unfolding MdSpan.new MdSpan.set_shape MdSpan.strides_of MdSpan.chunks MdSpan.is_empty
    innermost_dimension int_to_size accumulate_int
given_spanned = refl

computed_spanned : MdSpan.new computed (1 ∷ 2 ∷ []) ≡ ok (row_span computed)
unfolding MdSpan.new MdSpan.set_shape MdSpan.strides_of MdSpan.chunks MdSpan.is_empty
    innermost_dimension int_to_size accumulate_int
computed_spanned = refl

given_packed :
    pack_multi_dimensional_inputs conversions (int 4) (signed_integer 1) (row_span given) 2
    ≡ ok (225 ∷ [])
unfolding bitwidth is_bipolar is_integer
given_packed =
    pack_multi_dimensional_inputs_lem (int 4) refl (omega arith) (omega arith) conversions
      (signed_integer 1) 2 (row_span given) refl tt (omega arith) (omega arith) (omega arith)
      (refl, tt)

computed_packed :
    pack_multi_dimensional_inputs conversions (int 4) (signed_integer 1) (row_span computed) 2
    ≡ ok (247 ∷ [])
unfolding bitwidth is_bipolar is_integer
computed_packed =
    pack_multi_dimensional_inputs_lem (int 4) refl (omega arith) (omega arith) conversions
      (signed_integer 1) 2 (row_span computed) refl tt (omega arith) (omega arith) (omega arith)
      (refl, tt)

inferred_bytes :
    infer buffers (225 ∷ []) 0 (105 ∷ []) 0 (111 ∷ []) driver ≡ ok (247 ∷ [], inferred.1)
inferred_bytes = inferred.2 ∙ ap (λ bs. ok (bs, inferred.1)) inferred.3

infer_synchronous_lem_example :
    infer_synchronous buffers conversions
      (int 4)
      (int 4)
      (signed_integer 1)
      given
      0
      (105 ∷ [])
      0
      (111 ∷ [])
      fresh
      driver
    ≡ ok (computed, kept (1 ∷ 2 ∷ []) (1 ∷ 1 ∷ []) (1 ∷ 2 ∷ []), inferred.1)
unfolding bitwidth sign is_bipolar is_integer ret_size auto_ret_type set_first first_idma first_odma
    innermost_dimension
infer_synchronous_lem_example =
    infer_synchronous_lem buffers conversions (int 4) (int 4) (signed_integer 1) driver inferred.1 0
      (105 ∷ []) 0 (111 ∷ []) idma odma (1 ∷ 2 ∷ []) (1 ∷ []) 2 2 given computed (225 ∷ [])
      (247 ∷ []) (row_span given) (row_span computed) refl refl refl refl refl refl refl refl
      (omega arith) (omega arith) refl (omega arith) (omega arith) (omega arith)
      (inl (omega arith), (inr (omega arith, omega arith), tt)) given_spanned given_packed
      inferred_bytes computed_spanned computed_packed

infer_synchronous-kept_example :
    infer_synchronous buffers conversions
      (int 4)
      (int 4)
      (signed_integer 1)
      given
      0
      (105 ∷ [])
      0
      (111 ∷ [])
      (kept (1 ∷ 2 ∷ []) (1 ∷ 1 ∷ []) (1 ∷ 2 ∷ []))
      (record driver { configuration = [] })
    ≡ (infer_synchronous buffers conversions
          (int 4)
          (int 4)
          (signed_integer 1)
          given
          0
          (105 ∷ [])
          0
          (111 ∷ [])
          (kept (1 ∷ 2 ∷ []) (1 ∷ 1 ∷ []) (1 ∷ 2 ∷ []))
          driver
        >>= λ r. ok (r.0, r.1, record r.2 { configuration = [] }))
infer_synchronous-kept_example =
    infer_synchronous-kept buffers conversions (int 4) (int 4) (signed_integer 1) given 0 (105 ∷ [])
      0 (111 ∷ []) (1 ∷ 2 ∷ []) (1 ∷ 1 ∷ []) (1 ∷ 2 ∷ []) driver []
