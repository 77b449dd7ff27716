-- ===== src/Driver/SyncTests.antt =====
-- One inference on synchronous buffers, with a device that leaves the mapped memory as it is.
use finn_cpp_driver.Prelude.{ℕ, ◌*◌, ◌≡◌, refl, arith, false, true, List, [], ◌∷◌, length, take, ok}
use finn_cpp_driver.Utils.Shapes.{product}
use finn_cpp_driver.Types.{Name}
use finn_cpp_driver.Buffers.{DeviceBuffer}
use finn_cpp_driver.Buffers.Input
use finn_cpp_driver.Buffers.Output
use finn_cpp_driver.Buffers.Sizes.{store-run, make-room}
use finn_cpp_driver.Handler.{DeviceBuffers, DeviceHandler}
use finn_cpp_driver.Handler.Sync.{sync_buffers}
use finn_cpp_driver.Driver.{BaseDriver, infer}
use finn_cpp_driver.Driver.Inference.{holds}
use finn_cpp_driver.Driver.Sync.{infer-sync_buffers}

abbrev address : Name → ℕ
address name = 8192

abbrev fetch : Name → ℕ → List ℕ → List ℕ
fetch name count mapped = mapped

abbrev buffers : DeviceBuffers
buffers = sync_buffers address fetch

abbrev sample : List ℕ
sample = 1 ∷ 2 ∷ 3 ∷ 4 ∷ 5 ∷ 6 ∷ []

abbrev idma : Name
idma = 105 ∷ []

abbrev odma : Name
odma = 111 ∷ []

abbrev handler : DeviceHandler buffers
handler = record {
  synchronous_inference = true;
  dev_information = record { xclbin = []; xrt_device_index = 0; idmas = []; odmas = [] };
  batchsize = 1;
  input_buffer_map = [];
  output_buffer_map = [];
}

made_input : (b filled : DeviceBuffer) × (Input.make 8192 idma (1 ∷ 3 ∷ []) 2 ≡ ok b)
made_input =
    let (b, filled, made, _, _, _, _) =
      store-run 8192 idma 1 (3 ∷ []) 2 sample (omega arith) (omega arith) (omega arith) refl in
    (b, filled, made)

made_output : (out : Output.OutputBuffer) × (Output.make 8192 odma (2 ∷ 5 ∷ []) 2 ≡ ok out)
made_output =
    let (out, made, _, _, _) = make-room 8192 odma 2 (5 ∷ []) 2 (omega arith) (omega arith) in
    (out, made)

abbrev driver : BaseDriver buffers
driver = record {
  accelerator = holds buffers handler idma odma made_input.0 made_output.0 ∷ [];
  configuration = [];
  default_input_device_index = 0;
  default_input_kernel_name = idma;
  default_output_device_index = 0;
  default_output_kernel_name = odma;
  batch_elements = 2;
  force_achieval = false;
}

infer-sync_buffers_example :
    (bytes : List ℕ) × (after : BaseDriver buffers) × (infer buffers sample 0 idma 0 odma driver
      ≡ ok (bytes, after))
    × (bytes ≡ take (2 * product (5 ∷ [])) made_output.0.base.mapped)
    × (length bytes ≡ 2 * product (5 ∷ []))
infer-sync_buffers_example =
    infer-sync_buffers address fetch handler idma odma 1 2 2 (3 ∷ []) (5 ∷ []) sample made_input.0
      made_output.0 driver (omega arith) (omega arith) (omega arith) (omega arith) (omega arith)
      refl (λ name count mapped. refl) made_input.2 made_output.1 refl
