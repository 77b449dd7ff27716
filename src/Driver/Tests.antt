-- ===== src/Driver/Tests.antt =====
-- A driver for one device with one input and one output, on synchronous buffers.
use finn_cpp_driver.Prelude.{
  ℕ, ◌≡◌, refl, arith, ◌↔◌, Bool, true, false, List, [], ◌∷◌, replicate, ok, ◌>>=◌,
}
use finn_cpp_driver.Types.{Name, DeviceWrapper}
use finn_cpp_driver.Handler
use finn_cpp_driver.Handler.{DeviceBuffers, DeviceHandler, make_inputs, make_outputs}
use finn_cpp_driver.Handler.Config.{IsComplete, check_device_wrapper-IsComplete}
use finn_cpp_driver.Handler.Batch.{set_batch_size-new}
use finn_cpp_driver.Driver
use finn_cpp_driver.Driver.{BaseDriver}
use finn_cpp_driver.Driver.Batch.{set_batch_size-new_driver}

-- Buffers that are lists of bytes: what an interface is to provide, and no more.
abbrev lists : DeviceBuffers
lists = record {
  In = List ℕ;
  Out = List ℕ;
  make_in = λ sync name shape n. ok (replicate n 0);
  make_out = λ sync name shape n. ok (replicate n 0);
  allocate_long_term_storage = λ n o. ok o;
  size_in = λ b ss. ok 3;
  size_out = λ b ss. ok 3;
  store_in = λ values b. ok (true, values);
  run_in = λ b. ok (true, b);
  run_out = λ b. ok (true, b);
  wait_out = λ b. ok (true, b);
  read_out = λ b. ok (true, b);
  get_data = λ b. ok (b, b);
}

abbrev idma : Name
idma = 105 ∷ []

abbrev odma : Name
odma = 111 ∷ []

abbrev wrapper : DeviceWrapper
wrapper = record {
  xclbin = 120 ∷ [];
  xrt_device_index = 0;
  idmas =
      record {
        kernel_name = idma;
        packed_shape = 1 ∷ 3 ∷ [];
        normal_shape = 1 ∷ 3 ∷ [];
        folded_shape = 1 ∷ 3 ∷ [];
      }
      ∷ [];
  odmas =
      record {
        kernel_name = odma;
        packed_shape = 1 ∷ 3 ∷ [];
        normal_shape = 1 ∷ 3 ∷ [];
        folded_shape = 1 ∷ 3 ∷ [];
      }
      ∷ [];
}

abbrev any_file : Name → Bool
any_file path = true

abbrev handler : DeviceHandler lists
handler = record {
  synchronous_inference = true;
  dev_information = wrapper;
  batchsize = 1;
  input_buffer_map = (idma, 0 ∷ 0 ∷ 0 ∷ []) ∷ [];
  output_buffer_map = (odma, 0 ∷ 0 ∷ 0 ∷ []) ∷ [];
}

abbrev driver : BaseDriver lists
driver = record {
  accelerator = handler ∷ [];
  configuration = wrapper ∷ [];
  default_input_device_index = 0;
  default_input_kernel_name = idma;
  default_output_device_index = 0;
  default_output_kernel_name = odma;
  batch_elements = 3;
  force_achieval = false;
}

check_device_wrapper-IsComplete_example :
    (Handler.check_device_wrapper any_file wrapper ≡ ok tt) ↔ IsComplete any_file wrapper
check_device_wrapper-IsComplete_example = check_device_wrapper-IsComplete any_file wrapper

set_batch_size-new_example :
    Handler.set_batch_size lists 2 handler
    ≡ (Handler.new lists any_file wrapper true 2 >>= λ fresh. ok (record fresh { batchsize = 2 }))
unfolding Handler.new Handler.make_inputs Handler.make_outputs Handler.emplace Handler.contains
    Handler.find
set_batch_size-new_example =
    set_batch_size-new lists any_file wrapper true 3 2 handler (omega arith) refl

set_batch_size-new_driver_example :
    (Driver.set_batch_size lists 1 driver ≡ ok (record driver { batch_elements = 1 }))
    × (driver.batch_elements ≡ 3)
unfolding Driver.new Driver.new_accelerator Handler.new Handler.make_inputs Handler.make_outputs
    Handler.emplace Handler.contains Handler.find
set_batch_size-new_driver_example =
    set_batch_size-new_driver lists any_file true (wrapper ∷ []) 3 false driver refl

abbrev zeros : List ℕ
zeros = 0 ∷ 0 ∷ 0 ∷ []

abbrev values : List ℕ
values = 7 ∷ 8 ∷ 9 ∷ []
