-- ===== src/Program/Tests.antt =====
-- The program on one file of 32-bit floats.
use finn_cpp_driver.Prelude.{
  ℕ, ◌-◌, ◌≡◌, refl, inl, true, ◌&&◌, [], ◌∷◌, leb, if◌then◌else◌, none, Result, ok, err,
  invalid_argument,
}
use finn_cpp_driver.Types.{Name, DeviceWrapper}
use finn_cpp_driver.Datatypes.{int}
use finn_cpp_driver.Packing.Pack.Sample.{conversions}
use finn_cpp_driver.Datatypes.Values.{pos}
use finn_cpp_driver.Handler.{DeviceBuffers, DeviceHandler}
use finn_cpp_driver.Handler.Sync.{sync_buffers}
use finn_cpp_driver.Driver.{get_device_handler}
use finn_cpp_driver.Driver.Typed.{at}
use finn_cpp_driver.Program.Validation.{validate_batch_size}
use finn_cpp_driver.Program.{NpyFile, Outside, Session, run_with_input_file}
use finn_cpp_driver.Program.Files.{Documented, run_with_input_file-numeric}

-- One digit, at the start.
abbrev stoi : Name → Result ℕ
stoi [] = err invalid_argument
stoi (c ∷ s) = if leb 48 c && leb c 57 then ok (c - 48) else err invalid_argument

-- `<f4`
abbrev floats : NpyFile
floats = record { typestring = 60 ∷ 102 ∷ 52 ∷ []; contents = [] }

abbrev outside : Outside
outside = record {
  opens = λ path. true;
  exists = λ path. true;
  load_npy_file = λ path. ok floats;
  cast = λ t file. ok file.contents;
  stoi = stoi;
}

outside-Documented : Documented outside
outside-Documented = record { no_number = λ rest. refl }

abbrev buffers : DeviceBuffers
buffers = sync_buffers (λ name. 8192) (λ name count mapped. mapped)

abbrev device : DeviceWrapper
device = record { xclbin = []; xrt_device_index = 0; idmas = []; odmas = [] }

abbrev handler : DeviceHandler buffers
handler = record {
  synchronous_inference = true;
  dev_information = device;
  batchsize = 1;
  input_buffer_map = [];
  output_buffer_map = [];
}

abbrev session : Session buffers
session = record {
  driver = record {
    accelerator = handler ∷ [];
    configuration = device ∷ [];
    default_input_device_index = 0;
    default_input_kernel_name = [];
    default_output_device_index = 0;
    default_output_kernel_name = [];
    batch_elements = 1;
    force_achieval = true;
  };
  statics = λ t. record { folded_shape = none; packed_output = none; folded_output = none };
  dumped = [];
}

run_with_input_file-numeric_example :
    run_with_input_file outside buffers conversions
      (int 4)
      (int 4)
      ((105 ∷ []) ∷ [])
      ((111 ∷ []) ∷ [])
      session
    ≡ err invalid_argument
unfolding get_device_handler at
run_with_input_file-numeric_example =
    run_with_input_file-numeric outside outside-Documented buffers conversions (int 4) (int 4)
      (105 ∷ []) (111 ∷ []) [] [] session floats 102 (52 ∷ []) refl refl refl (inl refl) handler
      refl device refl

no_batch : validate_batch_size (pos 1) ≡ ok tt
unfolding validate_batch_size
no_batch = refl
