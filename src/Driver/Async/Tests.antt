-- ===== src/Driver/Async/Tests.antt =====
-- A session of an asynchronous driver: parts of two bytes, in ring buffers of two parts. A client puts
-- four values in, and the thread of the input buffer transfers the first part.
use finn_cpp_driver.Prelude.{
  ℕ, ◌⊎◌, ◌≡◌, refl, arith, Bool, true, false, List, [], ◌∷◌, ◌++◌, replicate, ok, some,
}
use finn_cpp_driver.Types.{Name, BufferDescriptor, DeviceWrapper}
use finn_cpp_driver.Utils
use finn_cpp_driver.Buffers
use finn_cpp_driver.Buffers.{DeviceBuffer, sync_to_device}
use finn_cpp_driver.RingBuffer
use finn_cpp_driver.RingBuffer.{RingBuffer, check_store, stored}
use finn_cpp_driver.Circular.Lists.{lists, lists-Documented}
use finn_cpp_driver.Datatypes.{uint, bitwidth, is_bipolar, is_integer}
use finn_cpp_driver.Packing.Pack.{unsigned_integer, pack}
use finn_cpp_driver.Packing.Layout.{pack_impl_lem}
use finn_cpp_driver.Packing.Pack.Sample.{conversions}
use finn_cpp_driver.Async.{make_ring, store_shared, copy_to_map}
use finn_cpp_driver.Async.Input
use finn_cpp_driver.Async.Input.{AsyncInput}
use finn_cpp_driver.Async.Output
use finn_cpp_driver.Async.Output.{AsyncOutput}
use finn_cpp_driver.Async.Output.Worker.{syncing}
use finn_cpp_driver.Handler
use finn_cpp_driver.Handler.Async.{async_buffers}
use finn_cpp_driver.Driver
use finn_cpp_driver.Driver.{BaseDriver}
use finn_cpp_driver.Driver.Typed.{input}
use finn_cpp_driver.Driver.Async.{Session, handler, inputs, transfers, Reach, start, later}
use finn_cpp_driver.Driver.Async.Calls.{input-returns}
use finn_cpp_driver.Driver.Async.Progress.{Reach-progress}
use finn_cpp_driver.Driver.Async.Served.{Reach-served}

abbrev address : Name → ℕ
address name = 8192

abbrev any_file : Name → Bool
any_file path = true

abbrev idma : BufferDescriptor
idma = record {
  kernel_name = 105 ∷ [];
  packed_shape = 1 ∷ 2 ∷ [];
  normal_shape = 1 ∷ 2 ∷ [];
  folded_shape = 1 ∷ 2 ∷ [];
}

abbrev odma : BufferDescriptor
odma = record idma { kernel_name = 111 ∷ [] }

abbrev wrapper : DeviceWrapper
wrapper = record { xclbin = 120 ∷ []; xrt_device_index = 0; idmas = idma ∷ []; odmas = odma ∷ [] }

abbrev device : DeviceBuffer
device = record {
  name = 105 ∷ [];
  shape_packed = 1 ∷ 2 ∷ [];
  map_size = 4096;
  mapped = replicate 4096 0;
  buf_adr = 8192;
  old_repetitions = 0;
  calls = [];
}

abbrev ring_of : List ℕ → RingBuffer lists
ring_of xs = record { buffer = (4, xs); elements_per_part = 2 }

abbrev fresh_input : AsyncInput lists
fresh_input = record { base = device; ring = ring_of [] }

abbrev full_input : AsyncInput lists
full_input = record { base = device; ring = ring_of (1 ∷ 2 ∷ 3 ∷ 4 ∷ []) }

abbrev half_input : AsyncInput lists
half_input = record {
  base = record device { mapped = 1 ∷ 2 ∷ replicate 4094 0; calls = sync_to_device 2 ∷ [] };
  ring = ring_of (3 ∷ 4 ∷ []);
}

abbrev fresh_output : AsyncOutput lists
fresh_output = record {
  base = record device { name = 111 ∷ [] };
  ring = ring_of [];
  long_term_storage = [];
}

abbrev driver_of : AsyncInput lists → BaseDriver (async_buffers lists address)
driver_of b = record {
  accelerator = handler lists address wrapper idma odma b fresh_output ∷ [];
  configuration = wrapper ∷ [];
  default_input_device_index = 0;
  default_input_kernel_name = 105 ∷ [];
  default_output_device_index = 0;
  default_output_kernel_name = 111 ∷ [];
  batch_elements = 2;
  force_achieval = false;
}

made :
    Driver.new (async_buffers lists address) any_file false (wrapper ∷ []) 2 false
    ≡ ok (driver_of fresh_input)
unfolding Driver.new Driver.new_accelerator Handler.new Handler.check_device_wrapper
    Handler.check_descriptors Handler.make_inputs Handler.make_outputs Handler.emplace
    Handler.contains Handler.find Driver.front Input.make Output.make make_ring RingBuffer.new
    Buffers.new Utils.shape_to_elements Utils.get_actual_buffer_size Utils.fast_log2_ceil
    Utils.fast_log2 Utils.bit_width
made = refl

abbrev started : Session lists address
started = record {
  driver = driver_of fresh_input;
  put = [];
  sent = [];
  pc = syncing;
  saved = [];
  given = [];
}

abbrev four : List ℕ
four = 1 ∷ 2 ∷ 3 ∷ 4 ∷ []

four_packed : pack conversions (uint 8) (unsigned_integer 1) four ≡ ok four
unfolding pack bitwidth is_bipolar is_integer
four_packed = pack_impl_lem (uint 8) 1 four refl (omega arith) (omega arith) (omega arith)

stored_four :
    input
      (async_buffers lists address)
      conversions
      (uint 8)
      (uint 8)
      (unsigned_integer 1)
      four
      0
      (105 ∷ [])
      2
      (driver_of fresh_input)
    ≡ ok (driver_of full_input)
unfolding Input.size RingBuffer.size Input.store store_shared check_store RingBuffer.free_space
stored_four =
    input-returns lists address wrapper idma odma conversions (uint 8) (uint 8) (unsigned_integer 1)
      four 2 2 four fresh_input full_input fresh_output (driver_of fresh_input) refl four_packed
      refl refl refl

transferred_two : Input.run_round lists full_input ≡ ok (some half_input)
unfolding Input.run_round Input.load_map RingBuffer.read copy_to_map Input.sync
transferred_two = refl

abbrev session : Session lists address
session = record started { driver = driver_of half_input; put = four; sent = 1 ∷ 2 ∷ [] }

session-Reach :
    Reach lists address wrapper idma odma conversions
      (uint 8)
      (uint 8)
      (unsigned_integer 1)
      any_file
      2
      false
      session
session-Reach =
    later (later (start made) (inputs four 2 four_packed stored_four))
      (transfers refl transferred_two)

Reach-served_example :
    (b : AsyncInput lists) × (out : AsyncOutput lists) × (session.driver.accelerator
      ≡ handler lists address wrapper idma odma b out ∷ [])
    × (four ≡ 1 ∷ 2 ∷ stored lists b.ring)
    × ([] ≡ out.long_term_storage ++ stored lists out.ring)
Reach-served_example =
    Reach-served lists address wrapper idma odma conversions (uint 8) (uint 8) (unsigned_integer 1)
      any_file 2 false refl refl 1 1 (2 ∷ []) (2 ∷ []) lists-Documented refl refl (omega arith)
      (omega arith) (omega arith) (omega arith) (omega arith) (omega arith) (omega arith)
      session-Reach

abbrev two : List ℕ
two = 5 ∷ 6 ∷ []

two_packed : pack conversions (uint 8) (unsigned_integer 1) two ≡ ok two
unfolding pack bitwidth is_bipolar is_integer
two_packed = pack_impl_lem (uint 8) 1 two refl (omega arith) (omega arith) (omega arith)

Reach-progress_example :
    ((after : BaseDriver (async_buffers lists address)) × (input
          (async_buffers lists address)
          conversions
          (uint 8)
          (uint 8)
          (unsigned_integer 1)
          two
          0
          (105 ∷ [])
          1
          (driver_of half_input)
        ≡ ok after))
    ⊎ ((b : AsyncInput lists) × (Input.run_round lists half_input ≡ ok (some b)))
unfolding Input.size RingBuffer.size check_store
Reach-progress_example =
    Reach-progress lists address wrapper idma odma conversions (uint 8) (uint 8)
      (unsigned_integer 1) any_file 2 false refl refl 1 (2 ∷ []) half_input fresh_output two two 2 1
      lists-Documented refl (omega arith) (omega arith) (omega arith) (omega arith) session-Reach
      refl two_packed refl refl refl
