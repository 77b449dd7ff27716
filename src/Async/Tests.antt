-- ===== src/Async/Tests.antt =====
-- Asynchronous device buffers at concrete values: parts of two bytes, in a ring buffer of two parts.
use finn_cpp_driver.Prelude.{ℕ, ◌≡◌, refl, arith, true, List, [], ◌∷◌, replicate, some, ok}
use finn_cpp_driver.Types.{Name}
use finn_cpp_driver.Utils
use finn_cpp_driver.Buffers
use finn_cpp_driver.Buffers.{DeviceBuffer, sync_to_device, sync_from_device}
use finn_cpp_driver.RingBuffer
use finn_cpp_driver.RingBuffer.{RingBuffer, check_store}
use finn_cpp_driver.RingBuffer.Inv.{IsValid}
use finn_cpp_driver.Circular.Lists.{lists, lists-Documented}
use finn_cpp_driver.Async.{make_ring, store_shared, copy_to_map}
use finn_cpp_driver.Async.Input
use finn_cpp_driver.Async.Input.{AsyncInput}
use finn_cpp_driver.Async.Input.Worker as InputWorker
use finn_cpp_driver.Async.Output
use finn_cpp_driver.Async.Output.{AsyncOutput}
use finn_cpp_driver.Async.Output.Worker as OutputWorker
use finn_cpp_driver.Async.Output.Order.{IsKept, pending}
use finn_cpp_driver.Async.Output.Kept.{
  Reach-IsKept, save_map-goes_on, get_data-archive_valid_buffer_parts,
}

abbrev dma : Name
dma = 105 ∷ []

abbrev device : DeviceBuffer
device = record {
  name = dma;
  shape_packed = 1 ∷ 2 ∷ [];
  map_size = 4096;
  mapped = replicate 4096 0;
  buf_adr = 8192;
  old_repetitions = 0;
  calls = [];
}

abbrev ring_of : List ℕ → RingBuffer lists
ring_of xs = record { buffer = (4, xs); elements_per_part = 2 }

abbrev fresh_input : AsyncInput lists
fresh_input = record { base = device; ring = ring_of [] }

fresh_input_made : Input.make lists 8192 dma (1 ∷ 2 ∷ []) 2 ≡ ok fresh_input
unfolding Input.make make_ring RingBuffer.new Buffers.new Utils.shape_to_elements
    Utils.get_actual_buffer_size Utils.fast_log2_ceil Utils.fast_log2 Utils.bit_width
fresh_input_made = refl

abbrev four : List ℕ
four = 1 ∷ 2 ∷ 3 ∷ 4 ∷ []

abbrev full_input : AsyncInput lists
full_input = record { base = device; ring = ring_of four }

abbrev half_input : AsyncInput lists
half_input = record {
  base = record device { mapped = 1 ∷ 2 ∷ replicate 4094 0; calls = sync_to_device 2 ∷ [] };
  ring = ring_of (3 ∷ 4 ∷ []);
}

abbrev input_state : InputWorker.System lists
input_state = record { buffer = half_input; running = true; put = four; sent = 1 ∷ 2 ∷ [] }

input_state-Reach : InputWorker.Reach lists 8192 dma (1 ∷ 2 ∷ []) 2 input_state
unfolding Input.store store_shared check_store RingBuffer.free_space Input.run_round Input.load_map
    RingBuffer.read copy_to_map Input.sync
input_state-Reach =
    InputWorker.later
      (InputWorker.later (InputWorker.start {b = fresh_input} fresh_input_made)
        (InputWorker.stores four {b = full_input} refl))
      (InputWorker.transfers {b = half_input} refl refl)

abbrev fresh_output : AsyncOutput lists
fresh_output = record { base = device; ring = ring_of []; long_term_storage = [] }

fresh_output_made : Output.make lists 8192 dma (1 ∷ 2 ∷ []) 2 ≡ ok fresh_output
unfolding Output.make make_ring RingBuffer.new Buffers.new Utils.shape_to_elements
    Utils.get_actual_buffer_size Utils.fast_log2_ceil Utils.fast_log2 Utils.bit_width
fresh_output_made = refl

-- What the device leaves in the mapped memory.
abbrev fetched : List ℕ
fetched = 7 ∷ 8 ∷ replicate 4094 0

abbrev synced_output : AsyncOutput lists
synced_output = record {
  base = record device { mapped = fetched; calls = sync_from_device 2 ∷ [] };
  ring = ring_of [];
  long_term_storage = [];
}

abbrev output_state : OutputWorker.System lists
output_state = record { buffer = synced_output; pc = OutputWorker.saving; saved = []; given = [] }

output_state-Reach : OutputWorker.Reach lists 8192 dma (1 ∷ 2 ∷ []) 2 output_state
unfolding Output.sync
output_state-Reach =
    OutputWorker.later (OutputWorker.start {o = fresh_output} fresh_output_made)
      (OutputWorker.syncs fetched refl refl)

save_map-goes_on_example :
    (o : AsyncOutput lists) × (Output.save_map lists synced_output ≡ ok (some o))
save_map-goes_on_example =
    save_map-goes_on lists-Documented 8192 dma 1 (2 ∷ []) 2 (omega arith) (omega arith)
      (omega arith) (omega arith) output_state-Reach refl

abbrev saved_output : AsyncOutput lists
saved_output = record synced_output { ring = ring_of (7 ∷ 8 ∷ []) }

abbrev saved_state : OutputWorker.System lists
saved_state = record {
  buffer = saved_output;
  pc = OutputWorker.testing;
  saved = 7 ∷ 8 ∷ [];
  given = [];
}

saved_state-Reach : OutputWorker.Reach lists 8192 dma (1 ∷ 2 ∷ []) 2 saved_state
unfolding Output.save_map store_shared check_store RingBuffer.free_space
saved_state-Reach =
    OutputWorker.later output_state-Reach (OutputWorker.saves {o = saved_output} refl refl)

Reach-IsKept_example : IsKept saved_state
Reach-IsKept_example =
    Reach-IsKept lists-Documented 8192 dma 1 (2 ∷ []) 2 (omega arith) (omega arith) (omega arith)
      (omega arith) saved_state-Reach

saved_output-IsValid : IsValid saved_output.ring
saved_output-IsValid = record {
  some_part = omega arith;
  parts = 2;
  all_parts = refl;
  bounded = omega arith;
  used = 1;
  used_parts = refl;
  fits = omega arith;
}

get_data-archive_valid_buffer_parts_example :
    ((Output.get_data lists (Output.archive_valid_buffer_parts lists saved_output)).0 ≡ 7 ∷ 8 ∷ [])
    × (pending (Output.get_data lists (Output.archive_valid_buffer_parts lists saved_output)).1
        ≡ [])
get_data-archive_valid_buffer_parts_example =
    get_data-archive_valid_buffer_parts lists-Documented saved_output saved_output-IsValid
