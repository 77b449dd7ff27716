-- ===== src/Driver/Async.antt =====
-- core/BaseDriver.hpp with asynchronous buffers: a driver for one device with one input and one output
-- kernel, whose clients call `input` and `getOutputData` while the threads of its buffers work.
mod Calls
pub mod Served
pub mod Progress
mod Tests
use finn_cpp_driver.Prelude.{ℕ, Bool, false, ◌≡◌, List, [], ◌∷◌, ◌++◌, some, ok}
use finn_cpp_driver.Circular.{CircularBuffer}
use finn_cpp_driver.Types.{Name, BufferDescriptor, DeviceWrapper}
use finn_cpp_driver.Datatypes.{Datatype}
use finn_cpp_driver.Packing.Pack.{ScalarType, Conversions, pack}
use finn_cpp_driver.Async.Input.{AsyncInput, run_round}
use finn_cpp_driver.Async.Input.Worker.{transferred}
use finn_cpp_driver.Async.Output.{AsyncOutput}
use finn_cpp_driver.Async.Output.Worker
use finn_cpp_driver.Async.Output.Worker.{Pc, syncing}
use finn_cpp_driver.Handler.{DeviceHandler}
use finn_cpp_driver.Handler.Async.{async_buffers}
use finn_cpp_driver.Driver
use finn_cpp_driver.Driver.{BaseDriver, get_output_data}
use finn_cpp_driver.Driver.Typed.{input}

module _ (C : CircularBuffer ℕ) (address : Name → ℕ) where
  -- The driver and where the thread of its output buffer is, with the packed form of all input, the
  -- bytes that reached the device, the results that were saved and those that clients were given.
  pub record Session : Type 0 where
    pub driver : BaseDriver (async_buffers C address)
    pub put : List ℕ
    pub sent : List ℕ
    pub pc : Pc
    pub saved : List ℕ
    pub given : List ℕ

  module _ (w : DeviceWrapper) (idma odma : BufferDescriptor) where
    -- The handler of the device with these buffers.
    abbrev pub handler : AsyncInput C → AsyncOutput C → DeviceHandler (async_buffers C address)
    handler b out = record {
      synchronous_inference = false;
      dev_information = w;
      batchsize = 1;
      input_buffer_map = (idma.kernel_name, b) ∷ [];
      output_buffer_map = (odma.kernel_name, out) ∷ [];
    }

    module _ (K : Conversions) (F S : Datatype) (t : ScalarType) where
      -- A call of `input` or of `getOutputData` that returns, a round of the thread of the input
      -- buffer, and a step of that of the output buffer.
      pub data Step (s : Session) : Session → Type 0 where
        inputs :
            (values : List ℕ) (batch_size : ℕ) {packed : List ℕ}
            {after : BaseDriver (async_buffers C address)}
            → pack K F t values ≡ ok packed
            → input
                (async_buffers C address)
                K
                F
                S
                t
                values
                w.xrt_device_index
                idma.kernel_name
                batch_size
                s.driver
              ≡ ok after
            → Step s (record s { driver = after; put = s.put ++ packed })
        results :
            {bytes : List ℕ} {hs : Driver.Accelerator (async_buffers C address)}
            → get_output_data
                (async_buffers C address)
                w.xrt_device_index
                odma.kernel_name
                s.driver.accelerator
              ≡ ok (bytes, hs)
            → Step s (record s {
              driver = record s.driver { accelerator = hs };
              given = s.given ++ bytes;
            })
        transfers :
            {b b' : AsyncInput C} {out : AsyncOutput C}
            → s.driver.accelerator ≡ handler b out ∷ []
            → run_round C b ≡ ok (some b')
            → Step s (record s {
              driver = record s.driver { accelerator = handler b' out ∷ [] };
              sent = s.sent ++ transferred b';
            })
        output_works :
            {b : AsyncInput C} {out : AsyncOutput C} {o : Worker.System C}
            → s.driver.accelerator ≡ handler b out ∷ []
            → Worker.Step C (record { buffer = out; pc = s.pc; saved = s.saved; given = s.given }) o
            → Step s (record s {
              driver = record s.driver { accelerator = handler b o.buffer ∷ [] };
              pc = o.pc;
              saved = o.saved;
              given = o.given;
            })

      -- From the constructor for a host buffer size of `n` on.
      pub data Reach (is_file : Name → Bool) (n : ℕ) (force : Bool) : Session → Type 0 where
        start :
            {d : BaseDriver (async_buffers C address)}
            → Driver.new (async_buffers C address) is_file false (w ∷ []) n force ≡ ok d
            → Reach is_file n force
                (record { driver = d; put = []; sent = []; pc = syncing; saved = []; given = [] })
        later : {s s' : Session} → Reach is_file n force s → Step s s' → Reach is_file n force s'
