-- ===== src/Handler/Async.antt =====
-- The interface of `DeviceHandler` filled with the asynchronous buffer classes of
-- core/DeviceBuffer/AsyncDeviceBuffers.hpp. The addresses are those of XRT, and `busyWait` is taken to
-- have seen the idle bit; a store that waits for the thread of the buffer is `blocked`. Only handlers
-- for asynchronous inference use this instance: it makes no buffer for the others.
use finn_cpp_driver.Prelude.{ℕ, true, none, some, ok, err, undefined, blocked, if◌then◌else◌, ◌>>=◌}
use finn_cpp_driver.Circular.{CircularBuffer}
use finn_cpp_driver.Types.{Name}
use finn_cpp_driver.Async.Input
use finn_cpp_driver.Async.Input.{AsyncInput}
use finn_cpp_driver.Async.Output
use finn_cpp_driver.Async.Output.{AsyncOutput}
use finn_cpp_driver.Handler.{DeviceBuffers}

module _ (C : CircularBuffer ℕ) (address : Name → ℕ) where
  abbrev pub async_buffers : DeviceBuffers
  async_buffers = record {
    In = AsyncInput C;
    Out = AsyncOutput C;
    make_in = λ sync name shape n.
        if sync then err undefined else Input.make C (address name) name shape n;
    make_out = λ sync name shape n.
        if sync then err undefined else Output.make C (address name) name shape n;
    allocate_long_term_storage = λ n o. ok o;
    size_in = Input.size C;
    size_out = Output.size C;
    store_in = λ values b. Input.store C values b >>= λ stored. elim stored [
      | none ↦ err blocked
      | some b' ↦ ok (true, b')
    ];
    run_in = λ b. ok (Input.run C b);
    run_out = λ o. ok (Output.run C o);
    wait_out = λ o. ok (true, o);
    read_out = λ o. ok (Output.read C o);
    get_data = λ o. ok (Output.get_data C o);
  }
