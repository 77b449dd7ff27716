-- ===== src/Handler/Sync.antt =====
-- The interface of `DeviceHandler` filled with the synchronous buffer classes of
-- core/DeviceBuffer/SyncDeviceBuffers.hpp. The addresses and the transfers from the device are those
-- of XRT, and `busyWait` is taken to have seen the idle bit. Only handlers for synchronous
-- inference use this instance: it makes no buffer for the others.
use finn_cpp_driver.Prelude.{ℕ, true, List, ok, err, undefined, if◌then◌else◌, ◌>>=◌}
use finn_cpp_driver.Types.{Name}
use finn_cpp_driver.Buffers.{DeviceBuffer}
use finn_cpp_driver.Buffers.Input
use finn_cpp_driver.Buffers.Output
use finn_cpp_driver.Handler.{DeviceBuffers}

module _ (address : Name → ℕ) (fetch : Name → ℕ → List ℕ → List ℕ) where
  abbrev pub sync_buffers : DeviceBuffers
  sync_buffers = record {
    In = DeviceBuffer;
    Out = Output.OutputBuffer;
    make_in =
        λ sync name shape n. if sync then Input.make (address name) name shape n else err undefined;
    make_out = λ sync name shape n.
        if sync then Output.make (address name) name shape n else err undefined;
    allocate_long_term_storage = λ n o. err undefined;
    size_in = Input.size;
    size_out = Output.size;
    store_in = Input.store;
    run_in = Input.run;
    run_out = Output.run;
    wait_out = λ o. ok (true, o);
    read_out = λ o. ok (Output.read (fetch o.base.name) o);
    get_data = λ o. Output.get_data o >>= λ bytes. ok (bytes, o);
  }
