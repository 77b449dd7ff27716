-- ===== src/Buffers.antt =====
-- src/FINNCppDriver/core/DeviceBuffer: DeviceBuffer.hpp and SyncDeviceBuffers.hpp at `T = uint8_t`.
-- Calls of XRT are recorded, newest first; the address of a buffer object and what a transfer from
-- the device leaves in the mapped memory are parameters.
pub mod Input
pub mod Output
pub mod Registers
pub mod Sizes
pub mod Wait
mod Readback
mod Tests
use finn_cpp_driver.Prelude.{
  ℕ, ◌*◌, ◌/◌, ◌%◌, ◌^◌, List, [], ◌∷◌, replicate, ◌==◌, if◌then◌else◌, Result, ok, err, undefined,
  ◌>>=◌,
}
use finn_cpp_driver.Utils.{Shape, shape_to_elements, get_actual_buffer_size}
use finn_cpp_driver.Types.{
  Name, SizeSpecifier, bytes, total_data_size, batchsize, featuremap_size, invalid,
}

pub data XrtCall : Type 0 where
  write_register : ℕ → ℕ → XrtCall
  sync_to_device sync_from_device : ℕ → XrtCall

pub record DeviceBuffer : Type 0 where
  pub name : Name
  pub shape_packed : Shape
  pub map_size : ℕ
  pub mapped : List ℕ
  pub buf_adr : ℕ
  pub old_repetitions : ℕ
  pub calls : List XrtCall

-- `shapePacked[0] = n`
unfoldable pub set_first : ℕ → Shape → Result Shape
set_first n [] = err undefined
set_first n (d ∷ ds) = ok (n ∷ ds)

-- `shapePacked[0]`
pub first : Shape → Result ℕ
first [] = err undefined
first (d ∷ ds) = ok d

-- The constructor of `DeviceBuffer`, with `internalBo.address()` as its first argument.
unfoldable pub new : ℕ → Name → Shape → ℕ → Result DeviceBuffer
unfolding set_first
new adr name shape batch_size = do
  let map_size = get_actual_buffer_size (shape_to_elements shape * batch_size % 2 ^ 64)
  packed ← set_first batch_size shape
  ok (record {
    name = name;
    shape_packed = packed;
    map_size = map_size;
    mapped = replicate map_size 0;
    buf_adr = adr;
    old_repetitions = 0;
    calls = [];
  })

unfoldable pub execute : ℕ → DeviceBuffer → DeviceBuffer
execute repetitions b =
    if repetitions == b.old_repetitions
    then record b { calls = write_register 0 1 ∷ b.calls }
    else record b {
      old_repetitions = repetitions;
      calls =
          write_register 0 1
          ∷ write_register 28 repetitions
          ∷ write_register 20 (b.buf_adr / 2 ^ 32 % 2 ^ 32)
          ∷ write_register 16 (b.buf_adr % 2 ^ 32)
          ∷ b.calls;
    }

-- `size` of a buffer with `count` elements under `shape`; `shapePacked[0]` divides.
unfoldable pub size_of : ℕ → Shape → SizeSpecifier → Result ℕ
unfolding first
size_of count shape bytes = ok count
size_of count shape featuremap_size = do
  n ← first shape
  if n == 0 then err undefined else ok (count / n)
size_of count shape batchsize = first shape
size_of count shape total_data_size = ok count
size_of count shape invalid = ok 0
