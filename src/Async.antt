-- ===== src/Async.antt =====
-- src/FINNCppDriver/core/DeviceBuffer/AsyncDeviceBuffers.hpp at `T = uint8_t`: device buffers that own
-- a shared ring buffer, which a thread of theirs empties into the device or fills from it. A call
-- that has to wait for another thread returns `none`.
pub mod Input
pub mod Output
mod Shared
mod Tests
use finn_cpp_driver.Prelude.{
  ℕ, List, length, drop, ◌++◌, ltb, leb, ◌==◌, if◌then◌else◌, Option, none, some, Result, ok, err,
  runtime_error, undefined, throw_if, ◌>>=◌, ◌>>◌,
}
use finn_cpp_driver.Circular.{CircularBuffer}
use finn_cpp_driver.RingBuffer
use finn_cpp_driver.RingBuffer.{RingBuffer, check_store, free_space, insert}
use finn_cpp_driver.Buffers.{DeviceBuffer}

-- The constructor of `AsyncBufferWrapper`: that of the ring buffer runs before the check.
unfoldable pub make_ring : (C : CircularBuffer ℕ) → ℕ → ℕ → Result (RingBuffer C)
make_ring C factor elements_per_part = do
  ring ← RingBuffer.new C factor elements_per_part
  throw_if (factor == 0) runtime_error
  ok ring

-- `RingBuffer::store` with `multiThreaded` on, up to the point where it waits.
unfoldable pub store_shared :
    (C : CircularBuffer ℕ) → List ℕ → RingBuffer C → Result (Option (RingBuffer C))
unfolding check_store free_space
store_shared C values r = do
  check_store C values r
  if ltb (free_space C r) (length values) then ok none else ok (some (insert C values r))

-- `std::copy` into the mapped memory, undefined past its end.
unfoldable pub copy_to_map : List ℕ → DeviceBuffer → Result DeviceBuffer
copy_to_map values b =
    if leb (length values) (length b.mapped)
    then ok (record b { mapped = values ++ drop (length values) b.mapped })
    else err undefined
