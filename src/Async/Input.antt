-- ===== src/Async/Input.antt =====
-- core/DeviceBuffer/AsyncDeviceBuffers.hpp: `AsyncDeviceInputBuffer`.
pub mod Worker
pub mod Order
use finn_cpp_driver.Prelude.{ℕ, Bool, true, false, List, ◌∷◌, Option, none, some, Result, ok, ◌>>=◌}
use finn_cpp_driver.Circular.{CircularBuffer}
use finn_cpp_driver.Utils.{Shape, shape_to_elements}
use finn_cpp_driver.Types.{Name, SizeSpecifier}
use finn_cpp_driver.RingBuffer
use finn_cpp_driver.RingBuffer.{RingBuffer, read}
use finn_cpp_driver.Buffers
use finn_cpp_driver.Buffers.{DeviceBuffer, sync_to_device}
use finn_cpp_driver.Async.{make_ring, store_shared, copy_to_map}

pub record AsyncInput (C : CircularBuffer ℕ) : Type 0 where
  pub base : DeviceBuffer
  pub ring : RingBuffer C

module _ (C : CircularBuffer ℕ) where
  -- The constructor, with the address of the buffer object first; the batch size of the base is 1.
  unfoldable pub make : ℕ → Name → Shape → ℕ → Result (AsyncInput C)
  make adr name shape factor = do
    base ← Buffers.new adr name shape 1
    ring ← make_ring C factor (shape_to_elements shape)
    ok (record { base = base; ring = ring })

  unfoldable pub size : AsyncInput C → SizeSpecifier → Result ℕ
  size b ss = RingBuffer.size C b.ring 1 ss

  unfoldable pub store : List ℕ → AsyncInput C → Result (Option (AsyncInput C))
  store values b = do
    stored ← store_shared C values b.ring
    ok (elim stored [ none ↦ none | some ring ↦ some (record b { ring = ring }) ])

  -- `loadMap`, which waits for a part.
  loaded : AsyncInput C → Bool × List ℕ × RingBuffer C → Result (Option (AsyncInput C))
  loaded b (false, out, ring) = ok none
  loaded b (true, out, ring) = do
    base ← copy_to_map out b.base
    ok (some (record { base = base; ring = ring }))

  unfoldable pub load_map : AsyncInput C → Result (Option (AsyncInput C))
  unfolding loaded
  load_map b = loaded b (read C b.ring)

  -- `sync(elementCount)`, with the count that `runInternal` takes from the ring buffer.
  unfoldable pub sync : AsyncInput C → AsyncInput C
  sync b = record b {
    base = record b.base { calls = sync_to_device b.ring.elements_per_part ∷ b.base.calls };
  }

  -- One round of the loop of `runInternal`.
  unfoldable pub run_round : AsyncInput C → Result (Option (AsyncInput C))
  unfolding load_map
  run_round b = do
    round ← load_map b
    ok (elim round [ none ↦ none | some full ↦ some (sync full) ])

  unfoldable pub run : AsyncInput C → Bool × AsyncInput C
  run b = (false, b)
