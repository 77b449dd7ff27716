-- ===== src/Async/Output.antt =====
-- core/DeviceBuffer/AsyncDeviceBuffers.hpp: `AsyncDeviceOutputBuffer`.
pub mod Worker
pub mod Order
pub mod Kept
use finn_cpp_driver.Prelude.{
  ℕ, Bool, false, List, [], ◌∷◌, ◌++◌, length, take, ltb, Option, none, some, Result, ok, undefined,
  throw_if, ◌>>=◌, ◌>>◌,
}
use finn_cpp_driver.Circular.{CircularBuffer}
use finn_cpp_driver.Utils.{Shape, shape_to_elements}
use finn_cpp_driver.Types.{Name, SizeSpecifier}
use finn_cpp_driver.RingBuffer
use finn_cpp_driver.RingBuffer.{RingBuffer, read_all_valid_parts}
use finn_cpp_driver.Buffers
use finn_cpp_driver.Buffers.{DeviceBuffer, sync_from_device}
use finn_cpp_driver.Async.{make_ring, store_shared}

pub record AsyncOutput (C : CircularBuffer ℕ) : Type 0 where
  pub base : DeviceBuffer
  pub ring : RingBuffer C
  pub long_term_storage : List ℕ

module _ (C : CircularBuffer ℕ) where
  -- The constructor, with the address of the buffer object first; the batch size of the base is 1.
  unfoldable pub make : ℕ → Name → Shape → ℕ → Result (AsyncOutput C)
  make adr name shape factor = do
    base ← Buffers.new adr name shape 1
    ring ← make_ring C factor (shape_to_elements shape)
    ok (record { base = base; ring = ring; long_term_storage = [] })

  unfoldable pub size : AsyncOutput C → SizeSpecifier → Result ℕ
  size o ss = RingBuffer.size C o.ring 1 ss

  -- `sync(elementCount)` of `readInternal`; the transfer leaves `fetched` in the mapped memory.
  unfoldable pub sync : List ℕ → AsyncOutput C → AsyncOutput C
  sync fetched o = record o {
    base = record o.base {
      mapped = fetched;
      calls = sync_from_device o.ring.elements_per_part ∷ o.base.calls;
    };
  }

  -- `saveMap`, undefined when it reads past the mapped memory.
  unfoldable pub save_map : AsyncOutput C → Result (Option (AsyncOutput C))
  save_map o = do
    throw_if (ltb (length o.base.mapped) o.ring.elements_per_part) undefined
    stored ← store_shared C (take o.ring.elements_per_part o.base.mapped) o.ring
    ok (elim stored [ none ↦ none | some ring ↦ some (record o { ring = ring }) ])

  -- What `readAllValidParts` writes goes to the end of the storage.
  unfoldable pub archive_valid_buffer_parts : AsyncOutput C → AsyncOutput C
  archive_valid_buffer_parts o =
      let found = read_all_valid_parts C o.ring in
      record o { ring = found.2; long_term_storage = o.long_term_storage ++ found.1 }

  unfoldable pub clear_archive : AsyncOutput C → AsyncOutput C
  clear_archive o = record o { long_term_storage = [] }

  unfoldable pub get_data : AsyncOutput C → List ℕ × AsyncOutput C
  unfolding clear_archive
  get_data o = (o.long_term_storage, clear_archive o)

  unfoldable pub read : AsyncOutput C → Bool × AsyncOutput C
  read o = (false, o)

  unfoldable pub run : AsyncOutput C → Bool × AsyncOutput C
  run o = (false, o)
