-- ===== src/Buffers/Input.antt =====
-- core/DeviceBuffer/SyncDeviceBuffers.hpp: `SyncDeviceInputBuffer`.
use finn_cpp_driver.Prelude.{
  ℕ, Bool, true, List, ◌∷◌, ◌++◌, length, drop, leb, if◌then◌else◌, Result, ok, err, undefined,
  ◌>>=◌,
}
use finn_cpp_driver.Utils.{Shape, shape_to_elements}
use finn_cpp_driver.Types.{Name, SizeSpecifier}
use finn_cpp_driver.Buffers.{sync_to_device, DeviceBuffer, set_first, first, new, execute, size_of}

unfoldable pub make : ℕ → Name → Shape → ℕ → Result DeviceBuffer
unfolding set_first
make adr name shape batch_size = do
  b ← new adr name shape batch_size
  packed ← set_first batch_size b.shape_packed
  ok (record b { shape_packed = packed })

unfoldable pub size : DeviceBuffer → SizeSpecifier → Result ℕ
size b ss = size_of (shape_to_elements b.shape_packed) b.shape_packed ss

-- `std::copy` into the mapped memory, undefined past its end.
unfoldable pub store : List ℕ → DeviceBuffer → Result (Bool × DeviceBuffer)
store values b =
    if leb (length values) (length b.mapped)
    then ok (true, record b { mapped = values ++ drop (length values) b.mapped })
    else err undefined

unfoldable pub run : DeviceBuffer → Result (Bool × DeviceBuffer)
unfolding first
run b = do
  n ← first b.shape_packed
  let count = shape_to_elements b.shape_packed
  ok (true, execute n (record b { calls = sync_to_device count ∷ b.calls }))
