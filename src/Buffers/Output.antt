-- ===== src/Buffers/Output.antt =====
-- core/DeviceBuffer/SyncDeviceBuffers.hpp: `SyncDeviceOutputBuffer`. Its constructor leaves the batch
-- size of the base at its default, 1.
use finn_cpp_driver.Prelude.{
  ℕ, Bool, true, List, ◌∷◌, length, take, leb, if◌then◌else◌, Result, ok, err, undefined, ◌>>=◌,
}
use finn_cpp_driver.Utils.{Shape, shape_to_elements}
use finn_cpp_driver.Types.{Name, SizeSpecifier}
use finn_cpp_driver.Buffers.{
  sync_from_device, DeviceBuffer, set_first, first, new, execute, size_of,
}

pub record OutputBuffer : Type 0 where
  pub base : DeviceBuffer
  pub element_count : ℕ

unfoldable pub make : ℕ → Name → Shape → ℕ → Result OutputBuffer
unfolding set_first
make adr name shape batch_size = do
  b ← new adr name shape 1
  packed ← set_first batch_size b.shape_packed
  ok (record {
    base = record b { shape_packed = packed };
    element_count = shape_to_elements packed;
  })

unfoldable pub size : OutputBuffer → SizeSpecifier → Result ℕ
size o ss = size_of o.element_count o.base.shape_packed ss

-- `getData` copies `elementCount` bytes of the mapped memory, undefined past its end.
unfoldable pub get_data : OutputBuffer → Result (List ℕ)
get_data o =
    if leb o.element_count (length o.base.mapped)
    then ok (take o.element_count o.base.mapped)
    else err undefined

unfoldable pub run : OutputBuffer → Result (Bool × OutputBuffer)
unfolding first
run o = do n ← first o.base.shape_packed; ok (true, record o { base = execute n o.base })

-- `fetch n` is what a transfer of `n` bytes makes of the mapped memory.
unfoldable pub read : (ℕ → List ℕ → List ℕ) → OutputBuffer → Bool × OutputBuffer
read fetch o = (
  true,
  record o {
    base = record o.base {
      mapped = fetch o.element_count o.base.mapped;
      calls = sync_from_device o.element_count ∷ o.base.calls;
    };
  },
)
