-- ===== src/Buffers/Readback.antt =====
-- core/DeviceBuffer/DeviceBuffer.hpp: the read-back of an input buffer in tests, and
-- `isSyncedDataEquivalent` of core/BaseDriver.hpp on the buffer that it looks up.
use finn_cpp_driver.Prelude.{
  ℕ, ◌^◌, ◌≤◌, ◌<◌, ◌≡◌, ◌↔◌, refl, sym, ap, ◌∙◌, arith, Bool, true, List, ◌∷◌, length, take, leb,
  if◌then◌else◌, Result, ok, err, undefined, ◌>>=◌, ok-inj,
}
use finn_cpp_driver.Utils.{Shape, shape_to_elements}
use finn_cpp_driver.Utils.Shapes.{product, shape_to_elements_lem}
use finn_cpp_driver.Types.{same_name, same_name_self, same_name-eq}
use finn_cpp_driver.Buffers.{DeviceBuffer, sync_from_device}

-- `testGetMap`, undefined when it reads past the mapped memory.
unfoldable pub test_get_map : DeviceBuffer → Result (List ℕ)
test_get_map b =
    if leb (shape_to_elements b.shape_packed) (length b.mapped)
    then ok (take (shape_to_elements b.shape_packed) b.mapped)
    else err undefined

-- `testSyncBackFromDevice`, which transfers the whole buffer object; `fetched` is what it holds.
unfoldable pub test_sync_back_from_device : List ℕ → DeviceBuffer → DeviceBuffer
test_sync_back_from_device fetched b = record b {
  mapped = fetched;
  calls = sync_from_device b.map_size ∷ b.calls;
}

unfoldable pub is_synced_data_equivalent : List ℕ → List ℕ → DeviceBuffer → Result Bool
unfolding test_get_map test_sync_back_from_device
is_synced_data_equivalent fetched values b =
    test_get_map (test_sync_back_from_device fetched b) >>= λ found. ok (same_name found values)

-- On a buffer for a shape of fewer than `2 ^ 31` bytes, and a buffer object with as many bytes, the
-- check says whether the buffer object starts with the values.
pub is_synced_data_equivalent_lem :
    (fetched values : List ℕ) (b : DeviceBuffer) (d : ℕ) (rest : Shape)
    → b.shape_packed ≡ d ∷ rest
    → product (d ∷ rest) < 2 ^ 31
    → product (d ∷ rest) ≤ length fetched
    → (is_synced_data_equivalent fetched values b ≡ ok true)
      ↔ (take (product (d ∷ rest)) fetched ≡ values)
unfolding is_synced_data_equivalent
is_synced_data_equivalent_lem fetched values b d rest shape small room = (
  λ e. same_name-eq _ _ (ok-inj (sym reads ∙ e)),
  λ e. reads ∙ ap (λ xs. ok (same_name xs values)) e ∙ ap ok (same_name_self values),
)
  where
    count : shape_to_elements b.shape_packed ≡ product (d ∷ rest)
    count = ap shape_to_elements shape ∙ shape_to_elements_lem (d ∷ rest) (λ p. cc) small

    fits : leb (product (d ∷ rest)) (length fetched) ≡ true
    fits = ground arith

    reads :
        is_synced_data_equivalent fetched values b
        ≡ ok (same_name (take (product (d ∷ rest)) fetched) values)
    reads = rw (count, fits) refl
