-- ===== src/Configuration.antt =====
-- src/FINNCppDriver/utils/ConfigurationStructs.h: the configuration as it is read from a file. JSON
-- values are those of a library, which comes in as an interface; a pointer is an option.
pub mod RoundTrip
mod Tests
use finn_cpp_driver.Prelude.{
  ℕ, Bool, not, List, [], ◌∷◌, map, if◌then◌else◌, Option, none, some, Result, ok, err, undefined,
  filesystem_error, out_of_range, throw_if, traverse, codes, get_elem?, ◌>>=◌, ◌>>◌,
}
use finn_cpp_driver.Utils.{Shape}
use finn_cpp_driver.Types.{Name, BufferDescriptor, DeviceWrapper, Config}

-- What is called of `nlohmann::json`: reading, and making values of values. `items` is what a loop
-- over a value visits.
pub record Json : Type 1 where
  pub Value : Type 0
  pub parse : List ℕ → Result Value
  pub is_null : Value → Bool
  pub at : Value → Name → Result Value
  pub get_string : Value → Result Name
  pub get_unsigned : Value → Result ℕ
  pub get_array : Value → Result (List Value)
  pub items : Value → List Value
  pub null : Value
  pub of_string : Name → Value
  pub of_unsigned : ℕ → Value
  pub of_array : List Value → Value
  pub of_object : List (Name × Value) → Value

-- A `DeviceWrapper` that was read: its pointers may be null.
pub record LoadedWrapper : Type 0 where
  pub xclbin : Name
  pub xrt_device_index : ℕ
  pub idmas : List (Option BufferDescriptor)
  pub odmas : List (Option BufferDescriptor)

module _ (J : Json) where
  abbrev pub of_shape : Shape → J.Value
  of_shape shape = J.of_array (map J.of_unsigned shape)

  abbrev pub get_shape : J.Value → Result Shape
  get_shape v = J.get_array v >>= traverse J.get_unsigned

  -- `to_json` and `from_json` on `ExtendedBufferDescriptor`.
  unfoldable pub to_json : BufferDescriptor → J.Value
  to_json d = J.of_object (
      (codes "kernelName", J.of_string d.kernel_name)
      ∷ (codes "packedShape", of_shape d.packed_shape)
      ∷ (codes "normalShape", of_shape d.normal_shape)
      ∷ (codes "foldedShape", of_shape d.folded_shape)
      ∷ [])

  unfoldable pub from_json : J.Value → Result BufferDescriptor
  from_json j = do
    kernel_name ← J.at j (codes "kernelName") >>= J.get_string
    packed_shape ← J.at j (codes "packedShape") >>= get_shape
    normal_shape ← J.at j (codes "normalShape") >>= get_shape
    folded_shape ← J.at j (codes "foldedShape") >>= get_shape
    ok (record {
      kernel_name = kernel_name;
      packed_shape = packed_shape;
      normal_shape = normal_shape;
      folded_shape = folded_shape;
    })

  -- The same on a `shared_ptr`, by `adl_serializer`.
  unfoldable pub pointer_to_json : Option BufferDescriptor → J.Value
  unfolding to_json
  pointer_to_json none = J.null
  pointer_to_json (some d) = to_json d

  unfoldable pub pointer_from_json : J.Value → Result (Option BufferDescriptor)
  unfolding from_json
  pointer_from_json j = if J.is_null j then ok none else (from_json j >>= λ d. ok (some d))

  -- `from_json` on `DeviceWrapper`.
  unfoldable pub wrapper_from_json : J.Value → Result LoadedWrapper
  unfolding pointer_from_json
  wrapper_from_json j = do
    xclbin ← J.at j (codes "xclbinPath") >>= J.get_string
    index ← J.at j (codes "xrtDeviceIndex") >>= J.get_unsigned
    idmas ← J.at j (codes "idmas") >>= J.get_array >>= traverse pointer_from_json
    odmas ← J.at j (codes "odmas") >>= J.get_array >>= traverse pointer_from_json
    ok (record { xclbin = xclbin; xrt_device_index = index; idmas = idmas; odmas = odmas })

  -- `createConfigFromPath`, by whether the path is that of a regular file and by what it holds.
  unfoldable pub create_config_from_path :
      (Name → Bool) → (Name → List ℕ) → Name → Result (List LoadedWrapper)
  unfolding wrapper_from_json
  create_config_from_path is_file contents config_path = do
    throw_if (not (is_file config_path)) filesystem_error
    data_json ← J.parse (contents config_path)
    traverse wrapper_from_json (J.items data_json)

-- `*pointer`
unfoldable pub dereference : Option BufferDescriptor → Result BufferDescriptor
dereference none = err undefined
dereference (some d) = ok d

-- The rest of the model takes the descriptions without their pointers. `checkDeviceWrapper`, which
-- every configuration goes through, reads through each of them.
unfoldable pub dereferenced : LoadedWrapper → Result DeviceWrapper
unfolding dereference
dereferenced w = do
  idmas ← traverse dereference w.idmas
  odmas ← traverse dereference w.odmas
  ok (record {
    xclbin = w.xclbin;
    xrt_device_index = w.xrt_device_index;
    idmas = idmas;
    odmas = odmas;
  })

-- `at` of a vector.
unfoldable pub checked_at {ℓ} : {A : Type ℓ} → List A → ℕ → Result A
checked_at xs i = elim (get_elem? xs i) [ none ↦ err out_of_range | some x ↦ ok x ]

-- `getConfigShapes`: the normal, the folded and the packed shape of an input.
unfoldable pub get_config_shapes : Config → ℕ → ℕ → Result (Shape × Shape × Shape)
unfolding checked_at
get_config_shapes conf device dma = do
  w ← checked_at conf device
  d ← checked_at w.idmas dma
  ok (d.normal_shape, d.folded_shape, d.packed_shape)
