-- ===== src/Driver.antt =====
-- src/FINNCppDriver/core/Accelerator.cpp and core/BaseDriver.hpp: the devices, the defaults, and
-- inference on raw bytes.
pub mod Batch
pub mod Access
pub mod Inference
pub mod Sync
pub mod Typed
pub mod Async
mod SyncTests
mod Tests
use finn_cpp_driver.Prelude.{
  ℕ, Bool, true, false, not, ◌&&◌, List, [], ◌∷◌, length, ◌==◌, if◌then◌else◌, Result, ok, err,
  runtime_error, undefined, throw_if, ◌>>=◌, ◌>>◌,
}
use finn_cpp_driver.Types.{Name, is_nil, Config, SizeSpecifier, total_data_size, input}
use finn_cpp_driver.Handler
use finn_cpp_driver.Handler.{DeviceBuffers, DeviceHandler}

module _ (B : DeviceBuffers) where
  abbrev pub Accelerator : Type 0
  Accelerator = List (DeviceHandler B)

  -- The constructor of `Accelerator`.
  pub new_accelerator : (Name → Bool) → Config → Bool → ℕ → Result Accelerator
  new_accelerator is_file [] sync size = ok []
  new_accelerator is_file (w ∷ ws) sync size = do
    h ← Handler.new B is_file w sync size
    hs ← new_accelerator is_file ws sync size
    ok (h ∷ hs)

  abbrev pub device_index : DeviceHandler B → ℕ
  device_index h = h.dev_information.xrt_device_index

  pub contains_device : ℕ → Accelerator → Bool
  contains_device index [] = false
  contains_device index (h ∷ hs) =
      let rest = contains_device index hs in if device_index h == index then true else rest

  unfoldable pub get_device_handler : ℕ → Accelerator → Result (DeviceHandler B)
  get_device_handler index [] = err runtime_error
  get_device_handler index (h ∷ hs) =
      let rest = get_device_handler index hs in if device_index h == index then ok h else rest

  -- A call that changes the handler `getDeviceHandler(index)`.
  pub on_device :
      {A : Type 0}
      → ℕ
      → (DeviceHandler B → Result (A × DeviceHandler B))
      → Accelerator
      → Result (A × Accelerator)
  on_device index f [] = err runtime_error
  on_device index f (h ∷ hs) =
      let rest = on_device index f hs in
      if device_index h == index
      then (f h >>= λ done. ok (done.0, done.1 ∷ hs))
      else (rest >>= λ done. ok (done.0, h ∷ done.1))

  -- The checks of `storeFactory`; the closure that it returns is `store_unchecked` on the device.
  unfoldable pub store_factory : ℕ → Name → Accelerator → Result (Unit {0})
  unfolding contains_device get_device_handler
  store_factory index name hs = do
    throw_if (is_nil hs) runtime_error
    throw_if (not (contains_device index hs)) runtime_error
    h ← get_device_handler index hs
    throw_if (not (Handler.contains_buffer B name input h)) runtime_error

  -- `Accelerator::setBatchSize`
  pub set_batch_sizes : ℕ → Accelerator → Result Accelerator
  set_batch_sizes n [] = ok []
  set_batch_sizes n (h ∷ hs) = do
    h' ← Handler.set_batch_size B n h
    hs' ← set_batch_sizes n hs
    ok (h' ∷ hs')

  -- The loops of `run`, `wait` and `read`.
  pub each_device :
      (DeviceHandler B → Result (Bool × DeviceHandler B))
      → Accelerator
      → Result (Bool × Accelerator)
  each_device f [] = ok (true, [])
  each_device f (h ∷ hs) = do
    done ← f h
    rest ← each_device f hs
    ok (done.0 && rest.0, done.1 ∷ rest.1)

  -- An unknown device index falls back to device 0.
  unfoldable pub get_output_data : ℕ → Name → Accelerator → Result (List ℕ × Accelerator)
  unfolding contains_device on_device
  get_output_data index name hs =
      if contains_device index hs
      then on_device index (Handler.retrieve_results B name) hs
      else if contains_device 0 hs
      then on_device 0 (Handler.retrieve_results B name) hs
      else err runtime_error

  unfoldable pub size : SizeSpecifier → ℕ → Name → Accelerator → Result ℕ
  unfolding get_device_handler
  size ss index name hs = get_device_handler index hs >>= Handler.size B ss name

-- `BaseDriver`
pub record BaseDriver (B : DeviceBuffers) : Type 0 where
  pub accelerator : Accelerator B
  pub configuration : Config
  pub default_input_device_index : ℕ
  pub default_input_kernel_name : Name
  pub default_output_device_index : ℕ
  pub default_output_kernel_name : Name
  pub batch_elements : ℕ
  pub force_achieval : Bool

-- `[0]` of a vector, undefined on an empty one.
unfoldable pub front {ℓ} : {A : Type ℓ} → List A → Result A
front [] = err undefined
front (x ∷ xs) = ok x

module _ (B : DeviceBuffers) where
  -- The constructors, by `initializeBaseDriver`.
  unfoldable pub new : (Name → Bool) → Bool → Config → ℕ → Bool → Result (BaseDriver B)
  unfolding front
  new is_file sync config batch_size force = do
    hs ← new_accelerator B is_file config sync batch_size
    w ← front config
    i ← front w.idmas
    o ← front w.odmas
    ok (record {
      accelerator = hs;
      configuration = config;
      default_input_device_index = w.xrt_device_index;
      default_input_kernel_name = i.kernel_name;
      default_output_device_index = w.xrt_device_index;
      default_output_kernel_name = o.kernel_name;
      batch_elements = batch_size;
      force_achieval = force;
    })

  -- The constructors that are given indexes and names: they pass none of them on.
  unfoldable pub new_with_defaults :
      (Name → Bool) → Bool → Config → ℕ → Name → ℕ → Name → ℕ → Bool → Result (BaseDriver B)
  unfolding new
  new_with_defaults is_file sync config input_index input_name output_index output_name batch_size
        force =
      new is_file sync config batch_size force

  unfoldable pub set_default_input_device_index : ℕ → BaseDriver B → BaseDriver B
  set_default_input_device_index index d = record d { default_input_device_index = index }

  unfoldable pub set_default_output_device_index : ℕ → BaseDriver B → BaseDriver B
  set_default_output_device_index index d = record d { default_output_device_index = index }

  unfoldable pub set_default_input_kernel_name : Name → BaseDriver B → BaseDriver B
  set_default_input_kernel_name name d = record d { default_input_kernel_name = name }

  unfoldable pub set_default_output_kernel_name : Name → BaseDriver B → BaseDriver B
  set_default_output_kernel_name name d = record d { default_input_kernel_name = name }

  unfoldable pub set_batch_size : ℕ → BaseDriver B → Result (BaseDriver B)
  set_batch_size n d = do
    hs ← set_batch_sizes B n d.accelerator
    ok (record d { batch_elements = n; accelerator = hs })

  -- `infer` on bytes: what it returns, and the driver after.
  unfoldable pub infer :
      List ℕ → ℕ → Name → ℕ → Name → BaseDriver B → Result (List ℕ × BaseDriver B)
  infer values input_index input_name output_index output_name d = do
    store_factory B input_index input_name d.accelerator
    total ← size B total_data_size input_index input_name d.accelerator
    throw_if (not (length values == total)) runtime_error
    stored ← on_device B input_index (Handler.store_unchecked B values input_name) d.accelerator
    started ← each_device B (Handler.run B) stored.1
    waited ← each_device B (Handler.wait B) started.1
    fetched ← each_device B (Handler.read B) waited.1
    out ← get_output_data B output_index output_name fetched.1
    ok (out.0, record d { accelerator = out.1 })

  -- The bytes that `getResults()` unpacks, and the driver after.
  unfoldable pub default_results : BaseDriver B → Result (List ℕ × BaseDriver B)
  default_results d = do
    out ← get_output_data B d.default_output_device_index d.default_output_kernel_name d.accelerator
    ok (out.0, record d { accelerator = out.1 })

  -- `infer` as the call with the defaults reaches it.
  unfoldable pub infer_default : List ℕ → BaseDriver B → Result (List ℕ × BaseDriver B)
  unfolding infer
  infer_default values d =
      infer values d.default_input_device_index d.default_input_kernel_name
        d.default_output_device_index d.default_output_kernel_name d
