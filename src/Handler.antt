-- ===== src/Handler.antt =====
-- src/FINNCppDriver/core/DeviceHandler.cpp and DeviceHandler.h. The buffer classes come in through
-- an interface, the virtual methods of `DeviceInputBuffer` and `DeviceOutputBuffer`; a map is the
-- list of its entries in the order in which it is walked.
pub mod Sync
pub mod Async
pub mod Config
mod Collisions
pub mod Batch
use finn_cpp_driver.Prelude.{
  ℕ, ◌*◌, ◌%◌, ◌^◌, Bool, true, false, not, ◌&&◌, List, [], ◌∷◌, Option, none, some, ◌==◌, ltb,
  if◌then◌else◌, Result, ok, err, runtime_error, invalid_argument, filesystem_error, out_of_range,
  throw_if, ◌>>=◌, ◌>>◌,
}
use finn_cpp_driver.Utils.{Shape}
use finn_cpp_driver.Types.{
  Name, same_name, is_nil, BufferDescriptor, DeviceWrapper, SizeSpecifier, IoMode, input, output,
  inout, unspecified,
}

-- The methods of the buffer classes. `make_in` and `make_out` construct the synchronous or, on
-- `false`, the asynchronous class.
pub record DeviceBuffers : Type 1 where
  pub In : Type 0
  pub Out : Type 0
  pub make_in : Bool → Name → Shape → ℕ → Result In
  pub make_out : Bool → Name → Shape → ℕ → Result Out
  pub allocate_long_term_storage : ℕ → Out → Result Out
  pub size_in : In → SizeSpecifier → Result ℕ
  pub size_out : Out → SizeSpecifier → Result ℕ
  pub store_in : List ℕ → In → Result (Bool × In)
  pub run_in : In → Result (Bool × In)
  pub run_out : Out → Result (Bool × Out)
  pub wait_out : Out → Result (Bool × Out)
  pub read_out : Out → Result (Bool × Out)
  pub get_data : Out → Result (List ℕ × Out)

module _ {ℓ} {A : Type ℓ} where
  -- `at`, as an option.
  unfoldable pub find : Name → List (Name × A) → Option A
  find name [] = none
  find name ((key, a) ∷ entries) =
      let rest = find name entries in if same_name name key then some a else rest

  unfoldable pub contains : Name → List (Name × A) → Bool
  contains name entries = elim (find name entries) [ some a ↦ true | none ↦ false ]

  -- `emplace`, which keeps the entry that a key has.
  unfoldable pub emplace : Name → A → List (Name × A) → List (Name × A)
  emplace name a entries = if contains name entries then entries else (name, a) ∷ entries

  -- The loops of `run`, `wait` and `read` over one map, with `ret &= …`.
  unfoldable pub for_all :
      (A → Result (Bool × A)) → List (Name × A) → Result (Bool × List (Name × A))
  for_all f [] = ok (true, [])
  for_all f ((key, a) ∷ entries) = do
    done ← f a
    rest ← for_all f entries
    ok (done.0 && rest.0, (key, done.1) ∷ rest.1)

  -- A call on what `at` returns, the first entry of the name.
  unfoldable pub change_at {κ} :
      {X : Type κ} → Name → (A → Result (X × A)) → List (Name × A) → Result (X × List (Name × A))
  change_at name f [] = err out_of_range
  change_at name f ((key, a) ∷ entries) =
      let rest = change_at name f entries in
      if same_name name key
      then (f a >>= λ done. ok (done.0, (key, done.1) ∷ entries))
      else (rest >>= λ after. ok (after.0, (key, a) ∷ after.1))

pub record DeviceHandler (B : DeviceBuffers) : Type 0 where
  pub synchronous_inference : Bool
  pub dev_information : DeviceWrapper
  pub batchsize : ℕ
  pub input_buffer_map : List (Name × B.In)
  pub output_buffer_map : List (Name × B.Out)

-- The checks on one list of buffer descriptions.
unfoldable pub check_descriptors : List BufferDescriptor → Result (Unit {0})
check_descriptors [] = ok tt
check_descriptors (d ∷ ds) = do
  throw_if (is_nil d.kernel_name) invalid_argument
  throw_if (is_nil d.packed_shape) invalid_argument
  check_descriptors ds

-- `checkDeviceWrapper`; `is_file` is whether the path exists and is a regular file.
unfoldable pub check_device_wrapper : (Name → Bool) → DeviceWrapper → Result (Unit {0})
unfolding check_descriptors
check_device_wrapper is_file w = do
  throw_if (is_nil w.xclbin) filesystem_error
  throw_if (not (is_file w.xclbin)) filesystem_error
  throw_if (is_nil w.idmas) invalid_argument
  check_descriptors w.idmas
  throw_if (is_nil w.odmas) invalid_argument
  check_descriptors w.odmas

-- `isBufferMapCollisionFree`, by the sizes of the buckets of both maps; it returns whether some bucket
-- has two entries.
unfoldable pub is_buffer_map_collision_free : List ℕ → List ℕ → Bool
is_buffer_map_collision_free [] [] = false
is_buffer_map_collision_free [] (size ∷ outputs) =
    let rest = is_buffer_map_collision_free [] outputs in if ltb 1 size then true else rest
is_buffer_map_collision_free (size ∷ inputs) outputs =
    let rest = is_buffer_map_collision_free inputs outputs in if ltb 1 size then true else rest

module _ (B : DeviceBuffers) where
  unfoldable pub make_inputs :
      Bool → ℕ → List BufferDescriptor → List (Name × B.In) → Result (List (Name × B.In))
  make_inputs sync size [] entries = ok entries
  make_inputs sync size (d ∷ ds) entries = do
    b ← B.make_in sync d.kernel_name d.packed_shape size
    make_inputs sync size ds (emplace d.kernel_name b entries)

  unfoldable pub make_outputs :
      Bool → ℕ → List BufferDescriptor → List (Name × B.Out) → Result (List (Name × B.Out))
  make_outputs sync size [] entries = ok entries
  make_outputs sync size (d ∷ ds) entries = do
    b ← B.make_out sync d.kernel_name d.packed_shape size
    made ← if sync then ok b else B.allocate_long_term_storage (size * 5 % 2 ^ 32) b
    make_outputs sync size ds (emplace d.kernel_name made entries)

  -- `initializeBufferObjects`
  unfoldable pub initialize_buffer_objects :
      DeviceWrapper → ℕ → Bool → DeviceHandler B → Result (DeviceHandler B)
  initialize_buffer_objects w size sync h = do
    inputs ← make_inputs sync size w.idmas h.input_buffer_map
    outputs ← make_outputs sync size w.odmas h.output_buffer_map
    ok (record h { input_buffer_map = inputs; output_buffer_map = outputs })

  -- The constructor. The member `batchsize` starts at 1.
  unfoldable pub new : (Name → Bool) → DeviceWrapper → Bool → ℕ → Result (DeviceHandler B)
  unfolding check_device_wrapper initialize_buffer_objects
  new is_file w sync host_buffer_size = do
    check_device_wrapper is_file w
    initialize_buffer_objects w host_buffer_size sync (record {
      synchronous_inference = sync;
      dev_information = w;
      batchsize = 1;
      input_buffer_map = [];
      output_buffer_map = [];
    })

  unfoldable pub set_batch_size : ℕ → DeviceHandler B → Result (DeviceHandler B)
  unfolding initialize_buffer_objects
  set_batch_size n h =
      if h.batchsize == n
      then ok h
      else initialize_buffer_objects h.dev_information n h.synchronous_inference
          (record h { batchsize = n; input_buffer_map = []; output_buffer_map = [] })

  unfoldable pub contains_buffer : Name → IoMode → DeviceHandler B → Bool
  contains_buffer name input h = contains name h.input_buffer_map
  contains_buffer name output h = contains name h.output_buffer_map
  contains_buffer name inout h = false
  contains_buffer name unspecified h = false

  -- Outputs are started before inputs.
  unfoldable pub run : DeviceHandler B → Result (Bool × DeviceHandler B)
  run h = do
    outputs ← for_all B.run_out h.output_buffer_map
    inputs ← for_all B.run_in h.input_buffer_map
    ok (
      outputs.0 && inputs.0,
      record h { input_buffer_map = inputs.1; output_buffer_map = outputs.1 },
    )

  unfoldable pub wait : DeviceHandler B → Result (Bool × DeviceHandler B)
  wait h = do
    outputs ← for_all B.wait_out h.output_buffer_map
    ok (outputs.0, record h { output_buffer_map = outputs.1 })

  unfoldable pub read : DeviceHandler B → Result (Bool × DeviceHandler B)
  read h = do
    outputs ← for_all B.read_out h.output_buffer_map
    ok (outputs.0, record h { output_buffer_map = outputs.1 })

  unfoldable pub retrieve_results : Name → DeviceHandler B → Result (List ℕ × DeviceHandler B)
  retrieve_results name h = do
    throw_if (not (contains name h.output_buffer_map)) runtime_error
    found ← change_at name B.get_data h.output_buffer_map
    ok (found.0, record h { output_buffer_map = found.1 })

  unfoldable pub size : SizeSpecifier → Name → DeviceHandler B → Result ℕ
  size ss name h = elim (find name h.input_buffer_map) [
    | some b ↦ B.size_in b ss
    | none ↦ elim (find name h.output_buffer_map) [ some b ↦ B.size_out b ss | none ↦ ok 0 ]
  ]

  -- `storeUnchecked`
  unfoldable pub store_unchecked : List ℕ → Name → DeviceHandler B → Result (Bool × DeviceHandler B)
  store_unchecked values name h = do
    stored ← change_at name (B.store_in values) h.input_buffer_map
    ok (stored.0, record h { input_buffer_map = stored.1 })
