-- ===== src/Handler/Config.antt =====
-- Which configurations the checks of `DeviceHandler` let through.
use finn_cpp_driver.Prelude.{
  ◌≡◌, refl, ◌↔◌, ◌≢◌, Bool, true, false, not, List, [], ◌∷◌, All, Result, ok, filesystem_error,
  invalid_argument, throw_if, >>=-eq-ok, arith, ◌>>◌,
}
use finn_cpp_driver.Types.{Name, is_nil, BufferDescriptor, DeviceWrapper}
use finn_cpp_driver.Handler.{check_descriptors, check_device_wrapper}

-- A description with a kernel name and a shape.
abbrev pub IsNamed : BufferDescriptor → Type 0
IsNamed d = (d.kernel_name ≢ []) × (d.packed_shape ≢ [])

pub record IsComplete (is_file : Name → Bool) (w : DeviceWrapper) : Type 0 where
  pub path : w.xclbin ≢ []
  pub file : is_file w.xclbin ≡ true
  pub some_input : w.idmas ≢ []
  pub inputs : All IsNamed w.idmas
  pub some_output : w.odmas ≢ []
  pub outputs : All IsNamed w.odmas

is_nil-false {ℓ} : {A : Type ℓ} (xs : List A) → xs ≢ [] → is_nil xs ≡ false
is_nil-false [] h = absurd (h refl)
is_nil-false (x ∷ xs) h = refl

-- A check that is passed, and the rest after it.
throw_if_nil-ok {ℓ} :
    {A : Type ℓ} (xs : List A) (e : _) (rest : Result (Unit {0}))
    → (throw_if (is_nil xs) e >> rest) ≡ ok tt
    → (xs ≢ []) × (rest ≡ ok tt)
throw_if_nil-ok [] e rest h = cc
throw_if_nil-ok (x ∷ xs) e rest h = (λ p. cc, h)

check_descriptors-All : (ds : List BufferDescriptor) → check_descriptors ds ≡ ok tt → All IsNamed ds
unfolding check_descriptors
check_descriptors-All [] h = tt
check_descriptors-All (d ∷ ds) h =
    let (named, h') = throw_if_nil-ok d.kernel_name invalid_argument _ h in
    let (shaped, h'') = throw_if_nil-ok d.packed_shape invalid_argument _ h' in
    ((named, shaped), check_descriptors-All ds h'')

All-check_descriptors : (ds : List BufferDescriptor) → All IsNamed ds → check_descriptors ds ≡ ok tt
unfolding check_descriptors
All-check_descriptors [] h = refl
All-check_descriptors (d ∷ ds) h =
    rw (is_nil-false d.kernel_name h.0.0, is_nil-false d.packed_shape h.0.1)
      (All-check_descriptors ds h.1)

-- `checkDeviceWrapper` returns for complete configurations and throws for all others: it wants a
-- path to a file, and both lists of kernels non-empty, each kernel with a name and a packed shape.
pub check_device_wrapper-IsComplete :
    (is_file : Name → Bool) (w : DeviceWrapper)
    → (check_device_wrapper is_file w ≡ ok tt) ↔ IsComplete is_file w
unfolding check_device_wrapper
check_device_wrapper-IsComplete is_file w = (
  complete,
  λ c.
      rw
        (
          is_nil-false w.xclbin c.path,
          c.file,
          is_nil-false w.idmas c.some_input,
          All-check_descriptors w.idmas c.inputs,
          is_nil-false w.odmas c.some_output,
        )
        (All-check_descriptors w.odmas c.outputs),
)
  where
    complete : check_device_wrapper is_file w ≡ ok tt → IsComplete is_file w
    complete h =
        let (path, h₁) = throw_if_nil-ok w.xclbin filesystem_error _ h in
        let (_, found, h₂) = >>=-eq-ok (throw_if (not (is_file w.xclbin)) filesystem_error) _ h₁ in
        let (some_input, h₃) = throw_if_nil-ok w.idmas invalid_argument _ h₂ in
        let (_, inputs, h₄) = >>=-eq-ok (check_descriptors w.idmas) _ h₃ in
        let (some_output, outputs) = throw_if_nil-ok w.odmas invalid_argument _ h₄ in
        record {
          path = path;
          file = ground (arith, found);
          some_input = some_input;
          inputs = check_descriptors-All w.idmas inputs;
          some_output = some_output;
          outputs = check_descriptors-All w.odmas outputs;
        }
