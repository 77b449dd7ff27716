-- ===== src/Driver/Batch.antt =====
-- The batch size and the default kernels of `BaseDriver`.
use finn_cpp_driver.Prelude.{ℕ, ◌≡◌, refl, Bool, [], ◌∷◌, ok, >>=-eq-ok, ok-inj}
use mathlib.Core.Path.{subst}
use finn_cpp_driver.Types.{Name, Config}
use finn_cpp_driver.Handler
use finn_cpp_driver.Handler.{DeviceBuffers, DeviceHandler}
use finn_cpp_driver.Handler.Batch
use finn_cpp_driver.Driver.{
  Accelerator, BaseDriver, new_accelerator, set_batch_sizes, front, new, set_batch_size,
}

module _ (B : DeviceBuffers) (is_file : Name → Bool) (sync : Bool) where
  set_batch_sizes-one :
      (config : Config) (size : ℕ) (hs : Accelerator B)
      → new_accelerator B is_file config sync size ≡ ok hs
      → set_batch_sizes B 1 hs ≡ ok hs
  unfolding new_accelerator set_batch_sizes
  set_batch_sizes-one [] size hs e = subst (λ l. set_batch_sizes B 1 l ≡ ok l) (ok-inj e) refl
  set_batch_sizes-one (w ∷ ws) size hs e =
      let (h, made, e₁) = >>=-eq-ok (Handler.new B is_file w sync size) _ e in
      let (rest, made_rest, e₂) = >>=-eq-ok (new_accelerator B is_file ws sync size) _ e₁ in
      subst (λ l. set_batch_sizes B 1 l ≡ ok l) (ok-inj e₂)
        (rw
          (
            (Batch.set_batch_size-one B is_file w sync size h made).0,
            set_batch_sizes-one ws size rest made_rest,
          )
          refl)

  -- `setBatchSize(1)` on a new driver changes the number that `getBatchSize` returns and nothing
  -- else: the device buffers stay as they were made for the batch size of the constructor.
  pub set_batch_size-new_driver :
      (config : Config) (size : ℕ) (force : Bool) (d : BaseDriver B)
      → new B is_file sync config size force ≡ ok d
      → (set_batch_size B 1 d ≡ ok (record d { batch_elements = 1 })) × (d.batch_elements ≡ size)
  unfolding new set_batch_size
  set_batch_size-new_driver config size force d e =
      let (hs, made, e₁) = >>=-eq-ok (new_accelerator B is_file config sync size) _ e in
      let (w, _, e₂) = >>=-eq-ok (front config) _ e₁ in
      let (i, _, e₃) = >>=-eq-ok (front w.idmas) _ e₂ in
      let (o, _, e₄) = >>=-eq-ok (front w.odmas) _ e₃ in
      subst
        (λ x.
          (set_batch_size B 1 x ≡ ok (record x { batch_elements = 1 })) × (x.batch_elements ≡ size))
        (ok-inj e₄) (rw (set_batch_sizes-one config size hs made) refl, refl)
