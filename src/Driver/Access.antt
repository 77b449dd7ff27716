-- ===== src/Driver/Access.antt =====
-- Which device and buffer a call of the driver reaches.
use finn_cpp_driver.Prelude.{
  ℕ, ◌≡◌, refl, sym, ◌∙◌, ◌↔◌, ◌≢◌, ◌⊎◌, arith, true, false, not, Bool-cases, inl, inr, List, [],
  ◌∷◌, length, ◌==◌, ok, err, runtime_error, throw_if, >>=-eq-ok, ok-≢-err, Result,
}
use finn_cpp_driver.Types.{Name, is_nil, input, total_data_size}
use finn_cpp_driver.Handler
use finn_cpp_driver.Handler.{DeviceBuffers, DeviceHandler}
use finn_cpp_driver.Driver.{
  Accelerator, BaseDriver, contains_device, get_device_handler, store_factory, get_output_data,
  device_index, size, infer, on_device,
}

module _ (B : DeviceBuffers) where
  -- `getDeviceHandler` throws where `containsDevice` is false.
  get_device_handler-missing :
      (index : ℕ) (hs : Accelerator B)
      → contains_device B index hs ≡ false
      → get_device_handler B index hs ≡ err runtime_error
  unfolding contains_device get_device_handler
  get_device_handler-missing index [] e = refl
  get_device_handler-missing index (h ∷ hs) e = ground (arith, get_device_handler-missing index hs)

  nonempty :
      (index : ℕ) {h : DeviceHandler B} (hs : Accelerator B)
      → get_device_handler B index hs ≡ ok h
      → is_nil hs ≡ false
  unfolding get_device_handler
  nonempty index [] e = cc
  nonempty index (h ∷ hs) e = refl

  present :
      (index : ℕ) {h : DeviceHandler B} (hs : Accelerator B)
      → get_device_handler B index hs ≡ ok h
      → contains_device B index hs ≡ true
  present index hs e = elim (Bool-cases (contains_device B index hs)) [
    | inl here ↦ here
    | inr gone ↦ absurd (ok-≢-err (sym e ∙ get_device_handler-missing index hs gone))
  ]

  -- `storeFactory` returns a closure exactly when the device is there and has an input buffer of
  -- that name.
  pub store_factory-ok :
      (index : ℕ) (name : Name) (hs : Accelerator B)
      → (store_factory B index name hs ≡ ok tt) ↔ (
          (h : DeviceHandler B) × (get_device_handler B index hs ≡ ok h)
          × (Handler.contains_buffer B name input h ≡ true))
  unfolding store_factory
  store_factory-ok index name hs = (there, back)
    where
      there :
          store_factory B index name hs ≡ ok tt
          → (h : DeviceHandler B) × (get_device_handler B index hs ≡ ok h)
            × (Handler.contains_buffer B name input h ≡ true)
      there e =
          let (_, _, e₁) = >>=-eq-ok (throw_if (is_nil hs) runtime_error) _ e in
          let (_, _, e₂) =
            >>=-eq-ok (throw_if (not (contains_device B index hs)) runtime_error) _ e₁ in
          let (h, found, e₃) = >>=-eq-ok (get_device_handler B index hs) _ e₂ in
          (h, found, ground (arith, e₃))

      back :
          (h : DeviceHandler B) × (get_device_handler B index hs ≡ ok h)
            × (Handler.contains_buffer B name input h ≡ true)
          → store_factory B index name hs ≡ ok tt
      back (h, found, has) = rw (nonempty index hs found, present index hs found, found, has) refl

  on_device-contains :
      {A : Type 0} (f : DeviceHandler B → Result (A × DeviceHandler B)) (index : ℕ)
      (hs : Accelerator B)
      → contains_device B index hs ≡ true
      → (h : DeviceHandler B) × (device_index B h ≡ index)
        × ((a : A) (h' : DeviceHandler B)
            → f h ≡ ok (a, h')
            → (hs' : Accelerator B) × (on_device B index f hs ≡ ok (a, hs')))
  unfolding contains_device on_device
  on_device-contains f index [] e = cc
  on_device-contains f index (h ∷ hs) e = elim (Bool-cases (device_index B h == index)) [
    | inl here ↦ (h, ground (arith, here), λ a h' called. (h' ∷ hs, rw (here, called) refl))
    | inr later ↦
        let (h₁, same, calls) = on_device-contains f index hs (ground (arith, later)) in
        (
          h₁,
          same,
          λ a h' called. let (hs', done) = calls a h' called in (h ∷ hs', rw (later, done) refl),
        )
  ]

  -- `getOutputData` gives what the device of the index gives if there is one, else what device 0 gives
  -- if there is one, and throws otherwise.
  get_output_data_lem :
      (index : ℕ) (name : Name) (hs : Accelerator B)
      → ((h : DeviceHandler B) × (device_index B h ≡ index)
          × ((bytes : List ℕ) (h' : DeviceHandler B)
              → Handler.retrieve_results B name h ≡ ok (bytes, h')
              → (hs' : Accelerator B) × (get_output_data B index name hs ≡ ok (bytes, hs'))))
        ⊎ ((contains_device B index hs ≡ false)
            × (h : DeviceHandler B) × (device_index B h ≡ 0)
            × ((bytes : List ℕ) (h' : DeviceHandler B)
                → Handler.retrieve_results B name h ≡ ok (bytes, h')
                → (hs' : Accelerator B) × (get_output_data B index name hs ≡ ok (bytes, hs'))))
        ⊎ ((contains_device B index hs ≡ false)
            × (contains_device B 0 hs ≡ false)
            × (get_output_data B index name hs ≡ err runtime_error))
  unfolding get_output_data
  get_output_data_lem index name hs = elim (Bool-cases (contains_device B index hs)) [
    | inl e ↦
        let (h, same, calls) = on_device-contains (Handler.retrieve_results B name) index hs e in
        inl (h, same, λ bytes h' got. rw e (calls bytes h' got))
    | inr e ↦ elim (Bool-cases (contains_device B 0 hs)) [
      | inl e₀ ↦
          let (h, same, calls) = on_device-contains (Handler.retrieve_results B name) 0 hs e₀ in
          inr (inl (e, h, same, λ bytes h' got. rw (e, e₀) (calls bytes h' got)))
      | inr e₀ ↦ inr (inr (e, e₀, rw (e, e₀) refl))
    ]
  ]

  -- A call of `infer` on input of the wrong length throws, whatever the devices are, if its input
  -- buffer is there and reports its size.
  infer-wrong_length :
      (values : List ℕ) (input_index : ℕ) (input_name : Name) (output_index : ℕ)
      (output_name : Name) (d : BaseDriver B) (total : ℕ)
      → store_factory B input_index input_name d.accelerator ≡ ok tt
      → size B total_data_size input_index input_name d.accelerator ≡ ok total
      → length values ≢ total
      → infer B values input_index input_name output_index output_name d ≡ err runtime_error
  unfolding infer
  infer-wrong_length values input_index input_name output_index output_name d total made counted
        ne =
      rw (made, counted, differs) refl
    where
      differs : (length values == total) ≡ false
      differs = ground arith
