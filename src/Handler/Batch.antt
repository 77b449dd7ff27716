-- ===== src/Handler/Batch.antt =====
-- The batch size of a handler.
use mathlib.Core.Path.{subst, fun_ext}
use finn_cpp_driver.Prelude.{
  ℕ, ◌≡◌, refl, sym, ap, ◌∙◌, arith, ◌≢◌, Bool, false, [], ◌==◌, ok, ◌>>=◌, >>=-eq-ok, >>=-assoc,
  ok-inj,
}
use finn_cpp_driver.Types.{Name, DeviceWrapper}
use finn_cpp_driver.Handler.{
  DeviceBuffers, DeviceHandler, check_device_wrapper, make_inputs, make_outputs,
  initialize_buffer_objects, new, set_batch_size,
}

module _ (B : DeviceBuffers) (is_file : Name → Bool) (w : DeviceWrapper) (sync : Bool) where
  -- What the constructor leaves in the members.
  record IsNew (size : ℕ) (h : DeviceHandler B) : Type 0 where
    checked : check_device_wrapper is_file w ≡ ok tt
    inputs : make_inputs B sync size w.idmas [] ≡ ok h.input_buffer_map
    outputs : make_outputs B sync size w.odmas [] ≡ ok h.output_buffer_map
    same_sync : h.synchronous_inference ≡ sync
    same_information : h.dev_information ≡ w
    one : h.batchsize ≡ 1

  new-IsNew : (size : ℕ) (h : DeviceHandler B) → new B is_file w sync size ≡ ok h → IsNew size h
  unfolding new initialize_buffer_objects
  new-IsNew size h e =
      let (_, checked, e₁) = >>=-eq-ok (check_device_wrapper is_file w) _ e in
      let (i, inputs, e₂) = >>=-eq-ok (make_inputs B sync size w.idmas []) _ e₁ in
      let (o, outputs, e₃) = >>=-eq-ok (make_outputs B sync size w.odmas []) _ e₂ in
      subst (IsNew size) (ok-inj e₃) (record {
        checked = checked;
        inputs = inputs;
        outputs = outputs;
        same_sync = refl;
        same_information = refl;
        one = refl;
      })

  -- The member plays no part in making the buffers.
  initialize-batchsize :
      (n : ℕ) (h : DeviceHandler B)
      → initialize_buffer_objects B w n sync (record h { batchsize = n })
        ≡ (initialize_buffer_objects B w n sync h >>= λ fresh. ok (record fresh { batchsize = n }))
  unfolding initialize_buffer_objects
  initialize-batchsize n h = sym (
      >>=-assoc (make_inputs B sync n w.idmas h.input_buffer_map) _ _
      ∙ ap (λ f. make_inputs B sync n w.idmas h.input_buffer_map >>= f)
          (fun_ext (λ i. >>=-assoc (make_outputs B sync n w.odmas h.output_buffer_map) _ _)))

  -- Setting a batch size other than 1 on a new handler gives the buffers that a handler constructed
  -- for this batch size has, and the batch size; with the exceptions of making them, if any.
  pub set_batch_size-new :
      (size n : ℕ) (h : DeviceHandler B)
      → n ≢ 1
      → new B is_file w sync size ≡ ok h
      → set_batch_size B n h
        ≡ (new B is_file w sync n >>= λ fresh. ok (record fresh { batchsize = n }))
  unfolding set_batch_size new
  set_batch_size-new size n h ne e =
      let v = new-IsNew size h e in
      rw (v.one, other, v.same_information, v.same_sync, v.checked)
        (initialize-batchsize n (record {
          synchronous_inference = sync;
          dev_information = w;
          batchsize = 1;
          input_buffer_map = [];
          output_buffer_map = [];
        }))
    where
      other : (1 == n) ≡ false
      other = ground arith

  -- Setting the batch size 1 on a new handler does nothing, whatever size its buffers were made for.
  pub set_batch_size-one :
      (size : ℕ) (h : DeviceHandler B)
      → new B is_file w sync size ≡ ok h
      → (set_batch_size B 1 h ≡ ok h)
        × (make_inputs B sync size w.idmas [] ≡ ok h.input_buffer_map)
        × (make_outputs B sync size w.odmas [] ≡ ok h.output_buffer_map)
  unfolding set_batch_size
  set_batch_size-one size h e = let v = new-IsNew size h e in (rw (v.one) refl, v.inputs, v.outputs)
