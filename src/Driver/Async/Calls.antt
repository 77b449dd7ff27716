-- ===== src/Driver/Async/Calls.antt =====
-- The calls on a driver for asynchronous inference, by what they do to its buffers.
use finn_cpp_driver.Prelude.{
  ℕ, ◌*◌, ◌^◌, ◌≡◌, refl, sym, ap, ap₂, ◌∙◌, arith, Bool, false, true, List, [], ◌∷◌, Option, none,
  some, ok, err, blocked, not, length, ◌==◌, ◌%◌, runtime_error, throw_if, >>=-eq-ok, ok-inj,
}
use finn_cpp_driver.Circular.{CircularBuffer}
use finn_cpp_driver.Types.{Name, BufferDescriptor, DeviceWrapper, featuremap_size}
use finn_cpp_driver.Datatypes.{Datatype}
use finn_cpp_driver.Packing.Pack.{ScalarType, Conversions, pack}
use finn_cpp_driver.Async.Input
use finn_cpp_driver.Async.Input.{AsyncInput}
use finn_cpp_driver.Async.Output
use finn_cpp_driver.Async.Output.{AsyncOutput}
use finn_cpp_driver.Handler
use finn_cpp_driver.Handler.{DeviceBuffers, DeviceHandler}
use finn_cpp_driver.Handler.Async.{async_buffers}
use finn_cpp_driver.Driver
use finn_cpp_driver.Driver.{BaseDriver, get_output_data, on_device, size, store_factory}
use finn_cpp_driver.Driver.Inference.{output_here, store_here, store_factory_here, size_here}
use finn_cpp_driver.Driver.Typed.{input}
use finn_cpp_driver.Driver.Async.{handler}

module _ (C : CircularBuffer ℕ) (address : Name → ℕ) (w : DeviceWrapper)
    (idma odma : BufferDescriptor) where
  abbrev pub B : DeviceBuffers
  B = async_buffers C address

  -- What the constructor of the handler makes.
  new-handler :
      (is_file : Name → Bool) (n : ℕ) {h : DeviceHandler B}
      → w.idmas ≡ idma ∷ []
      → w.odmas ≡ odma ∷ []
      → Handler.new B is_file w false n ≡ ok h
      → (b : AsyncInput C) × (out : AsyncOutput C) × (Input.make C
            (address idma.kernel_name)
            idma.kernel_name
            idma.packed_shape
            n
          ≡ ok b)
        × (Output.make C (address odma.kernel_name) odma.kernel_name odma.packed_shape n ≡ ok out)
        × (h ≡ handler C address w idma odma b out)
  unfolding Handler.new Handler.make_inputs Handler.make_outputs Handler.emplace Handler.contains
      Handler.find
  new-handler is_file n {h = h} ins outs made =
      let (_, _, e) = >>=-eq-ok (Handler.check_device_wrapper is_file w) _ made in
      let (entries, e₁, e₂) = >>=-eq-ok (Handler.make_inputs B false n w.idmas []) _ e in
      let (entries', e₃, e₄) = >>=-eq-ok (Handler.make_outputs B false n w.odmas []) _ e₂ in
      let (b, made_in, e₅) =
        >>=-eq-ok (Input.make C (address idma.kernel_name) idma.kernel_name idma.packed_shape n) _
          (ap (λ ds. Handler.make_inputs B false n ds []) (sym ins) ∙ e₁) in
      let (out, made_out, e₆) =
        >>=-eq-ok (Output.make C (address odma.kernel_name) odma.kernel_name odma.packed_shape n) _
          (ap (λ ds. Handler.make_outputs B false n ds []) (sym outs) ∙ e₃) in
      (
        b,
        out,
        made_in,
        made_out,
        ok-inj (sym e₄) ∙ ap₂ with_buffers (sym (ok-inj e₅)) (sym (ok-inj e₆)),
      )
    where
      with_buffers : List (Name × AsyncInput C) → List (Name × AsyncOutput C) → DeviceHandler B
      with_buffers ins outs = record {
        synchronous_inference = false;
        dev_information = w;
        batchsize = 1;
        input_buffer_map = ins;
        output_buffer_map = outs;
      }

  -- What the constructor of the driver makes.
  pub new-driver :
      (is_file : Name → Bool) (n : ℕ) (force : Bool) {d : BaseDriver B}
      → w.idmas ≡ idma ∷ []
      → w.odmas ≡ odma ∷ []
      → Driver.new B is_file false (w ∷ []) n force ≡ ok d
      → (b : AsyncInput C) × (out : AsyncOutput C) × (Input.make C
            (address idma.kernel_name)
            idma.kernel_name
            idma.packed_shape
            n
          ≡ ok b)
        × (Output.make C (address odma.kernel_name) odma.kernel_name odma.packed_shape n ≡ ok out)
        × (d.accelerator ≡ handler C address w idma odma b out ∷ [])
  unfolding Driver.new Driver.new_accelerator
  new-driver is_file n force {d = d} ins outs made =
      let (hs, e, e₁) = >>=-eq-ok (Driver.new_accelerator B is_file (w ∷ []) false n) _ made in
      let (h, made_h, e₂) = >>=-eq-ok (Handler.new B is_file w false n) _ e in
      let (i, _, e₃) = >>=-eq-ok (Driver.front w.idmas) _ e₁ in
      let (o, _, e₄) = >>=-eq-ok (Driver.front w.odmas) _ e₃ in
      let (b, out, made_in, made_out, same) = new-handler is_file n ins outs made_h in
      (
        b,
        out,
        made_in,
        made_out,
        ap (λ d'. d'.accelerator) (ok-inj (sym e₄)) ∙ ok-inj (sym e₂) ∙ ap (λ h'. h' ∷ []) same,
      )

  store_in-ok :
      (values : List ℕ) (b : AsyncInput C) (result : Bool × AsyncInput C)
      → B.store_in values b ≡ ok result
      → Input.store C values b ≡ ok (some result.1)
  store_in-ok values b result e =
      let (found, e₁, e₂) = >>=-eq-ok (Input.store C values b) _ e in from found e₁ e₂
    where
      from :
          (found : Option (AsyncInput C))
          → Input.store C values b ≡ ok found
          → elim found [ none ↦ err blocked | some b' ↦ ok (true, b') ] ≡ ok result
          → Input.store C values b ≡ ok (some result.1)
      from none e₁ e₂ = absurd cc
      from (some b') e₁ e₂ = e₁ ∙ ap (λ (r : Bool × AsyncInput C). ok (some r.1)) (ok-inj e₂)

  -- A call of `input` that returns is a store of the packed values.
  pub input-stores :
      (K : Conversions) (F S : Datatype) (t : ScalarType) (values : List ℕ) (batch_size : ℕ)
      (packed : List ℕ) (b : AsyncInput C) (out : AsyncOutput C) (d after : BaseDriver B)
      → d.accelerator ≡ handler C address w idma odma b out ∷ []
      → pack K F t values ≡ ok packed
      → input B K F S t values w.xrt_device_index idma.kernel_name batch_size d ≡ ok after
      → (b' : AsyncInput C) × (Input.store C packed b ≡ ok (some b'))
        × (after.accelerator ≡ handler C address w idma odma b' out ∷ [])
  unfolding input
  input-stores K F S t values batch_size packed b out d after only packs called =
      let (p, packs', e) = >>=-eq-ok (pack K F t values) _ called in
      let (_, _, e₁) =
        >>=-eq-ok (store_factory B w.xrt_device_index idma.kernel_name d.accelerator) _ e in
      let (part, _, e₂) =
        >>=-eq-ok (size B featuremap_size w.xrt_device_index idma.kernel_name d.accelerator) _ e₁ in
      let (_, _, e₃) =
        >>=-eq-ok (throw_if (not (length p == part * batch_size % 2 ^ 64)) runtime_error) _ e₂ in
      let (done, stored_done, e₄) =
        >>=-eq-ok
          (on_device B w.xrt_device_index (Handler.store_unchecked B p idma.kernel_name)
            d.accelerator)
          _ e₃ in
      let at_buffer =
        sym (
          store_here B (handler C address w idma odma b out) idma.kernel_name odma.kernel_name p b
            out)
        ∙ ap
            (λ hs. on_device B w.xrt_device_index (Handler.store_unchecked B p idma.kernel_name) hs)
            (sym only)
        ∙ stored_done in
      let (result, stored_b, e₅) = >>=-eq-ok (B.store_in p b) _ at_buffer in
      (
        result.1,
        ap (λ q. Input.store C q b) (ok-inj (sym packs ∙ packs')) ∙ store_in-ok p b result stored_b,
        ap (λ d'. d'.accelerator) (ok-inj (sym e₄)) ∙ ap (λ r. r.1) (ok-inj (sym e₅)),
      )

  -- It returns when the packed values are those of the batch and the store does not wait.
  pub input-returns :
      (K : Conversions) (F S : Datatype) (t : ScalarType) (values : List ℕ) (batch_size part : ℕ)
      (packed : List ℕ) (b b' : AsyncInput C) (out : AsyncOutput C) (d : BaseDriver B)
      → d.accelerator ≡ handler C address w idma odma b out ∷ []
      → pack K F t values ≡ ok packed
      → Input.size C b featuremap_size ≡ ok part
      → length packed ≡ part * batch_size % 2 ^ 64
      → Input.store C packed b ≡ ok (some b')
      → input B K F S t values w.xrt_device_index idma.kernel_name batch_size d
        ≡ ok (record d { accelerator = handler C address w idma odma b' out ∷ [] })
  unfolding input
  input-returns K F S t values batch_size part packed b b' out d only packs counted whole stored_b =
      rw
        (
          only,
          packs,
          store_factory_here B h idma.kernel_name odma.kernel_name b out,
          size_here B h idma.kernel_name odma.kernel_name featuremap_size b out,
          counted,
          same,
          store_here B h idma.kernel_name odma.kernel_name packed b out,
          stored_b,
        )
        refl
    where
      h : DeviceHandler B
      h = handler C address w idma odma b out

      same : (length packed == part * batch_size % 2 ^ 64) ≡ true
      same = ground arith

  -- A call of `getOutputData` that returns hands out the archive.
  pub results-given :
      (bytes : List ℕ) (b : AsyncInput C) (out : AsyncOutput C) (d : BaseDriver B)
      (hs : Driver.Accelerator B)
      → d.accelerator ≡ handler C address w idma odma b out ∷ []
      → get_output_data B w.xrt_device_index odma.kernel_name d.accelerator ≡ ok (bytes, hs)
      → ((Output.get_data C out).0 ≡ bytes)
        × (hs ≡ handler C address w idma odma b (Output.get_data C out).1 ∷ [])
  results-given bytes b out d hs only called = (ap (λ r. r.0) same, ap (λ r. r.1) (sym same))
    where
      given_back : List ℕ × Driver.Accelerator B
      given_back = (
        (Output.get_data C out).0,
        handler C address w idma odma b (Output.get_data C out).1 ∷ [],
      )

      same : given_back ≡ (bytes, hs)
      same = ok-inj (
          sym (
            output_here B (handler C address w idma odma b out) idma.kernel_name odma.kernel_name b
              out)
          ∙ ap (λ l. get_output_data B w.xrt_device_index odma.kernel_name l) (sym only)
          ∙ called)
