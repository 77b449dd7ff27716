-- ===== src/Driver/Inference.antt =====
-- One inference on a driver for one device with one input and one output kernel, on any buffers.
use finn_cpp_driver.Prelude.{
  ℕ, ◌≡◌, refl, ap, ◌∙◌, arith, Bool, true, false, List, [], ◌∷◌, length, ◌==◌, ◌&&◌, Option, some,
  none, ok, runtime_error, throw_if, not, ◌>>=◌, ◌>>◌, Result, >>=-assoc, >>=-cong,
}
use finn_cpp_driver.Types.{Name, same_name_self, SizeSpecifier, total_data_size, input}
use finn_cpp_driver.Handler
use finn_cpp_driver.Handler.{DeviceBuffers, DeviceHandler}
use finn_cpp_driver.Driver.Access.{store_factory-ok}
use finn_cpp_driver.Driver.{
  BaseDriver, contains_device, get_device_handler, on_device, each_device, store_factory,
  get_output_data, size, infer,
}

find_here : {A : Type 0} (n : Name) (a : A) → Handler.find n ((n, a) ∷ []) ≡ some a
unfolding Handler.find
find_here n a = rw (same_name_self n) refl

contains_here : {A : Type 0} (n : Name) (a : A) → Handler.contains n ((n, a) ∷ []) ≡ true
unfolding Handler.contains
contains_here {A = A} n a =
    ap (λ (f : Option A). elim f [ some a ↦ true | none ↦ false ]) (find_here n a)

change_here :
    {A X : Type 0} (n : Name) (f : A → Result (X × A)) (a : A)
    → Handler.change_at n f ((n, a) ∷ []) ≡ (f a >>= λ done. ok (done.0, (n, done.1) ∷ []))
unfolding Handler.change_at
change_here n f a = rw (same_name_self n) refl

module _ (B : DeviceBuffers) (h : DeviceHandler B) (i o : Name) where
  -- The handler with these buffers.
  abbrev pub holds : B.In → B.Out → DeviceHandler B
  holds b out = record h { input_buffer_map = (i, b) ∷ []; output_buffer_map = (o, out) ∷ [] }

  abbrev index : ℕ
  index = h.dev_information.xrt_device_index

  here : (index == index) ≡ true
  here = ground arith

  found :
      (b : B.In) (out : B.Out) → get_device_handler B index (holds b out ∷ []) ≡ ok (holds b out)
  unfolding get_device_handler
  found b out = rw here refl

  present : (b : B.In) (out : B.Out) → contains_device B index (holds b out ∷ []) ≡ true
  unfolding contains_device
  present b out = rw here refl

  has_input : (b : B.In) (out : B.Out) → Handler.contains_buffer B i input (holds b out) ≡ true
  unfolding Handler.contains_buffer
  has_input b out = contains_here i b

  pub store_factory_here :
      (b : B.In) (out : B.Out) → store_factory B index i (holds b out ∷ []) ≡ ok tt
  store_factory_here b out =
      (store_factory-ok B index i (holds b out ∷ [])).1 (holds b out, found b out, has_input b out)

  pub size_here :
      (ss : SizeSpecifier) (b : B.In) (out : B.Out)
      → size B ss index i (holds b out ∷ []) ≡ B.size_in b ss
  unfolding size
  size_here ss b out = rw (found b out) in_handler
    where
      in_handler : Handler.size B ss i (holds b out) ≡ B.size_in b ss
      in_handler =
          unfold Handler.size in
          ap
            (λ (f : Option B.In). elim f [
              | some a ↦ B.size_in a ss
              | none ↦ elim (Handler.find i ((o, out) ∷ [])) [
                | some a ↦ B.size_out a ss
                | none ↦ ok 0
              ]
            ])
            (find_here i b)

  pub store_here :
      (values : List ℕ) (b : B.In) (out : B.Out)
      → on_device B index (Handler.store_unchecked B values i) (holds b out ∷ [])
        ≡ (B.store_in values b >>= λ stored. ok (stored.0, holds stored.1 out ∷ []))
  unfolding on_device Handler.store_unchecked
  store_here values b out =
      rw (here, change_here i (B.store_in values) b)
        (>>=-assoc (B.store_in values b >>= λ done. ok (done.0, (i, done.1) ∷ [])) _ _
          ∙ >>=-assoc (B.store_in values b) _ _)

  run_here :
      (b : B.In) (out : B.Out)
      → each_device B (Handler.run B) (holds b out ∷ []) ≡ (
          B.run_out out >>= λ started. B.run_in b >>= λ fed.
          ok (started.0 && true && (fed.0 && true) && true, holds fed.1 started.1 ∷ []))
  unfolding each_device Handler.run Handler.for_all
  run_here b out =
      >>=-assoc (B.run_out out >>= λ done. ok (done.0 && true, (o, done.1) ∷ [])) _ _
      ∙ >>=-assoc (B.run_out out) _ _
      ∙ >>=-cong (B.run_out out) _ _ λ started.
        >>=-assoc (B.run_in b >>= λ done. ok (done.0 && true, (i, done.1) ∷ [])) _ _
        ∙ >>=-assoc (B.run_in b) _ _

  wait_here :
      (b : B.In) (out : B.Out)
      → each_device B (Handler.wait B) (holds b out ∷ [])
        ≡ (B.wait_out out >>= λ waited. ok ((waited.0 && true) && true, holds b waited.1 ∷ []))
  unfolding each_device Handler.wait Handler.for_all
  wait_here b out =
      >>=-assoc (B.wait_out out >>= λ done. ok (done.0 && true, (o, done.1) ∷ [])) _ _
      ∙ >>=-assoc (B.wait_out out) _ _

  read_here :
      (b : B.In) (out : B.Out)
      → each_device B (Handler.read B) (holds b out ∷ [])
        ≡ (B.read_out out >>= λ fetched. ok ((fetched.0 && true) && true, holds b fetched.1 ∷ []))
  unfolding each_device Handler.read Handler.for_all
  read_here b out =
      >>=-assoc (B.read_out out >>= λ done. ok (done.0 && true, (o, done.1) ∷ [])) _ _
      ∙ >>=-assoc (B.read_out out) _ _

  pub output_here :
      (b : B.In) (out : B.Out)
      → get_output_data B index o (holds b out ∷ [])
        ≡ (B.get_data out >>= λ got. ok (got.0, holds b got.1 ∷ []))
  unfolding get_output_data on_device
  output_here b out = rw (present b out, here, in_handler) (>>=-assoc (B.get_data out) _ _)
    where
      in_handler :
          Handler.retrieve_results B o (holds b out)
          ≡ (B.get_data out >>= λ got. ok (got.0, holds b got.1))
      in_handler =
          unfold Handler.retrieve_results in
          rw (contains_here o out, change_here o B.get_data out) (>>=-assoc (B.get_data out) _ _)

  -- The calls on the two buffers that make up an inference, in their order: each one throws what it
  -- throws before any later one is made.
  abbrev pub calls : BaseDriver B → List ℕ → B.In → B.Out → Result (List ℕ × BaseDriver B)
  calls d values b out = do
    total ← B.size_in b total_data_size
    throw_if (not (length values == total)) runtime_error
    stored ← B.store_in values b
    started ← B.run_out out
    fed ← B.run_in stored.1
    waited ← B.wait_out started.1
    fetched ← B.read_out waited.1
    got ← B.get_data fetched.1
    ok (got.0, record d { accelerator = holds fed.1 got.1 ∷ [] })

  pub infer_lem :
      (d : BaseDriver B) (values : List ℕ) (b : B.In) (out : B.Out)
      → d.accelerator ≡ holds b out ∷ []
      → infer B values index i index o d ≡ calls d values b out
  unfolding infer
  infer_lem d values b out only =
      rw (only, store_factory_here b out, size_here total_data_size b out)
        (>>=-cong (B.size_in b total_data_size) _ _ λ total.
          >>=-cong (throw_if (not (length values == total)) runtime_error) _ _ λ _.
            rw (store_here values b out) (
              >>=-assoc (B.store_in values b) _ _
              ∙ >>=-cong (B.store_in values b) _ _ λ stored. rw (run_here stored.1 out) (
                  >>=-assoc (B.run_out out) _ _
                  ∙ >>=-cong (B.run_out out) _ _ λ started.
                    >>=-assoc (B.run_in stored.1) _ _
                    ∙ >>=-cong (B.run_in stored.1) _ _ λ fed. rw (wait_here fed.1 started.1) (
                        >>=-assoc (B.wait_out started.1) _ _
                        ∙ >>=-cong (B.wait_out started.1) _ _ λ waited.
                          rw (read_here fed.1 waited.1) (
                            >>=-assoc (B.read_out waited.1) _ _
                            ∙ >>=-cong (B.read_out waited.1) _ _ λ fetched.
                              rw (output_here fed.1 fetched.1)
                                (>>=-assoc (B.get_data fetched.1) _ _))))))

  -- When no method of a buffer throws, these calls give the results of `infer`.
  pub infer-ok :
      (d : BaseDriver B) (values bytes : List ℕ) (b b₁ b₂ : B.In) (out out₁ out₂ out₃ out₄ : B.Out)
      (r r₁ r₂ r₃ r₄ : Bool)
      → d.accelerator ≡ holds b out ∷ []
      → B.size_in b total_data_size ≡ ok (length values)
      → B.store_in values b ≡ ok (r, b₁)
      → B.run_out out ≡ ok (r₁, out₁)
      → B.run_in b₁ ≡ ok (r₂, b₂)
      → B.wait_out out₁ ≡ ok (r₃, out₂)
      → B.read_out out₂ ≡ ok (r₄, out₃)
      → B.get_data out₃ ≡ ok (bytes, out₄)
      → infer B values index i index o d ≡ ok (bytes, record d { accelerator = holds b₂ out₄ ∷ [] })
  infer-ok d values bytes b b₁ b₂ out out₁ out₂ out₃ out₄ r r₁ r₂ r₃ r₄ only counted stored ran_out
        ran_in waited fetched data_ =
      infer_lem d values b out only
      ∙ rw (counted, same, stored, ran_out, ran_in, waited, fetched, data_) refl
    where
      same : (length values == length values) ≡ true
      same = ground arith
