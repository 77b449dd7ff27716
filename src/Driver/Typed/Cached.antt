-- ===== src/Driver/Typed/Cached.antt =====
-- core/BaseDriver.hpp: the function-local statics of `inferSynchronous`.
use finn_cpp_driver.Prelude.{
  ℕ, ◌≡◌, refl, List, some, ok, not, length, ◌==◌, runtime_error, throw_if, ◌>>=◌, >>=-push,
  >>=-push_through,
}
use finn_cpp_driver.Utils.{Shape, innermost_dimension}
use finn_cpp_driver.Types.{Name, Config, total_data_size}
use finn_cpp_driver.MdSpan
use finn_cpp_driver.Datatypes.{Datatype}
use finn_cpp_driver.Packing.Pack.{ScalarType, Conversions}
use finn_cpp_driver.Packing.Multi.{pack_multi_dimensional_inputs, unpack_multi_dimensional_outputs}
use finn_cpp_driver.Buffers.{set_first}
use finn_cpp_driver.Handler
use finn_cpp_driver.Handler.{DeviceBuffers}
use finn_cpp_driver.Driver.{
  BaseDriver, store_factory, size, on_device, each_device, get_output_data, infer,
}
use finn_cpp_driver.Driver.Typed.{Statics, once, infer_synchronous}

-- The statics after the first call.
abbrev pub kept : Shape → Shape → Shape → Statics
kept folded packed_out folded_out = record {
  folded_shape = some folded;
  packed_output = some packed_out;
  folded_output = some folded_out;
}

module _ (B : DeviceBuffers) where
  -- Inference on bytes does not look at the configuration.
  infer-configuration :
      (values : List ℕ) (index : ℕ) (i : Name) (index' : ℕ) (o : Name) (d : BaseDriver B)
      (c : Config)
      → infer B values index i index' o (record d { configuration = c })
        ≡ (infer B values index i index' o d >>= λ r. ok (r.0, record r.1 { configuration = c }))
  unfolding infer
  infer-configuration values index i index' o d c =
      >>=-push (store_factory B index i d.accelerator) _ _ _ λ _.
        >>=-push (size B total_data_size index i d.accelerator) _ _ _ λ total.
          >>=-push (throw_if (not (length values == total)) runtime_error) _ _ _ λ _.
            >>=-push (on_device B index (Handler.store_unchecked B values i) d.accelerator) _ _ _
              λ stored. >>=-push (each_device B (Handler.run B) stored.1) _ _ _ λ started.
                >>=-push (each_device B (Handler.wait B) started.1) _ _ _ λ waited.
                  >>=-push (each_device B (Handler.read B) waited.1) _ _ _
                    λ fetched. >>=-push (get_output_data B index' o fetched.1) _ _ _ λ out. refl

  -- Once its statics are set, `inferSynchronous` takes all three shapes from them, whatever the
  -- configuration says: with any other configuration `c` in the driver, a call has the same outcome,
  -- on every branch, but for the configuration that the driver after it holds.
  pub infer_synchronous-kept :
      (K : Conversions) (F S : Datatype) (t : ScalarType) (values : List ℕ) (index : ℕ) (i : Name)
      (index' : ℕ) (o : Name) (folded packed_out folded_out : Shape) (d : BaseDriver B) (c : Config)
      → infer_synchronous B K F S t values index i index' o
          (kept folded packed_out folded_out)
          (record d { configuration = c })
        ≡ (infer_synchronous B K F S t values index i index' o (kept folded packed_out folded_out) d
            >>= λ r. ok (r.0, r.1, record r.2 { configuration = c }))
  unfolding infer_synchronous once
  infer_synchronous-kept K F S t values index i index' o folded packed_out folded_out d c =
      >>=-push (set_first d.batch_elements folded) _ _ _ λ shape.
        >>=-push (MdSpan.new values shape) _ _ _ λ span.
          >>=-push (innermost_dimension shape) _ _ _ λ last.
            >>=-push (pack_multi_dimensional_inputs K F t span last) _ _ _ λ packed.
              >>=-push_through (infer B packed index i index' o d) _ _ _ _ _
                (infer-configuration packed index i index' o d c)
                λ result. >>=-push (set_first d.batch_elements packed_out) _ _ _ λ packed_shape.
                  >>=-push (set_first d.batch_elements folded_out) _ _ _ λ folded_shape.
                    >>=-push (MdSpan.new result.0 packed_shape) _ _ _ λ reshaped.
                      >>=-push (unpack_multi_dimensional_outputs K S reshaped folded_shape) _ _ _
                        λ out. refl
