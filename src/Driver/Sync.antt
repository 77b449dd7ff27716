-- ===== src/Driver/Sync.antt =====
-- Inference on the synchronous buffers of core/DeviceBuffer/SyncDeviceBuffers.hpp.
use finn_cpp_driver.Prelude.{
  ℕ, ◌*◌, ◌^◌, ◌≤◌, ◌<◌, ◌≡◌, refl, sym, ap, ap₂, ◌∙◌, arith, true, List, [], ◌∷◌, length, take,
  length-take, leb, ok, ok-inj, ◌>>=◌,
}
use native.Mathlib.Nat.{mul-le-mul_right}
use finn_cpp_driver.Utils.{Shape}
use finn_cpp_driver.Utils.BufferSize.{get_actual_buffer_size_lem}
use finn_cpp_driver.Utils.Shapes.{product}
use finn_cpp_driver.Types.{Name}
use finn_cpp_driver.Buffers.{DeviceBuffer, execute}
use finn_cpp_driver.Buffers.Input
use finn_cpp_driver.Buffers.Output
use finn_cpp_driver.Buffers.Sizes.{store-run, make-room}
use finn_cpp_driver.Handler.{DeviceHandler}
use finn_cpp_driver.Handler.Sync.{sync_buffers}
use finn_cpp_driver.Driver.{BaseDriver, infer}
use finn_cpp_driver.Driver.Inference.{holds, infer-ok}

execute_name : (n : ℕ) (b : DeviceBuffer) → (execute n b).name ≡ b.name
unfolding execute
execute_name n b = ground arith

execute_mapped : (n : ℕ) (b : DeviceBuffer) → (execute n b).mapped ≡ b.mapped
unfolding execute
execute_mapped n b = ground arith

module _ (address : Name → ℕ) (fetch : Name → ℕ → List ℕ → List ℕ) where
  -- `run`, `read` and `getData` of an output buffer that counts no more than it maps.
  output_lem :
      (out : Output.OutputBuffer) (n : ℕ) (rest : Shape)
      → out.base.shape_packed ≡ n ∷ rest
      → ((count : ℕ) (mapped : List ℕ) → length (fetch out.base.name count mapped) ≡ length mapped)
      → out.element_count ≤ length out.base.mapped
      → (out₁ : Output.OutputBuffer) × (Output.run out ≡ ok (true, out₁))
        × (Output.get_data (Output.read (fetch out₁.base.name) out₁).1
            ≡ ok (take out.element_count (fetch out.base.name out.element_count out.base.mapped)))
  unfolding Output.run Output.get_data Output.read
  output_lem out n rest shape keeps room = (
    record out { base = execute n out.base },
    rw shape refl,
    rw (execute_name n out.base, execute_mapped n out.base, enough) refl,
  )
    where
      enough :
          leb out.element_count (length (fetch out.base.name out.element_count out.base.mapped))
          ≡ true
      enough = ground (arith, keeps out.element_count out.base.mapped)

  -- Inference on a driver for one device with an input and an output kernel, whose synchronous buffers
  -- are as the constructors make them for a batch of `n` inputs: it returns what the transfer from the
  -- device leaves in the first bytes of the output buffer, as many as `n` outputs have. It is stated
  -- for input of the right length, shapes with fewer than `2 ^ 31` bytes, a batch that is no larger
  -- than the first dimension of the output shape, and transfers that keep the size of the mapped
  -- memory.
  pub infer-sync_buffers :
      (h : DeviceHandler (sync_buffers address fetch)) (i o : Name) (d e n : ℕ) (rest rest' : Shape)
      (values : List ℕ) (b : DeviceBuffer) (out : Output.OutputBuffer)
      (driver : BaseDriver (sync_buffers address fetch))
      → 1 ≤ d
      → product (d ∷ rest) < 2 ^ 31
      → product (d ∷ rest) * n < 2 ^ 31
      → product (e ∷ rest') < 2 ^ 31
      → n ≤ e
      → length values ≡ n * product rest
      → ((name : Name) (count : ℕ) (mapped : List ℕ)
          → length (fetch name count mapped) ≡ length mapped)
      → Input.make (address i) i (d ∷ rest) n ≡ ok b
      → Output.make (address o) o (e ∷ rest') n ≡ ok out
      → driver.accelerator ≡ holds (sync_buffers address fetch) h i o b out ∷ []
      → (bytes : List ℕ) × (after : BaseDriver (sync_buffers address fetch)) × (infer
            (sync_buffers address fetch)
            values
            h.dev_information.xrt_device_index
            i
            h.dev_information.xrt_device_index
            o
            driver
          ≡ ok (bytes, after))
        × (bytes
            ≡ take (n * product rest') (fetch out.base.name (n * product rest') out.base.mapped))
        × (length bytes ≡ n * product rest')
  unfolding Output.read
  infer-sync_buffers h i o d e n rest rest' values b out driver pos small small' small'' le counted
        keeps made_in made_out only =
      let (b', filled, made_in', total, stored, _, ran) =
        store-run (address i) i d rest n values pos small small' counted in
      let (out', made_out', elements, size, shape) =
        make-room (address o) o e rest' n small'' (omega (arith, fewer)) in
      let same_in : b ≡ b' = ok-inj (sym made_in ∙ made_in') in
      let same_out : out ≡ out' = ok-inj (sym made_out ∙ made_out') in
      let room : out'.element_count ≤ length out'.base.mapped = omega (
        arith,
        elements,
        size,
        fewer,
        (get_actual_buffer_size_lem (product (e ∷ rest')) (omega arith)).2,
      ) in
      let (out₁, ran_out, got) = output_lem out' n rest' shape (keeps out'.base.name) room in
      let only' =
        only ∙ ap₂ (λ x y. holds (sync_buffers address fetch) h i o x y ∷ []) same_in same_out in
      let bytes' =
        ap (λ k. take k (fetch out'.base.name k out'.base.mapped)) elements
        ∙ ap (λ y. take (n * product rest') (fetch y.base.name (n * product rest') y.base.mapped))
            (sym same_out) in
      (
        take out'.element_count (fetch out'.base.name out'.element_count out'.base.mapped),
        _,
        infer-ok (sync_buffers address fetch) h i o driver values _ b' filled _ out' out₁ out₁
            (Output.read (fetch out₁.base.name) out₁).1 (Output.read (fetch out₁.base.name) out₁).1
            true true true true true only' total stored ran_out ran refl refl
            (ap (λ r. r >>= λ bytes. ok (bytes, (Output.read (fetch out₁.base.name) out₁).1)) got),
        bytes',
        omega (
          arith,
          length-take out'.element_count (fetch out'.base.name out'.element_count out'.base.mapped),
          keeps out'.base.name out'.element_count out'.base.mapped,
          room,
          elements,
        ),
      )
    where
      fewer : n * product rest' ≤ product (e ∷ rest')
      fewer = mul-le-mul_right (product rest') le
