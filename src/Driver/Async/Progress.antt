-- ===== src/Driver/Async/Progress.antt =====
-- A call of `input` on an asynchronous driver does not wait for ever.
use finn_cpp_driver.Prelude.{
  ℕ, ◌*◌, ◌%◌, ◌^◌, ◌≤◌, ◌<◌, ◌≡◌, ◌⊎◌, inl, inr, sym, ◌∙◌, Bool, true, List, [], ◌∷◌, length, some,
  ok,
}
use finn_cpp_driver.Circular.{CircularBuffer, Documented}
use finn_cpp_driver.Utils.{Shape}
use finn_cpp_driver.Utils.Shapes.{product}
use finn_cpp_driver.Types.{Name, BufferDescriptor, DeviceWrapper, featuremap_size}
use finn_cpp_driver.Datatypes.{Datatype}
use finn_cpp_driver.Packing.Pack.{ScalarType, Conversions, pack}
use finn_cpp_driver.RingBuffer.{check_store}
use finn_cpp_driver.Async.Input
use finn_cpp_driver.Async.Input.{AsyncInput, run_round}
use finn_cpp_driver.Async.Input.Worker as InputWorker
use finn_cpp_driver.Async.Input.Order
use finn_cpp_driver.Async.Output.{AsyncOutput}
use finn_cpp_driver.Handler.Async.{async_buffers}
use finn_cpp_driver.Driver.{BaseDriver}
use finn_cpp_driver.Driver.Typed.{input}
use finn_cpp_driver.Driver.Async.{Session, handler, Reach}
use finn_cpp_driver.Driver.Async.Calls.{input-returns}
use finn_cpp_driver.Driver.Async.Served.{same-buffers, Reach-HasBuffers}

module _ (C : CircularBuffer ℕ) (address : Name → ℕ) (w : DeviceWrapper)
    (idma odma : BufferDescriptor) (K : Conversions) (F S : Datatype) (t : ScalarType)
    (is_file : Name → Bool) (n : ℕ) (force : Bool) (ins : w.idmas ≡ idma ∷ [])
    (outs : w.odmas ≡ odma ∷ []) where
  -- In every state that an asynchronous driver can reach, a call of `input` whose packed values are
  -- those of the batch and pass the checks of the ring buffer returns now, or a round of the thread of the
  -- input buffer transfers a part to the device. It is stated for a device with one input and one
  -- output kernel, packed input shapes of 1 to `2 ^ 31 - 1` bytes, a host buffer size of at least one,
  -- and ring buffers below `2 ^ 64` bytes.
  pub Reach-progress :
      {s : Session C address} (d : ℕ) (rest : Shape) (b : AsyncInput C) (out : AsyncOutput C)
      (values packed : List ℕ) (part batch_size : ℕ)
      → Documented C
      → idma.packed_shape ≡ d ∷ rest
      → 1 ≤ n
      → 1 ≤ product (d ∷ rest)
      → product (d ∷ rest) < 2 ^ 31
      → product (d ∷ rest) * n < 2 ^ 64
      → Reach C address w idma odma K F S t is_file n force s
      → s.driver.accelerator ≡ handler C address w idma odma b out ∷ []
      → pack K F t values ≡ ok packed
      → Input.size C b featuremap_size ≡ ok part
      → length packed ≡ part * batch_size % 2 ^ 64
      → check_store C packed b.ring ≡ ok tt
      → ((after : BaseDriver (async_buffers C address)) × (input
              (async_buffers C address)
              K
              F
              S
              t
              values
              w.xrt_device_index
              idma.kernel_name
              batch_size
              s.driver
            ≡ ok after))
        ⊎ ((b' : AsyncInput C) × (run_round C b ≡ ok (some b')))
  Reach-progress {s = s} d rest b out values packed part batch_size D shape positive some_in small
        fits path only packs counted whole checked =
      let (b₀, out₀, only₀, in_reach, _) =
        Reach-HasBuffers C address w idma odma K F S t is_file n force ins outs path in
      let (same, _) = same-buffers C address w idma odma b₀ b out₀ out (sym only₀ ∙ only) in
      let in_reach' : InputWorker.Reach C (address idma.kernel_name) idma.kernel_name (d ∷ rest) n
          (record { buffer = b; running = true; put = s.put; sent = s.sent }) =
        rw (← shape, ← same) in_reach in
      elim (Order.Reach-goes_on D (address idma.kernel_name) idma.kernel_name d rest n positive
        some_in small fits in_reach' packed checked) [
          | inl (b', stored_b) ↦ inl (
            _,
            input-returns C address w idma odma K F S t values batch_size part packed b b' out
                s.driver only packs counted whole stored_b,
          )
          | inr round ↦ inr round
        ]
