-- ===== src/Driver/Async/Served.antt =====
-- What an asynchronous driver does with input and results, by what its two buffers do.
use finn_cpp_driver.Prelude.{
  ℕ, ◌*◌, ◌^◌, ◌≤◌, ◌<◌, ◌≡◌, refl, sym, ap, ◌∙◌, Bool, true, List, [], ◌∷◌, ◌++◌,
}
use mathlib.Core.Path.{subst}
use finn_cpp_driver.Circular.{CircularBuffer, Documented}
use finn_cpp_driver.Utils.{Shape}
use finn_cpp_driver.Utils.Shapes.{product}
use finn_cpp_driver.Types.{Name, BufferDescriptor, DeviceWrapper}
use finn_cpp_driver.Datatypes.{Datatype}
use finn_cpp_driver.Packing.Pack.{ScalarType, Conversions}
use finn_cpp_driver.RingBuffer.{stored}
use finn_cpp_driver.Async.Input.{AsyncInput}
use finn_cpp_driver.Async.Input.Worker as InputWorker
use finn_cpp_driver.Async.Output.Worker as OutputWorker
use finn_cpp_driver.Async.Output.Worker.{Pc}
use finn_cpp_driver.Async.Input.Order.{Reach-IsForwarded}
use finn_cpp_driver.Async.Output
use finn_cpp_driver.Async.Output.{AsyncOutput}
use finn_cpp_driver.Async.Output.Kept.{Reach-IsKept}
use finn_cpp_driver.Handler.{DeviceHandler}
use finn_cpp_driver.Handler.Async.{async_buffers}
use finn_cpp_driver.Driver.Async.Calls.{new-driver, input-stores, results-given}
use finn_cpp_driver.Driver.Async.{
  Session, handler, Step, inputs, results, transfers, output_works, Reach, start, later,
}

module _ (C : CircularBuffer ℕ) (address : Name → ℕ) (w : DeviceWrapper)
    (idma odma : BufferDescriptor) where
  -- A handler has the buffers that it is made of.
  abbrev first_in : AsyncInput C → List (DeviceHandler (async_buffers C address)) → AsyncInput C
  first_in b [] = b
  first_in b (h ∷ hs) = elim h.input_buffer_map [ [] ↦ b | e ∷ _ ↦ e.1 ]

  abbrev first_out : AsyncOutput C → List (DeviceHandler (async_buffers C address)) → AsyncOutput C
  first_out o [] = o
  first_out o (h ∷ hs) = elim h.output_buffer_map [ [] ↦ o | e ∷ _ ↦ e.1 ]

  pub same-buffers :
      (b b' : AsyncInput C) (out out' : AsyncOutput C)
      → handler C address w idma odma b out ∷ [] ≡ handler C address w idma odma b' out' ∷ []
      → (b ≡ b') × (out ≡ out')
  same-buffers b b' out out' e = (ap (first_in b) e, ap (first_out out) e)

  module _ (K : Conversions) (F S : Datatype) (t : ScalarType) (is_file : Name → Bool) (n : ℕ)
      (force : Bool) (ins : w.idmas ≡ idma ∷ []) (outs : w.odmas ≡ odma ∷ []) where
    -- The states of the two buffers in a session.
    abbrev InReach : AsyncInput C → List ℕ → List ℕ → Type 0
    InReach b put sent =
        InputWorker.Reach C (address idma.kernel_name) idma.kernel_name idma.packed_shape n
          (record { buffer = b; running = true; put = put; sent = sent })

    abbrev OutReach : AsyncOutput C → Pc → List ℕ → List ℕ → Type 0
    OutReach out pc saved given =
        OutputWorker.Reach C (address odma.kernel_name) odma.kernel_name odma.packed_shape n
          (record { buffer = out; pc = pc; saved = saved; given = given })

    abbrev HasBuffers : Session C address → Type 0
    HasBuffers s =
        (b : AsyncInput C) × (out : AsyncOutput C) × (s.driver.accelerator
          ≡ handler C address w idma odma b out ∷ [])
        × InReach b s.put s.sent
        × OutReach out s.pc s.saved s.given

    Step-HasBuffers :
        {s s' : Session C address}
        → HasBuffers s
        → Step C address w idma odma K F S t s s'
        → HasBuffers s'
    Step-HasBuffers {s = s} (b, out, only, in_reach, out_reach)
          (inputs values batch_size {packed = packed} {after = after} packs called) =
        let (b', stored_b, only') =
          input-stores C address w idma odma K F S t values batch_size packed b out s.driver after
            only packs called in
        (b', out, only', InputWorker.later in_reach (InputWorker.stores packed stored_b), out_reach)
    Step-HasBuffers {s = s} (b, out, only, in_reach, out_reach)
          (results {bytes = bytes} {hs = hs} called) =
        let (same, only') =
          results-given C address w idma odma bytes b out s.driver hs only called in
        (
          b,
          _,
          only',
          in_reach,
          subst (λ xs. OutReach (Output.get_data C out).1 s.pc s.saved (s.given ++ xs)) same
              (OutputWorker.later out_reach OutputWorker.client_gets),
        )
    Step-HasBuffers {s = s} (b, out, only, in_reach, out_reach)
          (transfers {b = b₁} {b' = b'} {out = out₁} only₁ round) =
        let (same, same') = same-buffers b b₁ out out₁ (sym only ∙ only₁) in
        (
          b',
          out₁,
          refl,
          InputWorker.later (subst (λ x. InReach x s.put s.sent) same in_reach)
              (InputWorker.transfers refl round),
          subst (λ x. OutReach x s.pc s.saved s.given) same' out_reach,
        )
    Step-HasBuffers {s = s} (b, out, only, in_reach, out_reach)
          (output_works {b = b₁} {out = out₁} {o = o} only₁ step) =
        let (same, same') = same-buffers b b₁ out out₁ (sym only ∙ only₁) in
        (
          b₁,
          o.buffer,
          refl,
          subst (λ x. InReach x s.put s.sent) same in_reach,
          OutputWorker.later (subst (λ x. OutReach x s.pc s.saved s.given) same' out_reach) step,
        )

    pub Reach-HasBuffers :
        {s : Session C address}
        → Reach C address w idma odma K F S t is_file n force s
        → HasBuffers s
    Reach-HasBuffers (start made) =
        let (b, out, made_in, made_out, only) =
          new-driver C address w idma odma is_file n force ins outs made in
        (b, out, only, InputWorker.start made_in, OutputWorker.start made_out)
    Reach-HasBuffers (later before step) = Step-HasBuffers (Reach-HasBuffers before) step

    -- In every state that a driver for asynchronous inference, its clients and the threads of its
    -- buffers can reach: the packed form of all input is what reached the device and what waits in
    -- the ring buffer of the input, and the results that were saved are those that clients were
    -- given, those archived and those in the ring buffer of the output, in this order. It is stated
    -- for a device with one input and one output kernel, packed shapes of 1 to `2 ^ 31 - 1` bytes, a
    -- host buffer size of at least one, and ring buffers below `2 ^ 64` bytes.
    pub Reach-served :
        {s : Session C address} (d e : ℕ) (rest rest' : Shape)
        → Documented C
        → idma.packed_shape ≡ d ∷ rest
        → odma.packed_shape ≡ e ∷ rest'
        → 1 ≤ n
        → 1 ≤ product (d ∷ rest)
        → product (d ∷ rest) < 2 ^ 31
        → product (d ∷ rest) * n < 2 ^ 64
        → 1 ≤ product (e ∷ rest')
        → product (e ∷ rest') < 2 ^ 31
        → product (e ∷ rest') * n < 2 ^ 64
        → Reach C address w idma odma K F S t is_file n force s
        → (b : AsyncInput C) × (out : AsyncOutput C) × (s.driver.accelerator
            ≡ handler C address w idma odma b out ∷ [])
          × (s.put ≡ s.sent ++ stored C b.ring)
          × (s.saved ≡ s.given ++ (out.long_term_storage ++ stored C out.ring))
    Reach-served {s = s} d e rest rest' D shape shape' positive some_in small_in fits_in some_out
          small_out fits_out path =
        let (b, out, only, in_reach, out_reach) = Reach-HasBuffers path in
        let in_reach' : InputWorker.Reach C (address idma.kernel_name) idma.kernel_name (d ∷ rest) n
            (record { buffer = b; running = true; put = s.put; sent = s.sent }) =
          rw (← shape) in_reach in
        let out_reach' : OutputWorker.Reach C (address odma.kernel_name) odma.kernel_name
            (e ∷ rest') n (record { buffer = out; pc = s.pc; saved = s.saved; given = s.given }) =
          rw (← shape') out_reach in
        (
          b,
          out,
          only,
          (Reach-IsForwarded D (address idma.kernel_name) idma.kernel_name d rest n positive some_in
              small_in fits_in in_reach').0,
          (Reach-IsKept D (address odma.kernel_name) odma.kernel_name e rest' n positive some_out
              small_out fits_out out_reach').in_order,
        )
