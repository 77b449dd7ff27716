-- ===== src/Async/Input/Worker.antt =====
-- core/DeviceBuffer/AsyncDeviceBuffers.hpp: the clients of an asynchronous input buffer and its
-- thread, `runInternal`, in the orders in which they can run.
use finn_cpp_driver.Prelude.{
  ℕ, ◌≤◌, ◌<◌, ◌≡◌, refl, sym, ap, ◌∙◌, arith, Bool, true, false, List, [], ◌++◌, length, take,
  drop, take_append, leb, none, some, ok, length-append, length-drop,
}
use finn_cpp_driver.Circular.{CircularBuffer, Documented}
use finn_cpp_driver.Utils.{Shape}
use finn_cpp_driver.Types.{Name}
use finn_cpp_driver.RingBuffer.{stored}
use finn_cpp_driver.RingBuffer.Inv.{IsValid}
use finn_cpp_driver.RingBuffer.Reads.{read-part, read-nothing}
use finn_cpp_driver.RingBuffer.Parts.{read-same}
use finn_cpp_driver.Async.{copy_to_map}
use finn_cpp_driver.Async.Input.{AsyncInput, make, store, load_map, loaded, sync, run_round}

-- The buffer, whether its thread still runs, all that clients stored and all that reached the device.
pub record System (C : CircularBuffer ℕ) : Type 0 where
  pub buffer : AsyncInput C
  pub running : Bool
  pub put : List ℕ
  pub sent : List ℕ

-- The bytes that the last `sync` transferred: those at the front of the mapped memory.
abbrev pub transferred : {C : CircularBuffer ℕ} → AsyncInput C → List ℕ
transferred b = take b.ring.elements_per_part b.base.mapped

-- A client stores, the thread makes a round of its loop, or it sees that it is to stop.
pub data Step (C : CircularBuffer ℕ) (s : System C) : System C → Type 0 where
  stores :
      (xs : List ℕ) {b : AsyncInput C}
      → store C xs s.buffer ≡ ok (some b)
      → Step C s (record s { buffer = b; put = s.put ++ xs })
  transfers :
      {b : AsyncInput C}
      → s.running ≡ true
      → run_round C s.buffer ≡ ok (some b)
      → Step C s (record s { buffer = b; sent = s.sent ++ transferred b })
  stops : Step C s (record s { running = false })

pub data Reach (C : CircularBuffer ℕ) (adr : ℕ) (name : Name) (shape : Shape) (factor : ℕ)
    : System C → Type 0 where
  start :
      {b : AsyncInput C}
      → make C adr name shape factor ≡ ok b
      → Reach C adr name shape factor (record { buffer = b; running = true; put = []; sent = [] })
  later :
      {s t : System C}
      → Reach C adr name shape factor s
      → Step C s t
      → Reach C adr name shape factor t

-- The mapped memory has room for a part.
abbrev pub HasRoom : {C : CircularBuffer ℕ} → AsyncInput C → Type 0
HasRoom b = b.ring.elements_per_part ≤ length b.base.mapped

module _ {C : CircularBuffer ℕ} (D : Documented C) where
  -- A round with a whole part in the ring buffer.
  pub run_round-part :
      (b : AsyncInput C)
      → IsValid b.ring
      → HasRoom b
      → b.ring.elements_per_part ≤ length (stored C b.ring)
      → (b' : AsyncInput C) × (run_round C b ≡ ok (some b'))
        × IsValid b'.ring
        × HasRoom b'
        × (stored C b.ring ≡ transferred b' ++ stored C b'.ring)
  unfolding run_round load_map loaded sync copy_to_map
  run_round-part b v room enough =
      let (r, out, e, valid, whole, split) = read-part D b.ring v enough in
      let same : r.elements_per_part ≡ b.ring.elements_per_part =
        ap (λ q. q.2.elements_per_part) (sym e) ∙ (read-same D b.ring).0 in
      let front : take r.elements_per_part (out ++ drop (length out) b.base.mapped) ≡ out =
        ap (λ (k : ℕ). take k (out ++ drop (length out) b.base.mapped)) (same ∙ sym whole)
        ∙ take_append out (drop (length out) b.base.mapped) in
      let fits : leb (length out) (length b.base.mapped) ≡ true = ground arith in
      (
        sync C (record {
          base = record b.base { mapped = out ++ drop (length out) b.base.mapped };
          ring = r;
        }),
        rw (e, fits) refl,
        valid,
        omega (
          arith,
          length-append out (drop (length out) b.base.mapped),
          length-drop (length out) b.base.mapped,
        ),
        split ∙ ap (λ ys. ys ++ stored C r) (sym front),
      )

  -- A round without one waits.
  pub run_round-waits :
      (b : AsyncInput C)
      → IsValid b.ring
      → length (stored C b.ring) < b.ring.elements_per_part
      → run_round C b ≡ ok none
  unfolding run_round load_map loaded
  run_round-waits b v few = rw (read-nothing D b.ring v few) refl
