-- ===== src/Async/Output/Kept.antt =====
-- core/DeviceBuffer/AsyncDeviceBuffers.hpp: no result of the device is lost by an asynchronous output
-- buffer, and its thread never waits for a client.
use finn_cpp_driver.Prelude.{
  ℕ, ◌*◌, ◌^◌, ◌≤◌, ◌<◌, ◌≡◌, refl, sym, ap, ◌∙◌, arith, [], ◌∷◌, ◌++◌, length, append_assoc, some,
  ok,
}
use mathlib.Core.Path.{subst}
use finn_cpp_driver.Circular.{CircularBuffer, Documented}
use finn_cpp_driver.Utils.{Shape}
use finn_cpp_driver.Utils.Shapes.{product, shape_to_elements_lem}
use finn_cpp_driver.Types.{Name}
use finn_cpp_driver.Buffers.Sizes.{new-room}
use finn_cpp_driver.RingBuffer.{stored, capacity}
use finn_cpp_driver.RingBuffer.Inv.{IsValid}
use finn_cpp_driver.RingBuffer.Parts.{full-room}
use finn_cpp_driver.Async.Shared.{make_ring-IsValid}
use finn_cpp_driver.Async.Output.{
  AsyncOutput, make, sync, save_map, archive_valid_buffer_parts, get_data,
}
use finn_cpp_driver.Async.Output.Worker.{
  Pc, syncing, saving, testing, archiving, stopped, System, Step, syncs, saves, tests_full,
  tests_other, archives, stops, client_archives, client_gets, Reach, start, later, result,
}
use finn_cpp_driver.Async.Output.Order.{
  pending, HasRoom, IsKept, archive_valid_buffer_parts_lem, save_map-some, save_map-room,
}

HasRoom-empty :
    {C : CircularBuffer ℕ} (pc : Pc) (o : AsyncOutput C)
    → stored C o.ring ≡ []
    → o.ring.elements_per_part ≤ capacity C o.ring
    → HasRoom pc o
HasRoom-empty syncing o e h = omega (arith, ap length e)
HasRoom-empty saving o e h = omega (arith, ap length e)
HasRoom-empty testing o e h = tt
HasRoom-empty archiving o e h = tt
HasRoom-empty stopped o e h = tt

HasRoom-get_data :
    {C : CircularBuffer ℕ} (pc : Pc) (o : AsyncOutput C)
    → HasRoom pc o
    → HasRoom pc (get_data C o).1
unfolding get_data
HasRoom-get_data syncing o h = h
HasRoom-get_data saving o h = h
HasRoom-get_data testing o h = tt
HasRoom-get_data archiving o h = tt
HasRoom-get_data stopped o h = tt

module _ {C : CircularBuffer ℕ} (D : Documented C) where
  archived :
      (s : System C) (pc : Pc)
      → IsKept s
      → IsKept (record s { buffer = archive_valid_buffer_parts C s.buffer; pc = pc })
  unfolding archive_valid_buffer_parts
  archived s pc k =
      let (same, _, valid, emptied, per, size) =
        archive_valid_buffer_parts_lem D s.buffer k.valid in
      let one_part : (archive_valid_buffer_parts C s.buffer).ring.elements_per_part
          ≤ capacity C (archive_valid_buffer_parts C s.buffer).ring =
        omega (arith, per, size, k.one_part) in
      record {
        in_order = k.in_order ∙ ap (λ ys. s.given ++ ys) (sym same);
        valid = valid;
        mapped = omega (arith, per, k.mapped);
        one_part = one_part;
        room = HasRoom-empty pc (archive_valid_buffer_parts C s.buffer) emptied one_part;
      }

  moved : (s : System C) (pc : Pc) → IsKept s → HasRoom pc s.buffer → IsKept (record s { pc = pc })
  moved s pc k room = record {
    in_order = k.in_order;
    valid = k.valid;
    mapped = k.mapped;
    one_part = k.one_part;
    room = room;
  }

  Step-IsKept : {s t : System C} → IsKept s → Step C s t → IsKept t
  unfolding get_data sync
  Step-IsKept {s = s} k (syncs fetched at e) = record {
    in_order = k.in_order;
    valid = k.valid;
    mapped = omega (arith, k.mapped, e);
    one_part = k.one_part;
    room = subst (λ p. HasRoom p s.buffer) at k.room;
  }
  Step-IsKept {s = s} k (saves {o = o} at h) =
      let (added, valid, base, per, size) = save_map-some D s.buffer k.valid h in
      record {
        in_order =
            ap (λ ys. ys ++ result s.buffer) k.in_order
            ∙ append_assoc s.given (pending s.buffer) (result s.buffer)
            ∙ ap (λ ys. s.given ++ ys) (sym added);
        valid = valid;
        mapped = omega (arith, per, k.mapped, ap (λ b. length b.mapped) base);
        one_part = omega (arith, per, size, k.one_part);
        room = tt;
      }
  Step-IsKept {s = s} k (tests_full at h) = moved s archiving k tt
  Step-IsKept {s = s} k (tests_other at h) = moved s syncing k (full-room D s.buffer.ring k.valid h)
  Step-IsKept {s = s} k (archives at) = archived s syncing k
  Step-IsKept {s = s} k (stops at) = moved s stopped k tt
  Step-IsKept {s = s} k client_archives = archived s s.pc k
  Step-IsKept {s = s} k client_gets = record {
    in_order =
        k.in_order ∙ sym (append_assoc s.given s.buffer.long_term_storage (stored C s.buffer.ring));
    valid = k.valid;
    mapped = k.mapped;
    one_part = k.one_part;
    room = HasRoom-get_data s.pc s.buffer k.room;
  }

  -- Archiving and then getting the data hands out all that is pending, what was archived before and
  -- what is in a valid ring buffer after it, and leaves nothing.
  pub get_data-archive_valid_buffer_parts :
      (o : AsyncOutput C)
      → IsValid o.ring
      → ((get_data C (archive_valid_buffer_parts C o)).0 ≡ pending o)
        × (pending (get_data C (archive_valid_buffer_parts C o)).1 ≡ [])
  unfolding get_data
  get_data-archive_valid_buffer_parts o v =
      let (_, all, _, emptied, _, _) = archive_valid_buffer_parts_lem D o v in (all, emptied)

  module _ (adr : ℕ) (name : Name) (d : ℕ) (rest : Shape) (factor : ℕ) (some_parts : 1 ≤ factor)
      (some_elements : 1 ≤ product (d ∷ rest)) (small : product (d ∷ rest) < 2 ^ 31)
      (fits : product (d ∷ rest) * factor < 2 ^ 64) where
    make-IsKept :
        (o : AsyncOutput C) × (make C adr name (d ∷ rest) factor ≡ ok o)
        × IsKept (record { buffer = o; pc = syncing; saved = []; given = [] })
    unfolding make
    make-IsKept =
        let (base, base_made, _, _, room) = new-room adr name d rest 1 (omega arith) small in
        let (r, ring_made, valid, none_stored, per, one_part) =
          make_ring-IsValid D factor (product (d ∷ rest)) some_parts some_elements fits in
        (
          record { base = base; ring = r; long_term_storage = [] },
          rw (base_made, shape_to_elements_lem (d ∷ rest) (λ p. cc) small, ring_made) refl,
          record {
            in_order = sym none_stored;
            valid = valid;
            mapped = omega (arith, per, room);
            one_part = omega (arith, per, one_part);
            room = omega (arith, ap length none_stored, per, one_part);
          },
        )

    -- In every state that clients and thread of an asynchronous output buffer can reach: the results
    -- that the thread saved are those that clients were given, those archived and those in the ring
    -- buffer, in this order, nothing lost or repeated. It is stated for packed shapes of 1 to
    -- `2 ^ 31 - 1` bytes and at least one part, with a ring buffer below `2 ^ 64` bytes.
    pub Reach-IsKept : {s : System C} → Reach C adr name (d ∷ rest) factor s → IsKept s
    Reach-IsKept (start {o = o} made) =
        let (o', made', kept) = make-IsKept in
        let same : o' ≡ o = cc in
        subst (λ b. IsKept (record { buffer = b; pc = syncing; saved = []; given = [] })) same kept
    Reach-IsKept (later before step) = Step-IsKept (Reach-IsKept before) step

    -- Wherever the thread of such a buffer is about to save a result, it need not wait: there is
    -- room for it in the ring buffer, even when no client ever takes anything out.
    pub save_map-goes_on :
        {s : System C}
        → Reach C adr name (d ∷ rest) factor s
        → s.pc ≡ saving
        → (o : AsyncOutput C) × (save_map C s.buffer ≡ ok (some o))
    save_map-goes_on {s = s} path at =
        let k = Reach-IsKept path in
        (_, save_map-room D s.buffer k.valid k.mapped (subst (λ p. HasRoom p s.buffer) at k.room))
