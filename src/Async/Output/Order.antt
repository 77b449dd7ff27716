-- ===== src/Async/Output/Order.antt =====
-- core/DeviceBuffer/AsyncDeviceBuffers.hpp: where the results of an asynchronous output buffer are,
-- whatever the order in which clients and thread run.
use finn_cpp_driver.Prelude.{
  ℕ, ◌+◌, ◌≤◌, ◌≡◌, refl, sym, ap, ap₂, ◌∙◌, arith, false, List, [], ◌++◌, length, append_assoc,
  append-nil, none, some, Option, ok, ok-inj, >>=-eq-ok, ltb, throw_if, undefined, length-take, not,
  ◌%◌, ◌==◌,
}
use mathlib.Core.Path.{subst}
use native.Mathlib.Nat.{mod_self}
use finn_cpp_driver.Circular.{CircularBuffer, Documented}
use finn_cpp_driver.RingBuffer.{
  RingBuffer, stored, capacity, read_all_valid_parts, check_store, free_space, insert,
}
use finn_cpp_driver.RingBuffer.Inv.{IsValid, free_space_lem}
use finn_cpp_driver.RingBuffer.Reads.{read_all_valid_parts_lem}
use finn_cpp_driver.RingBuffer.Parts.{read_all_valid_parts-same}
use finn_cpp_driver.Async.{store_shared}
use finn_cpp_driver.Async.Shared.{store_shared-some}
use finn_cpp_driver.Async.Output.{AsyncOutput, save_map, archive_valid_buffer_parts}
use finn_cpp_driver.Async.Output.Worker.{
  Pc, syncing, saving, testing, archiving, stopped, System, result,
}

-- All that is left of the results saved: those archived, and after them those in the ring buffer.
abbrev pub pending : {C : CircularBuffer ℕ} → AsyncOutput C → List ℕ
pending {C = C} o = o.long_term_storage ++ stored C o.ring

-- There is room for one more part where the thread saves next.
abbrev pub HasRoom : {C : CircularBuffer ℕ} → Pc → AsyncOutput C → Type 0
HasRoom {C = C} syncing o = length (stored C o.ring) + o.ring.elements_per_part ≤ capacity C o.ring
HasRoom {C = C} saving o = length (stored C o.ring) + o.ring.elements_per_part ≤ capacity C o.ring
HasRoom testing o = Unit
HasRoom archiving o = Unit
HasRoom stopped o = Unit

-- The results saved are those that clients were given, those archived and those in the ring buffer,
-- in this order; and the buffers have the sizes that the thread relies on.
pub record IsKept {C : CircularBuffer ℕ} (s : System C) : Type 0 where
  pub in_order : s.saved ≡ s.given ++ pending s.buffer
  pub valid : IsValid s.buffer.ring
  pub mapped : s.buffer.ring.elements_per_part ≤ length s.buffer.base.mapped
  pub one_part : s.buffer.ring.elements_per_part ≤ capacity C s.buffer.ring
  pub room : HasRoom s.pc s.buffer

module _ {C : CircularBuffer ℕ} (D : Documented C) where
  -- Archiving keeps what is pending, and empties the ring buffer.
  pub archive_valid_buffer_parts_lem :
      (o : AsyncOutput C)
      → IsValid o.ring
      → (pending (archive_valid_buffer_parts C o) ≡ pending o)
        × ((archive_valid_buffer_parts C o).long_term_storage ≡ pending o)
        × IsValid (archive_valid_buffer_parts C o).ring
        × (stored C (archive_valid_buffer_parts C o).ring ≡ [])
        × ((archive_valid_buffer_parts C o).ring.elements_per_part ≡ o.ring.elements_per_part)
        × (capacity C (archive_valid_buffer_parts C o).ring ≡ capacity C o.ring)
  unfolding archive_valid_buffer_parts
  archive_valid_buffer_parts_lem o v =
      let (r, out, found, e, valid, all, none_left) = read_all_valid_parts_lem D o.ring v in
      let (per, size) = read_all_valid_parts-same D o.ring in
      let ring_is : (read_all_valid_parts C o.ring).2 ≡ r = ap (λ q. q.2) e in
      let out_is : (read_all_valid_parts C o.ring).1 ≡ stored C o.ring = ap (λ q. q.1) e ∙ all in
      let archived = ap (λ ys. o.long_term_storage ++ ys) out_is in
      let emptied = ap (stored C) ring_is ∙ none_left in
      (
        ap₂ (λ xs ys. xs ++ ys) archived emptied ∙ append-nil (pending o),
        archived,
        subst IsValid (sym ring_is) valid,
        emptied,
        per,
        size,
      )

  -- A `saveMap` that does not wait puts the result at the end of what is pending.
  pub save_map-some :
      (o : AsyncOutput C) {o' : AsyncOutput C}
      → IsValid o.ring
      → save_map C o ≡ ok (some o')
      → (pending o' ≡ pending o ++ result o)
        × IsValid o'.ring
        × (o'.base ≡ o.base)
        × (o'.ring.elements_per_part ≡ o.ring.elements_per_part)
        × (capacity C o'.ring ≡ capacity C o.ring)
  unfolding save_map
  save_map-some o {o' = o'} v h =
      let (_, _, rest) =
        >>=-eq-ok (throw_if (ltb (length o.base.mapped) o.ring.elements_per_part) undefined) _ h in
      let (found, e, last) = >>=-eq-ok (store_shared C (result o) o.ring) _ rest in
      from found e (ok-inj last)
    where
      from :
          (found : Option (RingBuffer C))
          → store_shared C (result o) o.ring ≡ ok found
          → elim found [ none ↦ none | some ring ↦ some (record o { ring = ring }) ] ≡ some o'
          → (pending o' ≡ pending o ++ result o)
            × IsValid o'.ring
            × (o'.base ≡ o.base)
            × (o'.ring.elements_per_part ≡ o.ring.elements_per_part)
            × (capacity C o'.ring ≡ capacity C o.ring)
      from none e h = absurd cc
      from (some r) e h =
          let (valid, added, per, size) = store_shared-some D (result o) o.ring r v e in
          let same : record o { ring = r } ≡ o' = cc in
          rw (← same) (
            ap (λ ys. o.long_term_storage ++ ys) added
                ∙ sym (append_assoc o.long_term_storage (stored C o.ring) (result o)),
            valid,
            refl,
            per,
            size,
          )

  -- With room for a part `saveMap` does not wait.
  pub save_map-room :
      (o : AsyncOutput C)
      → IsValid o.ring
      → o.ring.elements_per_part ≤ length o.base.mapped
      → length (stored C o.ring) + o.ring.elements_per_part ≤ capacity C o.ring
      → save_map C o ≡ ok (some (record o { ring = insert C (result o) o.ring }))
  unfolding save_map store_shared check_store
  save_map-room o v mapped room = rw (inside, whole_part, capable, now) refl
    where
      size : length (result o) ≡ o.ring.elements_per_part
      size = omega (arith, length-take o.ring.elements_per_part o.base.mapped)

      inside : ltb (length o.base.mapped) o.ring.elements_per_part ≡ false
      inside = ground arith

      whole_part : not (length (result o) % o.ring.elements_per_part == 0) ≡ false
      whole_part = ground (
        arith,
        ap (λ (k : ℕ). k % o.ring.elements_per_part) size,
        mod_self o.ring.elements_per_part,
      )

      capable : ltb (capacity C o.ring) (length (result o)) ≡ false
      capable = ground (arith, size)

      now : ltb (free_space C o.ring) (length (result o)) ≡ false
      now = ground (arith, size, free_space_lem D o.ring v)
