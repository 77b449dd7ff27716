-- ===== src/Async/Input/Order.antt =====
-- core/DeviceBuffer/AsyncDeviceBuffers.hpp: what reaches the device through an asynchronous input
-- buffer, whatever the order in which clients and thread run.
use finn_cpp_driver.Prelude.{
  ℕ, ◌*◌, ◌^◌, ◌≤◌, ◌<◌, ◌≡◌, refl, sym, ap, ◌∙◌, arith, ◌⊎◌, inl, inr, false, List, [], ◌∷◌, ◌++◌,
  length, append_assoc, none, some, Option, ok, ok-inj, >>=-eq-ok, ltb,
}
use native.Mathlib.Decide.{dec_le}
use finn_cpp_driver.Circular.{CircularBuffer, Documented}
use finn_cpp_driver.Utils.{Shape}
use finn_cpp_driver.Utils.Shapes.{product, shape_to_elements_lem}
use finn_cpp_driver.Types.{Name}
use finn_cpp_driver.Buffers.Sizes.{new-room}
use finn_cpp_driver.RingBuffer.{RingBuffer, stored, check_store, free_space, insert}
use finn_cpp_driver.RingBuffer.Inv.{IsValid, check_store-ok, free_space_lem}
use finn_cpp_driver.RingBuffer.Reads.{no_part}
use finn_cpp_driver.Async.{store_shared}
use finn_cpp_driver.Async.Shared.{make_ring-IsValid, store_shared-some}
use finn_cpp_driver.Async.Input.{AsyncInput, make, store, run_round}
use finn_cpp_driver.Async.Input.Worker.{
  System, Step, stores, transfers, stops, Reach, start, later, HasRoom, transferred, run_round-part,
  run_round-waits,
}

-- What was stored is what was sent to the device and what waits in the ring buffer, in this order.
abbrev pub IsForwarded : {C : CircularBuffer ℕ} → System C → Type 0
IsForwarded {C = C} s =
    (s.put ≡ s.sent ++ stored C s.buffer.ring) × IsValid s.buffer.ring × HasRoom s.buffer

-- A store that does not wait changes the ring buffer only.
store-some :
    (C : CircularBuffer ℕ) (xs : List ℕ) (b : AsyncInput C) {b' : AsyncInput C}
    → store C xs b ≡ ok (some b')
    → (r : RingBuffer C) × (store_shared C xs b.ring ≡ ok (some r)) × (b' ≡ record b { ring = r })
unfolding store
store-some C xs b {b' = b'} h =
    let (found, e, rest) = >>=-eq-ok (store_shared C xs b.ring) _ h in from found e (ok-inj rest)
  where
    from :
        (found : Option (RingBuffer C))
        → store_shared C xs b.ring ≡ ok found
        → elim found [ none ↦ none | some ring ↦ some (record b { ring = ring }) ] ≡ some b'
        → (r : RingBuffer C) × (store_shared C xs b.ring ≡ ok (some r))
          × (b' ≡ record b { ring = r })
    from none e h = absurd cc
    from (some r) e h = (r, e, cc)

module _ {C : CircularBuffer ℕ} (D : Documented C) where
  Step-IsForwarded : {s t : System C} → IsForwarded s → Step C s t → IsForwarded t
  Step-IsForwarded {s = s} (e, v, room) (stores xs h) =
      let (r, stored_some, b_is) = store-some C xs s.buffer h in
      let (valid, added, per, _) = store_shared-some D xs s.buffer.ring r v stored_some in
      rw b_is (
        ap (λ ys. ys ++ xs) e
            ∙ append_assoc s.sent (stored C s.buffer.ring) xs
            ∙ ap (λ ys. s.sent ++ ys) (sym added),
        valid,
        omega (arith, per, room),
      )
  Step-IsForwarded {s = s} (e, v, room) (transfers {b = b} running h) =
      elim (dec_le s.buffer.ring.elements_per_part (length (stored C s.buffer.ring))) [
        | yes enough ↦
            let (b', made, valid, room', split) = run_round-part D s.buffer v room enough in
            let same : b' ≡ b = cc in
            rw (← same) (
              e
                  ∙ ap (λ ys. s.sent ++ ys) split
                  ∙ sym (append_assoc s.sent (transferred b') (stored C b'.ring)),
              valid,
              room',
            )
        | no few ↦ let waits = run_round-waits D s.buffer v (omega arith) in absurd cc
      ]
  Step-IsForwarded h stops = h

  module _ (adr : ℕ) (name : Name) (d : ℕ) (rest : Shape) (factor : ℕ) (some_parts : 1 ≤ factor)
      (some_elements : 1 ≤ product (d ∷ rest)) (small : product (d ∷ rest) < 2 ^ 31)
      (fits : product (d ∷ rest) * factor < 2 ^ 64) where
    -- The constructor succeeds, with an empty ring buffer.
    pub make-IsForwarded :
        (b : AsyncInput C) × (make C adr name (d ∷ rest) factor ≡ ok b)
        × IsValid b.ring
        × HasRoom b
        × (stored C b.ring ≡ [])
    unfolding make
    make-IsForwarded =
        let (base, base_made, _, _, room) = new-room adr name d rest 1 (omega arith) small in
        let (r, ring_made, valid, none_stored, per, _) =
          make_ring-IsValid D factor (product (d ∷ rest)) some_parts some_elements fits in
        (
          record { base = base; ring = r },
          rw (base_made, shape_to_elements_lem (d ∷ rest) (λ p. cc) small, ring_made) refl,
          valid,
          omega (arith, per, room),
          none_stored,
        )

    -- In every state that clients and thread of an asynchronous input buffer can reach: the bytes
    -- stored are those that reached the device and those in the ring buffer, in this order, nothing
    -- lost, repeated or reordered. It is stated for packed shapes of 1 to `2 ^ 31 - 1` bytes and at
    -- least one part, with a ring buffer below `2 ^ 64` bytes.
    pub Reach-IsForwarded : {s : System C} → Reach C adr name (d ∷ rest) factor s → IsForwarded s
    Reach-IsForwarded (start {b = b} made) =
        let (b', made', valid, room, none_stored) = make-IsForwarded in
        let same : b' ≡ b = cc in rw (← same) (sym none_stored, valid, room)
    Reach-IsForwarded (later before step) = Step-IsForwarded (Reach-IsForwarded before) step

    -- In every such state, a store that passes the checks goes through now, or a round of the thread
    -- transfers a part to the device.
    pub Reach-goes_on :
        {s : System C}
        → Reach C adr name (d ∷ rest) factor s
        → (xs : List ℕ) → check_store C xs s.buffer.ring ≡ ok tt
        → ((b : AsyncInput C) × (store C xs s.buffer ≡ ok (some b)))
          ⊎ ((b : AsyncInput C) × (run_round C s.buffer ≡ ok (some b)))
    unfolding store store_shared
    Reach-goes_on {s = s} path xs h =
        let (_, v, room) = Reach-IsForwarded path in
        elim (dec_le s.buffer.ring.elements_per_part (length (stored C s.buffer.ring))) [
          | yes enough ↦
              let (b, made, _, _, _) = run_round-part D s.buffer v room enough in inr (b, made)
          | no few ↦
              let (_, _, below) = check_store-ok D s.buffer.ring v xs h in
              let now : ltb (free_space C s.buffer.ring) (length xs) ≡ false = ground (
                arith,
                free_space_lem D s.buffer.ring v,
                no_part D s.buffer.ring v (omega arith),
                below,
              ) in
              inl (record s.buffer { ring = insert C xs s.buffer.ring }, rw (h, now) refl)
        ]
