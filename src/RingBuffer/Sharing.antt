-- ===== src/RingBuffer/Sharing.antt =====
-- `RingBuffer` with `multiThreaded` on: threads that share the buffer, as the orders in which their
-- critical sections can run. A `store` or `read` that waits takes its step once its condition
-- holds; a `read` that is stopped takes none.
use finn_cpp_driver.Prelude.{
  ℕ, ◌*◌, ◌≤◌, ◌<◌, ◌^◌, ◌≡◌, sym, ap, ◌∙◌, arith, ◌⊎◌, inl, inr, Bool, true, List, [], ◌++◌,
  length, append_assoc, ok,
}
use mathlib.Core.Path.{subst}
use native.Mathlib.Decide.{dec_le}
use finn_cpp_driver.Circular.{CircularBuffer, Documented}
use finn_cpp_driver.RingBuffer.{
  RingBuffer, new, stored, free_space, check_store, insert, read, read_all_valid_parts,
}
use finn_cpp_driver.RingBuffer.Inv.{
  IsValid, new-IsValid, check_store-ok, free_space_lem, insert-IsValid,
}
use finn_cpp_driver.RingBuffer.Reads.{read-part, read-true, no_part, read_all_valid_parts-out}

-- The buffer, with all that was ever stored in it and all that was ever taken out, in order.
pub record System {ℓ} {A : Type ℓ} (C : CircularBuffer A) : Type ℓ where
  pub ring : RingBuffer C
  pub put : List A
  pub got : List A

-- One critical section.
pub data Step {ℓ} {A : Type ℓ} (C : CircularBuffer A) (s : System C) : System C → Type ℓ where
  stores :
      (xs : List A)
      → check_store C xs s.ring ≡ ok tt
      → length xs ≤ free_space C s.ring
      → Step C s (record s { ring = insert C xs s.ring; put = s.put ++ xs })
  reads :
      {out : List A} {r : RingBuffer C}
      → read C s.ring ≡ (true, out, r)
      → Step C s (record s { ring = r; got = s.got ++ out })
  reads_all :
      {found : Bool} {out : List A} {r : RingBuffer C}
      → read_all_valid_parts C s.ring ≡ (found, out, r)
      → Step C s (record s { ring = r; got = s.got ++ out })

-- What a buffer that was constructed for `parts` parts of `per` elements can come to.
pub data Reach {ℓ} {A : Type ℓ} (C : CircularBuffer A) (parts per : ℕ) : System C → Type ℓ where
  start :
      {r : RingBuffer C}
      → new C parts per ≡ ok r
      → Reach C parts per (record { ring = r; put = []; got = [] })
  later : {s t : System C} → Reach C parts per s → Step C s t → Reach C parts per t

-- What was put in is what was taken out and what is still there, in this order.
abbrev pub IsFifo {ℓ} : {A : Type ℓ} {C : CircularBuffer A} → System C → Type ℓ
IsFifo {C = C} s = (s.put ≡ s.got ++ stored C s.ring) × IsValid s.ring

module _ {ℓ} {A : Type ℓ} {C : CircularBuffer A} (D : Documented C) where
  taken :
      (s : System C) (out : List A) (r : RingBuffer C)
      → s.put ≡ s.got ++ stored C s.ring
      → stored C s.ring ≡ out ++ stored C r
      → s.put ≡ (s.got ++ out) ++ stored C r
  taken s out r e split =
      e ∙ ap (λ ys. s.got ++ ys) split ∙ sym (append_assoc s.got out (stored C r))

  Step-IsFifo : {s t : System C} → IsFifo s → Step C s t → IsFifo t
  Step-IsFifo {s = s} (e, v) (stores xs h room) =
      let (valid, added) = insert-IsValid D s.ring v xs h room in
      (
        ap (λ ys. ys ++ xs) e
            ∙ append_assoc s.got (stored C s.ring) xs
            ∙ ap (λ ys. s.got ++ ys) (sym added),
        valid,
      )
  Step-IsFifo {s = s} (e, v) (reads {out = out} {r = r} h) =
      let (valid, split) = read-true D s.ring v h in (taken s out r e split, valid)
  Step-IsFifo {s = s} (e, v) (reads_all {out = out} {r = r} h) =
      let (valid, split) = read_all_valid_parts-out D s.ring v h in (taken s out r e split, valid)

  -- Whatever the order in which threads store, read and read all, for a size below `2 ^ 64`: all
  -- that was stored is all that was read, followed by what is still in the buffer, nothing lost,
  -- repeated or reordered, and the buffer holds whole parts within its capacity.
  pub Reach-IsFifo :
      {parts per : ℕ} {s : System C}
      → 1 ≤ parts
      → 1 ≤ per
      → per * parts < 2 ^ 64
      → Reach C parts per s
      → IsFifo s
  Reach-IsFifo hp hq small (start {r = r} made) =
      let (r', made', valid, empty) = new-IsValid D _ _ hp hq small in
      let same : r' ≡ r = cc in (sym (ap (stored C) (sym same) ∙ empty), subst IsValid same valid)
  Reach-IsFifo hp hq small (later before step) = Step-IsFifo (Reach-IsFifo hp hq small before) step

  -- One of the two sides can always go on: when a `store` passes the checks, there is room for it
  -- now, or a part that `read` takes out.
  pub Reach-live :
      {parts per : ℕ} {s : System C}
      → 1 ≤ parts
      → 1 ≤ per
      → per * parts < 2 ^ 64
      → Reach C parts per s
      → (xs : List A) → check_store C xs s.ring ≡ ok tt
      → (length xs ≤ free_space C s.ring)
        ⊎ ((out : List A) × (r : RingBuffer C) × (read C s.ring ≡ (true, out, r)))
  Reach-live {s = s} hp hq small path xs h =
      let v = (Reach-IsFifo hp hq small path).1 in
      elim (dec_le s.ring.elements_per_part (length (stored C s.ring))) [
        | yes enough ↦ let (r, out, e, _, _, _) = read-part D s.ring v enough in inr (out, r, e)
        | no few ↦
            let (_, _, below) = check_store-ok D s.ring v xs h in
            inl (omega (arith, free_space_lem D s.ring v, no_part D s.ring v (omega arith), below))
      ]
