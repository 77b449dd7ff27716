-- ===== src/RingBuffer/Queue/Refine.antt =====
-- A ring buffer for `n` parts behaves as a queue for `n` parts.
use mathlib.Core.Path.{subst}
use finn_cpp_driver.Prelude.{
  ℕ, ◌*◌, ◌^◌, ◌≤◌, ◌<◌, ◌≡◌, refl, sym, ap, ap₂, arith, List, [], ◌∷◌, All, ok,
}
use finn_cpp_driver.Circular.{CircularBuffer, Documented}
use finn_cpp_driver.RingBuffer.{RingBuffer, new}
use finn_cpp_driver.RingBuffer.Inv.{new-IsValid}
use finn_cpp_driver.RingBuffer.Parts.{new-same}
use finn_cpp_driver.RingBuffer.Queue.Steps.{step-Agrees}
use finn_cpp_driver.RingBuffer.Queue.{
  Op, queue_step, queue_run, ring_step, ring_run, IsWhole, Holds,
}

module _ {ℓ} {A : Type ℓ} {C : CircularBuffer A} (D : Documented C) where
  runs :
      (n : ℕ) (ops : List (Op A)) (r : RingBuffer C) (ps : List (List A))
      → Holds n r ps
      → All (IsWhole r.elements_per_part) ops
      → ((ring_run C ops r).0 ≡ (queue_run n ops ps).0)
        × Holds n (ring_run C ops r).1 (queue_run n ops ps).1
  unfolding ring_run queue_run
  runs n [] r ps h w = (refl, h)
  runs n (op ∷ ops) r ps h w =
      let (seen, held, per) = step-Agrees D n op r ps h w.0 in
      let (rest, last) =
        runs n ops (ring_step C op r).1 (queue_step n op ps).1 held
          (subst (λ (k : ℕ). All (IsWhole k) ops) (sym per) w.1) in
      (ap₂ ◌∷◌ seen rest, last)

  -- Refinement: a ring buffer that is constructed for `n` parts of `per` elements, at least one of
  -- each and fewer than `2 ^ 64` elements in all, shows to every sequence of calls what a queue for
  -- `n` parts shows, the empty queue at first: which stores throw, are refused or accepted, which
  -- parts come out, and when it is full. The parts that are stored have `per` elements each.
  pub ring_run-queue_run :
      (n per : ℕ) (ops : List (Op A))
      → 1 ≤ n
      → 1 ≤ per
      → per * n < 2 ^ 64
      → All (IsWhole per) ops
      → (r : RingBuffer C) × (new C n per ≡ ok r)
        × ((ring_run C ops r).0 ≡ (queue_run n ops []).0)
        × Holds n (ring_run C ops r).1 (queue_run n ops []).1
  ring_run-queue_run n per ops hn hp small w =
      let (r, made, valid, none_stored) = new-IsValid D n per hn hp small in
      let (same, size) = new-same D r n per small made in
      let held : Holds n r [] = record {
        valid = valid;
        room = omega (arith, size, ap (λ (k : ℕ). n * k) same);
        contents = none_stored;
        whole = tt;
      } in
      let (seen, last) =
        runs n ops r [] held (subst (λ (k : ℕ). All (IsWhole k) ops) (sym same) w) in
      (r, made, seen, last)
