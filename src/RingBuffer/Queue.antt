-- ===== src/RingBuffer/Queue.antt =====
-- What a ring buffer promises: a queue of at most so many parts. `RingBuffer` with `multiThreaded` off
-- implements it, on any circular buffer that does what its documentation says.
mod Steps
pub mod Refine
use finn_cpp_driver.Prelude.{
  ℕ, ◌+◌, ◌*◌, ◌≡◌, Bool, true, false, List, [], ◌∷◌, ◌++◌, length, concat, All, ltb, ◌==◌,
  if◌then◌else◌, Result, ok, err,
}
use finn_cpp_driver.Circular.{CircularBuffer}
use finn_cpp_driver.RingBuffer.{
  RingBuffer, stored, capacity, store, read, read_all_valid_parts, full,
}
use finn_cpp_driver.RingBuffer.Inv.{IsValid}

-- What a client does: it puts parts, takes one, takes all, or asks whether the buffer is full.
pub data Op {ℓ} (A : Type ℓ) : Type ℓ where
  put : List (List A) → Op A
  take_one take_all ask_full : Op A

-- What it sees.
pub data Seen {ℓ} (A : Type ℓ) : Type ℓ where
  thrown refused accepted nothing : Seen A
  given : List A → Seen A
  told : Bool → Seen A

-- The specification: a queue with room for `n` parts.
module _ {ℓ} {A : Type ℓ} where
  pub take_front : List (List A) → Seen A × List (List A)
  take_front [] = (nothing, [])
  take_front (p ∷ ps) = (given p, ps)

  pub empty_out : List (List A) → Seen A × List (List A)
  empty_out [] = (nothing, [])
  empty_out (p ∷ ps) = (given (concat (p ∷ ps)), [])

  pub queue_step : ℕ → Op A → List (List A) → Seen A × List (List A)
  unfolding take_front empty_out
  queue_step n (put parts) ps =
      if ltb n (length parts)
      then (thrown, ps)
      else if ltb n (length ps + length parts)
      then (refused, ps)
      else (accepted, ps ++ parts)
  queue_step n take_one ps = take_front ps
  queue_step n take_all ps = empty_out ps
  queue_step n ask_full ps = (told (length ps == n), ps)

  pub queue_run : ℕ → List (Op A) → List (List A) → List (Seen A) × List (List A)
  unfolding queue_step
  queue_run n [] ps = ([], ps)
  queue_run n (op ∷ ops) ps =
      let (seen, after) = queue_step n op ps in
      let (rest, last) = queue_run n ops after in (seen ∷ rest, last)

-- The same calls on a ring buffer. A `store` that throws has changed nothing.
module _ {ℓ} {A : Type ℓ} (C : CircularBuffer A) where
  stored_or_not : RingBuffer C → Result (Bool × RingBuffer C) → Seen A × RingBuffer C
  stored_or_not r (err e) = (thrown, r)
  stored_or_not r (ok (true, r')) = (accepted, r')
  stored_or_not r (ok (false, r')) = (refused, r')

  read_or_not : Bool × List A × RingBuffer C → Seen A × RingBuffer C
  read_or_not (true, out, r) = (given out, r)
  read_or_not (false, out, r) = (nothing, r)

  pub ring_step : Op A → RingBuffer C → Seen A × RingBuffer C
  unfolding stored_or_not read_or_not
  ring_step (put parts) r = stored_or_not r (store C (concat parts) r)
  ring_step take_one r = read_or_not (read C r)
  ring_step take_all r = read_or_not (read_all_valid_parts C r)
  ring_step ask_full r = (told (full C r), r)

  pub ring_run : List (Op A) → RingBuffer C → List (Seen A) × RingBuffer C
  unfolding ring_step
  ring_run [] r = ([], r)
  ring_run (op ∷ ops) r =
      let (seen, after) = ring_step op r in
      let (rest, last) = ring_run ops after in (seen ∷ rest, last)

-- Calls with whole parts of `per` elements.
abbrev pub IsWhole {ℓ} : {A : Type ℓ} → ℕ → Op A → Type 0
IsWhole per (put parts) = All (λ p. length p ≡ per) parts
IsWhole per take_one = Unit
IsWhole per take_all = Unit
IsWhole per ask_full = Unit

-- The ring buffer holds the parts `ps`, of at most `n`.
pub record Holds {ℓ} {A : Type ℓ} {C : CircularBuffer A} (n : ℕ) (r : RingBuffer C)
    (ps : List (List A)) : Type ℓ where
  pub valid : IsValid r
  pub room : capacity C r ≡ n * r.elements_per_part
  pub contents : stored C r ≡ concat ps
  pub whole : All (λ p. length p ≡ r.elements_per_part) ps
