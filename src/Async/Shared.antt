-- ===== src/Async/Shared.antt =====
-- What the two asynchronous buffers share: a ring buffer as it is made, and storing into it.
use finn_cpp_driver.Prelude.{
  ℕ, ◌*◌, ◌^◌, ◌≤◌, ◌<◌, ◌≡◌, refl, sym, arith, inl, inr, Bool-cases, List, [], ◌++◌, length, ltb,
  ◌==◌, none, some, ok, false, ap, ◌∙◌, >>=-eq-ok, Bool, Option, Result, if◌then◌else◌,
}
use finn_cpp_driver.Circular.{CircularBuffer, Documented}
use finn_cpp_driver.RingBuffer.{RingBuffer, stored, capacity, insert, check_store, free_space}
use finn_cpp_driver.RingBuffer.Inv.{IsValid, new-IsValid, insert-IsValid}
use finn_cpp_driver.RingBuffer.Parts.{new-same}
use finn_cpp_driver.Async.{make_ring, store_shared}

module _ {C : CircularBuffer ℕ} (D : Documented C) where
  pub make_ring-IsValid :
      (factor per : ℕ)
      → 1 ≤ factor
      → 1 ≤ per
      → per * factor < 2 ^ 64
      → (r : RingBuffer C) × (make_ring C factor per ≡ ok r)
        × IsValid r
        × (stored C r ≡ [])
        × (r.elements_per_part ≡ per)
        × (per ≤ capacity C r)
  unfolding make_ring
  make_ring-IsValid factor per hf hp small =
      let (r, made, valid, none_stored) = new-IsValid D factor per hf hp small in
      let (same, size) = new-same D r factor per small made in
      (r, rw (made, some_parts) refl, valid, none_stored, same, rw size (grind arith))
    where
      some_parts : (factor == 0) ≡ false
      some_parts = ground arith

  -- A store that does not wait appends the data; what it does not touch stays as it was.
  pub store_shared-some :
      (xs : List ℕ) (r r' : RingBuffer C)
      → IsValid r
      → store_shared C xs r ≡ ok (some r')
      → IsValid r'
        × (stored C r' ≡ stored C r ++ xs)
        × (r'.elements_per_part ≡ r.elements_per_part)
        × (capacity C r' ≡ capacity C r)
  unfolding store_shared
  store_shared-some xs r r' v h =
      let (_, checked, rest) = >>=-eq-ok (check_store C xs r) _ h in
      elim (Bool-cases (ltb (free_space C r) (length xs))) [
        | inl e ↦ let no : ok none ≡ ok (some r') = ap after (sym e) ∙ rest in absurd cc
        | inr e ↦
            let (valid, added) = insert-IsValid D r v xs checked (ground arith) in
            let yes : ok (some (insert C xs r)) ≡ ok (some r') = ap after (sym e) ∙ rest in
            let same : insert C xs r ≡ r' = cc in
            rw (← same) (valid, added, refl, D.insert_end-capacity r.buffer xs)
      ]
    where
      after : Bool → Result (Option (RingBuffer C))
      after b = if b then ok none else ok (some (insert C xs r))
