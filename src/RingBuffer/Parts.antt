-- ===== src/RingBuffer/Parts.antt =====
-- What the operations leave as it is, and the room in a buffer that is not full.
use native.Mathlib.Nat.{mod-eq_of_lt}
use finn_cpp_driver.Prelude.{
  ℕ, ◌+◌, ◌*◌, ◌%◌, ◌^◌, ap, sym, ◌∙◌, ok, runtime_error, throw_if, ok-inj, >>=-eq-ok, ◌≤◌, ◌<◌,
  ◌≡◌, refl, arith, inl, inr, Bool-cases, false, length, ltb, ◌==◌,
}
use finn_cpp_driver.Circular.{CircularBuffer, Documented}
use finn_cpp_driver.RingBuffer.{
  RingBuffer, new, stored, capacity, read, read_all_valid_parts, empty, full,
}
use finn_cpp_driver.RingBuffer.Inv.{IsValid}

module _ {ℓ} {A : Type ℓ} {C : CircularBuffer A} (D : Documented C) (r : RingBuffer C) where
  pub read-same :
      ((read C r).2.elements_per_part ≡ r.elements_per_part)
      × (capacity C (read C r).2 ≡ capacity C r)
  unfolding read
  read-same = elim (Bool-cases (ltb (length (stored C r)) r.elements_per_part)) [
    | inl e ↦ rw e (refl, refl)
    | inr e ↦ rw e (refl, D.erase_begin-capacity r.buffer r.elements_per_part)
  ]

  pub read_all_valid_parts-same :
      ((read_all_valid_parts C r).2.elements_per_part ≡ r.elements_per_part)
      × (capacity C (read_all_valid_parts C r).2 ≡ capacity C r)
  unfolding read_all_valid_parts empty
  read_all_valid_parts-same = elim (Bool-cases (length (stored C r) == 0)) [
    | inl e ↦ rw e (refl, refl)
    | inr e ↦ rw e (refl, D.clear-capacity r.buffer)
  ]

  pub new-same :
      (parts per : ℕ)
      → per * parts < 2 ^ 64
      → new C parts per ≡ ok r
      → (r.elements_per_part ≡ per) × (capacity C r ≡ per * parts)
  unfolding new
  new-same parts per small h =
      let (_, _, made) = >>=-eq-ok (throw_if (per * parts % 2 ^ 64 == 0) runtime_error) _ h in
      (
        ap (λ q. q.elements_per_part) (sym (ok-inj made)),
        ap (λ q. capacity C q) (sym (ok-inj made))
            ∙ D.with_capacity-capacity (per * parts % 2 ^ 64)
            ∙ mod-eq_of_lt small,
      )

  -- A valid buffer that is not full has room for one more part.
  pub full-room :
      IsValid r → full C r ≡ false → length (stored C r) + r.elements_per_part ≤ capacity C r
  unfolding full
  full-room v h = grind (arith, v.used_parts, v.all_parts, one_more)
    where
      fewer : v.used < v.parts
      fewer = grind (arith, v.used_parts, v.all_parts, v.fits)

      one_more : (v.used + 1) * r.elements_per_part ≤ v.parts * r.elements_per_part
      one_more = grind (arith, fewer)
