-- ===== src/RingBuffer/Reads.antt =====
-- What the reads of a ring buffer do to its invariant and to the stored elements.
use finn_cpp_driver.Prelude.{
  ℕ, ◌-◌, ◌*◌, ◌≤◌, ◌<◌, ◌≡◌, refl, sym, ap, ap₂, ◌∙◌, arith, inl, inr, Bool, true, false,
  Bool-cases, ==_iff, List, [], ◌∷◌, ◌++◌, length, take, append-nil, length-drop, length-take,
  take-append-drop, ◌==◌,
}
use mathlib.Core.Path.{subst}
use mathlib.Core.Bool.{false≢true}
use native.Mathlib.Decide.{dec_le}
use finn_cpp_driver.Prelude.Powers.{pred-mul}
use finn_cpp_driver.Circular.{CircularBuffer, Documented}
use finn_cpp_driver.RingBuffer.Inv.{IsValid}
use finn_cpp_driver.RingBuffer.{RingBuffer, stored, read, read_all_valid_parts, empty}

module _ {ℓ} {A : Type ℓ} {C : CircularBuffer A} (D : Documented C) (r : RingBuffer C)
    (v : IsValid r) where
  -- `read` on a valid buffer that holds at least one part succeeds: it hands out one part, the
  -- front of the stored elements, and leaves a valid buffer with the rest.
  pub read-part :
      r.elements_per_part ≤ length (stored C r)
      → (r' : RingBuffer C) × (out : List A) × (read C r ≡ (true, out, r'))
        × IsValid r'
        × (length out ≡ r.elements_per_part)
        × (stored C r ≡ out ++ stored C r')
  unfolding read
  read-part h =
      let left = D.erase_begin-contents r.buffer r.elements_per_part h in
      let kept = D.erase_begin-capacity r.buffer r.elements_per_part in
      let size = ap length left ∙ length-drop r.elements_per_part (stored C r) in
      (
        record r { buffer = C.erase_begin r.buffer r.elements_per_part },
        take r.elements_per_part (stored C r),
        ground arith,
        record {
          some_part = v.some_part;
          parts = v.parts;
          all_parts = kept ∙ v.all_parts;
          bounded = omega (arith, kept, v.bounded);
          used = v.used - 1;
          used_parts =
              omega (arith, size, v.used_parts, pred-mul v.used r.elements_per_part some_used);
          fits = omega (arith, size, kept, v.fits);
        },
        omega (arith, length-take r.elements_per_part (stored C r)),
        sym (take-append-drop r.elements_per_part (stored C r))
            ∙ ap (◌++◌ (take r.elements_per_part (stored C r))) (sym left),
      )
    where
      some_used : 1 ≤ v.used
      some_used = grind (arith, v.some_part, v.used_parts)

  -- `read` on any other.
  pub read-nothing : length (stored C r) < r.elements_per_part → read C r ≡ (false, [], r)
  unfolding read
  read-nothing h = ground arith

  -- What `read` hands out, when it does, is the front of the buffer.
  pub read-true :
      {out : List A} {r' : RingBuffer C}
      → read C r ≡ (true, out, r')
      → IsValid r' × (stored C r ≡ out ++ stored C r')
  read-true h = elim (dec_le r.elements_per_part (length (stored C r))) [
    | yes enough ↦
        let (r'', out'', e, valid, whole, split) = read-part enough in
        let same = sym e ∙ h in
        let same_ring : r'' ≡ _ = ap (λ t. t.2) same in
        (
          subst IsValid same_ring valid,
          split ∙ ap₂ (λ o q. o ++ stored C q) (ap (λ t. t.1) same) same_ring,
        )
    | no few ↦ absurd (false≢true (ap (λ t. t.0) (sym (read-nothing (omega arith)) ∙ h)))
  ]

  -- A valid buffer without a whole part is empty.
  pub no_part : length (stored C r) < r.elements_per_part → length (stored C r) ≡ 0
  no_part h =
      omega (arith, none_used, v.used_parts, ap (λ (k : ℕ). k * r.elements_per_part) none_used)
    where
      none_used : v.used ≡ 0
      none_used = grind (arith, v.used_parts)

  pub read_all_valid_parts_lem :
      (r' : RingBuffer C) × (out : List A) × (found : Bool) × (read_all_valid_parts C r
        ≡ (found, out, r'))
      × IsValid r'
      × (out ≡ stored C r)
      × (stored C r' ≡ [])
  unfolding read_all_valid_parts empty
  read_all_valid_parts_lem = elim (Bool-cases (length (stored C r) == 0)) [
    | inl e ↦ (
      r,
      [],
      false,
      rw e refl,
      v,
      sym (nil (stored C r) ((==_iff (length (stored C r)) 0).0 e)),
      nil (stored C r) ((==_iff (length (stored C r)) 0).0 e),
    )
    | inr e ↦ (
      record r { buffer = C.clear r.buffer },
      stored C r,
      true,
      rw e refl,
      record {
        some_part = v.some_part;
        parts = v.parts;
        all_parts = D.clear-capacity r.buffer ∙ v.all_parts;
        bounded = omega (arith, D.clear-capacity r.buffer, v.bounded);
        used = 0;
        used_parts = ap length (D.clear-contents r.buffer) ∙ omega arith;
        fits = omega (arith, ap length (D.clear-contents r.buffer));
      },
      refl,
      D.clear-contents r.buffer,
    )
  ]
    where
      nil : (xs : List A) → length xs ≡ 0 → xs ≡ []
      nil [] h = refl
      nil (x ∷ xs) h = absurd (omega arith)

  pub read_all_valid_parts-out :
      {found : Bool} {out : List A} {r' : RingBuffer C}
      → read_all_valid_parts C r ≡ (found, out, r')
      → IsValid r' × (stored C r ≡ out ++ stored C r')
  read_all_valid_parts-out h =
      let (r'', out'', found'', e, valid, all, none_left) = read_all_valid_parts_lem in
      let same = sym e ∙ h in
      let same_ring : r'' ≡ _ = ap (λ t. t.2) same in
      (
        subst IsValid same_ring valid,
        sym all
            ∙ sym (append-nil out'')
            ∙ ap₂ (λ o q. o ++ q) (ap (λ t. t.1) same) (sym none_left ∙ ap (stored C) same_ring),
      )
