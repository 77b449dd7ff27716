-- ===== src/RingBuffer/Inv.antt =====
-- The invariant of a ring buffer, and what each operation does to it and to the stored elements.
use native.Mathlib.Nat.{mod-add-div'}
use finn_cpp_driver.Prelude.{
  ℕ, ◌+◌, ◌-◌, ◌*◌, ◌/◌, ◌%◌, ◌^◌, ◌≤◌, ◌<◌, ◌≡◌, refl, ap, ◌∙◌, arith, ◌≢◌, ◌⊎◌, inl, inr, true,
  false, Bool-cases, List, [], ◌++◌, length, length-append, ltb, ◌==◌, ok, err, runtime_error,
}
use finn_cpp_driver.Circular.{CircularBuffer, Documented}
use finn_cpp_driver.RingBuffer.{
  RingBuffer, new, stored, capacity, free_space, check_store, insert, store,
}

module _ {ℓ} {A : Type ℓ} {C : CircularBuffer A} where
  -- Whole parts only, in a buffer of whole parts.
  pub record IsValid (r : RingBuffer C) : Type ℓ where
    pub some_part : 1 ≤ r.elements_per_part
    pub parts : ℕ
    pub all_parts : capacity C r ≡ parts * r.elements_per_part
    pub bounded : capacity C r < 2 ^ 64
    pub used : ℕ
    pub used_parts : length (stored C r) ≡ used * r.elements_per_part
    pub fits : length (stored C r) ≤ capacity C r

module _ {ℓ} {A : Type ℓ} {C : CircularBuffer A} (D : Documented C) where
  -- A constructor that does not throw makes an empty ring of the wanted size, when that size is
  -- below `2 ^ 64`.
  pub new-IsValid :
      (parts per : ℕ)
      → 1 ≤ parts
      → 1 ≤ per
      → per * parts < 2 ^ 64
      → (r : RingBuffer C) × (new C parts per ≡ ok r) × IsValid r × (stored C r ≡ [])
  unfolding new
  new-IsValid parts per hp hq small = (
    record { buffer = C.with_capacity (per * parts % 2 ^ 64); elements_per_part = per },
    rw nonzero refl,
    record {
      some_part = hq;
      parts = parts;
      all_parts = D.with_capacity-capacity (per * parts % 2 ^ 64) ∙ omega arith;
      bounded = omega (arith, D.with_capacity-capacity (per * parts % 2 ^ 64));
      used = 0;
      used_parts = ap length (D.with_capacity-contents (per * parts % 2 ^ 64)) ∙ omega arith;
      fits = omega (arith, ap length (D.with_capacity-contents (per * parts % 2 ^ 64)));
    },
    D.with_capacity-contents (per * parts % 2 ^ 64),
  )
    where
      nonzero : (per * parts % 2 ^ 64 == 0) ≡ false
      nonzero = ground (arith, positive)
        where
          positive : 1 ≤ per * parts
          positive = grind arith

  module _ (r : RingBuffer C) (v : IsValid r) where
    pub free_space_lem : free_space C r ≡ capacity C r - length (stored C r)
    unfolding free_space
    free_space_lem = omega (arith, v.bounded, v.fits)

    -- The checks let through whole parts that the buffer can hold at all.
    pub check_store-ok :
        (xs : List A)
        → check_store C xs r ≡ ok tt
        → (n : ℕ) × (length xs ≡ n * r.elements_per_part) × (length xs ≤ capacity C r)
    unfolding check_store
    check_store-ok xs h = (
      length xs / r.elements_per_part,
      omega (arith, mod-add-div' (length xs) r.elements_per_part, whole),
      ground arith,
    )
      where
        whole : length xs % r.elements_per_part ≡ 0
        whole = ground arith

    -- Appending such parts, where there is room for them.
    pub insert-IsValid :
        (xs : List A)
        → check_store C xs r ≡ ok tt
        → length xs ≤ free_space C r
        → IsValid (insert C xs r) × (stored C (insert C xs r) ≡ stored C r ++ xs)
    insert-IsValid xs h room =
        let (n, e, below) = check_store-ok xs h in
        let fits : length (stored C r) + length xs ≤ capacity C r =
          omega (arith, free_space_lem, v.fits) in
        let kept = D.insert_end-capacity r.buffer xs in
        let added = D.insert_end-contents r.buffer xs fits in
        let size = ap length added ∙ length-append (stored C r) xs in
        (
          record {
            some_part = v.some_part;
            parts = v.parts;
            all_parts = kept ∙ v.all_parts;
            bounded = omega (arith, kept, v.bounded);
            used = v.used + n;
            used_parts = omega (arith, size, v.used_parts, e);
            fits = omega (arith, size, kept, fits);
          },
          added,
        )

    check_cases :
        (xs : List A)
        → ((check_store C xs r ≡ err runtime_error)
            × ((length xs % r.elements_per_part ≢ 0) ⊎ (capacity C r < length xs)))
          ⊎ (check_store C xs r ≡ ok tt)
    unfolding check_store
    check_cases xs = ground arith

    -- Every outcome of `store` without threads on a valid buffer: it throws for data that is not whole
    -- parts or more than the capacity, returns false and changes nothing without room for all of
    -- it, and else appends the data and keeps the buffer valid.
    pub store_lem :
        (xs : List A)
        → ((store C xs r ≡ err runtime_error)
            × ((length xs % r.elements_per_part ≢ 0) ⊎ (capacity C r < length xs)))
          ⊎ ((store C xs r ≡ ok (false, r)) × (capacity C r < length (stored C r) + length xs))
          ⊎ ((r' : RingBuffer C) × (store C xs r ≡ ok (true, r'))
              × IsValid r'
              × (stored C r' ≡ stored C r ++ xs))
    unfolding store
    store_lem xs = elim (check_cases xs) [
      | inl (e, why) ↦ inl (rw e refl, why)
      | inr e ↦ elim (Bool-cases (ltb (free_space C r) (length xs))) [
        | inl f ↦ inr (inl (rw (e, f) refl, ground (arith, free_space_lem)))
        | inr f ↦
            let (valid, added) = insert-IsValid xs e (ground arith) in
            inr (inr (insert C xs r, rw (e, f) refl, valid, added))
      ]
    ]
