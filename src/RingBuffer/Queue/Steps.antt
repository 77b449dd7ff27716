-- ===== src/RingBuffer/Queue/Steps.antt =====
-- One call on a ring buffer for `n` parts, and on a queue for `n` parts.
use native.Mathlib.Nat.{mul-mod_left, mul-le-mul_right, mul-lt-mul_of_pos_right}
use mathlib.Core.Path.{subst}
use finn_cpp_driver.Prelude.{
  ℕ, ◌+◌, ◌*◌, ◌%◌, ◌≤◌, ◌<◌, ◌≡◌, refl, sym, ap, ap₂, ◌∙◌, arith, inl, inr, true, false, not,
  Bool-cases, ==_iff, List, [], ◌∷◌, ◌++◌, length, take, drop, take_append, drop_append, concat,
  length-append, All, ltb, ◌==◌, ok, length-concat, concat-append, append-All,
}
use finn_cpp_driver.Circular.{CircularBuffer, Documented}
use finn_cpp_driver.RingBuffer.{
  RingBuffer, stored, capacity, free_space, check_store, store, read_all_valid_parts, empty, full,
}
use finn_cpp_driver.RingBuffer.Inv.{free_space_lem, insert-IsValid}
use finn_cpp_driver.RingBuffer.Reads.{read-part, read-nothing, read_all_valid_parts-out}
use finn_cpp_driver.RingBuffer.Parts.{read-same}
use finn_cpp_driver.RingBuffer.Queue.{
  Op, put, take_one, take_all, ask_full, given, told, take_front, empty_out, queue_step,
  stored_or_not, read_or_not, ring_step, IsWhole, Holds,
}

module _ {ℓ} {A : Type ℓ} {C : CircularBuffer A} (D : Documented C) where
  -- One call: the client sees the same, and the ring buffer holds what the queue holds.
  abbrev pub Agrees : ℕ → Op A → RingBuffer C → List (List A) → Type ℓ
  Agrees n op r ps =
      ((ring_step C op r).0 ≡ (queue_step n op ps).0)
      × Holds n (ring_step C op r).1 (queue_step n op ps).1
      × ((ring_step C op r).1.elements_per_part ≡ r.elements_per_part)

  module _ (n : ℕ) (r : RingBuffer C) (ps : List (List A)) (h : Holds n r ps) where
    size : length (stored C r) ≡ length ps * r.elements_per_part
    size = ap length h.contents ∙ length-concat r.elements_per_part ps h.whole

    more : (a b : ℕ) → a < b → a * r.elements_per_part < b * r.elements_per_part
    more a b lt = mul-lt-mul_of_pos_right lt (omega (arith, h.valid.some_part))

    fewer : (a b : ℕ) → a ≤ b → a * r.elements_per_part ≤ b * r.elements_per_part
    fewer a b le = mul-le-mul_right r.elements_per_part le

    put-Agrees :
        (parts : List (List A))
        → IsWhole r.elements_per_part (put parts)
        → Agrees n (put parts) r ps
    unfolding ring_step queue_step store check_store stored_or_not
    put-Agrees parts w = elim (Bool-cases (ltb n (length parts))) [
      | inl e ↦ rw (even, over e, e) (refl, h, refl)
      | inr e ↦ elim (Bool-cases (ltb n (length ps + length parts))) [
        | inl e' ↦ rw (even, within e, e, e', no_room e') (refl, h, refl)
        | inr e' ↦
            let (valid, joined) =
              insert-IsValid D r h.valid (concat parts) (checked e) (ground (arith, has_room e')) in
            rw (even, within e, e, e', has_room e')
              (
                refl,
                record {
                  valid = valid;
                  room = D.insert_end-capacity r.buffer (concat parts) ∙ h.room;
                  contents =
                      joined
                      ∙ ap (λ xs. xs ++ concat parts) h.contents
                      ∙ sym (concat-append ps parts);
                  whole = append-All (λ p. length p ≡ r.elements_per_part) ps parts h.whole w;
                },
                refl,
              )
      ]
    ]
      where
        added : length (concat parts) ≡ length parts * r.elements_per_part
        added = length-concat r.elements_per_part parts w

        even : not (length (concat parts) % r.elements_per_part == 0) ≡ false
        even = ground (
          arith,
          ap (λ (k : ℕ). k % r.elements_per_part) added,
          mul-mod_left (length parts) r.elements_per_part,
        )

        over : ltb n (length parts) ≡ true → ltb (capacity C r) (length (concat parts)) ≡ true
        over e = ground (arith, added, h.room, more n (length parts) (ground arith))

        within : ltb n (length parts) ≡ false → ltb (capacity C r) (length (concat parts)) ≡ false
        within e = ground (arith, added, h.room, fewer (length parts) n (ground arith))

        sum :
            (length ps + length parts) * r.elements_per_part
            ≡ length (stored C r) + length (concat parts)
        sum = omega (arith, size, added)

        no_room :
            ltb n (length ps + length parts) ≡ true
            → ltb (free_space C r) (length (concat parts)) ≡ true
        no_room e = ground (
          arith,
          sum,
          h.room,
          free_space_lem D r h.valid,
          more n (length ps + length parts) (ground arith),
        )

        has_room :
            ltb n (length ps + length parts) ≡ false
            → ltb (free_space C r) (length (concat parts)) ≡ false
        has_room e = ground (
          arith,
          sum,
          h.room,
          free_space_lem D r h.valid,
          fewer (length ps + length parts) n (ground arith),
        )

        checked : ltb n (length parts) ≡ false → check_store C (concat parts) r ≡ ok tt
        checked e = rw (even, within e) refl

    ask_full-Agrees : Agrees n ask_full r ps
    unfolding ring_step queue_step full
    ask_full-Agrees = (ap told same, h, refl)
      where
        same : (length (stored C r) == capacity C r) ≡ (length ps == n)
        same = elim (Bool-cases (length ps == n)) [
          | inl e ↦ rw e (
              ground (
                arith,
                size,
                h.room,
                ap (λ (k : ℕ). k * r.elements_per_part) ((==_iff (length ps) n).0 e),
              ))
          | inr e ↦ rw e (ground (arith, size, h.room, more (length ps) n, more n (length ps)))
        ]

  take_one-Agrees :
      (n : ℕ) (r : RingBuffer C) (ps : List (List A)) → Holds n r ps → Agrees n take_one r ps
  unfolding ring_step queue_step read_or_not take_front
  take_one-Agrees n r [] h =
      let none_left : length (stored C r) < r.elements_per_part =
        omega (arith, ap length h.contents, h.valid.some_part) in
      rw (read-nothing D r h.valid none_left) (refl, h, refl)
  take_one-Agrees n r (p ∷ ps) h =
      let enough : r.elements_per_part ≤ length (stored C r) =
        omega (arith, ap length h.contents, length-append p (concat ps), h.whole.0) in
      let (r', out, e, valid, long, split) = read-part D r h.valid enough in
      let (per, size) = read-same D r in
      let joined : out ++ stored C r' ≡ p ++ concat ps = sym split ∙ h.contents in
      let wide : length p ≡ length out = omega (arith, long, h.whole.0) in
      let front : out ≡ p =
        sym (take_append out (stored C r'))
        ∙ ap₂ take (sym wide) joined
        ∙ take_append p (concat ps) in
      let back : stored C r' ≡ concat ps =
        sym (drop_append out (stored C r'))
        ∙ ap₂ drop (sym wide) joined
        ∙ drop_append p (concat ps) in
      let same : r'.elements_per_part ≡ r.elements_per_part =
        ap (λ q. q.2.elements_per_part) (sym e) ∙ per in
      rw e (
        ap given front,
        record {
          valid = valid;
          room =
              ap (λ q. capacity C q.2) (sym e) ∙ size ∙ h.room ∙ ap (λ (k : ℕ). n * k) (sym same);
          contents = back;
          whole = subst (λ (k : ℕ). All (λ p. length p ≡ k) ps) (sym same) h.whole.1;
        },
        same,
      )

  take_all-Agrees :
      (n : ℕ) (r : RingBuffer C) (ps : List (List A)) → Holds n r ps → Agrees n take_all r ps
  unfolding ring_step queue_step read_or_not empty_out read_all_valid_parts empty
  take_all-Agrees n r [] h =
      let none_left : (length (stored C r) == 0) ≡ true = ground (arith, ap length h.contents) in
      rw none_left (refl, h, refl)
  take_all-Agrees n r (p ∷ ps) h =
      let filled : (length (stored C r) == 0) ≡ false =
        ground (
          arith,
          ap length h.contents,
          length-append p (concat ps),
          h.whole.0,
          h.valid.some_part,
        ) in
      let cleared : RingBuffer C = record r { buffer = C.clear r.buffer } in
      let out : read_all_valid_parts C r ≡ (true, stored C r, cleared) = rw filled refl in
      rw filled (
        ap given h.contents,
        record {
          valid = (read_all_valid_parts-out D r h.valid out).0;
          room = D.clear-capacity r.buffer ∙ h.room;
          contents = D.clear-contents r.buffer;
          whole = tt;
        },
        refl,
      )

  pub step-Agrees :
      (n : ℕ) (op : Op A) (r : RingBuffer C) (ps : List (List A))
      → Holds n r ps
      → IsWhole r.elements_per_part op
      → Agrees n op r ps
  step-Agrees n (put parts) r ps h w = put-Agrees n r ps h parts w
  step-Agrees n take_one r ps h w = take_one-Agrees n r ps h
  step-Agrees n take_all r ps h w = take_all-Agrees n r ps h
  step-Agrees n ask_full r ps h w = ask_full-Agrees n r ps h
