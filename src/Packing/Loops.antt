-- ===== src/Packing/Loops.antt =====
-- The loops of `unpack` on packed digits.
use native.Mathlib.Nat.{mod-eq_of_lt, add-mul-div_right, div-eq_of_lt, zero-mul, zero-add, div-one}
use native.Mathlib.Nat.{div-div-eq-div-mul, mul-div_cancel, mul-mod_left, add-mul-mod_self_right}
use finn_cpp_driver.Prelude.{
  ℕ, ◌+◌, ◌-◌, ◌*◌, ◌/◌, ◌%◌, ◌^◌, ◌≤◌, ◌<◌, ◌≡◌, refl, sym, ap, ◌∙◌, arith, inl, inr, true, false,
  Bool-cases, ==_iff, List, [], ◌∷◌, map, length, ◌==◌, Result, ok,
}
use finn_cpp_driver.Prelude.Powers.{two-pow-add, two-pow-pos}
use finn_cpp_driver.Bytes.{to_bytes, length-to_bytes}
use finn_cpp_driver.Bitset.{bytes_for}
use finn_cpp_driver.Datatypes.{Datatype, sign, bitwidth}
use finn_cpp_driver.Packing.{buffer_size, collect, part_element, whole_element, unpack_elements}
use finn_cpp_driver.Packing.Layout.{digits_value, AreDigits}
use finn_cpp_driver.Packing.Elements.{sign_extend, part_element_lem, whole_element_lem}

-- A loop whose rounds read the digits of `v` one after another.
collect_lem :
    (body : ℕ → Result ℕ) (f : ℕ → ℕ) (bits n v i : ℕ) (ys : List ℕ)
    → ((j : ℕ) → j < n → body j ≡ ok (f (v / 2 ^ (j * bits) % 2 ^ bits)))
    → AreDigits bits ys
    → v / 2 ^ (i * bits) ≡ digits_value bits ys
    → i + length ys ≤ n
    → collect body i (length ys) ≡ ok (map f ys)
unfolding collect
collect_lem body f bits n v i [] h d e room = refl
collect_lem body f bits n v i (y ∷ ys) h d e room =
    rw (h i (omega arith), e, low, collect_lem body f bits n v (i + 1) ys h d.1 high (omega arith))
  where
    low : digits_value bits (y ∷ ys) % 2 ^ bits ≡ y
    low = rw (add-mul-mod_self_right y (digits_value bits ys) (2 ^ bits)) (mod-eq_of_lt d.0)

    high : v / 2 ^ ((i + 1) * bits) ≡ digits_value bits ys
    high =
        ap (◌/◌ v) (ap (λ (k : ℕ). 2 ^ k) (omega arith) ∙ two-pow-add (i * bits) bits)
        ∙ sym (div-div-eq-div-mul v (2 ^ (i * bits)) (2 ^ bits))
        ∙ ap (λ (k : ℕ). k / 2 ^ bits) e
        ∙ add-mul-div_right y (digits_value bits ys) (two-pow-pos bits)
        ∙ ap (λ (k : ℕ). k + digits_value bits ys) (div-eq_of_lt d.0)
        ∙ zero-add (digits_value bits ys)

module _ (u : Datatype) (r : ℕ) (xs : List ℕ) where
  abbrev bits : ℕ
  bits = bitwidth u

  abbrev size : ℕ
  size = bytes_for (length xs * bits)

  -- Unpacking the bytes of a non-empty run of digits, with the padding of the last byte, gives each
  -- digit, sign-extended if the datatype is signed: for widths of 1 to 64 bits, a return type that
  -- holds them and is no wider than the buffer of an element, and fewer than `2 ^ 60` bits.
  pub unpack_lem :
      1 ≤ bits
      → bits ≤ 64
      → bits ≤ 8 * r
      → r ≤ buffer_size bits
      → AreDigits bits xs
      → 1 ≤ length xs
      → length xs * bits < 2 ^ 60
      → unpack_elements u r (to_bytes size (digits_value bits xs)) (8 * size - length xs * bits)
        ≡ ok (map (sign_extend (sign u) bits r) xs)
  unfolding unpack_elements
  unpack_lem hb h64 hr hr' d hl small =
      rw
        (
          length-to_bytes size (digits_value bits xs),
          filled,
          payload,
          mul-mod_left (length xs) bits,
          mul-div_cancel (length xs) hb,
        )
        (elim (Bool-cases (bits % 8 == 0)) [
          | inl e ↦
              rw (e, whole_count (whole e))
                (collect_lem
                  (whole_element (sign u) (bits / 8) r (to_bytes size (digits_value bits xs)))
                  (sign_extend (sign u) bits r) bits (length xs) (digits_value bits xs) 0 xs
                  (λ j h.
                    whole_element_lem bits (bits / 8) r size (digits_value bits xs) j (sign u)
                      (omega (arith, whole e)) (omega (arith, whole e)) (omega arith)
                      (rw (whole_size (whole e)) (rounds_le j h (bits / 8))))
                  d at_zero (omega arith))
          | inr e ↦ rw e (
              collect_lem (part_element (sign u) bits r (to_bytes size (digits_value bits xs)))
                (sign_extend (sign u) bits r) bits (length xs) (digits_value bits xs) 0 xs
                (λ j h.
                  part_element_lem bits r size (digits_value bits xs) j (sign u) hb h64 hr hr'
                    (omega (arith, rounds_le j h bits, enough)))
                d at_zero (omega arith))
        ])
    where
      enough : length xs * bits ≤ 8 * size
      enough = ground arith

      some_bits : 1 ≤ length xs * bits
      some_bits = grind arith

      whole : bits % 8 == 0 ≡ true → bits % 8 ≡ 0
      whole e = (==_iff (bits % 8) 0).0 e

      whole_size : bits % 8 ≡ 0 → size ≡ length xs * (bits / 8)
      whole_size e = ground (arith, by_bytes)
        where
          by_bytes : length xs * bits ≡ 8 * (length xs * (bits / 8))
          by_bytes = omega (arith, ap (λ (k : ℕ). length xs * k) bytes)
            where
              bytes : bits ≡ 8 * (bits / 8)
              bytes = omega arith

      rounds_le : (j : ℕ) → j < length xs → (k : ℕ) → (j + 1) * k ≤ length xs * k
      rounds_le j h k = grind arith

      filled : (size == 0) ≡ false
      filled = ground (arith, enough, some_bits)

      payload : (2 ^ 64 + size * 8 - (8 * size - length xs * bits)) % 2 ^ 64 ≡ length xs * bits
      payload = omega (arith, enough)

      whole_count : bits % 8 ≡ 0 → size / (bits / 8) ≡ length xs
      whole_count e =
          ap (λ (k : ℕ). k / (bits / 8)) (whole_size e)
          ∙ mul-div_cancel (length xs) (omega (arith, e))

      at_zero : digits_value bits xs / 2 ^ (0 * bits) ≡ digits_value bits xs
      at_zero = rw (zero-mul bits) (div-one (digits_value bits xs))
