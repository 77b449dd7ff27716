-- ===== src/Packing/Elements.antt =====
-- What one round of the loops of `unpack` reads.
use native.Mathlib.Nat.{div-div-eq-div-mul, mod-lt, mod-eq_of_lt, mul-add-mod_self_right}
use native.Mathlib.Nat.{div-eq_of_lt, div-eq_of_lt-le, le-div_iff_mul-le}
use native.Mathlib.Decide.{dec_le}
use finn_cpp_driver.Prelude.{
  ℕ, ◌+◌, ◌-◌, ◌*◌, ◌/◌, ◌%◌, ◌^◌, ◌≤◌, ◌<◌, ◌≡◌, sym, ap, ap₂, ◌∙◌, arith, inl, inr, Bool, not,
  ◌&&◌, Bool-cases, bit_and, bit_or, leb, ◌==◌, if◌then◌else◌, ok,
}
use finn_cpp_driver.Prelude.Powers.{two-pow-add, two-pow-pos, two-pow-le, two-pow-suc, pred-mul}
use finn_cpp_driver.Prelude.Bits.{or_fields}
use finn_cpp_driver.Bytes.{to_bytes}
use finn_cpp_driver.Packing.{buffer_size, create_mask, part_element, whole_element}
use finn_cpp_driver.Packing.Mask.{create_mask_lem, and-create_mask}
use finn_cpp_driver.Packing.Windows.{
  field_of_window, read_bytes-to_bytes, get_or-to_bytes, and-two-pow, mod-mul-div,
}

-- The two's complement value of `bits` bits, as a pattern of `r` bytes.
abbrev pub sign_extend : Bool → ℕ → ℕ → ℕ → ℕ
sign_extend signed bits r x =
    if signed && leb (2 ^ (bits - 1)) x then x + (2 ^ (8 * r) - 2 ^ bits) else x

pub buffer_size-le :
    (bits : ℕ) → bits ≤ 64 → (bits ≤ 8 * buffer_size bits) × ((bits + 6) / 8 + 1 ≤ buffer_size bits)
unfolding buffer_size
buffer_size-le bits h = ground arith

-- The code's test of the sign bit.
top_bit :
    (bits x : ℕ)
    → 1 ≤ bits
    → x < 2 ^ bits
    → not (bit_and (2 ^ (bits - 1)) x == 0) ≡ leb (2 ^ (bits - 1)) x
top_bit bits x hb hx = elim (dec_le (2 ^ (bits - 1)) x) [
  | yes h ↦ ground (arith, bit_value, div-eq_of_lt-le {k = 1} (2 ^ (bits - 1)) {m = x}, double, pos)
  | no h ↦ ground (arith, bit_value, div-eq_of_lt {n = x} {m = 2 ^ (bits - 1)})
]
  where
    bit_value : bit_and (2 ^ (bits - 1)) x ≡ x / 2 ^ (bits - 1) % 2 * 2 ^ (bits - 1)
    bit_value = and-two-pow (bits - 1) x

    double : 2 ^ bits ≡ 2 * 2 ^ (bits - 1)
    double = ap (λ (k : ℕ). 2 ^ k) (omega arith) ∙ two-pow-suc (bits - 1)

    pos : 1 ≤ 2 ^ (bits - 1)
    pos = two-pow-pos (bits - 1)

-- Ones above the value, in a buffer of `w` bits, are cut down to those of `8 * r` bits.
ones_above :
    (w bits r x : ℕ)
    → bits ≤ 8 * r
    → 8 * r ≤ w
    → x < 2 ^ bits
    → bit_or x (2 ^ w - 1 - create_mask w bits) % 2 ^ (8 * r) ≡ x + (2 ^ (8 * r) - 2 ^ bits)
ones_above w bits r x hr hw hx =
    rw (create_mask_lem w bits (omega arith), high, or_fields bits x (2 ^ (w - bits) - 1) hx, sum)
      (mul-add-mod_self_right (2 ^ (w - 8 * r) - 1) (2 ^ (8 * r)) (x + (2 ^ (8 * r) - 2 ^ bits))
        ∙ mod-eq_of_lt (omega (arith, smaller)))
  where
    smaller : 2 ^ bits ≤ 2 ^ (8 * r)
    smaller = two-pow-le bits (8 * r) hr

    by_bits : 2 ^ w ≡ 2 ^ (w - bits) * 2 ^ bits
    by_bits = ap (λ (k : ℕ). 2 ^ k) (omega arith) ∙ two-pow-add (w - bits) bits

    by_bytes : 2 ^ w ≡ 2 ^ (w - 8 * r) * 2 ^ (8 * r)
    by_bytes = ap (λ (k : ℕ). 2 ^ k) (omega arith) ∙ two-pow-add (w - 8 * r) (8 * r)

    high : 2 ^ w - 1 - (2 ^ bits - 1) ≡ (2 ^ (w - bits) - 1) * 2 ^ bits
    high = omega (
      arith,
      by_bits,
      pred-mul (2 ^ (w - bits)) (2 ^ bits) (two-pow-pos (w - bits)),
      two-pow-pos bits,
    )

    sum :
        x + (2 ^ (w - bits) - 1) * 2 ^ bits
        ≡ (2 ^ (w - 8 * r) - 1) * 2 ^ (8 * r) + (x + (2 ^ (8 * r) - 2 ^ bits))
    sum = omega (
      arith,
      by_bits,
      by_bytes,
      smaller,
      pred-mul (2 ^ (w - bits)) (2 ^ bits) (two-pow-pos (w - bits)),
      pred-mul (2 ^ (w - 8 * r)) (2 ^ (8 * r)) (two-pow-pos (w - 8 * r)),
    )

-- The sign extension that the code makes in its buffer is the one of the return type.
extended_lem :
    (bits r x : ℕ) (signed : Bool)
    → 1 ≤ bits
    → bits ≤ 8 * r
    → r ≤ buffer_size bits
    → x < 2 ^ bits
    → (if signed && not (bit_and (2 ^ (bits - 1)) x == 0)
          then bit_or x (2 ^ (8 * buffer_size bits) - 1 - create_mask (8 * buffer_size bits) bits)
          else x)
        % 2 ^ (8 * r)
      ≡ sign_extend signed bits r x
extended_lem bits r x signed hb hr hr' hx = elim (Bool-cases (signed && leb (2 ^ (bits - 1)) x)) [
  | inl e ↦
      rw (top_bit bits x hb hx, e) (ones_above (8 * buffer_size bits) bits r x hr (omega arith) hx)
  | inr e ↦
      rw (top_bit bits x hb hx, e) (mod-eq_of_lt (omega (arith, hx, two-pow-le bits (8 * r) hr)))
]

-- A round for a width that does not fill its bytes reads its own bits only.
pub part_element_lem :
    (bits r n v i : ℕ) (signed : Bool)
    → 1 ≤ bits
    → bits ≤ 64
    → bits ≤ 8 * r
    → r ≤ buffer_size bits
    → (i + 1) * bits ≤ 8 * n
    → part_element signed bits r (to_bytes n v) i
      ≡ ok (sign_extend signed bits r (v / 2 ^ (i * bits) % 2 ^ bits))
unfolding part_element
part_element_lem bits r n v i signed hb h64 hr hr' room =
    rw
      (
        read_bytes-to_bytes (buffer_size bits) first count n v
            (omega (arith, buffer_size-le bits h64)) (omega arith),
        and-create_mask (8 * buffer_size bits) bits
            (v / 2 ^ (8 * first) % 2 ^ (8 * count) / 2 ^ (i * bits - first * 8))
            (buffer_size-le bits h64).0,
        field_lem,
      )
      (ap ok (
        extended_lem bits r (v / 2 ^ (i * bits) % 2 ^ bits) signed hb hr hr'
          (mod-lt (v / 2 ^ (i * bits)) (two-pow-pos bits))))
  where
    first : ℕ
    first = i * bits / 8

    count : ℕ
    count = (i * bits + bits - 1) / 8 - first + 1

    field_lem :
        v / 2 ^ (8 * first) % 2 ^ (8 * count) / 2 ^ (i * bits - first * 8) % 2 ^ bits
        ≡ v / 2 ^ (i * bits) % 2 ^ bits
    field_lem =
        field_of_window (v / 2 ^ (8 * first)) (i * bits - first * 8) bits (8 * count) (omega arith)
        ∙ ap (λ (k : ℕ). k % 2 ^ bits)
            (div-div-eq-div-mul v (2 ^ (8 * first)) (2 ^ (i * bits - first * 8))
              ∙ ap (◌/◌ v) (
                  sym (two-pow-add (8 * first) (i * bits - first * 8))
                  ∙ ap (λ (k : ℕ). 2 ^ k) (omega arith)))

-- A round for elements of whole bytes.
pub whole_element_lem :
    (bits needed r n v i : ℕ) (signed : Bool)
    → bits ≡ 8 * needed
    → 1 ≤ needed
    → needed ≤ r
    → (i + 1) * needed ≤ n
    → whole_element signed needed r (to_bytes n v) i
      ≡ ok (sign_extend signed bits r (v / 2 ^ (i * bits) % 2 ^ bits))
unfolding whole_element
whole_element_lem bits needed r n v i signed e hn hr room =
    rw
      (
        read_bytes-to_bytes r (i * needed) needed n v hr (omega arith),
        get_or-to_bytes n v (i * needed + needed - 1) (omega arith),
        field_lem,
        top_bit 8 (v / 2 ^ (8 * (i * needed + needed - 1)) % 256) (omega arith)
            (mod-lt (v / 2 ^ (8 * (i * needed + needed - 1))) (omega arith)),
        same_test,
      )
      (elim (Bool-cases (signed && leb (2 ^ (bits - 1)) x)) [
        | inl h ↦ rw h (ap (λ (k : ℕ). ok (x + (2 ^ (8 * r) - 2 ^ k))) (sym e))
        | inr h ↦ rw h
      ])
  where
    x : ℕ
    x = v / 2 ^ (i * bits) % 2 ^ bits

    below : ℕ
    below = 8 * (needed - 1)

    field_lem : v / 2 ^ (8 * (i * needed)) % 2 ^ (8 * needed) ≡ v / 2 ^ (i * bits) % 2 ^ bits
    field_lem =
        ap₂ (λ (k l : ℕ). v / 2 ^ k % 2 ^ l) (omega (arith, ap (λ (k : ℕ). i * k) e)) (sym e)

    top_byte : x / 2 ^ below ≡ v / 2 ^ (8 * (i * needed + needed - 1)) % 256
    top_byte =
        ap (λ (k : ℕ). v / 2 ^ (i * bits) % k / 2 ^ below)
          (ap (λ (k : ℕ). 2 ^ k) (omega arith) ∙ two-pow-add below 8)
        ∙ mod-mul-div (v / 2 ^ (i * bits)) (2 ^ below) 256 (two-pow-pos below)
        ∙ ap (λ (k : ℕ). k % 256)
            (div-div-eq-div-mul v (2 ^ (i * bits)) (2 ^ below)
              ∙ ap (◌/◌ v) (
                  sym (two-pow-add (i * bits) below)
                  ∙ ap (λ (k : ℕ). 2 ^ k) (omega (arith, ap (λ (k : ℕ). i * k) e))))

    half : 2 ^ (bits - 1) ≡ 128 * 2 ^ below
    half = ap (λ (k : ℕ). 2 ^ k) (omega arith) ∙ two-pow-add 7 below

    same_test :
        leb (2 ^ (8 - 1)) (v / 2 ^ (8 * (i * needed + needed - 1)) % 256) ≡ leb (2 ^ (bits - 1)) x
    same_test = ground (
      arith,
      top_byte,
      half,
      le-div_iff_mul-le {k = 2 ^ below} {x = 128} {y = x} (two-pow-pos below),
    )
