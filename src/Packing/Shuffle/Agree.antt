-- ===== src/Packing/Shuffle/Agree.antt =====
-- `bitshuffleMemCopy` and `bitshuffle` agree.
use native.Mathlib.Nat.{
  mod-eq_of_lt, mod-lt, div-div-eq-div-mul, mul-div_cancel, mod-add-div', div-one,
}
use finn_cpp_driver.Prelude.{
  ℕ, zero, suc, ◌+◌, ◌*◌, ◌/◌, ◌%◌, ◌^◌, ◌<◌, ◌≡◌, refl, sym, ap, ap₂, ◌∙◌, arith, List, [], ◌∷◌,
  bit_and, bit_or,
}
use finn_cpp_driver.Prelude.Powers.{two-pow-add, two-pow-pos, two-pow-le}
use finn_cpp_driver.Prelude.Bits.{or_fields, and_fields, and_mask, and_swap, and-zero_left, or_swap}
use finn_cpp_driver.Bytes.{to_bytes, of_bytes}
use finn_cpp_driver.Packing.Shuffle.{bitshuffle_from, bitshuffle, fill_output, bitshuffle_mem_copy}

-- A byte that is cut out by its mask.
byte_of_mask :
    (x i w : ℕ)
    → i < w
    → bit_and x (255 * 2 ^ (8 * i) % 2 ^ (8 * w)) / 2 ^ (8 * i) % 256 ≡ x / 2 ^ (8 * i) % 256
byte_of_mask x i w h =
    ap₂ (λ (a b : ℕ). bit_and a b / 2 ^ (8 * i) % 256) parts whole
    ∙ ap (λ (k : ℕ). k / 2 ^ (8 * i) % 256)
        (and_fields (8 * i) (x / 2 ^ (8 * i)) (x % 2 ^ (8 * i)) 255 0
          (mod-lt x (two-pow-pos (8 * i))) (two-pow-pos (8 * i)))
    ∙ ap (λ (k : ℕ). k % 256) low
    ∙ omega arith
  where
    parts : x ≡ x / 2 ^ (8 * i) * 2 ^ (8 * i) + x % 2 ^ (8 * i)
    parts = omega (arith, mod-add-div' x (2 ^ (8 * i)))

    whole : 255 * 2 ^ (8 * i) % 2 ^ (8 * w) ≡ 255 * 2 ^ (8 * i) + 0
    whole =
        mod-eq_of_lt (
          omega (
            arith,
            two-pow-pos (8 * i),
            two-pow-add (8 * i) 8,
            two-pow-le (8 * i + 8) (8 * w) (omega arith),
          ))
        ∙ omega arith

    low :
        (bit_and (x / 2 ^ (8 * i)) 255 * 2 ^ (8 * i) + bit_and (x % 2 ^ (8 * i)) 0) / 2 ^ (8 * i)
        ≡ x / 2 ^ (8 * i) % 256
    low =
        ap (λ (k : ℕ). k / 2 ^ (8 * i))
          (omega (arith, and_swap (x % 2 ^ (8 * i)) 0, and-zero_left (x % 2 ^ (8 * i))))
        ∙ mul-div_cancel (bit_and (x / 2 ^ (8 * i)) 255) (two-pow-pos (8 * i))
        ∙ and_swap (x / 2 ^ (8 * i)) 255
        ∙ and_mask 8 (x / 2 ^ (8 * i))

-- A functor that makes bytes of bytes.
abbrev pub OnBytes : (ℕ → ℕ) → Type 0
OnBytes f = (b : ℕ) → b < 256 → f b < 256

shuffles :
    (f : ℕ → ℕ) (w x i left : ℕ) (output : List ℕ)
    → OnBytes f
    → i + left ≡ w
    → of_bytes output < 2 ^ (8 * i)
    → bitshuffle_from f w x i left (of_bytes output)
      ≡ of_bytes (fill_output f (to_bytes left (x / 2 ^ (8 * i))) output)
unfolding bitshuffle_from fill_output
shuffles f w x i zero output hf e small = refl
shuffles f w x i (suc left) output hf e small =
    rw (byte_of_mask x i w (omega arith), joined)
      (shuffles f w x (i + 1) left (byte ∷ output) hf (omega arith) below
        ∙ ap (λ (k : ℕ). of_bytes (fill_output f (to_bytes left k) (byte ∷ output))) next)
  where
    byte : ℕ
    byte = f (x / 2 ^ (8 * i) % 256)

    byte_lt : byte < 256
    byte_lt = hf (x / 2 ^ (8 * i) % 256) (omega arith)

    wider : 2 ^ (8 * (i + 1)) ≡ 2 ^ (8 * i) * 256
    wider = ap (λ (k : ℕ). 2 ^ k) (omega arith) ∙ two-pow-add (8 * i) 8

    below : byte + 256 * of_bytes output < 2 ^ (8 * (i + 1))
    below = omega (arith, byte_lt, wider, small)

    joined : bit_or (of_bytes output * 256 % 2 ^ (8 * w)) byte ≡ byte + 256 * of_bytes output
    joined =
        ap (λ (k : ℕ). bit_or k byte)
          (mod-eq_of_lt (omega (arith, below, two-pow-le (8 * (i + 1)) (8 * w) (omega arith))))
        ∙ or_swap (of_bytes output * 256) byte
        ∙ or_fields 8 byte (of_bytes output) byte_lt
        ∙ omega arith

    next : x / 2 ^ (8 * (i + 1)) ≡ x / 2 ^ (8 * i) / 256
    next = ap (◌/◌ x) wider ∙ sym (div-div-eq-div-mul x (2 ^ (8 * i)) 256)

-- `bitshuffleMemCopy` gives what `bitshuffle` gives, for every number of bytes and every functor that
-- makes bytes of bytes.
pub bitshuffle_mem_copy-bitshuffle :
    (f : ℕ → ℕ) (w x : ℕ) → OnBytes f → bitshuffle_mem_copy f w x ≡ bitshuffle f w x
unfolding bitshuffle_mem_copy bitshuffle
bitshuffle_mem_copy-bitshuffle f w x hf = sym (
    shuffles f w x 0 w [] hf (omega arith) (omega arith)
    ∙ ap (λ (k : ℕ). of_bytes (fill_output f (to_bytes w k) [])) (div-one x))
