-- ===== src/Packing/Shuffle/Reversal.antt =====
-- What the reversal does to the bits of a number.
use native.Mathlib.Nat.{div-div-eq-div-mul, zero-div, add-mul-div_left}
use native.Mathlib.Decide.{dec_le}
use finn_cpp_driver.Prelude.{
  ℕ, zero, suc, ◌+◌, ◌-◌, ◌*◌, ◌/◌, ◌%◌, ◌^◌, ◌<◌, ◌≡◌, refl, sym, ap, ap₂, ◌∙◌, arith, Bool, true,
  false, ◌&&◌, ◌==◌, ==_iff, ltb, List, [], ◌∷◌, length, get_or, All,
}
use finn_cpp_driver.Prelude.Powers.{two-pow-add, two-pow-pos}
use finn_cpp_driver.Bytes.{to_bytes, of_bytes, length-to_bytes}
use finn_cpp_driver.Packing.Shuffle.Agree.{OnBytes}
use finn_cpp_driver.Packing.Windows.{field_of_window, get_or-to_bytes}
use finn_cpp_driver.Packing.Shuffle.{detail, fill_output, bitshuffle_mem_copy}

-- Tests of all numbers below a bound.
abbrev all_below : ℕ → (ℕ → Bool) → Bool
all_below zero p = true
all_below (suc n) p = p n && all_below n p

all_below-at : (n : ℕ) (p : ℕ → Bool) (i : ℕ) → all_below n p ≡ true → i < n → p i ≡ true
all_below-at zero p i h lt = absurd (omega arith)
all_below-at (suc n) p i h lt = elim (dec_le n i) [
  | yes top ↦ let at : i ≡ n = omega arith in ap p at ∙ and_left (p n) (all_below n p) h
  | no lower ↦ all_below-at n p i (and_right (p n) (all_below n p) h) (omega arith)
]
  where
    and_left : (a b : Bool) → (a && b) ≡ true → a ≡ true
    and_left true b h = refl
    and_left false b h = h

    and_right : (a b : Bool) → (a && b) ≡ true → b ≡ true
    and_right true b h = h
    and_right false b h = cc

table_right :
    all_below 256 (λ x. all_below 8 (λ j. detail x / 2 ^ j % 2 == x / 2 ^ (7 - j) % 2)) ≡ true
unfolding detail
table_right = refl

pub detail-OnBytes : OnBytes detail
detail-OnBytes b h = ground (arith, all_below-at 256 (λ x. ltb (detail x) 256) b checked h)
  where
    checked : all_below 256 (λ x. ltb (detail x) 256) ≡ true
    checked = unfold detail in refl

-- Bit `j` of a reversed byte.
detail_bit : (b j : ℕ) → b < 256 → j < 8 → detail b / 2 ^ j % 2 ≡ b / 2 ^ (7 - j) % 2
detail_bit b j hb hj = (==_iff (detail b / 2 ^ j % 2) (b / 2 ^ (7 - j) % 2)).0 (
    all_below-at 8 (λ k. detail b / 2 ^ k % 2 == b / 2 ^ (7 - k) % 2) j
      (all_below-at 256 (λ x. all_below 8 (λ k. detail x / 2 ^ k % 2 == x / 2 ^ (7 - k) % 2)) b
        table_right hb)
      hj)

-- Beyond what the loop fills is what was there before.
fill_output_beyond :
    (f : ℕ → ℕ) (input output : List ℕ) (i : ℕ)
    → get_or (fill_output f input output) (length input + i) 0 ≡ get_or output i 0
unfolding fill_output
fill_output_beyond f [] output i =
    let at : 0 + i ≡ i = omega arith in ap (λ (k : ℕ). get_or output k 0) at
fill_output_beyond f (b ∷ input) output i =
    let at : suc (length input) + i ≡ length input + suc i = omega arith in
    ap (λ (k : ℕ). get_or (fill_output f input (f b ∷ output)) k 0) at
    ∙ fill_output_beyond f input (f b ∷ output) (suc i)

-- Byte `i` of what the loop fills.
fill_output_at :
    (f : ℕ → ℕ) (input output : List ℕ) (i : ℕ)
    → i < length input
    → get_or (fill_output f input output) i 0 ≡ f (get_or input (length input - 1 - i) 0)
unfolding fill_output
fill_output_at f [] output i h = absurd (omega arith)
fill_output_at f (b ∷ input) output i h = elim (dec_le (length input) i) [
  | yes last ↦
      let at : i ≡ length input + 0 = omega arith in
      let first : 0 ≡ suc (length input) - 1 - i = omega arith in
      ap (λ (k : ℕ). get_or (fill_output f input (f b ∷ output)) k 0) at
      ∙ fill_output_beyond f input (f b ∷ output) 0
      ∙ ap (λ (k : ℕ). f (get_or (b ∷ input) k 0)) first
  | no before ↦
      let at : suc (length input - 1 - i) ≡ suc (length input) - 1 - i = omega arith in
      fill_output_at f input (f b ∷ output) i (omega arith)
      ∙ ap (λ (k : ℕ). f (get_or (b ∷ input) k 0)) at
]

low_bit : (b r j : ℕ) → j < 8 → (b + 256 * r) / 2 ^ j % 2 ≡ b / 2 ^ j % 2
low_bit b r j h =
    ap (λ (k : ℕ). (b + k) / 2 ^ j % 2) even
    ∙ ap (λ (k : ℕ). k % 2) (add-mul-div_left b (2 * (2 ^ (7 - j) * r)) (two-pow-pos j))
    ∙ omega arith
  where
    even : 256 * r ≡ 2 ^ j * (2 * (2 ^ (7 - j) * r))
    even = omega (arith, ap (λ (k : ℕ). 2 * (k * r)) split)
      where
        split : 128 ≡ 2 ^ j * 2 ^ (7 - j)
        split =
            let e : 7 ≡ j + (7 - j) = omega arith in ap (λ (k : ℕ). 2 ^ k) e ∙ two-pow-add j (7 - j)

-- Bit `j` of a number in bytes.
of_bytes_bit :
    (bs : List ℕ) (j : ℕ)
    → All (λ b. b < 256) bs
    → of_bytes bs / 2 ^ j % 2 ≡ get_or bs (j / 8) 0 / 2 ^ (j % 8) % 2
of_bytes_bit [] j h = rw (zero-div (2 ^ j), zero-div (2 ^ (j % 8))) refl
of_bytes_bit (b ∷ bs) j h = elim (dec_le 8 j) [
  | no low ↦
      let first : 0 ≡ j / 8 = omega arith in
      let at : j ≡ j % 8 = omega arith in
      low_bit b (of_bytes bs) j (omega arith)
      ∙ ap₂ (λ (k m : ℕ). get_or (b ∷ bs) k 0 / 2 ^ m % 2) first at
  | yes high ↦
      let next : suc ((j - 8) / 8) ≡ j / 8 = omega arith in
      let at : (j - 8) % 8 ≡ j % 8 = omega arith in
      let wider : 2 ^ j ≡ 256 * 2 ^ (j - 8) =
        ap (λ (k : ℕ). 2 ^ k) (omega arith) ∙ two-pow-add 8 (j - 8) in
      let rest : (b + 256 * of_bytes bs) / 256 ≡ of_bytes bs = omega (arith, h.0) in
      ap (λ (k : ℕ). (b + 256 * of_bytes bs) / k % 2) wider
      ∙ ap (λ (k : ℕ). k % 2) (sym (div-div-eq-div-mul (b + 256 * of_bytes bs) 256 (2 ^ (j - 8))))
      ∙ ap (λ (k : ℕ). k / 2 ^ (j - 8) % 2) rest
      ∙ of_bytes_bit bs (j - 8) h.1
      ∙ ap₂ (λ (k m : ℕ). get_or (b ∷ bs) k 0 / 2 ^ m % 2) next at
]

fill_output-bytes :
    (f : ℕ → ℕ) (input output : List ℕ)
    → OnBytes f
    → All (λ b. b < 256) input
    → All (λ b. b < 256) output
    → All (λ b. b < 256) (fill_output f input output)
unfolding fill_output
fill_output-bytes f [] output hf h h' = h'
fill_output-bytes f (b ∷ input) output hf h h' =
    fill_output-bytes f input (f b ∷ output) hf h.1 (hf b h.0, h')

to_bytes-bytes : (n v : ℕ) → All (λ b. b < 256) (to_bytes n v)
to_bytes-bytes zero v = tt
to_bytes-bytes (suc n) v = (omega arith, to_bytes-bytes n (v / 256))

-- The bits come out in the opposite order: bit `j` of the reversal of a number of `w` bytes is bit
-- `8 * w - 1 - j` of the number, for every bit that the type has.
pub bitshuffle_mem_copy_bit :
    (w x j : ℕ)
    → j < 8 * w
    → bitshuffle_mem_copy detail w x / 2 ^ j % 2 ≡ x / 2 ^ (8 * w - 1 - j) % 2
unfolding bitshuffle_mem_copy
bitshuffle_mem_copy_bit w x j h =
    of_bytes_bit (fill_output detail (to_bytes w x) []) j
      (fill_output-bytes detail (to_bytes w x) [] detail-OnBytes (to_bytes-bytes w x) tt)
    ∙ ap (λ (k : ℕ). k / 2 ^ (j % 8) % 2)
        (fill_output_at detail (to_bytes w x) [] (j / 8) (omega (arith, length-to_bytes w x))
          ∙ ap (λ (k : ℕ). detail k) byte)
    ∙ detail_bit (x / 2 ^ (8 * row) % 256) (j % 8) (omega arith) (omega arith)
    ∙ field_of_window (x / 2 ^ (8 * row)) (7 - j % 8) 1 8 (omega arith)
    ∙ ap (λ (k : ℕ). k % 2) (div-div-eq-div-mul x (2 ^ (8 * row)) (2 ^ (7 - j % 8)))
    ∙ ap (λ (k : ℕ). x / k % 2)
        (sym (two-pow-add (8 * row) (7 - j % 8)) ∙ ap (λ (k : ℕ). 2 ^ k) (omega arith))
  where
    row : ℕ
    row = w - 1 - j / 8

    byte : get_or (to_bytes w x) (length (to_bytes w x) - 1 - j / 8) 0 ≡ x / 2 ^ (8 * row) % 256
    byte =
        ap (λ (k : ℕ). get_or (to_bytes w x) (k - 1 - j / 8) 0) (length-to_bytes w x)
        ∙ get_or-to_bytes w x row (omega arith)
