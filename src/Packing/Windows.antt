-- ===== src/Packing/Windows.antt =====
-- Reading a field of a number: from a window of whole bytes, by a shift and a mask.
use native.Mathlib.Nat.{
  add-mul-div_left, add-mul-mod_self_left, div-eq_of_lt, mod-lt, mod-mod, div-div-eq-div-mul,
}
use finn_cpp_driver.Prelude.{
  ℕ, zero, suc, ◌+◌, ◌-◌, ◌*◌, ◌/◌, ◌%◌, ◌^◌, ◌≤◌, ◌<◌, ◌≡◌, sym, ap, ap₂, ◌∙◌, arith, get_or, true,
  leb, ◌&&◌, ok, bit_and,
}
use finn_cpp_driver.Prelude.Powers.{two-pow-add, two-pow-pos, mod-mul, byte-pow-suc}
use finn_cpp_driver.Prelude.Bits.{and_fields, and_mask, and-zero_left}
use finn_cpp_driver.Bytes.{to_bytes, of_bytes-window, length-to_bytes}
use finn_cpp_driver.Packing.{read_bytes}

mod-mod-mul : (x a b : ℕ) → 1 ≤ a → x % (a * b) % a ≡ x % a
mod-mod-mul x a b h = rw (mod-mul x a b, add-mul-mod_self_left (x % a) a (x / a % b)) (mod-mod x a)

pub mod-mul-div : (x a b : ℕ) → 1 ≤ a → x % (a * b) / a ≡ x / a % b
mod-mul-div x a b h =
    rw (mod-mul x a b, add-mul-div_left (x % a) (x / a % b) h)
      (omega (arith, div-eq_of_lt (mod-lt x h)))

-- The `n` bits from bit `s` on, read out of `w` bits that reach over them.
pub field_of_window : (x s n w : ℕ) → s + n ≤ w → x % 2 ^ w / 2 ^ s % 2 ^ n ≡ x / 2 ^ s % 2 ^ n
field_of_window x s n w h =
    ap (λ (k : ℕ). x % k / 2 ^ s % 2 ^ n) split
    ∙ ap (λ (k : ℕ). k % 2 ^ n) (mod-mul-div x (2 ^ s) (2 ^ n * 2 ^ (w - (s + n))) (two-pow-pos s))
    ∙ mod-mod-mul (x / 2 ^ s) (2 ^ n) (2 ^ (w - (s + n))) (two-pow-pos n)
  where
    split : 2 ^ w ≡ 2 ^ s * (2 ^ n * 2 ^ (w - (s + n)))
    split =
        ap (λ (k : ℕ). 2 ^ k) (omega arith)
        ∙ two-pow-add s (n + (w - (s + n)))
        ∙ ap (◌*◌ (2 ^ s)) (two-pow-add n (w - (s + n)))

pub read_bytes-to_bytes :
    (size j k n v : ℕ)
    → k ≤ size
    → j + k ≤ n
    → read_bytes size j k (to_bytes n v) ≡ ok (v / 2 ^ (8 * j) % 2 ^ (8 * k))
unfolding read_bytes
read_bytes-to_bytes size j k n v h room =
    rw (length-to_bytes n v, in_range) (ap ok (of_bytes-window j k n v room))
  where
    in_range : (leb k size && leb (j + k) n) ≡ true
    in_range = ground arith

pub get_or-to_bytes : (n v i : ℕ) → i < n → get_or (to_bytes n v) i 0 ≡ v / 2 ^ (8 * i) % 256
get_or-to_bytes zero v i h = absurd (omega arith)
get_or-to_bytes (suc n) v zero h = omega arith
get_or-to_bytes (suc n) v (suc i) h =
    get_or-to_bytes n (v / 256) i (omega arith)
    ∙ ap (λ (k : ℕ). k % 256)
        (div-div-eq-div-mul v 256 (2 ^ (8 * i)) ∙ ap (λ (k : ℕ). v / k) (sym (byte-pow-suc i)))

-- Testing one bit.
pub and-two-pow : (k x : ℕ) → bit_and (2 ^ k) x ≡ x / 2 ^ k % 2 * 2 ^ k
and-two-pow k x =
    ap₂ bit_and one_bit whole
    ∙ and_fields k 1 0 (x / 2 ^ k) (x % 2 ^ k) (two-pow-pos k) (mod-lt x (two-pow-pos k))
    ∙ omega (arith, ap (λ (t : ℕ). t * 2 ^ k) (and_mask 1 (x / 2 ^ k)), and-zero_left (x % 2 ^ k))
  where
    one_bit : 2 ^ k ≡ 1 * 2 ^ k + 0
    one_bit = omega arith

    whole : x ≡ x / 2 ^ k * 2 ^ k + x % 2 ^ k
    whole = omega arith
