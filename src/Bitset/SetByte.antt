-- ===== src/Bitset/SetByte.antt =====
-- `DynamicBitset::setByte` as arithmetic on the number that the stored bits stand for.
mod Place
use finn_cpp_driver.Prelude.{
  ℕ, suc, ◌+◌, ◌-◌, ◌*◌, ◌/◌, ◌%◌, ◌^◌, ◌≤◌, ◌<◌, ◌≡◌, sym, ap, ap₂, ◌∙◌, arith, ok,
}
use finn_cpp_driver.Bytes.{to_bytes}
use finn_cpp_driver.Bitset.{DynamicBitset, place, set_byte}
use finn_cpp_driver.Bitset.SetByte.Place.{place_lem}

-- A bitset of `n` bytes that holds the number `v`.
abbrev pub holding : ℕ → ℕ → DynamicBitset
holding n v = record { bytes = n; capacity = n * 8; bits = to_bytes n v }

-- `setByte(x, n)` on a bitset that holds a number below `2 ^ n` adds `x * 2 ^ n` to it: for a
-- value of `s` bytes, a bit index `n` inside the storage, and a sum that fits the storage.
pub set_byte-holding :
    (s x n size v : ℕ)
    → 1 ≤ s
    → x < 2 ^ (s * 8)
    → n / 8 < size
    → v < 2 ^ n
    → v + x * 2 ^ n < 2 ^ (8 * size)
    → set_byte s x n (holding size v) ≡ ok (holding size (v + x * 2 ^ n))
unfolding set_byte
set_byte-holding s x n size v pos fits inside hv room = rw placed
  where
    m : ℕ
    m = size - n / 8 - 1

    room_left : size - n / 8 ≡ suc m
    room_left = omega arith

    whole : size ≡ n / 8 + suc m
    whole = omega arith

    index : 8 * (n / 8) + n % 8 ≡ n
    index = omega arith

    placed :
        place s x (n % 8) (n / 8) (size - n / 8) (to_bytes size v)
        ≡ ok (to_bytes size (v + x * 2 ^ n))
    placed =
        ap₂ (λ (k l : ℕ). place s x (n % 8) (n / 8) k (to_bytes l v)) room_left whole
        ∙ place_lem s (n % 8) x (omega arith) fits pos (n / 8) m (s - 1) v (omega arith)
            (omega (arith, ap (λ (k : ℕ). 2 ^ k) index))
            (omega (arith, ap (λ (k : ℕ). x * 2 ^ k) index, ap (λ (k : ℕ). 2 ^ (8 * k)) whole))
        ∙ ap₂ (λ (k l : ℕ). ok (to_bytes k (v + x * 2 ^ l))) (sym whole) index
