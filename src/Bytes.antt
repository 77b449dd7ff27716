-- ===== src/Bytes.antt =====
-- The bytes of an unsigned integer in memory, least significant first, as `std::memcpy` shows
-- them on the little-endian machines that the driver supports, and the numbers that bytes stand for.
use finn_cpp_driver.Prelude.{
  ℕ, zero, suc, ◌+◌, ◌-◌, ◌*◌, ◌/◌, ◌%◌, ◌^◌, ◌≤◌, ◌<◌, ◌≡◌, refl, ap, ◌∙◌, arith, List, [], ◌∷◌,
  take, drop, replicate, length,
}
use finn_cpp_driver.Prelude.Powers.{byte-pow-suc, mod-mul}
use native.Mathlib.Nat.{zero-add, suc-add, div-one, div-div-eq-div-mul, mod-eq_of_lt}

abbrev pub to_bytes : ℕ → ℕ → List ℕ
to_bytes zero v = []
to_bytes (suc n) v = (v % 256) ∷ to_bytes n (v / 256)

abbrev pub of_bytes : List ℕ → ℕ
of_bytes [] = 0
of_bytes (b ∷ bs) = b + 256 * of_bytes bs

pub length-to_bytes : (n v : ℕ) → length (to_bytes n v) ≡ n
length-to_bytes zero v = refl
length-to_bytes (suc n) v = ap suc (length-to_bytes n (v / 256))

pub of_bytes-to_bytes : (n v : ℕ) → of_bytes (to_bytes n v) ≡ v % 2 ^ (8 * n)
of_bytes-to_bytes zero v = omega arith
of_bytes-to_bytes (suc n) v =
    rw (of_bytes-to_bytes n (v / 256), byte-pow-suc n, mod-mul v 256 (2 ^ (8 * n)))

pub drop-to_bytes : (j n v : ℕ) → drop j (to_bytes (j + n) v) ≡ to_bytes n (v / 2 ^ (8 * j))
drop-to_bytes zero n v = rw (zero-add, div-one)
drop-to_bytes (suc j) n v = rw (
  suc-add j n,
  drop-to_bytes j n (v / 256),
  byte-pow-suc j,
  div-div-eq-div-mul v 256 (2 ^ (8 * j)),
)

pub take-to_bytes : (k n v : ℕ) → take k (to_bytes (k + n) v) ≡ to_bytes k v
take-to_bytes zero n v = refl
take-to_bytes (suc k) n v = rw (suc-add k n, take-to_bytes k n (v / 256))

-- The bytes `[j, j + k)` as a number.
pub of_bytes-window :
    (j k n v : ℕ)
    → j + k ≤ n
    → of_bytes (take k (drop j (to_bytes n v))) ≡ v / 2 ^ (8 * j) % 2 ^ (8 * k)
of_bytes-window j k n v h =
    ap (λ m. of_bytes (take k (drop j (to_bytes m v)))) split
    ∙ ap (λ bs. of_bytes (take k bs)) (drop-to_bytes j (k + (n - (j + k))) v)
    ∙ ap of_bytes (take-to_bytes k (n - (j + k)) (v / 2 ^ (8 * j)))
    ∙ of_bytes-to_bytes k (v / 2 ^ (8 * j))
  where
    split : n ≡ j + (k + (n - (j + k)))
    split = omega arith

-- No set bit beyond `n` bytes: the representation loses nothing.
pub of_bytes-to_bytes_of_lt : (n v : ℕ) → v < 2 ^ (8 * n) → of_bytes (to_bytes n v) ≡ v
of_bytes-to_bytes_of_lt n v h = of_bytes-to_bytes n v ∙ mod-eq_of_lt h

pub to_bytes-zero : (n : ℕ) → to_bytes n 0 ≡ replicate n 0
to_bytes-zero zero = refl
to_bytes-zero (suc n) = ap (◌∷◌ 0) (to_bytes-zero n)
