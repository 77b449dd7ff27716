-- ===== src/Circular.antt =====
-- The part of `boost::circular_buffer` that utils/RingBuffer.hpp calls, as an interface: the
-- operations, and what their documentation says of them while the capacity is kept.
pub mod Lists
use finn_cpp_driver.Prelude.{ℕ, ◌+◌, ◌≤◌, ◌≡◌, List, [], ◌++◌, length, drop}

pub record CircularBuffer {ℓ} (A : Type ℓ) : Type (ℓ + 1) where
  pub Buf : Type ℓ
  pub with_capacity : ℕ → Buf
  pub capacity : Buf → ℕ
  -- `[begin(), end())`
  pub contents : Buf → List A
  -- `insert(end(), first, last)`
  pub insert_end : Buf → List A → Buf
  -- `erase(begin(), begin() + n)`
  pub erase_begin : Buf → ℕ → Buf
  pub clear : Buf → Buf

pub record Documented {ℓ} {A : Type ℓ} (C : CircularBuffer A) : Type ℓ where
  pub with_capacity-capacity : (n : ℕ) → C.capacity (C.with_capacity n) ≡ n
  pub with_capacity-contents : (n : ℕ) → C.contents (C.with_capacity n) ≡ []
  pub insert_end-capacity :
      (b : C.Buf) (xs : List A) → C.capacity (C.insert_end b xs) ≡ C.capacity b
  pub insert_end-contents :
      (b : C.Buf) (xs : List A)
      → length (C.contents b) + length xs ≤ C.capacity b
      → C.contents (C.insert_end b xs) ≡ C.contents b ++ xs
  pub erase_begin-capacity : (b : C.Buf) (n : ℕ) → C.capacity (C.erase_begin b n) ≡ C.capacity b
  pub erase_begin-contents :
      (b : C.Buf) (n : ℕ)
      → n ≤ length (C.contents b)
      → C.contents (C.erase_begin b n) ≡ drop n (C.contents b)
  pub clear-capacity : (b : C.Buf) → C.capacity (C.clear b) ≡ C.capacity b
  pub clear-contents : (b : C.Buf) → C.contents (C.clear b) ≡ []
