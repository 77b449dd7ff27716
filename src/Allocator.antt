-- ===== src/Allocator.antt =====
-- src/FINNCppDriver/utils/AlignedAllocator.hpp. A pointer is its address; `aligned_alloc` stands for
-- the function of the C library, by the alignment and the number of bytes.
pub mod Bytes
mod Tests
use finn_cpp_driver.Prelude.{
  ℕ, ◌+◌, ◌-◌, ◌*◌, ◌/◌, ◌%◌, ◌^◌, ltb, ◌==◌, if◌then◌else◌, Option, none, some, Result, ok, err,
  bad_alloc, bad_array_new_length, throw_if, ◌>>◌,
}

-- `max_size` for values of `size` bytes.
unfoldable pub max_size : ℕ → ℕ
max_size size = (2 ^ 64 - 1) / size

-- `allocBytes`
unfoldable pub alloc_bytes : ℕ → ℕ → ℕ → ℕ
alloc_bytes align size n =
    let bytes = size * n % 2 ^ 64 in
    (bytes / align + (if bytes % align == 0 then 0 else 1)) * align % 2 ^ 64

unfoldable pub allocate : (ℕ → ℕ → Option ℕ) → ℕ → ℕ → ℕ → Result ℕ
unfolding max_size alloc_bytes
allocate aligned_alloc align size n = do
  throw_if (ltb (max_size size) n) bad_array_new_length
  elim (aligned_alloc align (alloc_bytes align size n)) [ none ↦ err bad_alloc | some ptr ↦ ok ptr ]
