-- ===== src/Allocator/Tests.antt =====
-- Allocation at concrete sizes.
use finn_cpp_driver.Prelude.{
  ℕ, ◌+◌, ◌-◌, ◌*◌, ◌%◌, ◌^◌, ◌≤◌, ◌<◌, ◌≡◌, ◌⊎◌, refl, arith, Option, some, ok, err,
  bad_array_new_length,
}
use finn_cpp_driver.Allocator.{max_size, alloc_bytes, allocate}
use finn_cpp_driver.Allocator.Bytes.{alloc_bytes_lem}

alloc_bytes_lem_example :
    ((4 * 100 + 2 ^ 6 ≤ 2 ^ 64)
      × (4 * 100 ≤ alloc_bytes (2 ^ 6) 4 100)
      × (alloc_bytes (2 ^ 6) 4 100 < 4 * 100 + 2 ^ 6)
      × (alloc_bytes (2 ^ 6) 4 100 % 2 ^ 6 ≡ 0))
    ⊎ ((2 ^ 64 < 4 * 100 + 2 ^ 6) × (alloc_bytes (2 ^ 6) 4 100 ≡ 0))
unfolding max_size
alloc_bytes_lem_example = alloc_bytes_lem 6 (omega arith) 4 100 (omega arith) (omega arith)

hundred : alloc_bytes 64 4 100 ≡ 448
unfolding alloc_bytes
hundred = refl

-- A function that has memory at the address 4096.
abbrev aligned_alloc : ℕ → ℕ → Option ℕ
aligned_alloc align bytes = some 4096

-- Almost the whole range is wanted: no byte is asked for, and the call succeeds.
too_little :
    (allocate aligned_alloc 64 1 (2 ^ 64 - 1) ≡ ok 4096) × (alloc_bytes 64 1 (2 ^ 64 - 1) ≡ 0)
unfolding allocate alloc_bytes
too_little = (refl, refl)

too_many : allocate aligned_alloc 64 4 (2 ^ 62) ≡ err bad_array_new_length
unfolding allocate
too_many = refl
