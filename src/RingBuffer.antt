-- ===== src/RingBuffer.antt =====
-- src/FINNCppDriver/utils/RingBuffer.hpp: `RingBuffer`. An output iterator is the list of what is
-- written to it, an input range the list of its elements; a `size_t` has 64 bits.
pub mod Inv
pub mod Reads
pub mod Parts
pub mod Sharing
pub mod Queue
mod Tests
use finn_cpp_driver.Prelude.{
  ℕ, ◌+◌, ◌-◌, ◌*◌, ◌/◌, ◌%◌, ◌^◌, Bool, true, false, not, List, [], length, take, drop, ltb, leb,
  ◌&&◌, ◌==◌, if◌then◌else◌, Result, ok, err, runtime_error, undefined, throw_if, ◌>>=◌, ◌>>◌,
}
use finn_cpp_driver.Circular.{CircularBuffer}
use finn_cpp_driver.Types.{
  SizeSpecifier, bytes, total_data_size, batchsize, featuremap_size, invalid,
}
use finn_cpp_driver.Utils.{int_to_size}

pub record RingBuffer {ℓ} {A : Type ℓ} (C : CircularBuffer A) : Type ℓ where
  pub buffer : C.Buf
  pub elements_per_part : ℕ

module _ {ℓ} {A : Type ℓ} (C : CircularBuffer A) where
  -- The constructor.
  unfoldable pub new : ℕ → ℕ → Result (RingBuffer C)
  new parts elements_per_part = do
    throw_if (elements_per_part * parts % 2 ^ 64 == 0) runtime_error
    ok (record {
      buffer = C.with_capacity (elements_per_part * parts % 2 ^ 64);
      elements_per_part = elements_per_part;
    })

  abbrev pub stored : RingBuffer C → List A
  stored r = C.contents r.buffer

  abbrev pub capacity : RingBuffer C → ℕ
  capacity r = C.capacity r.buffer

  unfoldable pub free_space : RingBuffer C → ℕ
  free_space r = (2 ^ 64 + capacity r - length (stored r)) % 2 ^ 64

  unfoldable pub empty : RingBuffer C → Bool
  empty r = length (stored r) == 0

  unfoldable pub full : RingBuffer C → Bool
  full r = length (stored r) == capacity r

  -- `size(SIZE_SPECIFIER)`, with `sizeof(T)` as its second argument.
  unfoldable pub size : RingBuffer C → ℕ → SizeSpecifier → Result ℕ
  size r width total_data_size = ok (capacity r)
  size r width bytes = ok (capacity r * width % 2 ^ 64)
  size r width batchsize = ok (capacity r / r.elements_per_part)
  size r width featuremap_size = ok r.elements_per_part
  size r width invalid = err runtime_error

  -- `size()`
  unfoldable pub stored_parts : RingBuffer C → ℕ
  stored_parts r = length (stored r) / r.elements_per_part

  -- The checks of `store` that come before the lock.
  unfoldable pub check_store : List A → RingBuffer C → Result (Unit {0})
  check_store values r = do
    throw_if (not (length values % r.elements_per_part == 0)) runtime_error
    throw_if (ltb (capacity r) (length values)) runtime_error

  abbrev pub insert : List A → RingBuffer C → RingBuffer C
  insert values r = record r { buffer = C.insert_end r.buffer values }

  -- `store` with `multiThreaded` off.
  unfoldable pub store : List A → RingBuffer C → Result (Bool × RingBuffer C)
  unfolding check_store free_space
  store values r = do
    check_store values r
    if ltb (free_space r) (length values) then ok (false, r) else ok (true, insert values r)

  -- `read` with `multiThreaded` off: the status, what is written out, and the buffer after.
  unfoldable pub read : RingBuffer C → Bool × List A × RingBuffer C
  read r = if ltb (length (stored r)) r.elements_per_part then (false, [], r) else (
    true,
    take r.elements_per_part (stored r),
    record r { buffer = C.erase_begin r.buffer r.elements_per_part },
  )

  unfoldable pub read_all_valid_parts : RingBuffer C → Bool × List A × RingBuffer C
  unfolding empty
  read_all_valid_parts r =
      if empty r then (false, [], r) else (true, stored r, record r { buffer = C.clear r.buffer })

  -- `std::copy(begin() + from, begin() + to, outputIt)`, undefined outside the stored elements.
  unfoldable pub copy_range : ℕ → ℕ → RingBuffer C → Result (List A)
  copy_range from to r =
      if leb from to && leb to (length (stored r))
      then ok (take (to - from) (drop from (stored r)))
      else err undefined

  -- `index` is the pattern of an `int`; `index + 1` overflows at its maximum.
  unfoldable pub read_without_invalidation : RingBuffer C → ℕ → Result (Bool × List A)
  unfolding empty copy_range int_to_size
  read_without_invalidation r index =
      if empty r then ok (false, []) else if index == 2 ^ 32 - 1 then ok (true, stored r) else do
        throw_if (index == 2 ^ 31 - 1) undefined
        out ←
            copy_range (r.elements_per_part * int_to_size index % 2 ^ 64)
              (r.elements_per_part * int_to_size ((index + 1) % 2 ^ 32) % 2 ^ 64) r
        ok (true, out)
