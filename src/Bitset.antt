-- ===== src/Bitset.antt =====
-- src/FINNCppDriver/utils/CustomDynamicBitset.h: `DynamicBitset`, with `bits` as the list of the
-- stored bytes. An index outside the storage is undefined behaviour in the source and ends a call
-- with `undefined` here. `size` is `sizeof(T)` of the unsigned type that `setByte` is called at.
mod Copy
mod Tests
pub mod SetByte
use finn_cpp_driver.Prelude.{
  ℕ, zero, suc, ◌+◌, ◌-◌, ◌*◌, ◌/◌, ◌%◌, ◌^◌, Bool, true, false, ◌||◌, List, [], ◌∷◌, ◌++◌,
  replicate, get_or, take, drop, bit_and, bit_or, ltb, leb, ◌==◌, if◌then◌else◌, Result, ok, err,
  undefined, ◌>>=◌,
}
use finn_cpp_driver.Bytes.{to_bytes}

pub record DynamicBitset : Type 0 where
  pub bytes : ℕ
  pub capacity : ℕ
  pub bits : List ℕ

abbrev pub bytes_for : ℕ → ℕ
bytes_for n = n / 8 + (if n % 8 == 0 then 0 else 1)

-- The constructor: room for `n` bits, none set.
unfoldable pub new : ℕ → DynamicBitset
new n = record { bytes = bytes_for n; capacity = bytes_for n * 8; bits = replicate (bytes_for n) 0 }

pub size : DynamicBitset → ℕ
size s = s.capacity

pub num_bytes : DynamicBitset → ℕ
num_bytes s = s.bytes

all_bytes : ℕ → List ℕ → Bool
all_bytes v [] = true
all_bytes v (b ∷ bs) = let rest = all_bytes v bs in if b == v then rest else false

unfoldable pub all : DynamicBitset → Bool
unfolding all_bytes
all s = all_bytes 255 s.bits

unfoldable pub is_none : DynamicBitset → Bool
unfolding all_bytes
is_none s = all_bytes 0 s.bits

-- `bits[i] |= v`
pub or_at : List ℕ → ℕ → ℕ → Result (List ℕ)
or_at [] i v = err undefined
or_at (b ∷ bs) zero v = ok (bit_or b v ∷ bs)
or_at (b ∷ bs) (suc i) v = do rest ← or_at bs i v; ok (b ∷ rest)

-- `std::memcpy(&bits[i], src, length src)`
pub copy_to : List ℕ → ℕ → List ℕ → Result (List ℕ)
copy_to bs zero [] = ok bs
copy_to [] zero (s ∷ src) = err undefined
copy_to (b ∷ bs) zero (s ∷ src) = do rest ← copy_to bs zero src; ok (s ∷ rest)
copy_to [] (suc i) src = err undefined
copy_to (b ∷ bs) (suc i) src = do rest ← copy_to bs i src; ok (b ∷ rest)

unfoldable pub set_single_bit : ℕ → DynamicBitset → Result DynamicBitset
unfolding or_at
set_single_bit n s = do bs ← or_at s.bits (n / 8) (2 ^ (n % 8)); ok (record s { bits = bs })

-- The bits of `x` that a shift to the left by `off` would push out of the type, in place.
pub overflow : ℕ → ℕ → ℕ → ℕ
overflow size x off =
    let bit_shift = size * 8 - off in bit_and (255 * 2 ^ bit_shift % 2 ^ (size * 8)) x

-- The bytes of `x` after that shift.
pub shifted : ℕ → ℕ → ℕ → List ℕ
shifted size x off = to_bytes size (if off == 0 then x else x * 2 ^ off % 2 ^ (size * 8))

-- `setByte` from its computed offsets on: bit offset `off`, index `byte`, and `cpy_size` bytes of
-- storage from there.
pub place : ℕ → ℕ → ℕ → ℕ → ℕ → List ℕ → Result (List ℕ)
place size x off byte cpy_size bits = do
  spilled ←
      if off == 0 || overflow size x off == 0
      then ok bits
      else or_at bits (byte + size) (overflow size x off / 2 ^ (size * 8 - off) % 256)
  first ← or_at spilled byte (get_or (shifted size x off) 0 0)
  if leb cpy_size 1
      then ok first
      else copy_to first (byte + 1) (
          take (if ltb cpy_size size then cpy_size - 1 else size - 1) (drop 1 (shifted size x off)))

unfoldable pub set_byte : ℕ → ℕ → ℕ → DynamicBitset → Result DynamicBitset
set_byte size x n s = do
  bs ← place size x (n % 8) (n / 8) (s.bytes - n / 8) s.bits
  ok (record s { bits = bs })

-- `outputBytes`: appends the storage to what the output iterator feeds.
pub output_bytes : DynamicBitset → List ℕ → List ℕ
output_bytes s out = out ++ s.bits

-- `getStorageVec` moves the storage out; the vector that stays behind is empty.
unfoldable pub get_storage_vec : DynamicBitset → List ℕ × DynamicBitset
get_storage_vec s = (s.bits, record s { bits = [] })

-- `lhs |= rhs`: `std::transform` reads one byte of `rhs` for each of `lhs`.
or_bytes : List ℕ → List ℕ → Result (List ℕ)
or_bytes [] ys = ok []
or_bytes (x ∷ xs) [] = err undefined
or_bytes (x ∷ xs) (y ∷ ys) = do rest ← or_bytes xs ys; ok (bit_or x y ∷ rest)

unfoldable pub or_assign : DynamicBitset → DynamicBitset → Result DynamicBitset
unfolding or_bytes
or_assign lhs rhs = do bs ← or_bytes lhs.bits rhs.bits; ok (record lhs { bits = bs })
