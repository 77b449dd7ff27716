-- ===== src/Buffers/Registers.antt =====
-- The registers that `execute` writes, and skips when the repetitions are those of the last call.
use finn_cpp_driver.Prelude.{
  ℕ, ◌/◌, ◌%◌, ◌^◌, ◌≤◌, ◌≡◌, refl, sym, ap, arith, ◌⊎◌, inl, inr, Bool-cases, ==_iff, List, [],
  ◌∷◌, ◌==◌, if◌then◌else◌, Option, none, some, Result, ok, err,
}
use finn_cpp_driver.Utils.{Shape}
use finn_cpp_driver.Types.{Name}
use finn_cpp_driver.Buffers.{
  XrtCall, write_register, sync_to_device, sync_from_device, DeviceBuffer, set_first, new, execute,
}

-- The last value written to a register.
pub register : ℕ → List XrtCall → Option ℕ
register offset [] = none
register offset (write_register o v ∷ calls) =
    let before = register offset calls in if o == offset then some v else before
register offset (sync_to_device n ∷ calls) = register offset calls
register offset (sync_from_device n ∷ calls) = register offset calls

-- Address and repetitions are in the registers of the kernel.
pub record IsProgrammed (adr repetitions : ℕ) (calls : List XrtCall) : Type 0 where
  pub low : register 16 calls ≡ some (adr % 2 ^ 32)
  pub high : register 20 calls ≡ some (adr / 2 ^ 32 % 2 ^ 32)
  pub count : register 28 calls ≡ some repetitions

-- What `execute` relies on: the registers are programmed for the last repetitions, if there were any.
abbrev pub IsCached : DeviceBuffer → Type 0
IsCached b = (b.old_repetitions ≡ 0) ⊎ IsProgrammed b.buf_adr b.old_repetitions b.calls

pub new-IsCached :
    (adr : ℕ) (name : Name) (shape : Shape) (batch_size : ℕ) (b : DeviceBuffer)
    → new adr name shape batch_size ≡ ok b
    → IsCached b
unfolding new set_first
new-IsCached adr name [] batch_size b h = cc
new-IsCached adr name (d ∷ ds) batch_size b h =
    inl (ap (λ (r : Result DeviceBuffer). elim r [ ok x ↦ x.old_repetitions | err e ↦ 0 ]) (sym h))

started :
    {adr n : ℕ} {calls : List XrtCall}
    → IsProgrammed adr n calls
    → IsProgrammed adr n (write_register 0 1 ∷ calls)
unfolding register
started h = record { low = h.low; high = h.high; count = h.count }

written :
    (adr n : ℕ) (calls : List XrtCall)
    → IsProgrammed adr n (
        write_register 28 n
        ∷ write_register 20 (adr / 2 ^ 32 % 2 ^ 32)
        ∷ write_register 16 (adr % 2 ^ 32)
        ∷ calls)
unfolding register
written adr n calls = record { low = refl; high = refl; count = refl }

-- `execute` starts the kernel last of all, for any positive number of repetitions, and when it does
-- the registers hold the address and these repetitions, whether it wrote them or not; what it
-- relies on holds again for the next call.
pub execute-IsProgrammed :
    (n : ℕ) (b : DeviceBuffer)
    → 1 ≤ n
    → IsCached b
    → (before : List XrtCall) × ((execute n b).calls ≡ write_register 0 1 ∷ before)
      × IsProgrammed b.buf_adr n before
      × ((execute n b).buf_adr ≡ b.buf_adr)
      × IsCached (execute n b)
unfolding execute
execute-IsProgrammed n b pos h = elim (Bool-cases (n == b.old_repetitions)) [
  | inl e ↦ rw e (
    b.calls,
    refl,
    kept h ((==_iff n b.old_repetitions).0 e),
    refl,
    inr (started (still h ((==_iff n b.old_repetitions).0 e))),
  )
  | inr e ↦
      rw e (_, refl, written b.buf_adr n b.calls, refl, inr (started (written b.buf_adr n b.calls)))
]
  where
    still : IsCached b → n ≡ b.old_repetitions → IsProgrammed b.buf_adr b.old_repetitions b.calls
    still (inl z) e = absurd (omega arith)
    still (inr p) e = p

    kept : IsCached b → n ≡ b.old_repetitions → IsProgrammed b.buf_adr n b.calls
    kept c e = rw e (still c e)
