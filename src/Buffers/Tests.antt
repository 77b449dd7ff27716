-- ===== src/Buffers/Tests.antt =====
-- Device buffers at concrete values.
use finn_cpp_driver.Prelude.{
  ℕ, ◌≡◌, refl, arith, inl, true, List, [], ◌∷◌, length, take, ok, err, undefined, ◌>>=◌,
}
use finn_cpp_driver.Types.{Name, total_data_size}
use finn_cpp_driver.Buffers.{XrtCall, write_register, sync_to_device, DeviceBuffer, execute}
use finn_cpp_driver.Buffers.Input
use finn_cpp_driver.Buffers.Output
use finn_cpp_driver.Buffers.Registers.{IsProgrammed, IsCached, execute-IsProgrammed}
use finn_cpp_driver.Buffers.Wait.{is_idle, busy_wait, IsFirstIdle, busy_wait_ends}
use finn_cpp_driver.Prelude.{map, length-map, ◌+◌, ◌≤◌, ltb, if◌then◌else◌, some}
use finn_cpp_driver.Buffers.Sizes.{store-run, get_data_in_bounds, get_data_overreads}

abbrev idma : Name
idma = 105 ∷ []

abbrev sample : List ℕ
sample = 1 ∷ 2 ∷ 3 ∷ 4 ∷ 5 ∷ 6 ∷ []

store-run_example :
    (b filled : DeviceBuffer) × (Input.make 8192 idma (1 ∷ 3 ∷ []) 2 ≡ ok b)
    × (Input.size b total_data_size ≡ ok 6)
    × (Input.store sample b ≡ ok (true, filled))
    × (take 6 filled.mapped ≡ sample)
    × (Input.run filled
        ≡ ok (true, execute 2 (record filled { calls = sync_to_device 6 ∷ filled.calls })))
store-run_example =
    store-run 8192 idma 1 (3 ∷ []) 2 sample (omega arith) (omega arith) (omega arith) refl

get_data_in_bounds_example :
    (o : Output.OutputBuffer) × (Output.make 8192 idma (1 ∷ 3 ∷ []) 1 ≡ ok o)
    × (Output.get_data (Output.read (λ n memory. map (λ x. x + n) memory) o).1
        ≡ ok (take 3 (map (λ x. x + 3) o.base.mapped)))
    × (length (take 3 (map (λ (x : ℕ). x + 3) o.base.mapped)) ≡ 3)
get_data_in_bounds_example =
    get_data_in_bounds 8192 idma 1 (3 ∷ []) 1 (λ n memory. map (λ x. x + n) memory)
      (λ n memory. length-map (λ (x : ℕ). x + n) memory) (omega arith) (omega arith)

get_data_overreads_example :
    (Output.make 8192 idma (2 ∷ 2048 ∷ []) 4 >>= Output.get_data) ≡ err undefined
get_data_overreads_example =
    get_data_overreads 8192 idma 2 (2048 ∷ []) 4 (omega arith) (omega arith) (omega arith)

abbrev idle : DeviceBuffer
idle = record {
  name = idma;
  shape_packed = 2 ∷ 3 ∷ [];
  map_size = 6;
  mapped = sample;
  buf_adr = 8192;
  old_repetitions = 0;
  calls = [];
}

execute-IsProgrammed_example :
    (before : List XrtCall) × ((execute 2 idle).calls ≡ write_register 0 1 ∷ before)
    × IsProgrammed 8192 2 before
    × ((execute 2 idle).buf_adr ≡ 8192)
    × IsCached (execute 2 idle)
execute-IsProgrammed_example = execute-IsProgrammed 2 idle (omega arith) (inl refl)

-- The control register of a kernel that is done after three reads.
abbrev register_reads : ℕ → ℕ
register_reads i = if ltb i 3 then 1 else 4

busy_wait_ends_example :
    (n : ℕ) × (busy_wait 5 register_reads ≡ some (n + 1)) × (n ≤ 3) × IsFirstIdle register_reads 0 n
unfolding is_idle
busy_wait_ends_example = busy_wait_ends 5 3 register_reads (omega arith) refl
