-- ===== src/Program/Throughput.antt =====
-- src/FINNCppDriver/FINNDriver.cpp: the throughput test, without its clocks and its output.
use finn_cpp_driver.Prelude.{
  ℕ, suc, ◌%◌, ◌^◌, List, if◌then◌else◌, Option, none, some, Result, ok, ◌>>=◌, ◌>>◌,
}
use finn_cpp_driver.Utils.{Shape}
use finn_cpp_driver.Types.{Config}
use finn_cpp_driver.Datatypes.{Datatype}
use finn_cpp_driver.Packing.Pack.{
  ScalarType, floating, signed_integer, unsigned_integer, Conversions,
}
use finn_cpp_driver.Handler.{DeviceBuffers}
use finn_cpp_driver.Driver.{get_device_handler}
use finn_cpp_driver.Driver.Typed.{at}
use finn_cpp_driver.Program.{Outside, Session, infer_as}
use finn_cpp_driver.Prelude.{◌*◌, ◌+◌, zero, replicate}
use finn_cpp_driver.Utils.{shape_to_elements, innermost_dimension}
use finn_cpp_driver.MdSpan
use finn_cpp_driver.Buffers.{set_first}
use finn_cpp_driver.Driver.Typed.{once, first_idma, first_odma}
use finn_cpp_driver.Datatypes.{is_integer}
use finn_cpp_driver.Packing.Pack.{auto_ret_type}
use finn_cpp_driver.Packing.Multi.{pack_multi_dimensional_inputs, unpack_multi_dimensional_outputs}

-- `dtype(1)`; `float` keeps it as `0x3f800000`.
unfoldable pub one_of : ScalarType → ℕ
one_of (floating w) = 1065353216
one_of (signed_integer w) = 1
one_of (unsigned_integer w) = 1

unfoldable pub n_testruns : ℕ
n_testruns = 5000

-- `random i n` stands for the `n` numbers that the generator makes in round `i`.
module _ (O : Outside) (B : DeviceBuffers) (K : Conversions) (F S : Datatype)
    (random : ℕ → ℕ → List ℕ) where
  -- The loop of inferences, with `left` rounds to go.
  pub infer_rounds : ScalarType → ℕ → ℕ → ℕ → Session B → Result (Session B)
  infer_rounds t size i zero s = ok s
  infer_rounds t size i (suc left) s = do
    ret ← infer_as O B K F S t (random i size) s
    infer_rounds t size (i + 1) left ret.1

  -- The loop of packing, with its static folded shape.
  pub pack_rounds : ScalarType → ℕ → ℕ → ℕ → ℕ → Option Shape → Config → Result (Unit {0})
  pack_rounds t size batch_size i zero shape config = ok tt
  pack_rounds t size batch_size i (suc left) shape config = do
    folded₀ ← once shape (first_idma 0 config >>= λ b. ok b.folded_shape)
    folded ← set_first batch_size folded₀
    reshaped_input ← MdSpan.new (random i size) folded
    last ← innermost_dimension folded
    packed ← pack_multi_dimensional_inputs K F t reshaped_input last
    pack_rounds t size batch_size (i + 1) left (some folded) config

  -- The loop of unpacking zeros.
  pub unpack_rounds : ℕ → List ℕ → Shape → ℕ → Config → Result (Unit {0})
  unpack_rounds batch_size inputs packed zero config = ok tt
  unpack_rounds batch_size inputs packed (suc left) config = do
    odma ← first_odma 0 config
    folded ← set_first batch_size odma.folded_shape
    reshaped_output ← MdSpan.new inputs packed
    unpacked ← unpack_multi_dimensional_outputs K S reshaped_output folded
    unpack_rounds batch_size inputs packed left config

  -- `runThroughputTestImpl`
  unfoldable pub run_throughput_test_impl : ScalarType → ℕ → ℕ → Session B → Result (Session B)
  unfolding infer_rounds pack_rounds unpack_rounds
  run_throughput_test_impl t element_count batch_size s = do
    let size = element_count * batch_size % 2 ^ 64
    warmup ← infer_as O B K F S t (replicate size (one_of t)) s
    s' ← infer_rounds t size 0 n_testruns warmup.1
    pack_rounds t size batch_size n_testruns n_testruns none s'.driver.configuration
    odma ← first_odma 0 s'.driver.configuration
    packed ← set_first batch_size odma.packed_shape
    unpack_rounds batch_size (replicate (shape_to_elements packed) 0) packed n_testruns
        s'.driver.configuration
    ok s'

  unfoldable pub run_throughput_test : Session B → Result (Session B)
  unfolding run_throughput_test_impl
  run_throughput_test s = do
    h ← get_device_handler B 0 s.driver.accelerator
    w ← at 0 s.driver.configuration
    idma ← first_idma 0 s.driver.configuration
    run_throughput_test_impl (if is_integer F then auto_ret_type F else floating 4)
        (shape_to_elements idma.normal_shape) s.driver.batch_elements s
