-- ===== src/Program.antt =====
-- src/FINNCppDriver/FINNDriver.cpp: the command line program. Characters are their codes. The option
-- parser is left out: `Options` is what it makes of the command line.
pub mod Files
mod Tests
pub mod Validation
mod Throughput
mod Main
use finn_cpp_driver.Prelude.{
  ℕ, Bool, false, not, ◌||◌, List, [], ◌∷◌, ◌++◌, length, get_or, leb, ◌==◌, if◌then◌else◌, Result,
  ok, err, runtime_error, undefined, throw_if, ◌>>=◌, ◌>>◌,
}
use finn_cpp_driver.Utils.{Shape}
use finn_cpp_driver.Types.{Name}
use finn_cpp_driver.Datatypes.{Datatype}
use finn_cpp_driver.Packing.Pack.{
  ScalarType, floating, signed_integer, unsigned_integer, Conversions,
}
use finn_cpp_driver.Handler.{DeviceBuffers}
use finn_cpp_driver.Driver
use finn_cpp_driver.Driver.{BaseDriver, front, get_device_handler}
use finn_cpp_driver.Driver.Typed.{Statics, at, infer_synchronous_default}

unfoldable pub same_type : ScalarType → ScalarType → Bool
same_type (floating m) (floating n) = m == n
same_type (signed_integer m) (signed_integer n) = m == n
same_type (unsigned_integer m) (unsigned_integer n) = m == n
same_type t u = false

-- `xt::detail::npy_file`
pub record NpyFile : Type 0 where
  pub typestring : Name
  pub contents : List ℕ

-- What the program calls of the standard library and of xtensor: whether a stream opens and a path
-- exists, loading and casting a file, and `std::stoi`.
pub record Outside : Type 0 where
  pub opens : Name → Bool
  pub exists : Name → Bool
  pub load_npy_file : Name → Result NpyFile
  pub cast : ScalarType → NpyFile → Result (List ℕ)
  pub stoi : Name → Result ℕ

-- The driver, the statics of each instantiation of `inferSynchronous`, and the files dumped.
pub record Session (B : DeviceBuffers) : Type 0 where
  pub driver : BaseDriver B
  pub statics : ScalarType → Statics
  pub dumped : List (Name × List ℕ × Shape)

-- `[i]` of a `std::string`, which is 0 at its end.
unfoldable pub char_at : ℕ → Name → Result ℕ
char_at i s = if leb i (length s) then ok (get_or s i 0) else err undefined

module _ (O : Outside) (B : DeviceBuffers) (K : Conversions) (F S : Datatype) where
  -- `baseDriver.inferSynchronous` on a vector of the given type.
  unfoldable pub infer_as : ScalarType → List ℕ → Session B → Result (List ℕ × Session B)
  infer_as t values s = do
    done ← infer_synchronous_default B K F S t values (s.statics t) s.driver
    ok (
      done.0,
      record s { driver = done.2; statics = λ u. if same_type t u then done.1 else s.statics u },
    )

  unfoldable pub load_infer_dump : ScalarType → NpyFile → Name → Session B → Result (Session B)
  unfolding at front
  load_infer_dump t file output_file s = do
    vec ← O.cast t file
    ret ← infer_as t vec s
    w ← at 0 ret.1.driver.configuration
    odma ← front w.odmas
    ok (record ret.1 { dumped = ret.1.dumped ++ (output_file, ret.0, odma.normal_shape) ∷ [] })

  unfoldable pub infer_floating_point : NpyFile → Name → Session B → Result (Session B)
  infer_floating_point file output_file s = do
    size ← O.stoi file.typestring
    if size == 4
        then load_infer_dump (floating 4) file output_file s
        else if size == 8
        then load_infer_dump (floating 8) file output_file s
        else err runtime_error

  -- `inferSignedInteger` and `inferUnsignedInteger`, by the type of a size.
  unfoldable pub infer_integer : (ℕ → ScalarType) → NpyFile → Name → Session B → Result (Session B)
  infer_integer t file output_file s = do
    size ← O.stoi file.typestring
    if size == 1
        then load_infer_dump (t 1) file output_file s
        else if size == 2
        then load_infer_dump (t 2) file output_file s
        else if size == 4
        then load_infer_dump (t 4) file output_file s
        else if size == 8
        then load_infer_dump (t 8) file output_file s
        else err runtime_error

  -- The switch on the second character of the type string: `f`, `i`, `b` and `u`.
  unfoldable pub infer_by_type : ℕ → NpyFile → Name → Session B → Result (Session B)
  infer_by_type c file out s =
      if c == 102
      then infer_floating_point file out s
      else if c == 105
      then infer_integer signed_integer file out s
      else if c == 98
      then load_infer_dump (unsigned_integer 1) file out s
      else if c == 117
      then infer_integer unsigned_integer file out s
      else err runtime_error

  -- One round of the loop of `runWithInputFile`. The iterator of the output files is moved along
  -- with that of the input files; a read at its end is undefined.
  unfoldable pub run_file : Name → List Name → Session B → Result (Session B)
  unfolding char_at front
  run_file inp outs s = do
    throw_if (not (O.opens inp)) runtime_error
    file ← O.load_npy_file inp
    endian ← char_at 0 file.typestring
    throw_if (not (endian == 60)) runtime_error
    c ← char_at 1 file.typestring
    throw_if (not (c == 102 || c == 105 || c == 98 || c == 117)) runtime_error
    out ← front outs
    infer_by_type c file out s

  pub run_files : List Name → List Name → Session B → Result (Session B)
  run_files [] outs s = ok s
  run_files (inp ∷ inps) [] s = run_file inp [] s
  run_files (inp ∷ inps) (out ∷ outs) s = do
    s' ← run_file inp (out ∷ outs) s
    run_files inps outs s'

  -- `runWithInputFile`; the information on device 0 is looked up for the log.
  unfoldable pub run_with_input_file : List Name → List Name → Session B → Result (Session B)
  unfolding run_files at
  run_with_input_file inps outs s = do
    h ← get_device_handler B 0 s.driver.accelerator
    w ← at 0 s.driver.configuration
    run_files inps outs s
