-- ===== src/Program/Main.antt =====
-- src/FINNCppDriver/FINNDriver.cpp: `main`. All of its failures but undefined ones are caught.
use finn_cpp_driver.Prelude.{
  ℕ, suc, ◌-◌, ◌%◌, ◌^◌, Bool, true, false, not, List, [], Option, none, some, Result, ok, err,
  invalid_argument, option_error, undefined, throw_if, traverse, ◌>>=◌, ◌>>◌,
}
use finn_cpp_driver.Types.{Name, same_name}
use finn_cpp_driver.Configuration.{Json, create_config_from_path, dereferenced}
use finn_cpp_driver.Datatypes.{Datatype}
use finn_cpp_driver.Datatypes.Values.{ℤ, pos, negsuc}
use finn_cpp_driver.Packing.Pack.{ScalarType, Conversions}
use finn_cpp_driver.Handler.{DeviceBuffers}
use finn_cpp_driver.Driver
use finn_cpp_driver.Driver.{BaseDriver}
use finn_cpp_driver.Driver.Typed.{Statics}
use finn_cpp_driver.Program.Validation.{
  Options, execute_mode, throughput_mode, validate_driver_mode, validate_batch_size,
  validate_config_path, validate_input_path,
}
use finn_cpp_driver.Program.{Outside, Session, run_with_input_file}
use finn_cpp_driver.Program.Throughput.{run_throughput_test}

-- `contents` is what a file holds.
module _ (O : Outside) (J : Json) (contents : Name → List ℕ) (B : DeviceBuffers) (K : Conversions)
    (F S : Datatype) where
  -- `createDriverFromConfig` on synchronous inference.
  unfoldable pub create_driver_from_config : (Name → Bool) → Name → ℕ → Result (BaseDriver B)
  create_driver_from_config is_file path host_buffer_size = do
    loaded ← create_config_from_path J is_file contents path
    config ← traverse dereferenced loaded
    driver ← Driver.new B is_file true config host_buffer_size false
    sized ← Driver.set_batch_size B host_buffer_size driver
    ok (record sized { force_achieval = true })

  -- `count` says whether an option was given, not how many values it has.
  unfoldable pub check_files : Options → Result (List Name × List Name)
  check_files o = do
    inps ← elim o.input [ none ↦ err invalid_argument | some files ↦ ok files ]
    outs ← elim o.output [ none ↦ err invalid_argument | some files ↦ ok files ]
    ok (inps, outs)

  -- The notifiers of the options, and the check for the required one; it returns the path of the
  -- configuration. All of them throw the same class, so that their order cannot be seen.
  unfoldable pub notify : Options → Result Name
  unfolding validate_input_path
  notify o = do
    validate_driver_mode o.exec_mode
    path ← elim o.configpath [ none ↦ err option_error | some path ↦ ok path ]
    validate_config_path O.exists path
    elim o.input [ none ↦ ok tt | some files ↦ validate_input_path O.exists files ]
    validate_batch_size o.batchsize
    ok path

  -- `static_cast<uint>` of a batch size.
  abbrev to_uint : ℤ → ℕ
  to_uint (pos n) = n % 2 ^ 32
  to_uint (negsuc n) = (2 ^ 32 - suc n) % 2 ^ 32

  abbrev unused : ScalarType → Statics
  unused t = record { folded_shape = none; packed_output = none; folded_output = none }

  -- The body of `main`, with the random inputs of the throughput test: `none` for help.
  unfoldable pub main_body :
      (Name → Bool) → (ℕ → ℕ → List ℕ) → Options → Result (Option (Session B))
  main_body is_file random o = elim o.help [
    | true ↦ ok none
    | false ↦ do
      path ← notify o
      elim (same_name o.exec_mode execute_mode) [
        | true ↦ do
          files ← check_files o
          driver ← create_driver_from_config is_file path (to_uint o.batchsize)
          s ←
              run_with_input_file O B K F S files.0 files.1
                (record { driver = driver; statics = unused; dumped = [] })
          ok (some s)
        | false ↦ do
          throw_if (not (same_name o.exec_mode throughput_mode)) invalid_argument
          driver ← create_driver_from_config is_file path (to_uint o.batchsize)
          s ←
              run_throughput_test O B K F S random
                (record { driver = driver; statics = unused; dumped = [] })
          ok (some s)
      ]
  ]

  -- `main`: its exit code, if it has one.
  unfoldable pub main : (Name → Bool) → (ℕ → ℕ → List ℕ) → Options → Option ℕ
  main is_file random o = elim (main_body is_file random o) [
    | ok value ↦ some 1
    | err undefined ↦ none
    | err thrown ↦ some 0
  ]
