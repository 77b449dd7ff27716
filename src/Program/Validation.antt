-- ===== src/Program/Validation.antt =====
-- src/FINNCppDriver/FINNDriver.cpp: the options of the program and their validation.
use finn_cpp_driver.Prelude.{
  codes, Bool, not, ◌&&◌, List, [], ◌∷◌, ◌==◌, Option, Result, ok, err, option_error, throw_if,
  ◌>>◌,
}
use finn_cpp_driver.Types.{Name, same_name}
use finn_cpp_driver.Datatypes.Values.{ℤ, pos, negsuc}

abbrev pub execute_mode : Name
execute_mode = codes "execute"

abbrev pub throughput_mode : Name
throughput_mode = codes "throughput"

unfoldable pub validate_driver_mode : Name → Result (Unit {0})
validate_driver_mode mode =
    throw_if (not (same_name mode execute_mode) && not (same_name mode throughput_mode))
      option_error

unfoldable pub validate_batch_size : ℤ → Result (Unit {0})
validate_batch_size (pos n) = throw_if (n == 0) option_error
validate_batch_size (negsuc n) = err option_error

-- `validateConfigPath`, and `validateInputPath` below, by whether a path exists.
unfoldable pub validate_config_path : (Name → Bool) → Name → Result (Unit {0})
validate_config_path exists path = throw_if (not (exists path)) option_error

unfoldable pub validate_input_path : (Name → Bool) → List Name → Result (Unit {0})
validate_input_path exists [] = ok tt
validate_input_path exists (path ∷ paths) = do
  throw_if (not (exists path)) option_error
  validate_input_path exists paths

-- What the program sees of the options.
pub record Options : Type 0 where
  pub help : Bool
  pub exec_mode : Name
  pub configpath : Option Name
  pub input : Option (List Name)
  pub output : Option (List Name)
  pub batchsize : ℤ
