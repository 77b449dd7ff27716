-- ===== src/Program/Files.antt =====
-- src/FINNCppDriver/FINNDriver.cpp: which input files the program can process.
use finn_cpp_driver.Prelude.{
  ℕ, ◌≡◌, refl, ap, ◌∙◌, arith, ◌⊎◌, inl, inr, true, false, not, ◌||◌, List, ◌∷◌, ◌==◌, ok, err,
  invalid_argument,
}
use finn_cpp_driver.Types.{Name, DeviceWrapper}
use finn_cpp_driver.Datatypes.{Datatype}
use finn_cpp_driver.Packing.Pack.{Conversions}
use finn_cpp_driver.Handler.{DeviceBuffers, DeviceHandler}
use finn_cpp_driver.Driver.{get_device_handler, front}
use finn_cpp_driver.Driver.Typed.{at}
use finn_cpp_driver.Program.{
  NpyFile, Outside, Session, char_at, infer_floating_point, infer_integer, infer_by_type, run_file,
  run_files, run_with_input_file,
}

-- What the documentation says of `std::stoi`: it starts at the first character, whatever its second
-- argument holds, and throws `std::invalid_argument` if no number stands there, as before `<`.
pub record Documented (O : Outside) : Type 0 where
  pub no_number : (rest : Name) → O.stoi (60 ∷ rest) ≡ err invalid_argument

-- The characters `f`, `i` and `u`.
abbrev pub IsNumeric : ℕ → Type 0
IsNumeric c = (c ≡ 102) ⊎ (c ≡ 105) ⊎ (c ≡ 117)

module _ (O : Outside) (D : Documented O) (B : DeviceBuffers) (K : Conversions)
    (F S : Datatype) where
  infer_by_type-numeric :
      (c : ℕ) (file : NpyFile) (out rest : Name) (s : Session B)
      → IsNumeric c
      → file.typestring ≡ 60 ∷ rest
      → infer_by_type O B K F S c file out s ≡ err invalid_argument
  unfolding infer_by_type infer_floating_point infer_integer
  infer_by_type-numeric c file out rest s (inl e) h = rw (e, h, D.no_number rest) refl
  infer_by_type-numeric c file out rest s (inr (inl e)) h = rw (e, h, D.no_number rest) refl
  infer_by_type-numeric c file out rest s (inr (inr e)) h = rw (e, h, D.no_number rest) refl

  -- No little-endian file of numbers can be processed: when the first input file opens and loads, and
  -- its type string is `<` and `f`, `i` or `u` with anything behind, `runWithInputFile` throws
  -- `std::invalid_argument`, since `std::stoi` is called on the whole type string. There is an output
  -- file, a device with index 0 and a configuration.
  pub run_with_input_file-numeric :
      (inp out : Name) (inps outs : List Name) (s : Session B) (file : NpyFile) (c : ℕ)
      (rest : Name)
      → O.opens inp ≡ true
      → O.load_npy_file inp ≡ ok file
      → file.typestring ≡ 60 ∷ c ∷ rest
      → IsNumeric c
      → (h : DeviceHandler B) → get_device_handler B 0 s.driver.accelerator ≡ ok h
      → (w : DeviceWrapper) → at 0 s.driver.configuration ≡ ok w
      → run_with_input_file O B K F S (inp ∷ inps) (out ∷ outs) s ≡ err invalid_argument
  unfolding run_with_input_file run_files run_file front
  run_with_input_file-numeric inp out inps outs s file c rest opened loaded typed numeric h found w
        config =
      rw
        (
          found,
          config,
          opened,
          loaded,
          first,
          second,
          known numeric,
          infer_by_type-numeric c file out (c ∷ rest) s numeric typed,
        )
        refl
    where
      first : char_at 0 file.typestring ≡ ok 60
      first = ap (char_at 0) typed ∙ unfold char_at in ground arith

      second : char_at 1 file.typestring ≡ ok c
      second = ap (char_at 1) typed ∙ unfold char_at in ground arith

      known : IsNumeric c → not (c == 102 || c == 105 || c == 98 || c == 117) ≡ false
      known (inl e) = rw e refl
      known (inr (inl e)) = rw e refl
      known (inr (inr e)) = rw e refl
