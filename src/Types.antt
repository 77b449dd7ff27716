-- ===== src/Types.antt =====
-- src/FINNCppDriver/utils/Types.h and utils/ConfigurationStructs.h: the shared enumerations and the
-- configuration. A `std::string` or path is the list of its characters.
use finn_cpp_driver.Prelude.{ℕ, ◌≡◌, refl, arith, Bool, true, false, List, [], ◌∷◌, ◌&&◌, ◌==◌}
use finn_cpp_driver.Utils.{Shape}

-- `SIZE_SPECIFIER`
pub data SizeSpecifier : Type 0 where
  bytes total_data_size batchsize featuremap_size invalid : SizeSpecifier

-- `IO`
pub data IoMode : Type 0 where
  input output inout unspecified : IoMode

abbrev pub Name : Type 0
Name = List ℕ

-- `ExtendedBufferDescriptor`, with the fields of `BufferDescriptor`.
pub record BufferDescriptor : Type 0 where
  pub kernel_name : Name
  pub packed_shape : Shape
  pub normal_shape : Shape
  pub folded_shape : Shape

pub record DeviceWrapper : Type 0 where
  pub xclbin : Name
  pub xrt_device_index : ℕ
  pub idmas : List BufferDescriptor
  pub odmas : List BufferDescriptor

abbrev pub Config : Type 0
Config = List DeviceWrapper

abbrev pub is_nil {ℓ} : {A : Type ℓ} → List A → Bool
is_nil [] = true
is_nil (x ∷ xs) = false

-- `==` on strings.
unfoldable pub same_name : Name → Name → Bool
same_name [] [] = true
same_name [] (d ∷ ds) = false
same_name (c ∷ cs) [] = false
same_name (c ∷ cs) (d ∷ ds) = let rest = same_name cs ds in c == d && rest

pub same_name_self : (a : Name) → same_name a a ≡ true
unfolding same_name
same_name_self [] = refl
same_name_self (c ∷ cs) = ground (arith, same_name_self cs)

pub same_name-eq : (a b : Name) → same_name a b ≡ true → a ≡ b
unfolding same_name
same_name-eq [] [] h = refl
same_name-eq [] (d ∷ ds) h = cc
same_name-eq (c ∷ cs) [] h = cc
same_name-eq (c ∷ cs) (d ∷ ds) h = ground (arith, same_name-eq cs ds)
