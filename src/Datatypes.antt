-- ===== src/Datatypes.antt =====
-- src/FINNCppDriver/utils/FinnDatatypes.hpp: the class hierarchy below `Datatype`, one constructor
-- for each class, and its virtual methods by clauses.
pub mod Values
pub mod Exact
pub mod Fixed
pub mod Elements
pub mod Counts
pub mod Floating
mod Tests
use finn_cpp_driver.Prelude.{ℕ, ◌+◌, ◌-◌, ◌%◌, ◌^◌, Bool, true, false}

pub data Datatype : Type 0 where
  float : Datatype
  int : ℕ → Datatype
  fixed : ℕ → ℕ → Datatype
  uint : ℕ → Datatype
  bipolar : Datatype
  ternary : Datatype

-- `DatatypeBinary`
abbrev pub binary : Datatype
binary = uint 1

unfoldable pub sign : Datatype → Bool
sign float = true
sign (int b) = true
sign (fixed b i) = true
sign (uint b) = false
sign bipolar = true
sign ternary = true

unfoldable pub bitwidth : Datatype → ℕ
bitwidth float = 32
bitwidth (int b) = b
bitwidth (fixed b i) = b
bitwidth (uint b) = b
bitwidth bipolar = 1
bitwidth ternary = 2

unfoldable pub is_integer : Datatype → Bool
is_integer float = false
is_integer (int b) = true
is_integer (fixed b i) = false
is_integer (uint b) = true
is_integer bipolar = true
is_integer ternary = true

unfoldable pub is_fixed_point : Datatype → Bool
is_fixed_point float = false
is_fixed_point (int b) = false
is_fixed_point (fixed b i) = true
is_fixed_point (uint b) = false
is_fixed_point bipolar = false
is_fixed_point ternary = false

-- `fracBits` of `DatatypeFixed`, a difference of `size_t`.
unfoldable pub frac_bits : ℕ → ℕ → ℕ
frac_bits b i = (2 ^ 64 + b - i) % 2 ^ 64

-- `std::is_same_v<U, DatatypeBipolar>`
unfoldable pub is_bipolar : Datatype → Bool
is_bipolar bipolar = true
is_bipolar other = false
