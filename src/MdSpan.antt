-- ===== src/MdSpan.antt =====
-- src/FINNCppDriver/utils/DynamicMdSpan.hpp: a container seen under a shape. An iterator range is
-- the list of its elements, and a `std::span` of it the list of those it covers.
pub mod Chunks
mod Tests
use finn_cpp_driver.Prelude.{
  ℕ, zero, suc, ◌*◌, ◌%◌, ◌^◌, Bool, true, false, not, List, [], ◌∷◌, length, take, drop, ltb, ◌==◌,
  Result, ok, err, runtime_error, undefined, throw_if, ◌>>=◌, ◌>>◌,
}
use finn_cpp_driver.Utils.{Shape, accumulate_int, int_to_size, innermost_dimension}

pub record DynamicMdSpan {ℓ} (A : Type ℓ) : Type ℓ where
  pub elements : List A
  pub strides : List ℕ
  pub most_inner_dims : List (List A)

-- The stride of one more dimension `d` in front. Products of `size_t` wrap.
pub extend_strides : ℕ → List ℕ → List ℕ
extend_strides d [] = []
extend_strides d (s ∷ ss) = (s * d % 2 ^ 64) ∷ s ∷ ss

-- `strides`, from the last dimension to the first.
unfoldable pub strides_of : Shape → List ℕ
unfolding extend_strides
strides_of [] = 1 ∷ []
strides_of (d ∷ ds) = extend_strides d (strides_of ds)

-- The loop over `firstElem`, which moves on by `stride` while elements are left. A step past the
-- end is undefined, and so is a run that ends by its fuel.
unfoldable pub chunks {ℓ} : {A : Type ℓ} → ℕ → ℕ → List A → Result (List (List A))
chunks fuel stride [] = ok []
chunks zero stride (x ∷ xs) = err undefined
chunks (suc fuel) stride (x ∷ xs) = do
  throw_if (ltb (length (x ∷ xs)) stride) undefined
  rest ← chunks fuel stride (drop stride (x ∷ xs))
  ok (take stride (x ∷ xs) ∷ rest)

unfoldable pub is_empty : Shape → Bool
is_empty [] = true
is_empty (d ∷ ds) = false

-- `setShape`
unfoldable pub set_shape {ℓ} : {A : Type ℓ} → List A → Shape → Result (DynamicMdSpan A)
set_shape elements shape = do
  throw_if (is_empty shape) runtime_error
  throw_if (not (length elements == int_to_size (accumulate_int 1 shape))) runtime_error
  striding_inner ← innermost_dimension shape
  inner ← chunks (length elements) striding_inner elements
  ok (record { elements = elements; strides = strides_of shape; most_inner_dims = inner })

-- The constructor.
unfoldable pub new {ℓ} : {A : Type ℓ} → List A → Shape → Result (DynamicMdSpan A)
new elements shape = do throw_if (length elements == 0) runtime_error; set_shape elements shape
