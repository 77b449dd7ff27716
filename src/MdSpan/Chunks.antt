-- ===== src/MdSpan/Chunks.antt =====
-- What `setShape` computes: contiguous rows of the last dimension, and the strides.
use native.Mathlib.Nat.{mod-eq_of_lt}
use finn_cpp_driver.Prelude.{
  ℕ, zero, suc, ◌*◌, ◌^◌, ◌≤◌, ◌<◌, ◌≡◌, refl, ap, ◌∙◌, arith, ◌≢◌, true, false, List, [], ◌∷◌,
  ◌++◌, length, take, drop, concat, length-take, length-drop, take-append-drop, All, ltb, ◌==◌, ok,
  err, runtime_error,
}
use finn_cpp_driver.Utils.{Shape, int_to_size, accumulate_int, innermost_dimension}
use finn_cpp_driver.Utils.Shapes.{product, counted}
use finn_cpp_driver.MdSpan.{
  DynamicMdSpan, extend_strides, strides_of, chunks, is_empty, set_shape, new,
}

-- `rows` cut `elements` into `count` rows of `stride` elements, in order.
pub record AreRows {ℓ} {A : Type ℓ} (elements : List A) (count stride : ℕ) (rows : List (List A))
    : Type ℓ where
  pub joined : concat rows ≡ elements
  pub counted_rows : length rows ≡ count
  pub even : All (λ row. length row ≡ stride) rows

-- The loop ends, and makes such rows.
chunks-AreRows {ℓ} :
    {A : Type ℓ} (fuel count stride : ℕ) (xs : List A)
    → 1 ≤ stride
    → length xs ≡ count * stride
    → count ≤ fuel
    → (rows : List (List A)) × (chunks fuel stride xs ≡ ok rows) × AreRows xs count stride rows
unfolding chunks
chunks-AreRows fuel zero stride [] hs e h =
    ([], refl, record { joined = refl; counted_rows = refl; even = tt })
chunks-AreRows fuel (suc count) stride [] hs e h = absurd (omega arith)
chunks-AreRows fuel zero stride (x ∷ xs) hs e h = absurd (omega arith)
chunks-AreRows zero (suc count) stride (x ∷ xs) hs e h = absurd (omega arith)
chunks-AreRows (suc fuel) (suc count) stride (x ∷ xs) hs e h =
    let (rows, made, are) =
      chunks-AreRows fuel count stride (drop stride (x ∷ xs)) hs
        (omega (arith, length-drop stride (x ∷ xs), e)) (omega arith) in
    (
      take stride (x ∷ xs) ∷ rows,
      rw (enough, made),
      record {
        joined = ap (◌++◌ (take stride (x ∷ xs))) are.joined ∙ take-append-drop stride (x ∷ xs);
        counted_rows = ap suc are.counted_rows;
        even = (omega (arith, length-take stride (x ∷ xs), e), are.even);
      },
    )
  where
    enough : ltb (length (x ∷ xs)) stride ≡ false
    enough = ground (arith, e)

-- The products of the dimensions from each one on.
abbrev pub suffix_products : Shape → List ℕ
suffix_products [] = 1 ∷ []
suffix_products (d ∷ ds) = product (d ∷ ds) ∷ suffix_products ds

extend_strides-suffix :
    (d : ℕ) (ds : Shape)
    → d * product ds < 2 ^ 64
    → extend_strides d (suffix_products ds) ≡ d * product ds ∷ suffix_products ds
unfolding extend_strides
extend_strides-suffix d [] h = ap (λ k. k ∷ 1 ∷ []) (mod-eq_of_lt (omega arith) ∙ omega arith)
extend_strides-suffix d (e ∷ ds) h =
    ap (λ k. k ∷ suffix_products (e ∷ ds)) (mod-eq_of_lt (omega arith) ∙ omega arith)

strides_of_lem :
    (shape : Shape)
    → 1 ≤ product shape
    → product shape < 2 ^ 64
    → strides_of shape ≡ suffix_products shape
unfolding strides_of
strides_of_lem [] h h' = refl
strides_of_lem (d ∷ ds) h h' =
    ap (extend_strides d) (strides_of_lem ds (grind arith) (grind arith))
    ∙ extend_strides-suffix d ds h'

innermost_dimension_lem :
    (shape : Shape)
    → shape ≢ []
    → (last lead : ℕ) × (innermost_dimension shape ≡ ok last) × (product shape ≡ lead * last)
unfolding innermost_dimension
innermost_dimension_lem [] ne = absurd (ne refl)
innermost_dimension_lem (d ∷ []) ne = (d, 1, refl, omega arith)
innermost_dimension_lem (d ∷ e ∷ ds) ne =
    let (last, lead, found, split) = innermost_dimension_lem (e ∷ ds) (λ p. cc) in
    (last, d * lead, found, omega (arith, ap (λ (k : ℕ). d * k) split))

-- What a span of `elements` under `shape` is to be: rows of the last dimension that make up the
-- elements in order, and for each dimension the product of those from it on.
pub record Describes {ℓ} {A : Type ℓ} (elements : List A) (shape : Shape) (last : ℕ)
    (span : DynamicMdSpan A) : Type ℓ where
  pub last_dimension : innermost_dimension shape ≡ ok last
  pub same_elements : span.elements ≡ elements
  pub right_strides : span.strides ≡ suffix_products shape
  pub lead : ℕ
  pub all_rows : product shape ≡ lead * last
  pub rows : AreRows elements lead last span.most_inner_dims

-- A non-empty container of fewer than `2 ^ 31` elements, under a shape with as many, is accepted:
-- the loops end, and the span describes the container.
pub new-Describes {ℓ} :
    {A : Type ℓ} (elements : List A) (shape : Shape)
    → shape ≢ []
    → length elements ≡ product shape
    → 1 ≤ length elements
    → length elements < 2 ^ 31
    → (span : DynamicMdSpan A) × (last : ℕ) × (new elements shape ≡ ok span)
      × Describes elements shape last span
unfolding new set_shape
new-Describes elements shape ne e pos small =
    let (last, lead, found, split) = innermost_dimension_lem shape ne in
    let last_pos : 1 ≤ last = grind (arith, split, e) in
    let (inner, made, are) =
      chunks-AreRows (length elements) lead last elements last_pos (e ∙ split)
        (grind (arith, split, e)) in
    (
      record { elements = elements; strides = strides_of shape; most_inner_dims = inner },
      last,
      rw (filled, shaped shape ne, matching, found, made),
      record {
        last_dimension = found;
        same_elements = refl;
        right_strides = strides_of_lem shape (omega (arith, e)) (omega (arith, e));
        lead = lead;
        all_rows = split;
        rows = are;
      },
    )
  where
    filled : (length elements == 0) ≡ false
    filled = ground arith

    shaped : (shape : Shape) → shape ≢ [] → is_empty shape ≡ false
    shaped [] h = absurd (h refl)
    shaped (d ∷ ds) h = unfold is_empty in refl

    matching : (length elements == int_to_size (accumulate_int 1 shape)) ≡ true
    matching = unfold int_to_size in ground (arith, counted shape (omega (arith, e)))

-- A shape with another number of elements is refused, as long as that number is below `2 ^ 31`.
pub new_mismatch {ℓ} :
    {A : Type ℓ} (elements : List A) (shape : Shape)
    → length elements ≢ product shape
    → product shape < 2 ^ 31
    → new elements shape ≡ err runtime_error
unfolding new set_shape is_empty int_to_size
new_mismatch elements shape ne small = ground (arith, counted shape (omega arith))
