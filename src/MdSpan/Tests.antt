-- ===== src/MdSpan/Tests.antt =====
-- Spans at concrete values.
use finn_cpp_driver.Prelude.{ℕ, ◌≡◌, refl, arith, List, [], ◌∷◌, ok, err, runtime_error}
use finn_cpp_driver.MdSpan.{DynamicMdSpan, new}
use finn_cpp_driver.MdSpan.Chunks.{Describes, new-Describes, new_mismatch}

abbrev six : List ℕ
six = 1 ∷ 2 ∷ 3 ∷ 4 ∷ 5 ∷ 6 ∷ []

new-Describes_example :
    (span : DynamicMdSpan ℕ) × (last : ℕ) × (new six (2 ∷ 3 ∷ []) ≡ ok span)
    × Describes six (2 ∷ 3 ∷ []) last span
new-Describes_example = new-Describes six (2 ∷ 3 ∷ []) (λ p. cc) refl (omega arith) (omega arith)

new_mismatch_example : new six (2 ∷ 4 ∷ []) ≡ err runtime_error
new_mismatch_example = new_mismatch six (2 ∷ 4 ∷ []) (omega arith) (omega arith)
