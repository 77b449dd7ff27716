-- ===== src/Utils/Text.antt =====
-- utils/FinnUtils.h: `shapeToString`, which logs show.
use native.Mathlib.Nat.{mod-eq_of_lt}
use finn_cpp_driver.Prelude.{
  ℕ, ◌+◌, ◌-◌, ◌%◌, ◌^◌, ◌≤◌, ◌≡◌, refl, ap, arith, true, false, List, [], ◌∷◌, ◌++◌, append-nil,
  map, length, ltb, if◌then◌else◌, codes,
}
use finn_cpp_driver.Utils.{Shape}

-- The rounds of the loop from `index` on, for a shape of `size` dimensions; `to_string` is that of the
-- standard library.
append_from : (ℕ → List ℕ) → ℕ → ℕ → Shape → List ℕ
append_from to_string size index [] = []
append_from to_string size index (d ∷ ds) =
    to_string d
    ++ ((if ltb index (size - 1) then codes ", " else [])
        ++ append_from to_string size ((index + 1) % 2 ^ 32) ds)

unfoldable pub shape_to_string : (ℕ → List ℕ) → Shape → List ℕ
unfolding append_from
shape_to_string to_string shape =
    codes "(" ++ (append_from to_string (length shape) 0 shape ++ codes ")")

-- Texts with a separator between any two.
abbrev pub join : List ℕ → List (List ℕ) → List ℕ
join separator [] = []
join separator (x ∷ []) = x
join separator (x ∷ y ∷ ys) = x ++ (separator ++ join separator (y ∷ ys))

append_from-join :
    (to_string : ℕ → List ℕ) (size index : ℕ) (shape : Shape)
    → index + length shape ≡ size
    → size ≤ 2 ^ 32
    → append_from to_string size index shape ≡ join (codes ", ") (map to_string shape)
unfolding append_from
append_from-join to_string size index [] e h = refl
append_from-join to_string size index (d ∷ []) e h = rw last (append-nil (to_string d))
  where
    last : ltb index (size - 1) ≡ false
    last = ground arith
append_from-join to_string size index (d ∷ d' ∷ ds) e h =
    rw (inner, next, append_from-join to_string size (index + 1) (d' ∷ ds) (omega (arith, e)) h)
      refl
  where
    inner : ltb index (size - 1) ≡ true
    inner = ground arith

    next : (index + 1) % 2 ^ 32 ≡ index + 1
    next = mod-eq_of_lt (omega (arith, e, h))

-- For a shape of at most `2 ^ 32` dimensions, it is their list in brackets, with commas between them.
pub shape_to_string_lem :
    (to_string : ℕ → List ℕ) (shape : Shape)
    → length shape ≤ 2 ^ 32
    → shape_to_string to_string shape
      ≡ codes "(" ++ (join (codes ", ") (map to_string shape) ++ codes ")")
unfolding shape_to_string
shape_to_string_lem to_string shape h =
    ap (λ (text : List ℕ). codes "(" ++ (text ++ codes ")"))
      (append_from-join to_string (length shape) 0 shape (omega arith) h)
