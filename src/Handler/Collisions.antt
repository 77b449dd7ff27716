-- ===== src/Handler/Collisions.antt =====
-- core/DeviceHandler.cpp: `isBufferMapCollisionFree`.
use finn_cpp_driver.Prelude.{
  ℕ, ◌≤◌, ◌≡◌, ◌↔◌, refl, arith, Bool-cases, inl, inr, true, false, List, [], ◌∷◌, All, ltb, Bool,
  if◌then◌else◌,
}
use finn_cpp_driver.Handler.{is_buffer_map_collision_free}

bucket :
    (size : ℕ) (rest : Bool)
    → ((if ltb 1 size then true else rest) ≡ false) ↔ ((size ≤ 1) × (rest ≡ false))
bucket size rest = elim (Bool-cases (ltb 1 size)) [
  | inl big ↦ rw big ((λ e. absurd cc), λ h. ground (arith, h.0))
  | inr fits ↦ rw fits ((λ e. (ground arith, e)), λ h. h.1)
]

-- It returns false exactly when no bucket has two entries: when the maps are free of collisions.
pub is_buffer_map_collision_free_lem :
    (inputs outputs : List ℕ)
    → (is_buffer_map_collision_free inputs outputs ≡ false)
      ↔ (All (λ size. size ≤ 1) inputs × All (λ size. size ≤ 1) outputs)
unfolding is_buffer_map_collision_free
is_buffer_map_collision_free_lem [] [] = (λ _. (tt, tt), λ _. refl)
is_buffer_map_collision_free_lem [] (size ∷ outputs) =
    let here = bucket size (is_buffer_map_collision_free [] outputs) in
    let rest = is_buffer_map_collision_free_lem [] outputs in
    (λ e. (tt, ((here.0 e).0, (rest.0 (here.0 e).1).1)), λ h. here.1 (h.1.0, rest.1 (tt, h.1.1)))
is_buffer_map_collision_free_lem (size ∷ inputs) outputs =
    let here = bucket size (is_buffer_map_collision_free inputs outputs) in
    let rest = is_buffer_map_collision_free_lem inputs outputs in
    (
      λ e. let others = rest.0 (here.0 e).1 in (((here.0 e).0, others.0), others.1),
      λ h. here.1 (h.0.0, rest.1 (h.0.1, h.1)),
    )
