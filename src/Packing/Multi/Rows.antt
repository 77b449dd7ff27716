-- ===== src/Packing/Multi/Rows.antt =====
-- The loops over rows put the rows one after another.
use native.Mathlib.Nat.{mod-eq_of_lt}
use finn_cpp_driver.Prelude.{
  ℕ, suc, ◌+◌, ◌*◌, ◌^◌, ◌≤◌, ◌<◌, ◌≡◌, refl, sym, ap, ◌∙◌, arith, List, [], ◌∷◌, ◌++◌, map, length,
  take, drop, concat, length-append, length-drop, take_append, append_assoc, true, leb, All, Result,
  ok,
}
use finn_cpp_driver.Packing.Multi.{copy_at, copy_rows}

-- Beyond a prefix.
drop-append_add : (xs ys : List ℕ) (n : ℕ) → drop (length xs + n) (xs ++ ys) ≡ drop n ys
drop-append_add [] ys n = let e : 0 + n ≡ n = omega arith in ap (λ (k : ℕ). drop k ys) e
drop-append_add (x ∷ xs) ys n =
    let e : suc (length xs) + n ≡ suc (length xs + n) = omega arith in
    ap (λ (k : ℕ). drop k (x ∷ (xs ++ ys))) e ∙ drop-append_add xs ys n

-- Copying to the end of what is done already.
copy_at_lem :
    (at : ℕ) (xs done free : List ℕ)
    → length done ≡ at
    → length xs ≤ length free
    → copy_at at xs (done ++ free) ≡ ok ((done ++ xs) ++ drop (length xs) free)
unfolding copy_at
copy_at_lem at xs done free e room =
    rw (fits, front, back) (ap ok (sym (append_assoc done xs (drop (length xs) free))))
  where
    fits : leb (at + length xs) (length (done ++ free)) ≡ true
    fits = ground (arith, length-append done free)

    front : take at (done ++ free) ≡ done
    front = ap (λ (k : ℕ). take k (done ++ free)) (sym e) ∙ take_append done free

    back : drop (at + length xs) (done ++ free) ≡ drop (length xs) free
    back =
        ap (λ (k : ℕ). drop (k + length xs) (done ++ free)) (sym e)
        ∙ drop-append_add done free (length xs)

-- The loop on rows `given o`, of which `body` makes rows `wanted o` of the right width.
pub copy_rows_lem {ℓ} :
    {A : Type ℓ} (body : List ℕ → Result (List ℕ)) (width : ℕ) (given wanted : A → List ℕ) (i : ℕ)
    (os : List A) (done free : List ℕ)
    → All (λ o. (body (given o) ≡ ok (wanted o)) × (length (wanted o) ≡ width)) os
    → length done ≡ i * width
    → length free ≡ length os * width
    → (i + length os) * width < 2 ^ 64
    → copy_rows body width i (map given os) (done ++ free) ≡ ok (done ++ concat (map wanted os))
unfolding copy_rows
copy_rows_lem body width given wanted i [] done [] h e e' small = refl
copy_rows_lem body width given wanted i [] done (x ∷ free) h e e' small = absurd (omega arith)
copy_rows_lem body width given wanted i (o ∷ os) done free h e e' small =
    rw
      (
        h.0.0,
        mod-eq_of_lt {n = i * width} {m = 2 ^ 64} (grind arith),
        copy_at_lem (i * width) (wanted o) done free e (omega (arith, h.0.1)),
        copy_rows_lem body width given wanted (i + 1) os (done ++ wanted o)
            (drop (length (wanted o)) free) h.1
            (omega (arith, length-append done (wanted o), h.0.1))
            (omega (arith, length-drop (length (wanted o)) free, h.0.1)) (omega arith),
      )
      (ap ok (append_assoc done (wanted o) (concat (map wanted os))))
