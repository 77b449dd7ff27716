-- ===== src/Utils/Rounding.antt =====
-- The rounding of floating-point numbers to the binary digits that they keep, to even where two are
-- equally near.
use finn_cpp_driver.Prelude.{
  ℕ, zero, suc, ◌+◌, ◌*◌, ◌/◌, ◌%◌, ◌^◌, ◌&&◌, ◌||◌, ltb, ◌==◌, if◌then◌else◌,
}

-- `n` without its last `shift` binary digits.
unfoldable pub round_at : ℕ → ℕ → ℕ
round_at zero n = n
round_at (suc s) n =
    let kept = n / 2 ^ suc s in
    let rest = n % 2 ^ suc s in
    if ltb rest (2 ^ s) || (rest == 2 ^ s && kept % 2 == 0)
    then kept * 2 ^ suc s
    else (kept + 1) * 2 ^ suc s
