-- ===== src/Circular/Lists.antt =====
-- A list as a circular buffer, which tests run on.
use finn_cpp_driver.Prelude.{
  ℕ, ◌+◌, ◌-◌, ◌≤◌, ◌≡◌, refl, arith, List, [], ◌++◌, length, drop, length-append, ap,
}
use finn_cpp_driver.Circular.{CircularBuffer, Documented}

-- A buffer that is over its capacity loses its oldest elements.
abbrev pub lists : CircularBuffer ℕ
lists = record {
  Buf = ℕ × List ℕ;
  with_capacity = λ n. (n, []);
  capacity = λ b. b.0;
  contents = λ b. b.1;
  insert_end = λ b xs. (b.0, drop (length (b.1 ++ xs) - b.0) (b.1 ++ xs));
  erase_begin = λ b n. (b.0, drop n b.1);
  clear = λ b. (b.0, []);
}

pub nothing_lost :
    (n : ℕ) (ys xs : List ℕ)
    → length ys + length xs ≤ n
    → drop (length (ys ++ xs) - n) (ys ++ xs) ≡ ys ++ xs
nothing_lost n ys xs h = ap (λ (k : ℕ). drop k (ys ++ xs)) none_over
  where
    none_over : length (ys ++ xs) - n ≡ 0
    none_over = omega (arith, length-append ys xs)

abbrev pub lists-Documented : Documented lists
lists-Documented = record {
  with_capacity-capacity = λ n. refl;
  with_capacity-contents = λ n. refl;
  insert_end-capacity = λ b xs. refl;
  insert_end-contents = λ b xs h. nothing_lost b.0 b.1 xs h;
  erase_begin-capacity = λ b n. refl;
  erase_begin-contents = λ b n h. refl;
  clear-capacity = λ b. refl;
  clear-contents = λ b. refl;
}
