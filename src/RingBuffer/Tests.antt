-- ===== src/RingBuffer/Tests.antt =====
-- Ring buffers on lists, at concrete values.
use finn_cpp_driver.Prelude.{ℕ, ◌≤◌, ◌≡◌, refl, arith, ◌⊎◌, true, List, [], ◌∷◌, ◌++◌, ok}
use finn_cpp_driver.Circular.Lists.{lists, lists-Documented}
use finn_cpp_driver.RingBuffer.{RingBuffer, new, free_space, check_store, read}
use finn_cpp_driver.RingBuffer.Inv.{IsValid}
use finn_cpp_driver.RingBuffer.Queue.{
  Op, put, take_one, take_all, ask_full, queue_run, ring_run, Holds,
}
use finn_cpp_driver.RingBuffer.Queue.Refine.{ring_run-queue_run}
use finn_cpp_driver.RingBuffer.Sharing.{
  System, stores, reads, Reach, start, later, Reach-IsFifo, Reach-live,
}

-- Three parts of two elements, of which two are in use.
abbrev two_parts : RingBuffer lists
two_parts = record { buffer = (6, 1 ∷ 2 ∷ 3 ∷ 4 ∷ []); elements_per_part = 2 }

two_parts-IsValid : IsValid two_parts
two_parts-IsValid = record {
  some_part = omega arith;
  parts = 3;
  all_parts = refl;
  bounded = omega arith;
  used = 2;
  used_parts = refl;
  fits = omega arith;
}

abbrev fresh_values : List ℕ
fresh_values = 5 ∷ 6 ∷ []

-- A thread stores four elements, another reads two.
abbrev none_stored : RingBuffer lists
none_stored = record { buffer = (6, []); elements_per_part = 2 }

abbrev all_stored : List ℕ
all_stored = 1 ∷ 2 ∷ 3 ∷ 4 ∷ []

abbrev before : System lists
before = record { ring = two_parts; put = all_stored; got = [] }

abbrev after : System lists
after = record {
  ring = record { buffer = (6, 3 ∷ 4 ∷ []); elements_per_part = 2 };
  put = all_stored;
  got = 1 ∷ 2 ∷ [];
}

before-Reach : Reach lists 3 2 before
unfolding new check_store free_space
before-Reach = later (start {r = none_stored} refl) (stores all_stored refl (omega arith))

after-Reach : Reach lists 3 2 after
unfolding read
after-Reach = later before-Reach (reads {out = 1 ∷ 2 ∷ []} refl)

Reach-IsFifo_example : (all_stored ≡ (1 ∷ 2 ∷ []) ++ (3 ∷ 4 ∷ [])) × IsValid after.ring
Reach-IsFifo_example =
    Reach-IsFifo lists-Documented (omega arith) (omega arith) (omega arith) after-Reach

Reach-live_example :
    (4 ≤ free_space lists after.ring)
    ⊎ ((out : List ℕ) × (r : RingBuffer lists) × (read lists after.ring ≡ (true, out, r)))
unfolding check_store
Reach-live_example =
    Reach-live lists-Documented (omega arith) (omega arith) (omega arith) after-Reach all_stored
      refl

-- Two parts are stored and one is read; then two more are refused, and all that is left is read.
abbrev calls : List (Op ℕ)
calls =
    put ((1 ∷ 2 ∷ []) ∷ (3 ∷ 4 ∷ []) ∷ [])
    ∷ take_one
    ∷ put ((5 ∷ 6 ∷ []) ∷ (7 ∷ 8 ∷ []) ∷ (9 ∷ 9 ∷ []) ∷ [])
    ∷ ask_full
    ∷ take_all
    ∷ []

ring_run-queue_run_example :
    (r : RingBuffer lists) × (new lists 3 2 ≡ ok r)
    × ((ring_run lists calls r).0 ≡ (queue_run 3 calls []).0)
    × Holds 3 (ring_run lists calls r).1 (queue_run 3 calls []).1
ring_run-queue_run_example =
    ring_run-queue_run lists-Documented 3 2 calls (omega arith) (omega arith) (omega arith)
      ((refl, (refl, tt)), (tt, ((refl, (refl, (refl, tt))), (tt, (tt, tt)))))
