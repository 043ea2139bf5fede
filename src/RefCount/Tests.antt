-- ===== src/RefCount/Tests.antt =====
-- Two threads use an object, and one is done.
use multithreading_bible.Common.{ℕ, ◌-◌, ◌≡◌, some, ◌==◌, false, arith, refl}
use multithreading_bible.Common.Sums.{put, sum_below, sum_below_zero}
use multithreading_bible.RefCount.{
  RefCount, ref_count_inc, ref_count_dec, thread_using_object_done, World, begins, ends, Reach,
  here, next, start,
}
use multithreading_bible.RefCount.Users.{total, total-put, last_use_told}

abbrev counting : ℕ → (ℕ → ℕ) → World
counting k f = record { state = record { ref_count = k }; uses = f }

abbrev one_use : World
one_use = counting 1 (put (λ i. 0) 1 1)

abbrev two_uses : World
two_uses = counting 2 (put one_use.uses 0 1)

abbrev one_left : World
one_left = counting 1 (put two_uses.uses 1 0)

memory : RefCount
memory = record { ref_count = 7 }

no_use : sum_below 2 (λ i. 0) ≡ 0
no_use = sum_below_zero 2 (λ i. 0) (λ j lt. refl)

run : Reach 2 (start memory) one_left
unfolding start ref_count_inc ref_count_dec memory
run =
    next {y = two_uses}
      (next {y = one_use} (next here (begins 1 (omega arith) (omega (arith, no_use)) refl)) (
        begins 0 (omega arith) (omega (arith, no_use, total-put 2 1 1 (λ i. 0) (omega arith)))
          refl))
      (ends 1 (record { ref_count = 1 }) false (omega arith) (omega arith) refl refl)

last_use_told_example :
    thread_using_object_done one_left.state
    ≡ some (total 2 one_left == 1, record { ref_count = total 2 one_left - 1 })
last_use_told_example = last_use_told memory 0 (omega arith) (omega arith) run
