-- ===== src/Sema/Tests.antt =====
-- A run of the semaphore with one permit: thread 0 gets it, thread 1 is blocked, thread 0 posts.
use multithreading_bible.Common.{ℕ, ◌+◌, ◌≤◌, ◌≡◌, refl, arith}
use multithreading_bible.Common.Sums.{put}
use multithreading_bible.Sync.{
  quiet, signal, aborts, Thread, Pc, idle, asleep, woken, World, silent, one, returns, blocks,
  Reach, here, next,
}
use multithreading_bible.Sync.Change.{waits, holds}
use multithreading_bible.Sema.{
  ℤ, pos, negsuc, plus, minus, IsInt, Sema, Cv, cv, Point, waiting, sema_get_new_semaphore,
  sema_init, sema_wait, sema_post, sema_getvalue, wait, post, enter, Done, api,
}
use multithreading_bible.Sema.Sleepers.{sleepers, spurious_wakeups}
use multithreading_bible.Sema.Permits.{one_each, fresh, permits_balance, spurious_permit}

abbrev at : Pc Cv Point → ℕ → ℕ → Thread Cv Point Done
at p w r = record { pc = p; held = record { waits = w; posts = r } }

abbrev threads1 : ℕ → Thread Cv Point Done
threads1 = put (λ _. at idle 0 0) 0 (at idle 1 0)

abbrev threads2 : ℕ → Thread Cv Point Done
threads2 = put threads1 1 (at (asleep cv waiting) 0 0)

abbrev threads3 : ℕ → Thread Cv Point Done
threads3 = put (put threads2 0 (at idle 1 1)) 1 (at (woken waiting) 0 0)

abbrev world : ℤ → (ℕ → Thread Cv Point Done) → World Cv Point Sema Done
world v f = record { state = record { permit_counter = v }; threads = f }

run : Reach api 2 (fresh sema_get_new_semaphore (pos 1)) (world (pos 0) threads3)
unfolding enter sema_get_new_semaphore sema_init sema_wait sema_post
run =
    next {y = world (negsuc 0) threads2}
      (next {y = world (pos 0) threads1}
        (next here (returns 0 wait quiet (omega arith) refl refl refl (silent refl (λ j. refl))))
        (blocks 1 wait cv waiting (omega arith) refl refl refl (λ j. refl)))
      (returns 0 post (signal cv) (omega arith) refl refl refl
        (one cv 1 waiting refl (omega arith) refl (λ j. refl)))

permits_balance_example :
    IsInt (sema_getvalue (world (pos 0) threads3).state)
    × (plus (sema_getvalue (world (pos 0) threads3).state)
          + holds 2 (λ h. h.waits) (world (pos 0) threads3)
          + waits 2 one_each (world (pos 0) threads3)
          + minus (pos 1)
        ≡ plus (pos 1)
          + holds 2 (λ h. h.posts) (world (pos 0) threads3)
          + minus (sema_getvalue (world (pos 0) threads3).state))
    × (sleepers 2 threads3 ≤ minus (sema_getvalue (world (pos 0) threads3).state))
    × (plus (sema_getvalue (world (pos 0) threads3).state)
          + holds 2 (λ h. h.waits) (world (pos 0) threads3)
          + waits 2 one_each (world (pos 0) threads3)
        ≤ plus (pos 1)
          + holds 2 (λ h. h.posts) (world (pos 0) threads3)
          + sleepers 2 threads3
          + spurious_wakeups run)
permits_balance_example =
    permits_balance (pos 1) sema_get_new_semaphore (omega arith, omega arith) run

spurious_permit_test :
    (y : World Cv Point Sema Done) × Reach api 2 (world (negsuc 0) threads2) y
    × (sema_getvalue y.state ≡ sema_getvalue (world (negsuc 0) threads2).state)
    × ((y.threads 1).held.waits ≡ (threads2 1).held.waits + 1)
spurious_permit_test = spurious_permit (world (negsuc 0) threads2) 1 (omega arith) refl

-- The calls that overflow the counter.
overflow_test :
    (sema_post (sema_init sema_get_new_semaphore (pos 2147483647)) ≡ aborts)
    × (sema_wait (sema_init sema_get_new_semaphore (negsuc 2147483647)) ≡ aborts)
unfolding sema_get_new_semaphore sema_init sema_wait sema_post
overflow_test = (refl, refl)
