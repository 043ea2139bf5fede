-- ===== src/RecMutex/Tests.antt =====
-- Runs of the recursive mutex: thread 0 locks, 1 and 2 wait, 0 unlocks and 1 is woken.
use multithreading_bible.Common.{ℕ, ◌^◌, ◌-◌, ◌≡◌, refl, none, some, arith, true}
use multithreading_bible.Common.Sums.{put}
use multithreading_bible.Sync.{
  quiet, leaves, aborts, Thread, Pc, idle, asleep, woken, World, silent, one, returns, blocks,
  Reach, here, next, start, Proceeds,
}
use multithreading_bible.Sync.Change.{weight}
use multithreading_bible.Sync.Wakeups.{Awake}
use multithreading_bible.RecMutex.{
  RecMutex, Cv, cv, Point, relock, rec_mutex_init, rec_mutex_lock, rec_mutex_unlock, Call, lock,
  unlock, enter, resume, api,
}
use multithreading_bible.RecMutex.Exclusion.{mutual_exclusion, mutex_asserts_hold}
use multithreading_bible.RecMutex.Wakeups.{no_lost_wakeup}
use multithreading_bible.RecMutex.Overflow.{lock_overflow}

abbrev Threads : Type 0
Threads = ℕ → Thread Cv Point ℕ

abbrev at : Pc Cv Point → ℕ → Thread Cv Point ℕ
at p h = record { pc = p; held = h }

abbrev locked : ℕ → RecMutex
locked w = record { n = 1; locking_thread = some 0; n_waited = w }

abbrev threads1 : Threads
threads1 = put (λ _. at idle 0) 0 (at idle 1)

abbrev threads2 : Threads
threads2 = put threads1 1 (at (asleep cv relock) 0)

abbrev threads3 : Threads
threads3 = put threads2 2 (at (asleep cv relock) 0)

abbrev threads4 : Threads
threads4 = put (put threads3 0 (at idle 0)) 1 (at (woken relock) 0)

abbrev world1 : World Cv Point RecMutex ℕ
world1 = record { state = locked 0; threads = threads1 }

abbrev world2 : World Cv Point RecMutex ℕ
world2 = record { state = locked 1; threads = threads2 }

abbrev world3 : World Cv Point RecMutex ℕ
world3 = record { state = locked 2; threads = threads3 }

abbrev world4 : World Cv Point RecMutex ℕ
world4 = record {
  state = record { n = 0; locking_thread = none; n_waited = 2 };
  threads = threads4;
}

reach1 : Reach (api 2) 3 (start rec_mutex_init 0) world1
unfolding enter rec_mutex_init rec_mutex_lock
reach1 = next here (returns 0 lock quiet (omega arith) refl refl refl (silent refl (λ j. refl)))

reach4 : Reach (api 2) 3 (start rec_mutex_init 0) world4
unfolding enter rec_mutex_lock rec_mutex_unlock
reach4 =
    next
      (next (next reach1 (blocks 1 lock cv relock (omega arith) refl refl refl (λ j. refl)))
        (blocks 2 lock cv relock (omega arith) refl refl refl (λ j. refl)))
      (returns 0 unlock _ (omega arith) refl refl refl
        (one cv 1 relock refl (omega arith) refl (λ j. refl)))

mutual_exclusion_example : (world1.threads 1).held ≡ 0
mutual_exclusion_example =
    mutual_exclusion 0 1 (omega arith) (omega arith) (omega arith) reach1 (omega arith)
      (omega arith)

mutex_asserts_hold_example :
    ((c : Call) → (api 2).may c (world1.threads 0).held ≡ true → Proceeds (enter world1.state 0 c))
    × (weight (λ _. 1) (world1.threads 0).pc ≡ 1 → Proceeds (resume world1.state 0 relock))
mutex_asserts_hold_example = mutex_asserts_hold 0 (omega arith) (omega arith) (omega arith) reach1

no_lost_wakeup_example : Awake 3 world4.threads
no_lost_wakeup_example =
    no_lost_wakeup (omega arith) (omega arith) (omega arith) reach4 refl 2 relock (omega arith) refl

abbrev full : RecMutex
full = record { n = 2 ^ 16 - 1; locking_thread = some 4; n_waited = 0 }

lock_overflow_example :
    (rec_mutex_lock full 4 ≡ leaves (record full { n = 0 }) quiet)
    × ((u : ℕ)
        → (rec_mutex_lock (record full { n = 0 }) u ≡ aborts)
          × (rec_mutex_unlock (record full { n = 0 }) u ≡ aborts))
lock_overflow_example = lock_overflow full 4 refl refl
