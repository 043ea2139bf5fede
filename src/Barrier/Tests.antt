-- ===== src/Barrier/Tests.antt =====
-- A run of a barrier for two threads: thread 0 waits, thread 1 comes and lets it go.
use multithreading_bible.Common.{ℕ, ◌≡◌, ◌<◌, refl, arith, true, false}
use multithreading_bible.Common.Sums.{put}
use multithreading_bible.Sync.{
  quiet, signal, leaves, sleeps, Thread, Pc, idle, asleep, woken, World, one, returns, blocks,
  Reach, here, next,
}
use multithreading_bible.Sync.Change.{waits}
use multithreading_bible.Barrier.{
  Barrier, Cv, cv, busy_cv, Point, at_barrier, at_busy, thread_barrier_init,
  thread_barrier_signal_all, thread_barrier_barricade, barricade, enter, resume, api,
}
use multithreading_bible.Barrier.Rounds.{
  is_at_barrier, fresh, waiters_counted, threshold_one_sticks,
}

abbrev state : ℕ → Barrier
state c = record { threshold = 2; curr_wait_count = c; is_ready_again = true }

abbrev at : Pc Cv Point → ℕ → Thread Cv Point ℕ
at p h = record { pc = p; held = h }

abbrev threads1 : ℕ → Thread Cv Point ℕ
threads1 = put (λ _. at idle 0) 0 (at (asleep cv at_barrier) 0)

abbrev full : World Cv Point Barrier ℕ
full = record {
  state = record (state 1) { is_ready_again = false };
  threads = put (put threads1 1 (at idle 1)) 0 (at (woken at_barrier) 0);
}

run : Reach api 2 (fresh (state 7) 2) full
unfolding enter thread_barrier_init thread_barrier_barricade
run =
    next {y = record { state = state 1; threads = threads1 }}
      (next here (blocks 0 barricade cv at_barrier (omega arith) refl refl refl (λ j. refl)))
      (returns 1 barricade (signal cv) (omega arith) refl refl refl
        (one cv 0 at_barrier refl (omega arith) refl (λ j. refl)))

waiters_counted_example :
    (full.state.curr_wait_count ≡ waits 2 is_at_barrier full) × (waits 2 is_at_barrier full < 2)
waiters_counted_example = waiters_counted (state 7) (omega arith) (omega arith) (omega arith) run

threshold_one_test :
    (m' : Barrier) × (thread_barrier_barricade (thread_barrier_init (state 7) 1)
      ≡ leaves m' (signal cv))
    × (thread_barrier_barricade m' ≡ sleeps busy_cv at_busy m')
    × (resume m' 0 at_busy ≡ sleeps busy_cv at_busy m')
    × (thread_barrier_signal_all m' ≡ leaves m' quiet)
threshold_one_test = threshold_one_sticks (state 7) 0
