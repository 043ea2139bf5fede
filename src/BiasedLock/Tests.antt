-- ===== src/BiasedLock/Tests.antt =====
-- Runs of the biased read-write lock with room for two readers and one writer: threads 0 and 1 read,
-- thread 2 (reader) and thread 3 (writer) wait.
use multithreading_bible.Common.{ℕ, ◌+◌, ◌≡◌, ◌≤◌, ◌⊎◌, refl, arith, true, false}
use multithreading_bible.Common.Sums.{put}
use multithreading_bible.Sync.{
  quiet, aborts, leaves, sleeps, Thread, Pc, idle, asleep, World, silent, returns, blocks, Reach,
  here, next,
}
use multithreading_bible.Sync.Change.{holds}
use multithreading_bible.RwLock.{Held, rd_lock, wr_lock, unlock}
use multithreading_bible.BiasedLock.{
  BiasedLock, Cv, cv, cv_writers, Point, reading, writing, writing_biased, neutral, for_readers,
  for_writers, opposite, rw_lock_init, rw_lock_set_max_readers_writers, rw_lock_set_biasedness,
  rw_lock_rd_lock, rw_lock_wr_lock, rw_lock_destroy, rw_lock_unlock, signal_all, enter, resume, api,
}
use multithreading_bible.BiasedLock.Limits.{fresh, locks_limited, destroy_ready}
use multithreading_bible.BiasedLock.Wakeups.{Reason, neutral_waiters_have_reason}
use multithreading_bible.BiasedLock.Biases.{biases_abort, lowered_limit_ignored}

abbrev lock : ℕ → ℕ → ℕ → ℕ → BiasedLock
lock n r w b = record {
  n_locks = n;
  n_reader_waiting = r;
  n_writer_waiting = w;
  is_locked_by_reader = true;
  is_locked_by_writer = false;
  n_max_readers = 2;
  n_max_writers = 1;
  biasedness = b;
  who_used_cs = true;
}

abbrev at : Pc Cv Point → ℕ → Thread Cv Point Held
at p r = record { pc = p; held = record { reads = r; writes = 0 } }

abbrev threads1 : ℕ → Thread Cv Point Held
threads1 = put (λ _. at idle 0) 0 (at idle 1)

abbrev threads2 : ℕ → Thread Cv Point Held
threads2 = put threads1 1 (at idle 1)

abbrev threads3 : ℕ → Thread Cv Point Held
threads3 = put threads2 2 (at (asleep cv reading) 0)

abbrev threads4 : ℕ → Thread Cv Point Held
threads4 = put threads3 3 (at (asleep cv writing) 0)

abbrev world : ℕ → ℕ → ℕ → (ℕ → Thread Cv Point Held) → World Cv Point BiasedLock Held
world n r w f = record { state = lock n r w neutral; threads = f }

reach : Reach api 4 (fresh (lock 0 0 0 neutral) 2 1 neutral) (world 2 1 1 threads4)
unfolding enter rw_lock_init rw_lock_set_max_readers_writers rw_lock_set_biasedness rw_lock_rd_lock
    rw_lock_wr_lock
reach =
    next {y = world 2 1 0 threads3}
      (next {y = world 2 0 0 threads2}
        (next {y = world 1 0 0 threads1}
          (next here
            (returns 0 rd_lock quiet (omega arith) refl refl refl (silent refl (λ j. refl))))
          (returns 1 rd_lock quiet (omega arith) refl refl refl (silent refl (λ j. refl))))
        (blocks 2 rd_lock cv reading (omega arith) refl refl refl (λ j. refl)))
      (blocks 3 wr_lock cv writing (omega arith) refl refl refl (λ j. refl))

locks_limited_example :
    (holds 4 (λ h. h.reads) (world 2 1 1 threads4) ≤ 2)
    × (holds 4 (λ h. h.writes) (world 2 1 1 threads4) ≤ 1)
    × ((holds 4 (λ h. h.reads) (world 2 1 1 threads4) ≡ 0)
        ⊎ (holds 4 (λ h. h.writes) (world 2 1 1 threads4) ≡ 0))
locks_limited_example =
    locks_limited neutral (lock 0 0 0 neutral) (omega arith) (omega arith, omega arith) refl reach

neutral_waiters_have_reason_example : (cv ≡ cv) × Reason (lock 2 1 1 neutral) reading
neutral_waiters_have_reason_example =
    neutral_waiters_have_reason (lock 0 0 0 neutral) (omega arith) (omega arith, omega arith) refl
      reach 2 cv reading (omega arith) refl

abbrev released : World Cv Point BiasedLock Held
released = record {
  state = record (lock 0 0 0 neutral) { is_locked_by_reader = false };
  threads = put threads1 0 (at idle 0);
}

run_released : Reach api 1 (fresh (lock 0 0 0 neutral) 2 1 neutral) released
unfolding enter rw_lock_init rw_lock_set_max_readers_writers rw_lock_set_biasedness rw_lock_rd_lock
    rw_lock_unlock signal_all
run_released =
    next {y = world 1 0 0 threads1}
      (next here (returns 0 rd_lock quiet (omega arith) refl refl refl (silent refl (λ j. refl))))
      (returns 0 unlock quiet (omega arith) refl refl refl (silent refl (λ j. refl)))

destroy_ready_test : rw_lock_destroy released.state ≡ true
destroy_ready_test =
    destroy_ready neutral (lock 0 0 0 neutral) (omega arith) (omega arith, omega arith) refl
      run_released (λ j lt. outside j)
  where
    outside : (j : ℕ) → released.threads j ≡ at idle 0
    outside j = ground arith

biases_abort_example :
    (rw_lock_wr_lock (rw_lock_set_biasedness (lock 2 0 0 neutral) for_readers) ≡ aborts)
    × (rw_lock_rd_lock (rw_lock_set_biasedness (lock 2 0 0 neutral) for_writers) ≡ aborts)
    × (rw_lock_wr_lock (rw_lock_set_biasedness (lock 2 0 0 neutral) for_writers)
        ≡ sleeps cv_writers writing_biased
            (record (rw_lock_set_biasedness (lock 2 0 0 neutral) for_writers) {
              n_writer_waiting = 1;
            }))
    × (resume (lock 2 0 1 for_writers) 0 writing_biased ≡ aborts)
    × (rw_lock_rd_lock (rw_lock_set_biasedness (lock 2 0 0 neutral) opposite) ≡ aborts)
    × (rw_lock_wr_lock (rw_lock_set_biasedness (lock 2 0 0 neutral) opposite) ≡ aborts)
biases_abort_example = biases_abort (lock 2 0 0 neutral) (lock 2 0 1 for_writers) 0

lowered_limit_test :
    (m' : BiasedLock) × (rw_lock_rd_lock (rw_lock_set_max_readers_writers (lock 2 0 0 neutral) 1 1)
      ≡ leaves m' quiet)
    × (m'.n_locks ≡ (lock 2 0 0 neutral).n_locks + 1)
    × (m'.n_max_readers ≡ 1)
lowered_limit_test = lowered_limit_ignored (lock 2 0 0 neutral) 1 1 refl (omega arith) (omega arith)
