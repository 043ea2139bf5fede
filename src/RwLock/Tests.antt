-- ===== src/RwLock/Tests.antt =====
-- Runs of the read-write lock: thread 0 writes, threads 1 (reader) and 2 (writer) wait.
use multithreading_bible.Common.{ℕ, ◌≡◌, ◌≢◌, refl, none, some, arith, true, false}
use multithreading_bible.Common.Sums.{put}
use multithreading_bible.Sync.{
  quiet, aborts, Thread, Pc, idle, asleep, World, silent, returns, blocks, Reach, here, next,
  Proceeds,
}
use multithreading_bible.RwLock.{
  RwLock, Cv, cv, Point, reading, writing, rw_lock_init, rw_lock_rd_lock, rw_lock_wr_lock, Call,
  rd_lock, wr_lock, enter, resume, Held, may, api,
}
use multithreading_bible.RwLock.Exclusion.{
  fresh, writer_exclusion, rw_lock_asserts_hold, init_needs_zeroed,
}
use multithreading_bible.RwLock.Wakeups.{Reason, waiters_have_reason}

abbrev memory : ℕ → RwLock
memory n = record {
  n_locks = n;
  n_reader_waiting = 0;
  n_writer_waiting = 0;
  is_locked_by_reader = false;
  is_locked_by_writer = false;
  writer_thread = none;
}

abbrev written : ℕ → ℕ → RwLock
written r w = record {
  n_locks = 1;
  n_reader_waiting = r;
  n_writer_waiting = w;
  is_locked_by_reader = false;
  is_locked_by_writer = true;
  writer_thread = some 0;
}

abbrev at : Pc Cv Point → ℕ → ℕ → Thread Cv Point Held
at p r w = record { pc = p; held = record { reads = r; writes = w } }

abbrev threads1 : ℕ → Thread Cv Point Held
threads1 = put (λ _. at idle 0 0) 0 (at idle 0 1)

abbrev threads2 : ℕ → Thread Cv Point Held
threads2 = put threads1 1 (at (asleep cv reading) 0 0)

abbrev threads3 : ℕ → Thread Cv Point Held
threads3 = put threads2 2 (at (asleep cv writing) 0 0)

abbrev world1 : World Cv Point RwLock Held
world1 = record { state = written 0 0; threads = threads1 }

abbrev world2 : World Cv Point RwLock Held
world2 = record { state = written 1 0; threads = threads2 }

abbrev world3 : World Cv Point RwLock Held
world3 = record { state = written 1 1; threads = threads3 }

reach3 : Reach (api 2) 3 (fresh (memory 0)) world3
unfolding enter rw_lock_init rw_lock_rd_lock rw_lock_wr_lock
reach3 =
    next {y = world2}
      (next {y = world1}
        (next here (returns 0 wr_lock quiet (omega arith) refl refl refl (silent refl (λ j. refl))))
        (blocks 1 rd_lock cv reading (omega arith) refl refl refl (λ j. refl)))
      (blocks 2 wr_lock cv writing (omega arith) refl refl refl (λ j. refl))

writer_exclusion_example :
    ((world3.threads 0).held.reads ≡ 0)
    × ((world3.threads 1).held.reads ≡ 0)
    × (◌≢◌ {A = ℕ} 0 1 → (world3.threads 1).held.writes ≡ 0)
writer_exclusion_example =
    writer_exclusion (memory 0) 0 1 (omega arith) (omega arith) (omega arith) refl reach3
      (omega arith) (omega arith) (omega arith)

rw_lock_asserts_hold_example :
    ((c : Call) → may 2 c (world3.threads 0).held ≡ true → Proceeds (enter world3.state 0 c))
    × ((k : Point) → Proceeds (resume world3.state 0 k))
rw_lock_asserts_hold_example =
    rw_lock_asserts_hold (memory 0) 0 (omega arith) (omega arith) (omega arith) refl reach3
      (omega arith)

waiters_have_reason_example : Reason world3.state reading
waiters_have_reason_example =
    waiters_have_reason (memory 0) (omega arith) (omega arith) (omega arith) refl reach3 1 reading
      (omega arith) refl

lock_of_unzeroed_memory :
    (rw_lock_rd_lock (rw_lock_init (memory 7)) ≡ aborts)
    × (rw_lock_wr_lock (rw_lock_init (memory 7)) 0 ≡ aborts)
lock_of_unzeroed_memory = init_needs_zeroed (memory 7) 0 (omega arith)
