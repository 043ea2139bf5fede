-- ===== src/TurnLock/Tests.antt =====
-- Runs of the lock with turns, for two readers or one writer: thread 0 writes, 1 and 2 wait to read
-- and to write, and thread 0 leaves.
use multithreading_bible.Common.{
  ℕ, zero, suc, Bool, ◌≡◌, ◌≤◌, ◌<◌, ◌⊎◌, ◌&&◌, refl, arith, true, false,
}
use multithreading_bible.Common.Sums.{put}
use multithreading_bible.Sync.{
  quiet, broadcast, Thread, Pc, idle, asleep, woken, World, silent, all, Roused, waiting, elsewhere,
  returns, blocks, Reach, here, next,
}
use multithreading_bible.Sync.Change.{holds, waits}
use multithreading_bible.RwLock.{Point, reading, writing, Held, rd_lock, wr_lock, unlock}
use multithreading_bible.RwLock.Exclusion.Sections.{is_reading, is_writing}
use multithreading_bible.TurnLock.{
  TurnLock, Cv, cv_reader, cv_writer, rw_lock_init, rw_lock_set_max_readers_writers,
  rw_lock_rd_lock, rw_lock_wr_lock, rw_lock_unlock, enter, api,
}
use multithreading_bible.TurnLock.Turns.{fresh, turns_held}
use multithreading_bible.TurnLock.Alternation.{
  AfterReadersTurn, AfterWritersTurn, readers_turn_kept, writers_turn_kept,
}

-- Kept out: the readers, the writers; locks taken; readers and writers waiting; the writer's lock.
abbrev lock : (dr dw w : Bool) (n i j : ℕ) → TurnLock
lock dr dw w n i j = record {
  dont_allow_readers = dr;
  dont_allow_writers = dw;
  n_locks = n;
  n_reader_waiting = i;
  n_writer_waiting = j;
  is_locked_by_reader = false;
  is_locked_by_writer = w;
  n_max_readers = 2;
  n_max_writers = 1;
}

abbrev at : Pc Cv Point → ℕ → Thread Cv Point Held
at p w = record { pc = p; held = record { reads = 0; writes = w } }

abbrev threads1 : ℕ → Thread Cv Point Held
threads1 = put (λ _. at idle 0) 0 (at idle 1)

abbrev threads2 : ℕ → Thread Cv Point Held
threads2 = put threads1 1 (at (asleep cv_reader reading) 0)

abbrev threads3 : ℕ → Thread Cv Point Held
threads3 = put threads2 2 (at (asleep cv_writer writing) 0)

abbrev threads4 : ℕ → Thread Cv Point Held
threads4 = put (put threads3 0 (at idle 0)) 1 (at (woken reading) 0)

abbrev world1 : World Cv Point TurnLock Held
world1 = record { state = lock false false true 1 0 0; threads = threads1 }

abbrev world2 : World Cv Point TurnLock Held
world2 = record { state = lock false false true 1 1 0; threads = threads2 }

abbrev world3 : World Cv Point TurnLock Held
world3 = record { state = lock false false true 1 1 1; threads = threads3 }

abbrev world4 : World Cv Point TurnLock Held
world4 = record { state = lock false true false 0 1 1; threads = threads4 }

wakes : (j : ℕ) → Roused cv_reader (put threads3 0 (at idle 0) j) (threads4 j)
wakes zero = elsewhere (λ k q. absurd (cc)) refl
wakes (suc zero) = waiting reading refl refl
wakes (suc (suc zero)) = elsewhere (λ k q. absurd (cc)) refl
wakes (suc (suc (suc j))) = elsewhere (λ k q. ground arith) (ground arith)

reach4 : Reach api 3 (fresh (lock false false false 0 0 0) 2 1) world4
unfolding enter rw_lock_init rw_lock_set_max_readers_writers rw_lock_rd_lock rw_lock_wr_lock
    rw_lock_unlock
reach4 =
    next {y = world3}
      (next {y = world2}
        (next {y = world1}
          (next here
            (returns 0 wr_lock quiet (omega arith) refl refl refl (silent refl (λ j. refl))))
          (blocks 1 rd_lock cv_reader reading (omega arith) refl refl refl (λ j. refl)))
        (blocks 2 wr_lock cv_writer writing (omega arith) refl refl refl (λ j. refl)))
      (returns 0 unlock (broadcast cv_reader) (omega arith) refl refl refl
        (all cv_reader refl wakes))

turns_held_example :
    (holds 3 (λ h. h.reads) world4 ≤ 2)
    × (holds 3 (λ h. h.writes) world4 ≤ 1)
    × ((holds 3 (λ h. h.reads) world4 ≡ 0) ⊎ (holds 3 (λ h. h.writes) world4 ≡ 0))
    × ((world4.state.dont_allow_readers ≡ false)
        ⊎ (holds 3 (λ h. h.reads) world4 ≡ 0)
          × ((0 < holds 3 (λ h. h.writes) world4) ⊎ (0 < waits 3 is_writing world4)))
    × ((world4.state.dont_allow_writers ≡ false)
        ⊎ (holds 3 (λ h. h.writes) world4 ≡ 0)
          × ((0 < holds 3 (λ h. h.reads) world4) ⊎ (0 < waits 3 is_reading world4)))
    × ((world4.state.dont_allow_readers && world4.state.dont_allow_writers) ≡ false)
turns_held_example =
    turns_held (lock false false false 0 0 0) (omega arith) (omega arith, omega arith) refl reach4

-- A new writer comes in the readers' turn, and a new reader in the writers' turn.
readers_turn_kept_example : AfterReadersTurn (lock false true false 0 1 2)
unfolding enter rw_lock_wr_lock
readers_turn_kept_example =
    readers_turn_kept {n = 1}
      {x = record { state = lock false true false 0 1 1; threads = λ _. at idle 0 }}
      {y = record {
        state = lock false true false 0 1 2;
        threads = put (λ _. at idle 0) 0 (at (asleep cv_writer writing) 0);
      }}
      (blocks 0 wr_lock cv_writer writing (omega arith) refl refl refl (λ j. refl))
      (refl, refl, refl)

writers_turn_kept_example : AfterWritersTurn (lock true false false 0 2 1)
unfolding enter rw_lock_rd_lock
writers_turn_kept_example =
    writers_turn_kept {n = 1}
      {x = record { state = lock true false false 0 1 1; threads = λ _. at idle 0 }}
      {y = record {
        state = lock true false false 0 2 1;
        threads = put (λ _. at idle 0) 0 (at (asleep cv_reader reading) 0);
      }}
      (blocks 0 rd_lock cv_reader reading (omega arith) refl refl refl (λ j. refl))
      (refl, refl, refl)
