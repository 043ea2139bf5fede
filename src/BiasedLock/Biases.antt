-- ===== src/BiasedLock/Biases.antt =====
-- What the biases of the lock do to a thread that cannot have it at once.
use multithreading_bible.Common.{
  ℕ, ◌+◌, ◌<◌, ◌≡◌, Bool, true, false, not, ◌&&◌, ◌||◌, ◌==◌, if◌then◌else◌, ◌%◌, arith, refl, ◌^◌,
}
use multithreading_bible.Sync.{Outcome, leaves, sleeps, aborts, quiet}
use multithreading_bible.BiasedLock.{
  BiasedLock, Cv, cv_writers, Point, writing_biased, for_readers, for_writers, opposite,
  rw_lock_set_biasedness, rw_lock_set_max_readers_writers, rw_lock_rd_lock, rw_lock_wr_lock, resume,
}

-- The lock has no room for a reader, or for a writer.
abbrev pub readers_out : BiasedLock → Bool
readers_out m = m.is_locked_by_writer || m.n_locks == m.n_max_readers

abbrev pub writers_out : BiasedLock → Bool
writers_out m = m.is_locked_by_reader || m.n_locks == m.n_max_writers

-- The lock is free, and it is the turn of the waiting writers, or readers, to have it.
abbrev pub writers_turn : BiasedLock → Bool
writers_turn m = m.n_locks == 0 && not (m.n_writer_waiting == 0) && m.who_used_cs

abbrev pub readers_turn : BiasedLock → Bool
readers_turn m = m.n_locks == 0 && not (m.n_reader_waiting == 0) && not m.who_used_cs

-- The lock with one more reader, or writer, inside.
abbrev pub reader_in : BiasedLock → BiasedLock
reader_in m = record m {
  is_locked_by_reader = if m.n_locks == 0 then true else m.is_locked_by_reader;
  n_locks = (m.n_locks + 1) % 2 ^ 16;
}

abbrev pub writer_in : BiasedLock → BiasedLock
writer_in m = record m {
  is_locked_by_writer = if m.n_locks == 0 then true else m.is_locked_by_writer;
  n_locks = (m.n_locks + 1) % 2 ^ 16;
}

-- A failed assertion where the thread is held back, otherwise the lock.
abbrev pub locked_unless : Bool → BiasedLock → Outcome Cv Point BiasedLock
locked_unless held_back m = if held_back then aborts else leaves m quiet

-- With a bias for readers a writer, with a bias for writers a reader, and with the opposite bias
-- either fails an `assert` exactly where it cannot have the lock at once, and otherwise has it. With
-- a bias for writers a writer that cannot have the lock waits, and fails an `assert` whenever it is
-- woken.
pub biases_abort :
    (m m' : BiasedLock) (t : ℕ)
    → (rw_lock_wr_lock (rw_lock_set_biasedness m for_readers)
        ≡ locked_unless (writers_out m) (writer_in (rw_lock_set_biasedness m for_readers)))
      × (rw_lock_rd_lock (rw_lock_set_biasedness m for_writers)
          ≡ locked_unless (readers_out m) (reader_in (rw_lock_set_biasedness m for_writers)))
      × (rw_lock_wr_lock (rw_lock_set_biasedness m for_writers) ≡ (
          if writers_out m
          then sleeps cv_writers writing_biased (record (rw_lock_set_biasedness m for_writers) {
            n_writer_waiting = (m.n_writer_waiting + 1) % 2 ^ 16;
          })
          else leaves (writer_in (rw_lock_set_biasedness m for_writers)) quiet))
      × (resume m' t writing_biased ≡ aborts)
      × (rw_lock_rd_lock (rw_lock_set_biasedness m opposite)
          ≡ locked_unless
              (readers_out m || writers_turn m)
              (reader_in (rw_lock_set_biasedness m opposite)))
      × (rw_lock_wr_lock (rw_lock_set_biasedness m opposite)
          ≡ locked_unless
              (writers_out m || readers_turn m)
              (writer_in (rw_lock_set_biasedness m opposite)))
unfolding resume rw_lock_rd_lock rw_lock_wr_lock rw_lock_set_biasedness
biases_abort m m' t = (ground arith, ground arith, ground arith, refl, ground arith, ground arith)

-- A limit that is set below the number of readers inside does not hold the next readers back: each
-- gets the lock at once, as `n_locks` is compared with the limit by equality.
pub lowered_limit_ignored :
    (m : BiasedLock) (r w : ℕ)
    → m.is_locked_by_writer ≡ false
    → r < m.n_locks
    → m.n_locks + 1 < 2 ^ 16
    → (m' : BiasedLock) × (rw_lock_rd_lock (rw_lock_set_max_readers_writers m r w)
        ≡ leaves m' quiet)
      × (m'.n_locks ≡ m.n_locks + 1)
      × (m'.n_max_readers ≡ r)
unfolding rw_lock_rd_lock rw_lock_set_max_readers_writers
lowered_limit_ignored m r w free low narrow = (
  record m { n_locks = m.n_locks + 1; n_max_readers = r; n_max_writers = w },
  ground arith,
  ground arith,
  refl,
)
