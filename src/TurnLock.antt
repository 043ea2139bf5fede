-- ===== src/TurnLock.antt =====
-- rw_locks/monitor/rw_locks.c: a read-write lock with limits on its readers and writers, which gives
-- the turn to the other kind when the last thread of a kind leaves.
pub mod Sections
pub mod Turns
pub mod Alternation
pub mod Tests
use multithreading_bible.Common.{
  ℕ, ◌+◌, ◌-◌, ◌%◌, ◌^◌, Bool, true, false, not, ◌&&◌, ◌||◌, ltb, leb, ◌==◌, if◌then◌else◌,
}
use multithreading_bible.Sync.{
  Wake, quiet, signal, broadcast, Outcome, leaves, sleeps, aborts, require, Api,
}
use multithreading_bible.RwLock.{
  Point, reading, writing, Held, Call, rd_lock, wr_lock, unlock, credit, granted,
}

-- `rw_lock_t`; the counters and limits are `uint16_t`.
pub record TurnLock : Type 0 where
  pub dont_allow_readers : Bool
  pub dont_allow_writers : Bool
  pub n_locks : ℕ
  pub n_reader_waiting : ℕ
  pub n_writer_waiting : ℕ
  pub is_locked_by_reader : Bool
  pub is_locked_by_writer : Bool
  pub n_max_readers : ℕ
  pub n_max_writers : ℕ

pub data Cv : Type 0 where
  cv_reader cv_writer : Cv

abbrev incr16 : ℕ → ℕ
incr16 a = (a + 1) % 2 ^ 16

abbrev decr16 : ℕ → ℕ
decr16 a = (a + 65535) % 2 ^ 16

-- `n_locks` is left as it is in memory.
pub rw_lock_init : TurnLock → TurnLock
rw_lock_init rw = record rw {
  dont_allow_readers = false;
  dont_allow_writers = false;
  n_reader_waiting = 0;
  n_writer_waiting = 0;
  is_locked_by_reader = false;
  is_locked_by_writer = false;
  n_max_readers = 65535;
  n_max_writers = 1;
}

pub rw_lock_set_max_readers_writers : TurnLock → ℕ → ℕ → TurnLock
rw_lock_set_max_readers_writers rw max_readers max_writers = record rw {
  n_max_readers = max_readers;
  n_max_writers = max_writers;
}

-- Case 1 of both `rw_lock_rd_lock` and `rw_lock_wr_lock` asserts this.
abbrev asserts_free : TurnLock → Bool
asserts_free rw = rw.n_locks == 0 && not rw.is_locked_by_reader && not rw.is_locked_by_writer

-- The `while` loop of `rw_lock_rd_lock`, one round, and what follows it.
rd_loop : TurnLock → Outcome Cv Point TurnLock
rd_loop rw =
    if rw.is_locked_by_writer || rw.n_locks == rw.n_max_readers || rw.dont_allow_readers
    then sleeps cv_reader reading (record rw { n_reader_waiting = incr16 rw.n_reader_waiting })
    else require (not rw.is_locked_by_writer) (
        leaves
          (record rw {
            is_locked_by_reader = if rw.n_locks == 0 then true else rw.is_locked_by_reader;
            n_locks = incr16 rw.n_locks;
          })
          quiet)

pub rw_lock_rd_lock : TurnLock → Outcome Cv Point TurnLock
unfolding rd_loop
rw_lock_rd_lock rw =
    if not rw.is_locked_by_reader
      && not rw.is_locked_by_writer
      && leb 1 rw.n_max_readers
      && not rw.dont_allow_readers
    then require (asserts_free rw)
        (leaves (record rw { n_locks = incr16 rw.n_locks; is_locked_by_reader = true }) quiet)
    else rd_loop rw

-- The same of `rw_lock_wr_lock`.
wr_loop : TurnLock → Outcome Cv Point TurnLock
wr_loop rw =
    if rw.is_locked_by_reader || rw.n_locks == rw.n_max_writers || rw.dont_allow_writers
    then sleeps cv_writer writing (record rw { n_writer_waiting = incr16 rw.n_writer_waiting })
    else require (not rw.is_locked_by_reader) (
        leaves
          (record rw {
            is_locked_by_writer = if rw.n_locks == 0 then true else rw.is_locked_by_writer;
            n_locks = incr16 rw.n_locks;
          })
          quiet)

pub rw_lock_wr_lock : TurnLock → Outcome Cv Point TurnLock
unfolding wr_loop
rw_lock_wr_lock rw =
    if not rw.is_locked_by_reader
      && not rw.is_locked_by_writer
      && leb 1 rw.n_max_writers
      && not rw.dont_allow_writers
    then require (asserts_free rw)
        (leaves (record rw { n_locks = incr16 rw.n_locks; is_locked_by_writer = true }) quiet)
    else wr_loop rw

-- `rw_lock_unlock` once `n_locks` is decremented, the lock being a writer's.
unlock_writer : TurnLock → Outcome Cv Point TurnLock
unlock_writer rw =
    if not (rw.n_locks == 0)
    then leaves rw (if not (rw.n_writer_waiting == 0) then signal cv_writer else quiet)
    else if not (rw.n_reader_waiting == 0)
    then leaves
        (record rw {
          dont_allow_writers = true;
          dont_allow_readers = false;
          is_locked_by_writer = false;
        })
        (broadcast cv_reader)
    else leaves (record rw { dont_allow_readers = false; is_locked_by_writer = false })
        (if not (rw.n_writer_waiting == 0) then broadcast cv_writer else quiet)

-- The same for a reader's lock.
unlock_reader : TurnLock → Outcome Cv Point TurnLock
unlock_reader rw =
    if not (rw.n_locks == 0)
    then leaves rw (if not (rw.n_reader_waiting == 0) then signal cv_reader else quiet)
    else if not (rw.n_writer_waiting == 0)
    then leaves
        (record rw {
          dont_allow_writers = false;
          dont_allow_readers = true;
          is_locked_by_reader = false;
        })
        (broadcast cv_writer)
    else leaves (record rw { dont_allow_writers = false; is_locked_by_reader = false })
        (if not (rw.n_reader_waiting == 0) then broadcast cv_reader else quiet)

pub rw_lock_unlock : TurnLock → Outcome Cv Point TurnLock
unfolding unlock_writer unlock_reader
rw_lock_unlock rw = require (not (rw.n_locks == 0)) (
    if rw.is_locked_by_writer
    then require (not rw.is_locked_by_reader)
        (unlock_writer (record rw { n_locks = rw.n_locks - 1 }))
    else if rw.is_locked_by_reader
    then require (not rw.is_locked_by_writer)
        (unlock_reader (record rw { n_locks = rw.n_locks - 1 }))
    else aborts)

-- `true`: every assertion of `rw_lock_destroy` holds.
pub rw_lock_destroy : TurnLock → Bool
rw_lock_destroy rw =
    rw.n_locks == 0
    && rw.n_reader_waiting == 0
    && rw.n_writer_waiting == 0
    && not rw.is_locked_by_writer
    && not rw.is_locked_by_reader

pub enter : TurnLock → ℕ → Call → Outcome Cv Point TurnLock
enter rw t rd_lock = rw_lock_rd_lock rw
enter rw t wr_lock = rw_lock_wr_lock rw
enter rw t unlock = rw_lock_unlock rw

-- A blocked thread goes on with its counter's decrement and the loop's test.
pub resume : TurnLock → ℕ → Point → Outcome Cv Point TurnLock
unfolding rd_loop wr_loop
resume rw t reading = rd_loop (record rw { n_reader_waiting = decr16 rw.n_reader_waiting })
resume rw t writing = wr_loop (record rw { n_writer_waiting = decr16 rw.n_writer_waiting })

-- A client unlocks what it has locked.
abbrev pub may : Call → Held → Bool
may rd_lock h = true
may wr_lock h = true
may unlock h = ltb 0 (h.reads + h.writes)

abbrev pub api : Api Cv Point TurnLock Call Held
api = record { enter = enter; resume = resume; may = may; credit = credit; granted = granted }
