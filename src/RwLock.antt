-- ===== src/RwLock.antt =====
-- rw_locks/rw_locks.c: a recursive read-write lock over a mutex and one condition variable.
pub mod Exclusion
pub mod Wakeups
pub mod Tests
use multithreading_bible.Common.{
  ℕ, ◌+◌, ◌-◌, ◌%◌, ◌^◌, Bool, true, false, not, ◌&&◌, ◌||◌, Option, none, some, ltb, ◌==◌,
  if◌then◌else◌, is_self, is_set,
}
use multithreading_bible.Sync.{
  Wake, quiet, broadcast, Outcome, leaves, sleeps, aborts, require, Api,
}

-- `rw_lock_t`; `writer_thread` is `none` for 0, and the counters are `uint16_t`.
pub record RwLock : Type 0 where
  pub n_locks : ℕ
  pub n_reader_waiting : ℕ
  pub n_writer_waiting : ℕ
  pub is_locked_by_reader : Bool
  pub is_locked_by_writer : Bool
  pub writer_thread : Option ℕ

pub data Cv : Type 0 where
  cv : Cv

-- The `pthread_cond_wait` in which a thread is blocked.
pub data Point : Type 0 where
  reading writing : Point

abbrev incr16 : ℕ → ℕ
incr16 a = (a + 1) % 2 ^ 16

abbrev decr16 : ℕ → ℕ
decr16 a = (a + 65535) % 2 ^ 16

-- `n_locks` is left as it is in memory.
pub rw_lock_init : RwLock → RwLock
rw_lock_init rw = record rw {
  n_reader_waiting = 0;
  n_writer_waiting = 0;
  is_locked_by_reader = false;
  is_locked_by_writer = false;
  writer_thread = none;
}

abbrev unlocked : RwLock → Bool
unlocked rw = not rw.is_locked_by_reader && not rw.is_locked_by_writer

-- Case 1 of both `rw_lock_rd_lock` and `rw_lock_wr_lock` asserts this.
abbrev asserts_free : RwLock → Bool
asserts_free rw = rw.n_locks == 0 && unlocked rw && not (is_set rw.writer_thread)

-- The `while` loop of case 3 of `rw_lock_rd_lock`, one round, and what follows it.
rd_loop : RwLock → Outcome Cv Point RwLock
rd_loop rw =
    if rw.is_locked_by_writer
    then require (not (rw.n_locks == 0) && not rw.is_locked_by_reader && is_set rw.writer_thread)
        (sleeps cv reading (record rw { n_reader_waiting = incr16 rw.n_reader_waiting }))
    else require (not (is_set rw.writer_thread)) (
        leaves
          (record rw {
            is_locked_by_reader = if rw.n_locks == 0 then true else rw.is_locked_by_reader;
            n_locks = incr16 rw.n_locks;
          })
          quiet)

pub rw_lock_rd_lock : RwLock → Outcome Cv Point RwLock
unfolding rd_loop
rw_lock_rd_lock rw =
    if unlocked rw
    then require (asserts_free rw)
        (leaves (record rw { n_locks = incr16 rw.n_locks; is_locked_by_reader = true }) quiet)
    else if rw.is_locked_by_reader
    then require
        (not rw.is_locked_by_writer && not (rw.n_locks == 0) && not (is_set rw.writer_thread))
        (leaves (record rw { n_locks = incr16 rw.n_locks }) quiet)
    else rd_loop rw

-- The sanity check in the `while` loop of `rw_lock_wr_lock`.
abbrev asserts_locked : RwLock → Bool
asserts_locked rw =
    if rw.is_locked_by_reader
    then not rw.is_locked_by_writer && not (rw.n_locks == 0) && not (is_set rw.writer_thread)
    else not (rw.n_locks == 0) && is_set rw.writer_thread

wr_loop : RwLock → ℕ → Outcome Cv Point RwLock
wr_loop rw t =
    if rw.is_locked_by_reader || rw.is_locked_by_writer
    then require (asserts_locked rw)
        (sleeps cv writing (record rw { n_writer_waiting = incr16 rw.n_writer_waiting }))
    else require (asserts_free rw) (
        leaves
          (record rw {
            is_locked_by_writer = true;
            n_locks = incr16 rw.n_locks;
            writer_thread = some t;
          })
          quiet)

pub rw_lock_wr_lock : RwLock → ℕ → Outcome Cv Point RwLock
unfolding wr_loop
rw_lock_wr_lock rw t =
    if unlocked rw
    then require (asserts_free rw) (
        leaves
          (record rw {
            n_locks = incr16 rw.n_locks;
            is_locked_by_writer = true;
            writer_thread = some t;
          })
          quiet)
    else if rw.is_locked_by_writer && is_self rw.writer_thread t
    then require (not rw.is_locked_by_reader && not (rw.n_locks == 0))
        (leaves (record rw { n_locks = incr16 rw.n_locks }) quiet)
    else wr_loop rw t

-- A broadcast, where a thread waits.
abbrev wake_all : RwLock → Wake Cv
wake_all rw =
    if not (rw.n_reader_waiting == 0) || not (rw.n_writer_waiting == 0) then broadcast cv else quiet

pub rw_lock_unlock : RwLock → ℕ → Outcome Cv Point RwLock
rw_lock_unlock rw t = require (not (rw.n_locks == 0)) (
    if rw.is_locked_by_writer
    then require (is_self rw.writer_thread t && not rw.is_locked_by_reader) (
        if rw.n_locks - 1 == 0
        then leaves (record rw { n_locks = 0; is_locked_by_writer = false; writer_thread = none })
            (wake_all rw)
        else leaves (record rw { n_locks = rw.n_locks - 1 }) quiet)
    else if rw.is_locked_by_reader
    then require (not (is_set rw.writer_thread)) (
        if rw.n_locks - 1 == 0
        then leaves (record rw { n_locks = 0; is_locked_by_reader = false }) (wake_all rw)
        else leaves (record rw { n_locks = rw.n_locks - 1 }) quiet)
    else aborts)

-- `true`: every assertion of `rw_lock_destroy` holds.
pub rw_lock_destroy : RwLock → Bool
rw_lock_destroy rw =
    rw.n_locks == 0
    && rw.n_reader_waiting == 0
    && rw.n_writer_waiting == 0
    && unlocked rw
    && not (is_set rw.writer_thread)

pub data Call : Type 0 where
  rd_lock wr_lock unlock : Call

pub enter : RwLock → ℕ → Call → Outcome Cv Point RwLock
enter rw t rd_lock = rw_lock_rd_lock rw
enter rw t wr_lock = rw_lock_wr_lock rw t
enter rw t unlock = rw_lock_unlock rw t

-- A blocked thread goes on with its counter's decrement and the loop's test.
pub resume : RwLock → ℕ → Point → Outcome Cv Point RwLock
unfolding rd_loop wr_loop
resume rw t reading = rd_loop (record rw { n_reader_waiting = decr16 rw.n_reader_waiting })
resume rw t writing = wr_loop (record rw { n_writer_waiting = decr16 rw.n_writer_waiting }) t

-- The read and write locks of a thread.
pub record Held : Type 0 where
  pub reads : ℕ
  pub writes : ℕ

-- A client nests its locks at most `depth` deep, and unlocks what it has locked.
abbrev pub may : ℕ → Call → Held → Bool
may depth rd_lock h = ltb h.reads depth
may depth wr_lock h = ltb h.writes depth
may depth unlock h = ltb 0 (h.reads + h.writes)

abbrev pub credit : Call → Held → Held
credit rd_lock h = record h { reads = h.reads + 1 }
credit wr_lock h = record h { writes = h.writes + 1 }
credit unlock h =
    if h.writes == 0 then record h { reads = h.reads - 1 } else record h { writes = h.writes - 1 }

abbrev pub granted : Point → Held → Held
granted reading h = record h { reads = h.reads + 1 }
granted writing h = record h { writes = h.writes + 1 }

abbrev pub api : ℕ → Api Cv Point RwLock Call Held
api depth = record {
  enter = enter;
  resume = resume;
  may = may depth;
  credit = credit;
  granted = granted;
}
