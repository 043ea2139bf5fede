-- ===== src/BiasedLock.antt =====
-- customizable_rw_locks/rw_locks.c: a read-write lock with limits on its readers and writers, and a
-- bias that says who is woken first.
pub mod Sections
pub mod Limits
pub mod Wakeups
pub mod Biases
pub mod Tests
use multithreading_bible.Common.{
  ℕ, ◌+◌, ◌-◌, ◌%◌, ◌^◌, Bool, true, false, not, ◌&&◌, ◌||◌, Option, none, some, ltb, ◌==◌,
  if◌then◌else◌,
}
use multithreading_bible.Sync.{
  Wake, quiet, signal, broadcast, Outcome, leaves, sleeps, aborts, require, Api,
}
use multithreading_bible.RwLock.{Held, Call, rd_lock, wr_lock, unlock, credit}

-- `rw_lock_t`; the counters and limits are `uint16_t`.
pub record BiasedLock : Type 0 where
  pub n_locks : ℕ
  pub n_reader_waiting : ℕ
  pub n_writer_waiting : ℕ
  pub is_locked_by_reader : Bool
  pub is_locked_by_writer : Bool
  pub n_max_readers : ℕ
  pub n_max_writers : ℕ
  pub biasedness : ℕ
  pub who_used_cs : Bool

-- The `RW_LOCK_BIASEDNESS_` constants.
abbrev pub neutral : ℕ
neutral = 0

abbrev pub for_readers : ℕ
for_readers = 1

abbrev pub for_writers : ℕ
for_writers = 2

abbrev pub opposite : ℕ
opposite = 3

pub data Cv : Type 0 where
  cv cv_readers cv_writers : Cv

-- The `pthread_cond_wait` in which a thread is blocked; `writing_biased` is the one from which
-- `rw_lock_block_writer_thread` falls through to `assert(0)`.
pub data Point : Type 0 where
  reading writing writing_biased : Point

abbrev incr16 : ℕ → ℕ
incr16 a = (a + 1) % 2 ^ 16

abbrev decr16 : ℕ → ℕ
decr16 a = (a + 65535) % 2 ^ 16

-- `n_locks` is left as it is in memory.
pub rw_lock_init : BiasedLock → BiasedLock
rw_lock_init rw = record rw {
  n_reader_waiting = 0;
  n_writer_waiting = 0;
  is_locked_by_reader = false;
  is_locked_by_writer = false;
  n_max_readers = 65535;
  n_max_writers = 1;
  biasedness = neutral;
  who_used_cs = true;
}

pub rw_lock_set_max_readers_writers : BiasedLock → ℕ → ℕ → BiasedLock
rw_lock_set_max_readers_writers rw max_readers max_writers = record rw {
  n_max_readers = max_readers;
  n_max_writers = max_writers;
}

pub rw_lock_set_biasedness : BiasedLock → ℕ → BiasedLock
rw_lock_set_biasedness rw biasedness = record rw { biasedness = biasedness }

abbrev wait_reader : BiasedLock → Cv → Outcome Cv Point BiasedLock
wait_reader rw c = sleeps c reading (record rw { n_reader_waiting = incr16 rw.n_reader_waiting })

rw_lock_block_reader_thread : BiasedLock → Outcome Cv Point BiasedLock
rw_lock_block_reader_thread rw =
    if rw.biasedness == neutral
    then wait_reader rw cv
    else if rw.biasedness == for_readers
    then wait_reader rw cv_readers
    else aborts

abbrev wait_writer : BiasedLock → Cv → Point → Outcome Cv Point BiasedLock
wait_writer rw c k = sleeps c k (record rw { n_writer_waiting = incr16 rw.n_writer_waiting })

rw_lock_block_writer_thread : BiasedLock → Outcome Cv Point BiasedLock
rw_lock_block_writer_thread rw =
    if rw.biasedness == neutral
    then wait_writer rw cv writing
    else if rw.biasedness == for_readers
    then aborts
    else if rw.biasedness == for_writers
    then wait_writer rw cv_writers writing_biased
    else aborts

-- `broadcast`, or one signal, on the condition variables of the two branches.
abbrev pub call_on : Bool → Cv → Cv → Wake Cv
call_on all c one = if all then broadcast c else signal one

-- `none` for an `assert` that fails.
pub rw_lock_signal : BiasedLock → Bool → Bool → Option (Wake Cv)
rw_lock_signal rw all exit_thread_is_reader =
    if rw.n_reader_waiting == 0 && rw.n_writer_waiting == 0
    then some quiet
    else if rw.biasedness == neutral
    then some (broadcast cv)
    else if rw.biasedness == for_readers
    then some (
        if not (rw.n_reader_waiting == 0)
        then call_on all cv_readers cv_readers
        else call_on all cv_writers cv_readers)
    else if rw.biasedness == for_writers
    then some (
        if not (rw.n_writer_waiting == 0)
        then call_on all cv_writers cv_writers
        else call_on all cv_readers cv_readers)
    else if rw.biasedness == opposite
    then some (
        if exit_thread_is_reader
        then if not (rw.n_writer_waiting == 0)
          then call_on all cv_writers cv_writers
          else call_on all cv_readers cv_readers
        else if not (rw.n_reader_waiting == 0)
        then call_on all cv_readers cv_readers
        else call_on all cv_writers cv_readers)
    else none

-- One round of the loops, from `EVALUATE_ALL_CONDNS_AGAIN2` on.
pub rw_lock_rd_lock : BiasedLock → Outcome Cv Point BiasedLock
unfolding rw_lock_block_reader_thread
rw_lock_rd_lock rw =
    if rw.is_locked_by_writer || rw.n_locks == rw.n_max_readers
    then rw_lock_block_reader_thread rw
    else if rw.n_locks == 0
        && not (rw.n_writer_waiting == 0)
        && rw.biasedness == opposite
        && rw.who_used_cs
    then rw_lock_block_reader_thread rw
    else leaves
        (record rw {
          is_locked_by_reader = if rw.n_locks == 0 then true else rw.is_locked_by_reader;
          n_locks = incr16 rw.n_locks;
        })
        quiet

-- One round of the loops, from `EVALUATE_ALL_CONDNS_AGAIN1` on.
pub rw_lock_wr_lock : BiasedLock → Outcome Cv Point BiasedLock
unfolding rw_lock_block_writer_thread
rw_lock_wr_lock rw =
    if rw.is_locked_by_reader || rw.n_locks == rw.n_max_writers
    then rw_lock_block_writer_thread rw
    else if rw.n_locks == 0
        && not (rw.n_reader_waiting == 0)
        && rw.biasedness == opposite
        && not rw.who_used_cs
    then rw_lock_block_writer_thread rw
    else leaves
        (record rw {
          is_locked_by_writer = if rw.n_locks == 0 then true else rw.is_locked_by_writer;
          n_locks = incr16 rw.n_locks;
        })
        quiet

abbrev pub after_signal : BiasedLock → Option (Wake Cv) → Outcome Cv Point BiasedLock
after_signal rw none = aborts
after_signal rw (some w) = leaves rw w

-- A section that ends with `rw_lock_signal(rw_lock, true, exit_thread_is_reader)`.
pub signal_all : BiasedLock → Bool → Outcome Cv Point BiasedLock
unfolding rw_lock_signal
signal_all rw exit_thread_is_reader = after_signal rw (rw_lock_signal rw true exit_thread_is_reader)

-- `rw_lock_unlock` once `n_locks` is decremented, the lock being a writer's.
abbrev pub unlock_writer : BiasedLock → Outcome Cv Point BiasedLock
unlock_writer rw =
    if rw.n_locks == 0
    then signal_all (record rw { is_locked_by_writer = false; who_used_cs = false }) false
    else if not (rw.n_writer_waiting == 0)
    then if rw.biasedness == neutral then signal_all rw false else leaves rw (signal cv_writers)
    else leaves rw quiet

-- The same for a reader's lock.
abbrev pub unlock_reader : BiasedLock → Outcome Cv Point BiasedLock
unlock_reader rw =
    if rw.n_locks == 0
    then signal_all (record rw { is_locked_by_reader = false; who_used_cs = true }) true
    else if not (rw.n_reader_waiting == 0)
    then if rw.biasedness == neutral then signal_all rw true else leaves rw (signal cv_readers)
    else leaves rw quiet

pub rw_lock_unlock : BiasedLock → Outcome Cv Point BiasedLock
rw_lock_unlock rw = require (not (rw.n_locks == 0)) (
    let less = record rw { n_locks = rw.n_locks - 1 } in
    if rw.is_locked_by_writer
    then unlock_writer less
    else if rw.is_locked_by_reader
    then unlock_reader less
    else leaves less quiet)

-- `true`: every assertion of `rw_lock_destroy` holds.
pub rw_lock_destroy : BiasedLock → Bool
rw_lock_destroy rw =
    rw.n_locks == 0
    && rw.n_reader_waiting == 0
    && rw.n_writer_waiting == 0
    && not rw.is_locked_by_writer
    && not rw.is_locked_by_reader

pub enter : BiasedLock → ℕ → Call → Outcome Cv Point BiasedLock
enter rw t rd_lock = rw_lock_rd_lock rw
enter rw t wr_lock = rw_lock_wr_lock rw
enter rw t unlock = rw_lock_unlock rw

-- A blocked thread goes on with its counter's decrement, and then with the loop or an `assert(0)`.
pub resume : BiasedLock → ℕ → Point → Outcome Cv Point BiasedLock
resume rw t reading = rw_lock_rd_lock (record rw { n_reader_waiting = decr16 rw.n_reader_waiting })
resume rw t writing = rw_lock_wr_lock (record rw { n_writer_waiting = decr16 rw.n_writer_waiting })
resume rw t writing_biased = aborts

-- A client unlocks what it has locked.
abbrev pub may : Call → Held → Bool
may rd_lock h = true
may wr_lock h = true
may unlock h = ltb 0 (h.reads + h.writes)

abbrev pub granted : Point → Held → Held
granted reading h = record h { reads = h.reads + 1 }
granted writing h = record h { writes = h.writes + 1 }
granted writing_biased h = h

abbrev pub api : Api Cv Point BiasedLock Call Held
api = record { enter = enter; resume = resume; may = may; credit = credit; granted = granted }
