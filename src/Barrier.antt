-- ===== src/Barrier.antt =====
-- ThreadSyncAdv/threadlib/threadlib.c, thread barriers: the threads wait until `threshold` of them
-- have come, and leave one after the other.
pub mod Rounds
pub mod Tests
use multithreading_bible.Common.{
  ℕ, ◌+◌, ◌%◌, ◌^◌, Bool, true, false, not, ◌||◌, ◌==◌, if◌then◌else◌,
}
use multithreading_bible.Sync.{quiet, signal, broadcast, Outcome, leaves, sleeps, Api}

-- `th_barrier_t`; the counters are `uint32_t`.
pub record Barrier : Type 0 where
  pub threshold : ℕ
  pub curr_wait_count : ℕ
  pub is_ready_again : Bool

pub data Cv : Type 0 where
  cv busy_cv : Cv

-- The `pthread_cond_wait` in which a thread is blocked.
pub data Point : Type 0 where
  at_barrier at_busy : Point

pub thread_barrier_init : Barrier → ℕ → Barrier
thread_barrier_init m count = record m {
  threshold = count;
  curr_wait_count = 0;
  is_ready_again = true;
}

pub thread_barrier_signal_all : Barrier → Outcome Cv Point Barrier
thread_barrier_signal_all m =
    if not m.is_ready_again || m.curr_wait_count == 0 then leaves m quiet else leaves m (signal cv)

-- Up to a wait or a return, from the start or from a wakeup in the loop.
pub thread_barrier_barricade : Barrier → Outcome Cv Point Barrier
thread_barrier_barricade m =
    if not m.is_ready_again
    then sleeps busy_cv at_busy m
    else if (m.curr_wait_count + 1) % 2 ^ 32 == m.threshold
    then leaves (record m { is_ready_again = false }) (signal cv)
    else sleeps cv at_barrier (record m { curr_wait_count = (m.curr_wait_count + 1) % 2 ^ 32 })

-- The rest of it after the wait at the barrier, which is not in a loop.
pub thread_barrier_leave : Barrier → Outcome Cv Point Barrier
thread_barrier_leave m =
    if (m.curr_wait_count + 4294967295) % 2 ^ 32 == 0
    then leaves (record m { curr_wait_count = 0; is_ready_again = true }) (broadcast busy_cv)
    else leaves (record m { curr_wait_count = (m.curr_wait_count + 4294967295) % 2 ^ 32 })
        (signal cv)

pub data Call : Type 0 where
  barricade signal_all : Call

pub enter : Barrier → ℕ → Call → Outcome Cv Point Barrier
enter m t barricade = thread_barrier_barricade m
enter m t signal_all = thread_barrier_signal_all m

pub resume : Barrier → ℕ → Point → Outcome Cv Point Barrier
resume m t at_barrier = thread_barrier_leave m
resume m t at_busy = thread_barrier_barricade m

-- A thread counts the barriers that it has passed.
abbrev pub credit : Call → ℕ → ℕ
credit barricade h = h + 1
credit signal_all h = h

abbrev pub api : Api Cv Point Barrier Call ℕ
api = record {
  enter = enter;
  resume = resume;
  may = λ _ _. true;
  credit = credit;
  granted = λ _ h. h + 1;
}
