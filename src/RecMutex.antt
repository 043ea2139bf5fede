-- ===== src/RecMutex.antt =====
-- recursive_mutex/rec_mutex.c: a recursive mutex over a `pthread` mutex and condition variable.
pub mod Exclusion
pub mod Wakeups
pub mod Overflow
pub mod Tests
use multithreading_bible.Common.{
  ℕ, ◌+◌, ◌-◌, ◌%◌, ◌^◌, Bool, true, false, not, ◌&&◌, Option, none, some, ltb, ◌==◌, if◌then◌else◌,
  is_self, is_set,
}
use multithreading_bible.Sync.{
  Wake, quiet, signal, Outcome, leaves, sleeps, aborts, keeps_mutex, Api,
}

-- `rec_mutex_t`; `locking_thread` is `none` for 0, and `n` and `n_waited` are `uint16_t`.
pub record RecMutex : Type 0 where
  pub n : ℕ
  pub locking_thread : Option ℕ
  pub n_waited : ℕ

pub data Cv : Type 0 where
  cv : Cv

-- Where a blocked thread goes on: after the `pthread_cond_wait` of `rec_mutex_lock`.
pub data Point : Type 0 where
  relock : Point

pub rec_mutex_init : RecMutex
rec_mutex_init = record { n = 0; locking_thread = none; n_waited = 0 }

-- From the end of the `while` loop of `rec_mutex_lock`.
acquire : RecMutex → ℕ → Outcome Cv Point RecMutex
acquire m t =
    if m.n == 0 && not (is_set m.locking_thread)
    then leaves (record m { n = 1; locking_thread = some t }) quiet
    else aborts

-- The `while` loop's test, and one wait.
wait_turn : RecMutex → ℕ → Outcome Cv Point RecMutex
unfolding acquire
wait_turn m t =
    if is_set m.locking_thread && not (is_self m.locking_thread t)
    then sleeps cv relock (record m { n_waited = (m.n_waited + 1) % 2 ^ 16 })
    else acquire m t

pub rec_mutex_lock : RecMutex → ℕ → Outcome Cv Point RecMutex
unfolding wait_turn
rec_mutex_lock m t =
    if m.n == 0
    then if is_set m.locking_thread
      then aborts
      else leaves (record m { n = 1; locking_thread = some t }) quiet
    else if is_self m.locking_thread t
    then leaves (record m { n = (m.n + 1) % 2 ^ 16 }) quiet
    else wait_turn m t

-- The rest of `rec_mutex_lock` once `pthread_cond_wait` has returned.
pub rec_mutex_relock : RecMutex → ℕ → Outcome Cv Point RecMutex
unfolding wait_turn
rec_mutex_relock m t = wait_turn (record m { n_waited = (m.n_waited + 65535) % 2 ^ 16 }) t

pub rec_mutex_unlock : RecMutex → ℕ → Outcome Cv Point RecMutex
rec_mutex_unlock m t =
    if m.n == 0
    then aborts
    else if is_self m.locking_thread t
    then if ltb 0 (m.n - 1)
      then leaves (record m { n = m.n - 1 }) quiet
      else leaves (record m { n = 0; locking_thread = none })
          (if m.n_waited == 0 then quiet else signal cv)
    else if is_set m.locking_thread
    then aborts
    else keeps_mutex m

-- `true`: every assertion of `rec_mutex_destroy` holds.
pub rec_mutex_destroy : RecMutex → Bool
rec_mutex_destroy m = m.n == 0 && not (is_set m.locking_thread) && m.n_waited == 0

pub data Call : Type 0 where
  lock unlock : Call

pub enter : RecMutex → ℕ → Call → Outcome Cv Point RecMutex
enter m t lock = rec_mutex_lock m t
enter m t unlock = rec_mutex_unlock m t

pub resume : RecMutex → ℕ → Point → Outcome Cv Point RecMutex
resume m t relock = rec_mutex_relock m t

-- A client nests its locks at most `depth` deep, and unlocks what it has locked.
abbrev pub may : ℕ → Call → ℕ → Bool
may depth lock h = ltb h depth
may depth unlock h = ltb 0 h

abbrev pub credit : Call → ℕ → ℕ
credit lock h = h + 1
credit unlock h = h - 1

abbrev pub api : ℕ → Api Cv Point RecMutex Call ℕ
api depth = record {
  enter = enter;
  resume = resume;
  may = may depth;
  credit = credit;
  granted = λ _ h. h + 1;
}
