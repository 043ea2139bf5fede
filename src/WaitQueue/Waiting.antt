-- ===== src/WaitQueue/Waiting.antt =====
-- `wait_queue_test_and_wait` for any condition of an application, with the calls that go with it.
use multithreading_bible.Common.{ℕ, Bool, true, if◌then◌else◌}
use multithreading_bible.Sync.{quiet, Outcome, leaves, sleeps, keeps_mutex, Api}
use multithreading_bible.WaitQueue.{
  Glthread, WaitQueue, caught, wait_block, wait_unblock, wait_cv, wait_queue_signal,
  wait_queue_broadcast,
}

-- The queue, and the application's data that its mutex guards.
pub record Shared (A : Type 0) : Type 0 where
  pub wq : WaitQueue
  pub appln : A

pub data Cv : Type 0 where
  queue_cv : Cv
  thread_cv : ℕ → Cv

pub data Point : Type 0 where
  waiting : Point

-- A thread waits, changes the data under the mutex, or signals by one of the two calls.
pub data Call (A : Type 0) : Type 0 where
  test_and_wait : Call A
  change : (A → A) → Call A
  signal_one : Bool → Call A
  signal_all : Bool → Call A

module _ {A : Type 0} (gl : Glthread) (wait_queue_block_fn_cb : A → Bool) where
  -- After the loop.
  unfoldable pub unblocked : Shared A → Outcome Cv Point (Shared A)
  unblocked m = if m.wq.auto_unlock_appln_mutex then leaves m quiet else keeps_mutex m

  -- A round of the loop, from the test of the condition to the wait, or the end.
  unfoldable pub wait_round : Shared A → ℕ → Outcome Cv Point (Shared A)
  wait_round m t =
      if wait_queue_block_fn_cb m.appln
      then sleeps (wait_cv queue_cv thread_cv m.wq t) waiting
          (record m { wq = wait_block gl m.wq t })
      else unblocked m

  unfoldable pub wait_queue_test_and_wait : Shared A → ℕ → Outcome Cv Point (Shared A)
  wait_queue_test_and_wait m t = wait_round (record m { wq = caught m.wq }) t

  unfoldable pub enter : Shared A → ℕ → Call A → Outcome Cv Point (Shared A)
  enter m t test_and_wait = wait_queue_test_and_wait m t
  enter m t (change f) = leaves (record m { appln = f m.appln }) quiet
  enter m t (signal_one lock_mutex) =
      leaves m (wait_queue_signal queue_cv thread_cv m.wq lock_mutex)
  enter m t (signal_all lock_mutex) =
      leaves m (wait_queue_broadcast queue_cv thread_cv m.wq lock_mutex)

  unfoldable pub resume : Shared A → ℕ → Point → Outcome Cv Point (Shared A)
  resume m t waiting = wait_round (record m { wq = wait_unblock gl m.wq t }) t

  abbrev pub api : Api Cv Point (Shared A) (Call A) ℕ
  api = record {
    enter = enter;
    resume = resume;
    may = λ _ _. true;
    credit = λ _ h. h;
    granted = λ _ h. h;
  }
