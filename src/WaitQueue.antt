-- ===== src/WaitQueue.antt =====
-- ThreadSyncAdv/threadlib/threadlib.c, wait queues: threads that wait for an application's condition,
-- on one condition variable or, by priority, each on its own. The calls of
-- gluethread/glthread.c are an argument, `Glthread`; a list is its threads from the head on.
pub mod Waiting
pub mod Counted
pub mod Tests
use mathlib.Core.List.{map}
use multithreading_bible.Common.{
  ℕ, ◌+◌, ◌%◌, ◌^◌, Bool, true, false, not, ◌&&◌, Option, none, some, List, [], ◌∷◌, ◌==◌,
  if◌then◌else◌,
}
use multithreading_bible.Sync.{Wake, quiet, signal, broadcast, each}

-- `glthread_priority_insert` by the queue's comparison, and `remove_glthread`.
pub record Glthread : Type 0 where
  pub priority_insert : List ℕ → ℕ → List ℕ
  pub remove : List ℕ → ℕ → List ℕ

-- `wait_queue_t`; `appln_mutex` says whether the application's mutex is cached.
pub record WaitQueue : Type 0 where
  pub priority_flag : Bool
  pub thread_wait_count : ℕ
  pub appln_mutex : Bool
  pub priority_wait_queue : List ℕ
  pub auto_unlock_appln_mutex : Bool

unfoldable pub wait_queue_set_auto_unlock_appln_mutex : WaitQueue → Bool → WaitQueue
wait_queue_set_auto_unlock_appln_mutex wq state = record wq { auto_unlock_appln_mutex = state }

-- The queue that `wait_queue_init` sets up.
abbrev pub new_wait_queue : Bool → WaitQueue
new_wait_queue priority_flag = record {
  priority_flag = priority_flag;
  thread_wait_count = 0;
  appln_mutex = false;
  priority_wait_queue = [];
  auto_unlock_appln_mutex = true;
}

-- `none`: a priority queue without a comparison fails an `assert`.
pub wait_queue_init : Bool → Bool → Option WaitQueue
wait_queue_init priority_flag has_cmp_fn =
    if priority_flag && not has_cmp_fn then none else some (new_wait_queue priority_flag)

-- `wait_queue_test_and_wait` up to its loop: the application's mutex is cached.
abbrev pub caught : WaitQueue → WaitQueue
caught wq = record wq { appln_mutex = true }

module _ (gl : Glthread) where
  open gl use {priority_insert, remove}

  -- A round of the loop of `wait_queue_test_and_wait`, up to its `pthread_cond_wait`.
  unfoldable pub wait_block : WaitQueue → ℕ → WaitQueue
  wait_block wq t = record wq {
    thread_wait_count = (wq.thread_wait_count + 1) % 2 ^ 32;
    priority_wait_queue =
        if wq.priority_flag
        then priority_insert wq.priority_wait_queue t
        else wq.priority_wait_queue;
  }

  -- The rest of the round.
  unfoldable pub wait_unblock : WaitQueue → ℕ → WaitQueue
  wait_unblock wq t = record wq {
    thread_wait_count = (wq.thread_wait_count + 4294967295) % 2 ^ 32;
    priority_wait_queue =
        if wq.priority_flag then remove wq.priority_wait_queue t else wq.priority_wait_queue;
  }

module _ {C : Type 0} (queue_cv : C) (thread_cv : ℕ → C) where
  -- The condition variable on which a thread blocks.
  abbrev pub wait_cv : WaitQueue → ℕ → C
  wait_cv wq t = if wq.priority_flag then thread_cv t else queue_cv

  signal_first : List ℕ → Wake C
  signal_first [] = quiet
  signal_first (t ∷ l) = signal (thread_cv t)

  unfoldable pub wait_queue_signal : WaitQueue → Bool → Wake C
  unfolding signal_first
  wait_queue_signal wq lock_mutex =
      if lock_mutex && not wq.appln_mutex
      then quiet
      else if wq.thread_wait_count == 0
      then quiet
      else if wq.priority_flag
      then signal_first wq.priority_wait_queue
      else signal queue_cv

  unfoldable pub wait_queue_broadcast : WaitQueue → Bool → Wake C
  wait_queue_broadcast wq lock_mutex =
      if lock_mutex && not wq.appln_mutex
      then quiet
      else if wq.thread_wait_count == 0
      then quiet
      else if wq.priority_flag
      then each (map thread_cv wq.priority_wait_queue)
      else broadcast queue_cv
