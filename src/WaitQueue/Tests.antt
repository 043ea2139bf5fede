-- ===== src/WaitQueue/Tests.antt =====
-- A thread waits until a number is positive, and another signals.
use multithreading_bible.Common.{ℕ, ◌≡◌, Bool, true, false, ◌==◌, [], ◌∷◌, refl, arith}
use multithreading_bible.Common.Sums.{put}
use multithreading_bible.Sync.{signal, idle, asleep, World, blocks, Reach, here, next}
use multithreading_bible.Sync.Change.{waits}
use multithreading_bible.WaitQueue.{
  Glthread, new_wait_queue, wait_queue_set_auto_unlock_appln_mutex, wait_block, wait_queue_signal,
}
use multithreading_bible.WaitQueue.Waiting.{
  Shared, Cv, queue_cv, thread_cv, Point, waiting, test_and_wait, wait_round,
  wait_queue_test_and_wait, enter, api,
}
use multithreading_bible.WaitQueue.Counted.{one_each, fresh, signals_arrive}

-- A list without priorities.
abbrev lists : Glthread
lists = record { priority_insert = λ l t. t ∷ l; remove = λ l t. [] }

abbrev is_none : ℕ → Bool
is_none a = a == 0

abbrev waited : World Cv Point (Shared ℕ) ℕ
waited = record {
  state = record {
    wq = record (new_wait_queue false) { thread_wait_count = 1; appln_mutex = true };
    appln = 0;
  };
  threads =
      put (λ _. record { pc = idle; held = 0 }) 1
        (record { pc = asleep queue_cv waiting; held = 0 });
}

run : Reach (api lists is_none) 2 (fresh false true 0) waited
unfolding enter wait_queue_test_and_wait wait_round wait_block
    wait_queue_set_auto_unlock_appln_mutex
run = next here (blocks 1 test_and_wait queue_cv waiting (omega arith) refl refl refl (λ j. refl))

signals_arrive_example :
    (wait_queue_signal queue_cv thread_cv waited.state.wq true ≡ signal queue_cv)
    × (waited.state.wq.thread_wait_count ≡ waits 2 one_each waited)
signals_arrive_example =
    signals_arrive lists is_none true true 0 1 queue_cv (omega arith) (omega arith) run refl
