-- ===== src/ThreadPool/Tests.antt =====
-- Runs of the thread pool.
use multithreading_bible.Common.{
  ℕ, ◌+◌, ◌≡◌, ◌≤◌, ◌<◌, true, Option, none, some, List, [], ◌∷◌, ◌++◌, ◌==◌, if◌then◌else◌, arith,
  refl,
}
use multithreading_bible.ThreadPool.{
  resting, working, waiting, Pool, start, count, takes, fires, works, parks, Reach, here, next,
  stage1_take, stage1_fire, stage1_wake, stage1_clear, thread_stage2, thread_pool_thread_stage3_fn,
  thread_pool_insert_new_thread, thread_pool_init, thread_pool_run_thread, thread_pool_get_thread,
}
use multithreading_bible.ThreadPool.Ownership.{busy}
use multithreading_bible.ThreadPool.Ownership.Runs.{dispatch_starts}
use multithreading_bible.ThreadPool.Jobs.{total, at_callers, at_threads, jobs_run_once}
use multithreading_bible.ThreadPool.Callers.{caller_served, caller_forgotten}

-- The comparison of the library's example: a thread goes to the front.
abbrev to_front : List ℕ → ℕ → List ℕ
to_front l t = t ∷ l

abbrev or_empty : Option (Pool ℕ) → Pool ℕ
or_empty none = thread_pool_init
or_empty (some p) = p

-- Two threads are put into a new pool.
inserted :
    thread_pool_insert_new_thread to_front
      (or_empty (thread_pool_insert_new_thread to_front (thread_pool_init {J = ℕ}) 1))
      0
    ≡ some (start (0 ∷ 1 ∷ []))
unfolding thread_pool_insert_new_thread
inserted = refl

-- A thread that is in the pool already fails an `assert`.
inserted_again : thread_pool_insert_new_thread to_front (start {J = ℕ} (1 ∷ [])) 1 ≡ none
unfolding thread_pool_insert_new_thread
inserted_again = refl

inserts : (l : List ℕ) (u t : ℕ) → count t (to_front l u) ≡ (if u == t then 1 else 0) + count t l
inserts l u t = refl

once : (t : ℕ) → count t (0 ∷ 1 ∷ []) ≤ 1
once t = ground arith

few : (t : ℕ) → 0 < count t (0 ∷ 1 ∷ []) → t < 2
few t pos = ground arith

-- The caller 0 dispatches job 7 and waits for it.
taken : Pool ℕ
unfolding stage1_take
taken = stage1_take (start (0 ∷ 1 ∷ [])) 0 7 true

dispatched : Pool ℕ
unfolding taken
dispatched = or_empty (stage1_fire taken 0 0 7 true)

executed : Pool ℕ
unfolding dispatched
executed = or_empty (thread_stage2 dispatched 0)

run_taken : Reach to_front 1 (start (0 ∷ 1 ∷ [])) taken
unfolding taken
run_taken = next here (takes 0 7 true (omega arith) refl refl)

run_dispatched : Reach to_front 1 (start (0 ∷ 1 ∷ [])) dispatched
unfolding dispatched taken stage1_take thread_pool_get_thread stage1_fire thread_pool_run_thread
run_dispatched = next run_taken (fires 0 0 7 true (omega arith) refl refl)

run_executed : Reach to_front 1 (start (0 ∷ 1 ∷ [])) executed
unfolding executed dispatched taken stage1_take thread_pool_get_thread stage1_fire
    thread_pool_run_thread thread_stage2
run_executed = next run_dispatched (works 0 refl refl)

-- The job is done and the thread is back in the pool, in front; the caller is notified.
parked : Pool ℕ
unfolding executed
parked = thread_pool_thread_stage3_fn to_front executed 0

run_parked : Reach to_front 1 (start (0 ∷ 1 ∷ [])) parked
unfolding parked executed dispatched taken stage1_take thread_pool_get_thread stage1_fire
    thread_pool_run_thread thread_stage2
run_parked = next run_executed (parks 0 refl refl)

dispatch_starts_example :
    ((taken.threads 0).phase ≡ resting)
    × (y : Pool ℕ) × (stage1_fire taken 0 0 7 true ≡ some y)
    × ((y.threads 0).phase ≡ working)
    × ((y.threads 0).arg ≡ some 7)
unfolding taken stage1_take thread_pool_get_thread
dispatch_starts_example =
    dispatch_starts to_front inserts 1 (0 ∷ 1 ∷ []) 0 0 7 true once run_taken (omega arith) refl

jobs_run_once_example :
    total (λ j. j) executed.accepted
    ≡ total (λ j. j) executed.executed
      + at_callers (λ j. j) 1 executed
      + at_threads (λ j. j) 2 executed
jobs_run_once_example =
    jobs_run_once (λ j. j) to_front 1 2 (0 ∷ 1 ∷ []) inserts once few run_executed

caller_served_example :
    ((parked.threads 0).semaphore ≡ some 0) × (parked.sem0_1 0 + busy (parked.threads 0).phase ≡ 1)
unfolding parked executed dispatched taken stage1_take thread_pool_get_thread stage1_fire
    thread_pool_run_thread thread_stage2 thread_pool_thread_stage3_fn
caller_served_example = caller_served to_front (0 ∷ 1 ∷ []) 0 inserts once run_parked refl

-- The caller 0 has been notified, and the caller 1 has dispatched job 9 to the same thread.
raced : Pool ℕ
unfolding parked
raced = or_empty (stage1_fire (stage1_take (stage1_wake parked 0 0) 1 9 true) 1 0 9 true)

caller_forgotten_example :
    (y : Pool ℕ) × (thread_stage2 (stage1_clear raced 0 0) 0 ≡ some y)
    × (let z = thread_pool_thread_stage3_fn to_front y 0 in
        (z.executed ≡ raced.executed ++ (9 ∷ []))
        × (z.callers 1 ≡ waiting 0)
        × (z.sem0_1 1 ≡ 0)
        × ((z.threads 0).semaphore ≡ none)
        × ((z.threads 0).phase ≡ resting))
unfolding raced parked executed dispatched taken stage1_take thread_pool_get_thread stage1_fire
    thread_pool_run_thread thread_stage2 thread_pool_thread_stage3_fn
caller_forgotten_example =
    caller_forgotten to_front raced 0 1 0 9 (omega arith) refl refl refl refl refl
