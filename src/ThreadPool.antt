-- ===== src/ThreadPool.antt =====
-- ThreadSyncAdv/threadlib/threadlib.c, the thread pool: callers hand jobs to the threads of a pool,
-- each of which runs its job and goes back into the pool. The calls of gluethread/glthread.c are
-- an argument, `priority_insert` by the pool's comparison; a list is its threads from the head on.
-- `none` is a failed `assert` or a use of a NULL pointer.
pub mod Ownership
pub mod Jobs
pub mod Semaphores
pub mod Callers
pub mod Tests
use multithreading_bible.Common.{
  ℕ, ◌+◌, ◌-◌, ◌≡◌, ◌<◌, Bool, true, false, not, ◌&&◌, Option, none, some, List, [], ◌∷◌, ◌++◌,
  ◌==◌, if◌then◌else◌,
}
use multithreading_bible.Common.Sums.{put}

-- Where a thread's execution unit is: blocked in `pthread_cond_wait` or not created yet, in stage 2,
-- or between stage 2 and the mutex of stage 3.
pub data Phase : Type 0 where
  resting : Phase
  working : Phase
  finished : Phase

-- `thread_t`, as far as the pool uses it. `arg` is the `thread_execution_data_t` of the thread, its
-- stage 2 function and argument being one job of `J`; `semaphore` names the caller that made it.
pub record Thread (J : Type 0) : Type 0 where
  pub thread_created : Bool
  pub thread_fn : Bool
  pub arg : Option J
  pub semaphore : Option ℕ
  pub phase : Phase

-- Where a caller is in `thread_pool_thread_stage1_fn`: outside; past `thread_pool_get_thread`; in
-- `sem_wait`; or past it.
pub data Place (J : Type 0) : Type 0 where
  outside : Place J
  holding : ℕ → J → Bool → Place J
  waiting : ℕ → Place J
  notified : ℕ → Place J

-- The pool, its threads and its callers. `sem0_1` is the semaphore of each caller's current call.
-- `accepted` are the jobs for which a thread was taken, `executed` those that ran.
pub record Pool (J : Type 0) : Type 0 where
  pub pool_head : List ℕ
  pub threads : ℕ → Thread J
  pub callers : ℕ → Place J
  pub sem0_1 : ℕ → ℕ
  pub accepted : List J
  pub executed : List J

-- How often a thread is in the list.
abbrev pub count : ℕ → List ℕ → ℕ
count t [] = 0
count t (u ∷ l) = (if u == t then 1 else 0) + count t l

-- `pthread_cond_signal` on the thread's own condition variable.
abbrev pub woken : Phase → Phase
woken resting = working
woken working = working
woken finished = finished

-- `if (thread->semaphore) sem_post(thread->semaphore)`.
abbrev pub posted : (ℕ → ℕ) → Option ℕ → ℕ → ℕ
posted sem none = sem
posted sem (some c) = put sem c (sem c + 1)

module _ {J : Type 0} where
  abbrev pub create_thread : Thread J
  create_thread = record {
    thread_created = false;
    thread_fn = false;
    arg = none;
    semaphore = none;
    phase = resting;
  }

  abbrev pub thread_pool_init : Pool J
  thread_pool_init = record {
    pool_head = [];
    threads = λ _. create_thread;
    callers = λ _. outside;
    sem0_1 = λ _. 0;
    accepted = [];
    executed = [];
  }

  -- A pool of the threads of `head`, none of them created yet.
  abbrev pub start : List ℕ → Pool J
  start head = record thread_pool_init { pool_head = head }

  abbrev pub with_thread : Pool J → ℕ → Thread J → Pool J
  with_thread p t th = record p { threads = put p.threads t th }

  abbrev pub with_caller : Pool J → ℕ → Place J → Pool J
  with_caller p c place = record p { callers = put p.callers c place }

  -- `assert (IS_GLTHREAD_LIST_EMPTY(&thread->wait_glue))`.
  abbrev pub is_glue_empty : Pool J → ℕ → Bool
  is_glue_empty p t = count t p.pool_head == 0

  unfoldable pub thread_pool_get_thread : Pool J → Option ℕ × Pool J
  thread_pool_get_thread p = elim p.pool_head [
    | [] ↦ (none, p)
    | t ∷ rest ↦ (some t, record p { pool_head = rest })
  ]

  -- A thread that is not created yet starts in stage 2.
  unfoldable pub thread_pool_run_thread : Pool J → ℕ → Option (Pool J)
  thread_pool_run_thread p t =
      let thread = p.threads t in
      if not (is_glue_empty p t)
      then none
      else if not thread.thread_created
      then some (with_thread p t (record thread { thread_created = true; phase = working }))
      else some (with_thread p t (record thread { phase = woken thread.phase }))

  -- `thread_pool_thread_stage1_fn` up to `thread_pool_get_thread`: without a thread it returns.
  unfoldable pub stage1_take : Pool J → ℕ → J → Bool → Pool J
  stage1_take p c job block_caller =
      let (thread, q) = thread_pool_get_thread p in
      elim thread [
        | none ↦ q
        | some t ↦
            with_caller (record q { accepted = q.accepted ++ (job ∷ []) }) c
              (holding t job block_caller)
      ]

  -- The rest of it, up to `sem_wait` or the return.
  unfoldable pub stage1_fire : Pool J → ℕ → ℕ → J → Bool → Option (Pool J)
  stage1_fire p c t job block_caller =
      thread_pool_run_thread
        (record (with_caller p c (if block_caller then waiting t else outside)) {
          threads = put p.threads t (record (p.threads t) {
            thread_fn = true;
            arg = some job;
            semaphore = if block_caller then some c else none;
          });
          sem0_1 = if block_caller then put p.sem0_1 c 0 else p.sem0_1;
        })
        t

  -- `sem_wait`, once the semaphore is positive.
  abbrev pub stage1_wake : Pool J → ℕ → ℕ → Pool J
  stage1_wake p c t = record (with_caller p c (notified t)) {
    sem0_1 = put p.sem0_1 c (p.sem0_1 c - 1);
  }

  -- `thread->semaphore = NULL`, and the return.
  abbrev pub stage1_clear : Pool J → ℕ → ℕ → Pool J
  stage1_clear p c t =
      with_thread (with_caller p c outside) t (record (p.threads t) { semaphore = none })

  -- Stage 2: the thread's job.
  abbrev pub run_job : Pool J → ℕ → Option J → Option (Pool J)
  run_job p t none = none
  run_job p t (some job) =
      some (record (with_thread p t (record (p.threads t) { phase = finished })) {
        executed = p.executed ++ (job ∷ []);
      })

  unfoldable pub thread_stage2 : Pool J → ℕ → Option (Pool J)
  thread_stage2 p t = run_job p t (p.threads t).arg

  module _ (priority_insert : List ℕ → ℕ → List ℕ) where
    pub thread_pool_insert_new_thread : Pool J → ℕ → Option (Pool J)
    thread_pool_insert_new_thread p t =
        if is_glue_empty p t && not (p.threads t).thread_fn
        then some (record p { pool_head = priority_insert p.pool_head t })
        else none

    -- Stage 3, up to `pthread_cond_wait`.
    unfoldable pub thread_pool_thread_stage3_fn : Pool J → ℕ → Pool J
    thread_pool_thread_stage3_fn p t =
        record (with_thread p t (record (p.threads t) { phase = resting })) {
          pool_head = priority_insert p.pool_head t;
          sem0_1 = posted p.sem0_1 (p.threads t).semaphore;
        }

    -- Steps of `n` callers and the pool's threads; no thread wakes without a signal.
    pub data Step (n : ℕ) (x y : Pool J) : Type 0 where
      takes :
          (c : ℕ) (job : J) (block_caller : Bool)
          → c < n
          → x.callers c ≡ outside
          → y ≡ stage1_take x c job block_caller
          → Step n x y
      fires :
          (c t : ℕ) (job : J) (block_caller : Bool)
          → c < n
          → x.callers c ≡ holding t job block_caller
          → stage1_fire x c t job block_caller ≡ some y
          → Step n x y
      wakes :
          (c t : ℕ)
          → c < n
          → x.callers c ≡ waiting t
          → 0 < x.sem0_1 c
          → y ≡ stage1_wake x c t
          → Step n x y
      clears : (c t : ℕ) → c < n → x.callers c ≡ notified t → y ≡ stage1_clear x c t → Step n x y
      works : (t : ℕ) → (x.threads t).phase ≡ working → thread_stage2 x t ≡ some y → Step n x y
      parks :
          (t : ℕ)
          → (x.threads t).phase ≡ finished
          → y ≡ thread_pool_thread_stage3_fn x t
          → Step n x y

    pub data Reach (n : ℕ) (x : Pool J) : Pool J → Type 0 where
      here : Reach n x x
      next : {y z : Pool J} → Reach n x y → Step n y z → Reach n x z
