-- ===== src/ThreadPool/Jobs.antt =====
-- Every job for which a thread was taken is run once. A job counts by a weight of the reader's choice.
use multithreading_bible.Common.{
  ℕ, ◌+◌, ◌≡◌, ◌≤◌, ◌<◌, Bool, Option, none, some, List, [], ◌∷◌, ◌++◌, ◌==◌, if◌then◌else◌, arith,
  refl, sym, ap, subst, ◌∙◌, ℕ_discrete,
}
use multithreading_bible.Common.Sums.{
  put, sum_below, sum_below-change, sum_below-congr, sum_below_zero,
}
use multithreading_bible.Sync.Change.{put_self, put_at, put_ne}
use multithreading_bible.ThreadPool.{
  Phase, resting, working, finished, Thread, Place, outside, holding, waiting, notified, Pool,
  start, count, Step, takes, fires, wakes, clears, works, parks, Reach, here, next, stage1_take,
  stage1_wake, stage1_clear, with_caller, thread_pool_thread_stage3_fn,
}
use multithreading_bible.ThreadPool.Ownership.{
  places, fire-fired, fired, assigned, held_once, held_pos, busy_pos, ran, stage2-ran, take_none,
  take_some,
}
use multithreading_bible.ThreadPool.Ownership.Runs.{thread_places}

module _ {J : Type 0} (v : J → ℕ) where
  -- The weight of some jobs; of the job that a caller has a thread for; of the job in hand.
  abbrev pub total : List J → ℕ
  total [] = 0
  total (job ∷ jobs) = v job + total jobs

  abbrev pub brought : Place J → ℕ
  brought outside = 0
  brought (holding t job b) = v job
  brought (waiting t) = 0
  brought (notified t) = 0

  abbrev pub assigned_weight : Option J → ℕ
  assigned_weight none = 0
  assigned_weight (some job) = v job

  abbrev pub owed : Phase → Option J → ℕ
  owed resting arg = 0
  owed working arg = assigned_weight arg
  owed finished arg = 0

  -- The jobs not run yet, of `n` callers and `m` threads.
  pub at_callers : ℕ → Pool J → ℕ
  at_callers n x = sum_below n (λ c. brought (x.callers c))

  pub at_threads : ℕ → Pool J → ℕ
  at_threads m x = sum_below m (λ t. owed (x.threads t).phase (x.threads t).arg)

  total-append : (xs ys : List J) → total (xs ++ ys) ≡ total xs + total ys
  total-append [] ys = omega arith
  total-append (x ∷ xs) ys = omega (arith, total-append xs ys)

  caller-change :
      (n : ℕ) (x y : Pool J) (c : ℕ) (place : Place J)
      → c < n
      → ((j : ℕ) → y.callers j ≡ put x.callers c place j)
      → at_callers n y + brought (x.callers c) ≡ at_callers n x + brought place
  unfolding at_callers
  caller-change n x y c place lt e = omega (
    arith,
    sum_below-change n c (λ j. brought (x.callers j)) (λ j. brought (y.callers j)) lt
        (λ j ne. ap brought (e j ∙ put_ne x.callers c place j ne)),
    ap brought (e c ∙ put_self x.callers c place),
  )

  thread-change :
      (m : ℕ) (x y : Pool J) (t : ℕ) (th : Thread J)
      → t < m
      → ((j : ℕ) → y.threads j ≡ put x.threads t th j)
      → at_threads m y + owed (x.threads t).phase (x.threads t).arg
        ≡ at_threads m x + owed th.phase th.arg
  unfolding at_threads
  thread-change m x y t th lt e = omega (
    arith,
    sum_below-change m t (λ j. owed (x.threads j).phase (x.threads j).arg)
        (λ j. owed (y.threads j).phase (y.threads j).arg) lt
        (λ j ne. ap (λ z. owed z.phase z.arg) (e j ∙ put_ne x.threads t th j ne)),
    ap (λ z. owed z.phase z.arg) (e t ∙ put_self x.threads t th),
  )

  -- A thread whose record changes, with no job in hand before or after, or the same one.
  threads-same :
      (m : ℕ) (x y : Pool J) (t : ℕ) (th : Thread J)
      → ((j : ℕ) → y.threads j ≡ put x.threads t th j)
      → owed th.phase th.arg ≡ owed (x.threads t).phase (x.threads t).arg
      → at_threads m y ≡ at_threads m x
  unfolding at_threads
  threads-same m x y t th e same = sum_below-congr m _ _ (λ j lt. elim (ℕ_discrete j t) [
    | yes i ↦
        ap (λ z. owed z.phase z.arg) (e j ∙ put_at x.threads t th j i)
        ∙ same
        ∙ sym (ap (λ k. owed (x.threads k).phase (x.threads k).arg) i)
    | no ne ↦ ap (λ z. owed z.phase z.arg) (e j ∙ put_ne x.threads t th j ne)
  ])

  -- The accepted jobs are those that ran and those not run yet.
  pub Balanced : ℕ → ℕ → Pool J → Type 0
  Balanced n m x = total x.accepted ≡ total x.executed + at_callers n x + at_threads m x

  Balanced-taken :
      (n m : ℕ) (x : Pool J) (c : ℕ) (job : J) (b : Bool) (head : List ℕ)
      → x.pool_head ≡ head
      → c < n
      → x.callers c ≡ outside
      → Balanced n m x
      → Balanced n m (stage1_take x c job b)
  unfolding Balanced at_threads
  Balanced-taken n m x c job b [] e lt out bal =
      subst (λ z. Balanced n m z) (sym (take_none n x c job b e)) bal
  Balanced-taken n m x c job b (t ∷ l) e lt out bal =
      subst (λ z. Balanced n m z) (sym (take_some n x c job b t l e))
        (omega (
          arith,
          bal,
          total-append x.accepted (job ∷ []),
          caller-change n x
              (with_caller (record x { pool_head = l; accepted = x.accepted ++ (job ∷ []) }) c
                (holding t job b))
              c (holding t job b) lt (λ j. refl),
          ap brought out,
        ))

  Balanced-fired :
      (n m : ℕ) (x : Pool J) (c t : ℕ) (job : J) (b : Bool)
      → c < n
      → t < m
      → x.callers c ≡ holding t job b
      → (x.threads t).phase ≡ resting
      → Balanced n m x
      → Balanced n m (fired x c t job b)
  unfolding Balanced
  Balanced-fired n m x c t job b lt few at idle bal = ground (
    arith,
    bal,
    caller-change n x (fired x c t job b) c (if b then waiting t else outside) lt (λ j. refl),
    thread-change m x (fired x c t job b) t (assigned c job b) few (λ j. refl),
    ap brought at,
    ap (λ p. owed p (x.threads t).arg) idle,
  )

  -- Neither a job nor a thread's hand in one changes.
  Balanced-kept :
      (n m : ℕ) (x y : Pool J)
      → y.accepted ≡ x.accepted
      → y.executed ≡ x.executed
      → at_callers n y ≡ at_callers n x
      → at_threads m y ≡ at_threads m x
      → Balanced n m x
      → Balanced n m y
  unfolding Balanced
  Balanced-kept n m x y a b c d bal = omega (arith, ap total a, ap total b)

  Balanced-ran :
      (n m : ℕ) (x : Pool J) (t : ℕ) (job : J)
      → t < m
      → (x.threads t).phase ≡ working
      → (x.threads t).arg ≡ some job
      → Balanced n m x
      → Balanced n m (ran x t job)
  unfolding Balanced at_callers
  Balanced-ran n m x t job few at arg bal = omega (
    arith,
    bal,
    total-append x.executed (job ∷ []),
    thread-change m x (ran x t job) t (record (x.threads t) { phase = finished }) few (λ j. refl),
    ap (λ p. owed p (x.threads t).arg) at,
    ap assigned_weight arg,
  )

  module _ (priority_insert : List ℕ → ℕ → List ℕ) (n m : ℕ) where
    Step-Balanced :
        {x y : Pool J}
        → ((t : ℕ) → places n t x ≤ 1)
        → ((t : ℕ) → 0 < places n t x → t < m)
        → Step priority_insert n x y
        → Balanced n m x
        → Balanced n m y
    unfolding thread_pool_thread_stage3_fn at_callers at_threads
    Step-Balanced {x = x} le few (takes c job b lt out e) bal =
        subst (λ z. Balanced n m z) (sym e)
          (Balanced-taken n m x c job b x.pool_head refl lt out bal)
    Step-Balanced {x = x} {y = y} le few (fires c t job b lt at e) bal =
        subst (λ z. Balanced n m z) {x = fired x c t job b} {y = y}
          (cc (e, fire-fired n x c t job b lt at (le t)))
          (Balanced-fired n m x c t job b lt (few t (held_pos n x c t job b lt at)) at
            (held_once n x c t job b lt at (le t)).1 bal)
    Step-Balanced {x = x} le few (wakes c t lt at pos e) bal =
        subst (λ z. Balanced n m z) (sym e)
          (Balanced-kept n m x (stage1_wake x c t) refl refl
            (omega (
              arith,
              caller-change n x (stage1_wake x c t) c (notified t) lt (λ j. refl),
              ap brought at,
            ))
            refl bal)
    Step-Balanced {x = x} le few (clears c t lt at e) bal =
        subst (λ z. Balanced n m z) (sym e)
          (Balanced-kept n m x (stage1_clear x c t) refl refl
            (omega (
              arith,
              caller-change n x (stage1_clear x c t) c outside lt (λ j. refl),
              ap brought at,
            ))
            (threads-same m x (stage1_clear x c t) t (record (x.threads t) { semaphore = none })
              (λ j. refl) refl)
            bal)
    Step-Balanced {x = x} {y = y} le few (works t at e) bal =
        let (job, arg, r) = stage2-ran x y t (x.threads t).arg refl e in
        subst (λ z. Balanced n m z) (sym r)
          (Balanced-ran n m x t job (few t (busy_pos n x t working at refl)) at arg bal)
    Step-Balanced {x = x} le few (parks t at e) bal =
        subst (λ z. Balanced n m z) (sym e)
          (Balanced-kept n m x (thread_pool_thread_stage3_fn priority_insert x t) refl refl refl
            (threads-same m x (thread_pool_thread_stage3_fn priority_insert x t) t
              (record (x.threads t) { phase = resting }) (λ j. refl)
              (sym (ap (λ p. owed p (x.threads t).arg) at)))
            bal)

    Reach-Balanced :
        (head : List ℕ) {x : Pool J}
        → ((l : List ℕ) (u t : ℕ)
            → count t (priority_insert l u) ≡ (if u == t then 1 else 0) + count t l)
        → ((t : ℕ) → count t head ≤ 1)
        → ((t : ℕ) → 0 < count t head → t < m)
        → Reach priority_insert n (start head) x
        → Balanced n m x
    unfolding Balanced at_callers at_threads
    Reach-Balanced head inserts once few here =
        omega (arith, sum_below_zero n _ (λ j lt. refl), sum_below_zero m _ (λ j lt. refl))
    Reach-Balanced head inserts once few (next {y} {z} reach step) =
        let at = thread_places priority_insert inserts n head once reach in
        Step-Balanced (λ t. omega (arith, at t, once t)) (λ t p. few t (omega (arith, at t))) step
          (Reach-Balanced head inserts once few reach)

-- However `n` callers and the threads of the pool take turns, without spurious wakeups, every job
-- for which a caller took a thread has run once, or is still in the hands of one caller or of one
-- thread that works on it, and no other job runs: by any weight of the jobs, the accepted ones
-- weigh what the executed, the brought and the assigned ones weigh. The pool starts with the threads
-- of `head`, each once and each below `m`; `priority_insert` links a thread once.
pub jobs_run_once :
    {J : Type 0} (v : J → ℕ) (priority_insert : List ℕ → ℕ → List ℕ) (n m : ℕ) (head : List ℕ)
    {x : Pool J}
    → ((l : List ℕ) (u t : ℕ)
        → count t (priority_insert l u) ≡ (if u == t then 1 else 0) + count t l)
    → ((t : ℕ) → count t head ≤ 1)
    → ((t : ℕ) → 0 < count t head → t < m)
    → Reach priority_insert n (start head) x
    → total v x.accepted ≡ total v x.executed + at_callers v n x + at_threads v m x
unfolding Balanced
jobs_run_once v priority_insert n m head inserts once few reach =
    Reach-Balanced v priority_insert n m head inserts once few reach
