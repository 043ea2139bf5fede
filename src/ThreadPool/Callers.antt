-- ===== src/ThreadPool/Callers.antt =====
-- Callers that wait for their job to be done: one is served, and of two one may be forgotten.
use multithreading_bible.Common.{
  ℕ, zero, suc, ◌+◌, ◌≡◌, ◌≢◌, ◌≤◌, Bool, none, some, List, [], ◌∷◌, ◌++◌, ◌==◌, if◌then◌else◌,
  arith, refl, sym, ap, subst, ◌∙◌,
}
use multithreading_bible.Sync.Change.{put_self, put_ne}
use multithreading_bible.ThreadPool.{
  resting, working, finished, Thread, outside, waiting, notified, Pool, start, count, Step, takes,
  fires, wakes, clears, works, parks, Reach, here, next, stage1_take, stage1_clear, thread_stage2,
  thread_pool_thread_stage3_fn, run_job, posted,
}
use multithreading_bible.ThreadPool.Ownership.{
  places, busy, fire-fired, fired, ran, stage2-ran, take_none, take_some,
}
use multithreading_bible.ThreadPool.Ownership.Runs.{thread_places}
use multithreading_bible.ThreadPool.Semaphores.{
  Served, Served-fired, Served-woken, Served-cleared, Served-ran, Served-parked, semaphore-put,
}

module _ {J : Type 0} where
  Serves : Pool J → Type 0
  Serves x = Served x (x.callers 0)

  Serves-taken :
      (x : Pool J) (job : J) (b : Bool) (head : List ℕ)
      → x.pool_head ≡ head
      → x.callers 0 ≡ outside
      → Serves x
      → Serves (stage1_take x 0 job b)
  unfolding Serves Served
  Serves-taken x job b [] e out s = subst Serves (sym (take_none 1 x 0 job b e)) s
  Serves-taken x job b (t ∷ l) e out s =
      subst Serves (sym (take_some 1 x 0 job b t l e)) (subst (Served x) out s)

  module _ (priority_insert : List ℕ → ℕ → List ℕ) where
    Step-Serves :
        {x y : Pool J}
        → ((t : ℕ) → places 1 t x ≤ 1)
        → Step priority_insert 1 x y
        → Serves x
        → Serves y
    unfolding Serves thread_pool_thread_stage3_fn
    Step-Serves le (takes (suc c) job b lt out e) s = absurd (omega arith)
    Step-Serves {x = x} le (takes zero job b lt out e) s =
        subst Serves (sym e) (Serves-taken x job b x.pool_head refl out s)
    Step-Serves le (fires (suc c) t job b lt at e) s = absurd (omega arith)
    Step-Serves {x = x} {y = y} le (fires zero t job b lt at e) s =
        subst Serves {x = fired x 0 t job b} {y = y} (cc (e, fire-fired 1 x 0 t job b lt at (le t)))
          (Served-fired x t job b (subst (Served x) at s))
    Step-Serves le (wakes (suc c) t lt at pos e) s = absurd (omega arith)
    Step-Serves {x = x} le (wakes zero t lt at pos e) s =
        subst Serves (sym e) (Served-woken x t pos (subst (Served x) at s))
    Step-Serves le (clears (suc c) t lt at e) s = absurd (omega arith)
    Step-Serves {x = x} le (clears zero t lt at e) s =
        subst Serves (sym e) (Served-cleared x t (subst (Served x) at s))
    Step-Serves {x = x} {y = y} le (works t at e) s =
        let (job, arg, r) = stage2-ran x y t (x.threads t).arg refl e in
        subst Serves (sym r) (Served-ran x t job (x.callers 0) at s)
    Step-Serves {x = x} le (parks t at e) s =
        subst Serves (sym e) (Served-parked priority_insert x t (x.callers 0) at s)

    Reach-Serves :
        (head : List ℕ) {x : Pool J}
        → ((l : List ℕ) (u t : ℕ)
            → count t (priority_insert l u) ≡ (if u == t then 1 else 0) + count t l)
        → ((t : ℕ) → count t head ≤ 1)
        → Reach priority_insert 1 (start head) x
        → Serves x
    unfolding Serves Served
    Reach-Serves head inserts once here = λ u. refl
    Reach-Serves head inserts once (next reach step) =
        Step-Serves
          (λ t. omega (arith, thread_places priority_insert inserts 1 head once reach t, once t))
          step (Reach-Serves head inserts once reach)

-- With one caller and no spurious wakeup, a caller that waits for thread `t` is served: `t` has the
-- caller's semaphore, and either the semaphore is posted once and `t` is back at rest, or it is not
-- posted and `t` is still at work, on its way to post it. The pool starts with the threads of `head`,
-- each once; `priority_insert` links a thread once.
pub caller_served :
    {J : Type 0} (priority_insert : List ℕ → ℕ → List ℕ) (head : List ℕ) {x : Pool J} (t : ℕ)
    → ((l : List ℕ) (u t : ℕ)
        → count t (priority_insert l u) ≡ (if u == t then 1 else 0) + count t l)
    → ((t : ℕ) → count t head ≤ 1)
    → Reach priority_insert 1 (start head) x
    → x.callers 0 ≡ waiting t
    → ((x.threads t).semaphore ≡ some 0) × (x.sem0_1 0 + busy (x.threads t).phase ≡ 1)
unfolding Serves Served
caller_served priority_insert head {x = x} t inserts once reach at =
    let s = Reach-Serves priority_insert head inserts once reach in
    let (_, own, one) = subst (Served x) at s in (own, one)

-- The thread whose caller is in `sem_wait` loses the semaphore when another caller clears it; it
-- runs its job, goes back into the pool, and posts nothing: the caller waits on, and the thread has
-- no semaphore any more. The other caller's job ran on the same thread, and it had been notified.
pub caller_forgotten :
    {J : Type 0} (priority_insert : List ℕ → ℕ → List ℕ) (x : Pool J) (c d t : ℕ) (job : J)
    → d ≢ c
    → x.callers c ≡ notified t
    → x.callers d ≡ waiting t
    → (x.threads t).phase ≡ working
    → (x.threads t).arg ≡ some job
    → x.sem0_1 d ≡ 0
    → (y : Pool J) × (thread_stage2 (stage1_clear x c t) t ≡ some y)
      × (let z = thread_pool_thread_stage3_fn priority_insert y t in
          (z.executed ≡ x.executed ++ (job ∷ []))
          × (z.callers d ≡ waiting t)
          × (z.sem0_1 d ≡ 0)
          × ((z.threads t).semaphore ≡ none)
          × ((z.threads t).phase ≡ resting))
unfolding thread_stage2 thread_pool_thread_stage3_fn
caller_forgotten {J} priority_insert x c d t job ne at other at_work arg sem =
    (y, ran_cleared, (refl, put_ne x.callers c outside d ne ∙ other, unposted, lost, parked))
  where
    cleared : Thread J
    cleared = record (x.threads t) { semaphore = none }

    y : Pool J
    y = ran (stage1_clear x c t) t job

    ran_cleared : thread_stage2 (stage1_clear x c t) t ≡ some y
    ran_cleared =
        ap (run_job (stage1_clear x c t) t) (ap (λ z. z.arg) (put_self x.threads t cleared) ∙ arg)

    none_left : (y.threads t).semaphore ≡ none
    none_left =
        semaphore-put (stage1_clear x c t).threads t finished t
        ∙ ap (λ z. z.semaphore) (put_self x.threads t cleared)

    unposted : (thread_pool_thread_stage3_fn priority_insert y t).sem0_1 d ≡ 0
    unposted = ap (λ o. posted x.sem0_1 o d) none_left ∙ sem

    lost : ((thread_pool_thread_stage3_fn priority_insert y t).threads t).semaphore ≡ none
    lost = semaphore-put y.threads t resting t ∙ none_left

    parked : ((thread_pool_thread_stage3_fn priority_insert y t).threads t).phase ≡ resting
    parked = ap (λ z. z.phase) (put_self y.threads t (record (y.threads t) { phase = resting }))
