-- ===== src/ThreadPool/Semaphores.antt =====
-- Callers that wait for the end of their job, by the semaphore that its thread posts in stage 3.
use multithreading_bible.Common.{
  ℕ, ◌+◌, ◌≡◌, ◌≢◌, ◌<◌, Bool, true, false, none, some, List, if◌then◌else◌, arith, refl, sym, ap,
  subst, ◌∙◌, ℕ_discrete,
}
use multithreading_bible.Common.Sums.{put}
use multithreading_bible.Sync.Change.{put_self, put_at, put_ne}
use multithreading_bible.ThreadPool.{
  Phase, resting, working, finished, Thread, Place, outside, holding, waiting, notified, Pool,
  stage1_wake, stage1_clear, thread_pool_thread_stage3_fn, posted,
}
use multithreading_bible.ThreadPool.Ownership.{busy, busy-change, fired, assigned, ran}

resting_of : (p : Phase) → busy p ≡ 0 → p ≡ resting
resting_of resting e = refl
resting_of working e = absurd (omega (arith, e))
resting_of finished e = absurd (omega (arith, e))

module _ {J : Type 0} where
  -- No thread but `t` has a semaphore.
  unfoldable pub Others : (ℕ → Thread J) → ℕ → Type 0
  Others f t = (u : ℕ) → u ≢ t → (f u).semaphore ≡ none

  -- What is so of the threads, by the place of the only caller.
  unfoldable pub Served : Pool J → Place J → Type 0
  Served x outside = (u : ℕ) → (x.threads u).semaphore ≡ none
  Served x (holding t job b) = (u : ℕ) → (x.threads u).semaphore ≡ none
  Served x (waiting t) =
      Others x.threads t
      × ((x.threads t).semaphore ≡ some 0)
      × (x.sem0_1 0 + busy (x.threads t).phase ≡ 1)
  Served x (notified t) = Others x.threads t × ((x.threads t).phase ≡ resting)

  Others-put : (f : ℕ → Thread J) (t : ℕ) (th : Thread J) → Others f t → Others (put f t th) t
  unfolding Others
  Others-put f t th others u ne = ap (λ z. z.semaphore) (put_ne f t th u ne) ∙ others u ne

  pub Served-fired :
      (x : Pool J) (t : ℕ) (job : J) (b : Bool)
      → Served x (holding t job b)
      → Served (fired x 0 t job b) (if b then waiting t else outside)
  unfolding Served Others
  Served-fired x t job true s = (
    Others-put x.threads t (assigned 0 job true) (λ u ne. s u),
    ap (λ z. z.semaphore) (put_self x.threads t (assigned 0 job true)),
    omega (arith, ap (λ z. busy z.phase) (put_self x.threads t (assigned 0 job true))),
  )
  Served-fired x t job false s = λ u. elim (ℕ_discrete u t) [
    | yes e ↦ ap (λ z. z.semaphore) (put_at x.threads t (assigned 0 job false) u e)
    | no ne ↦ ap (λ z. z.semaphore) (put_ne x.threads t (assigned 0 job false) u ne) ∙ s u
  ]

  pub Served-woken :
      (x : Pool J) (t : ℕ)
      → 0 < x.sem0_1 0
      → Served x (waiting t)
      → Served (stage1_wake x 0 t) (notified t)
  unfolding Served
  Served-woken x t pos (others, own, sum) =
      (others, resting_of (x.threads t).phase (omega (arith, sum, pos)))

  pub Served-cleared :
      (x : Pool J) (t : ℕ) → Served x (notified t) → Served (stage1_clear x 0 t) outside
  unfolding Served Others
  Served-cleared x t (others, rests) = λ u. elim (ℕ_discrete u t) [
    | yes e ↦
        ap (λ z. z.semaphore) (put_at x.threads t (record (x.threads t) { semaphore = none }) u e)
    | no ne ↦
        ap (λ z. z.semaphore) (put_ne x.threads t (record (x.threads t) { semaphore = none }) u ne)
        ∙ others u ne
  ]

  -- The semaphores of the threads are kept, the awaited thread goes on, and the resting ones rest.
  Served-kept :
      (x y : Pool J) (p : Place J)
      → ((u : ℕ) → (y.threads u).semaphore ≡ (x.threads u).semaphore)
      → ((t : ℕ)
          → p ≡ waiting t
          → y.sem0_1 0 + busy (y.threads t).phase ≡ x.sem0_1 0 + busy (x.threads t).phase)
      → ((t : ℕ) → (x.threads t).phase ≡ resting → (y.threads t).phase ≡ resting)
      → Served x p
      → Served y p
  unfolding Served Others
  Served-kept x y outside same sum rest s = λ u. same u ∙ s u
  Served-kept x y (holding t job b) same sum rest s = λ u. same u ∙ s u
  Served-kept x y (waiting t) same sum rest (others, own, one) =
      (λ u ne. same u ∙ others u ne, same t ∙ own, sum t refl ∙ one)
  Served-kept x y (notified t) same sum rest (others, rests) =
      (λ u ne. same u ∙ others u ne, rest t rests)

  -- What a thread that changes phase keeps.
  pub semaphore-put :
      (f : ℕ → Thread J) (t : ℕ) (q : Phase) (u : ℕ)
      → (put f t (record (f t) { phase = q }) u).semaphore ≡ (f u).semaphore
  semaphore-put f t q u = elim (ℕ_discrete u t) [
    | yes e ↦
        ap (λ z. z.semaphore) (put_at f t (record (f t) { phase = q }) u e)
        ∙ sym (ap (λ k. (f k).semaphore) e)
    | no ne ↦ ap (λ z. z.semaphore) (put_ne f t (record (f t) { phase = q }) u ne)
  ]

  pub Served-ran :
      (x : Pool J) (u : ℕ) (job : J) (p : Place J)
      → (x.threads u).phase ≡ working
      → Served x p
      → Served (ran x u job) p
  Served-ran x u job p at s =
      Served-kept x (ran x u job) p (semaphore-put x.threads u finished)
        (λ t e. ground (
          arith,
          busy-change x.threads u t (record (x.threads u) { phase = finished }),
          ap busy at,
        ))
        (λ t rests. elim (ℕ_discrete t u) [
          | yes e ↦
              absurd
                (omega (arith, ap busy at, ap busy rests, ap (λ k. busy (x.threads k).phase) e))
          | no ne ↦
              ap (λ z. z.phase)
                (put_ne x.threads u (record (x.threads u) { phase = finished }) t ne)
              ∙ rests
        ])
        s

  -- Stage 3 moves the thread's unit of work to its semaphore, if it is the awaited thread.
  parked_sum :
      (x : Pool J) (u t : ℕ)
      → (x.threads u).phase ≡ finished
      → Served x (waiting t)
      → posted x.sem0_1 (x.threads u).semaphore 0
          + busy (put x.threads u (record (x.threads u) { phase = resting }) t).phase
        ≡ x.sem0_1 0 + busy (x.threads t).phase
  unfolding Served Others
  parked_sum x u t at (others, own, one) = elim (ℕ_discrete t u) [
    | yes e ↦
        let mine : (x.threads u).semaphore ≡ some 0 =
          subst (λ k. (x.threads k).semaphore ≡ some 0) e own in
        omega (
          arith,
          ap (λ o. posted x.sem0_1 o 0) mine,
          ap (λ z. busy z.phase)
              (put_at x.threads u (record (x.threads u) { phase = resting }) t e),
          ap (λ k. busy (x.threads k).phase) e,
          ap busy at,
        )
    | no ne ↦ omega (
      arith,
      ap (λ o. posted x.sem0_1 o 0) (others u (λ e. ne (sym e))),
      ap (λ z. busy z.phase) (put_ne x.threads u (record (x.threads u) { phase = resting }) t ne),
    )
  ]

  pub Served-parked :
      (priority_insert : List ℕ → ℕ → List ℕ) (x : Pool J) (u : ℕ) (p : Place J)
      → (x.threads u).phase ≡ finished
      → Served x p
      → Served (thread_pool_thread_stage3_fn priority_insert x u) p
  unfolding thread_pool_thread_stage3_fn
  Served-parked priority_insert x u p at s =
      Served-kept x (thread_pool_thread_stage3_fn priority_insert x u) p
        (semaphore-put x.threads u resting) (λ t e. parked_sum x u t at (subst (Served x) e s))
        (λ t rests. elim (ℕ_discrete t u) [
          | yes e ↦
              ap (λ z. z.phase) (put_at x.threads u (record (x.threads u) { phase = resting }) t e)
          | no ne ↦
              ap (λ z. z.phase) (put_ne x.threads u (record (x.threads u) { phase = resting }) t ne)
              ∙ rests
        ])
        s
