-- ===== src/ThreadPool/Ownership/Runs.antt =====
-- Where the threads of the pool are, in every run.

use multithreading_bible.Common.{
  ℕ, ◌+◌, ◌≡◌, ◌≤◌, ◌<◌, Bool, none, some, List, ◌==◌, if◌then◌else◌, arith, refl, ap, ◌∙◌,
}
use multithreading_bible.Sync.Change.{put_self}
use multithreading_bible.ThreadPool.{
  resting, working, finished, outside, holding, notified, Pool, start, count, Step, takes, fires,
  wakes, clears, works, parks, Reach, here, next, stage1_fire, stage1_wake, stage1_clear,
  thread_pool_thread_stage3_fn,
}
use multithreading_bible.ThreadPool.Ownership.{
  holds, busy, places, moved, stayed, busy-change, take_places, held_once, fired, assigned,
  fire-fired, places-fired, stage2-ran, places-ran, places-start,
}

module _ (priority_insert : List ℕ → ℕ → List ℕ)
    (inserts : (l : List ℕ) (u t : ℕ)
      → count t (priority_insert l u) ≡ (if u == t then 1 else 0) + count t l) where
  stage3_places :
      {J : Type 0} (n : ℕ) (x : Pool J) (u t : ℕ)
      → (x.threads u).phase ≡ finished
      → places n t (thread_pool_thread_stage3_fn priority_insert x u) ≡ places n t x
  unfolding thread_pool_thread_stage3_fn
  stage3_places n x u t at = stayed n x _ t refl (
      ground (
        arith,
        inserts x.pool_head u t,
        ap busy at,
        busy-change x.threads u t (record (x.threads u) { phase = resting }),
      ))

  Step-places :
      {J : Type 0} (n : ℕ) {x y : Pool J}
      → ((t : ℕ) → places n t x ≤ 1)
      → Step priority_insert n x y
      → (t : ℕ) → places n t y ≡ places n t x
  Step-places n {x = x} le (takes c job b lt out e) t =
      ap (places n t) e ∙ take_places n x c t job b x.pool_head refl lt out
  Step-places n {x = x} le (fires c u job b lt at e) t =
      ap (places n t) (cc (e, fire-fired n x c u job b lt at (le u)))
      ∙ places-fired n x c u t job b lt at (le u)
  Step-places n {x = x} le (wakes c u lt at pos e) t =
      ap (places n t) e
      ∙ moved n x (stage1_wake x c u) c t (notified u) lt (λ j. refl)
          (omega (arith, ap (holds t) at))
  Step-places n {x = x} le (clears c u lt at e) t =
      ap (places n t) e
      ∙ moved n x (stage1_clear x c u) c t outside lt (λ j. refl)
          (ground (
            arith,
            ap (holds t) at,
            busy-change x.threads u t (record (x.threads u) { semaphore = none }),
          ))
  Step-places n {x = x} {y = y} le (works u at e) t =
      let (job, a, r) = stage2-ran x y u (x.threads u).arg refl e in
      ap (places n t) r ∙ places-ran n x u t job at
  Step-places n {x = x} le (parks u at e) t = ap (places n t) e ∙ stage3_places n x u t at

  pub Reach-places :
      {J : Type 0} (n : ℕ) {x y : Pool J}
      → ((t : ℕ) → places n t x ≤ 1)
      → Reach priority_insert n x y
      → (t : ℕ) → places n t y ≡ places n t x
  Reach-places n le here t = refl
  Reach-places n {x} le (next {y} {z} reach step) t =
      let same = Reach-places n le reach in
      Step-places n (λ u. omega (arith, same u, le u)) step t ∙ same t

  -- However callers and threads take turns, without spurious wakeups: a thread of the pool is in
  -- one place, that is once in the pool's list, in the hands of one caller that has taken it, or at
  -- work; any other thread is in none. The pool starts with the threads of `head`, each once.
  pub thread_places :
      {J : Type 0} (n : ℕ) (head : List ℕ) {x : Pool J}
      → ((t : ℕ) → count t head ≤ 1)
      → Reach priority_insert n (start head) x
      → (t : ℕ) → places n t x ≡ count t head
  thread_places {J} n head once reach t =
      Reach-places n (λ u. omega (arith, once u, places-start J n u head)) reach t
      ∙ places-start J n t head

  -- A caller that has taken a thread gets it to work on the caller's job: the thread is waiting for
  -- its signal, or not created yet, and no `assert` fails; from then on it works on that job. This
  -- is without spurious wakeups, and the pool starts with the threads of `head`, each once.
  pub dispatch_starts :
      {J : Type 0} (n : ℕ) (head : List ℕ) {x : Pool J} (c t : ℕ) (job : J) (b : Bool)
      → ((u : ℕ) → count u head ≤ 1)
      → Reach priority_insert n (start head) x
      → c < n
      → x.callers c ≡ holding t job b
      → ((x.threads t).phase ≡ resting)
        × (y : Pool J) × (stage1_fire x c t job b ≡ some y)
        × ((y.threads t).phase ≡ working)
        × ((y.threads t).arg ≡ some job)
  dispatch_starts n head {x = x} c t job b once reach lt at =
      let le : places n t x ≤ 1 = omega (arith, once t, thread_places n head once reach t) in
      (
        (held_once n x c t job b lt at le).1,
        fired x c t job b,
        fire-fired n x c t job b lt at le,
        ap (λ th. th.phase) (put_self x.threads t (assigned c job b)),
        ap (λ th. th.arg) (put_self x.threads t (assigned c job b)),
      )
