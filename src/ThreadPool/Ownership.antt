-- ===== src/ThreadPool/Ownership.antt =====
-- A thread of the pool is in its list, in a caller's hands or at work, and only one of these.
pub mod Runs
use mathlib.Core.Path.{fun_ext}
use multithreading_bible.Common.{
  ℕ, zero, suc, ◌+◌, ◌-◌, ◌≡◌, ◌≢◌, ◌≤◌, ◌<◌, Bool, true, false, Option, none, some, List, [], ◌∷◌,
  ◌++◌, ◌==◌, if◌then◌else◌, arith, refl, sym, ap, subst, ◌∙◌, ℕ_discrete, inl, inr, Bool-cases,
}
use multithreading_bible.Common.Sums.{
  put, sum_below, sum_below-change, le-sum_below, sum_below_zero,
}
use multithreading_bible.Sync.Change.{put_self, put_ne}
use multithreading_bible.ThreadPool.{
  Phase, resting, working, finished, Thread, Place, outside, holding, waiting, notified, Pool,
  start, count, Step, takes, fires, wakes, clears, works, parks, Reach, here, next,
  thread_pool_get_thread, thread_pool_run_thread, stage1_take, stage1_fire, stage1_wake,
  stage1_clear, run_job, thread_stage2, thread_pool_thread_stage3_fn, with_thread, with_caller,
}

abbrev pub holds : {J : Type 0} → ℕ → Place J → ℕ
holds t outside = 0
holds t (holding u job b) = if u == t then 1 else 0
holds t (waiting u) = 0
holds t (notified u) = 0

abbrev pub busy : Phase → ℕ
busy resting = 0
busy working = 1
busy finished = 1

-- In how many places the thread is.
pub held : {J : Type 0} → ℕ → ℕ → Pool J → ℕ
held n t x = sum_below n (λ c. holds t (x.callers c))

pub places : {J : Type 0} → ℕ → ℕ → Pool J → ℕ
places n t x = count t x.pool_head + held n t x + busy (x.threads t).phase

-- One caller changes place.
held-change :
    {J : Type 0} (n : ℕ) (x y : Pool J) (c t : ℕ) (place : Place J)
    → c < n
    → ((j : ℕ) → y.callers j ≡ put x.callers c place j)
    → held n t y + holds t (x.callers c) ≡ held n t x + holds t place
unfolding held
held-change n x y c t place lt e = omega (
  arith,
  sum_below-change n c (λ j. holds t (x.callers j)) (λ j. holds t (y.callers j)) lt
      (λ j ne. ap (holds t) (e j ∙ put_ne x.callers c place j ne)),
  ap (holds t) (e c ∙ put_self x.callers c place),
)

-- A thread's places, by how the step moved it.
pub moved :
    {J : Type 0} (n : ℕ) (x y : Pool J) (c t : ℕ) (place : Place J)
    → c < n
    → ((j : ℕ) → y.callers j ≡ put x.callers c place j)
    → count t y.pool_head + holds t place + busy (y.threads t).phase
      ≡ count t x.pool_head + holds t (x.callers c) + busy (x.threads t).phase
    → places n t y ≡ places n t x
unfolding places
moved n x y c t place lt e parts = omega (arith, held-change n x y c t place lt e)

pub stayed :
    {J : Type 0} (n : ℕ) (x y : Pool J) (t : ℕ)
    → y.callers ≡ x.callers
    → count t y.pool_head + busy (y.threads t).phase
      ≡ count t x.pool_head + busy (x.threads t).phase
    → places n t y ≡ places n t x
unfolding places held
stayed n x y t e parts = omega (arith, ap (λ f. sum_below n (λ c. holds t (f c))) e)

module _ {J : Type 0} (n : ℕ) (x : Pool J) where
  pub take_none : (c : ℕ) (job : J) (b : Bool) → x.pool_head ≡ [] → stage1_take x c job b ≡ x
  unfolding stage1_take thread_pool_get_thread
  take_none c job b e = rw e refl

  pub take_some :
      (c : ℕ) (job : J) (b : Bool) (t : ℕ) (l : List ℕ)
      → x.pool_head ≡ t ∷ l
      → stage1_take x c job b
        ≡ with_caller
            (record x { pool_head = l; accepted = x.accepted ++ (job ∷ []) })
            c
            (holding t job b)
  unfolding stage1_take thread_pool_get_thread
  take_some c job b t l e = rw e refl

  pub take_places :
      (c t : ℕ) (job : J) (b : Bool) (head : List ℕ)
      → x.pool_head ≡ head
      → c < n
      → x.callers c ≡ outside
      → places n t (stage1_take x c job b) ≡ places n t x
  take_places c t job b [] e lt out = ap (places n t) (take_none c job b e)
  take_places c t job b (u ∷ l) e lt out =
      ap (places n t) (take_some c job b u l e)
      ∙ moved n x _ c t (holding u job b) lt (λ j. refl)
          (omega (arith, ap (count t) e, ap (holds t) out))

  pub held_once :
      (c t : ℕ) (job : J) (b : Bool)
      → c < n
      → x.callers c ≡ holding t job b
      → places n t x ≤ 1
      → (count t x.pool_head ≡ 0) × ((x.threads t).phase ≡ resting)
  unfolding places held
  held_once c t job b lt at le = (omega (arith, one, own), idle (x.threads t).phase refl)
    where
      one : holds t (x.callers c) ≡ 1
      one = ap (holds t) at ∙ ground arith

      own : holds t (x.callers c) ≤ sum_below n (λ c. holds t (x.callers c))
      own = le-sum_below n c (λ c. holds t (x.callers c)) lt

      idle : (p : Phase) → (x.threads t).phase ≡ p → (x.threads t).phase ≡ resting
      idle resting e = e
      idle working e = absurd (omega (arith, one, own, ap busy e))
      idle finished e = absurd (omega (arith, one, own, ap busy e))

pub places-start :
    (J : Type 0) (n t : ℕ) (head : List ℕ) → places n t (start {J = J} head) ≡ count t head
unfolding places held
places-start J n t head = omega (arith, sum_below_zero n _ (λ j lt. refl))

-- A thread that a caller has, or that is at work, is in some place.
pub held_pos :
    {J : Type 0} (n : ℕ) (x : Pool J) (c t : ℕ) (job : J) (b : Bool)
    → c < n
    → x.callers c ≡ holding t job b
    → 0 < places n t x
unfolding places held
held_pos n x c t job b lt at =
    ground (arith, le-sum_below n c (λ c. holds t (x.callers c)) lt, ap (holds t) at)

pub busy_pos :
    {J : Type 0} (n : ℕ) (x : Pool J) (t : ℕ) (p : Phase)
    → (x.threads t).phase ≡ p
    → busy p ≡ 1
    → 0 < places n t x
unfolding places
busy_pos n x t p at e = omega (arith, ap busy at, e)

-- A thread with a caller's job.
abbrev pub assigned : {J : Type 0} → ℕ → J → Bool → Thread J
assigned c job b = record {
  thread_created = true;
  thread_fn = true;
  arg = some job;
  semaphore = if b then some c else none;
  phase = working;
}

-- A caller's thread, once it is fired.
abbrev pub fired : {J : Type 0} → Pool J → ℕ → ℕ → J → Bool → Pool J
fired x c t job b = record x {
  callers = put x.callers c (if b then waiting t else outside);
  threads = put x.threads t (assigned c job b);
  sem0_1 = if b then put x.sem0_1 c 0 else x.sem0_1;
}

put-put : {A : Type 0} (f : ℕ → A) (t : ℕ) (a b : A) → put (put f t a) t b ≡ put f t b
put-put f t a b = fun_ext (λ j. ground arith)

-- A thread that is not linked and rests starts to work.
run_rested :
    {J : Type 0} (x : Pool J) (t : ℕ) (th : Thread J) (b : Bool)
    → th ≡ x.threads t
    → th.thread_created ≡ b
    → count t x.pool_head ≡ 0
    → th.phase ≡ resting
    → thread_pool_run_thread x t
      ≡ some (with_thread x t (record th { thread_created = true; phase = working }))
unfolding thread_pool_run_thread
run_rested x t th false e f out idle = rw⁻¹ e (rw (out, f) refl)
run_rested x t th true e f out idle = rw⁻¹ e (rw (out, f, idle) refl)

-- A caller's thread is waiting, or not created yet, when it is fired.
pub fire-fired :
    {J : Type 0} (n : ℕ) (x : Pool J) (c t : ℕ) (job : J) (b : Bool)
    → c < n
    → x.callers c ≡ holding t job b
    → places n t x ≤ 1
    → stage1_fire x c t job b ≡ some (fired x c t job b)
unfolding stage1_fire
fire-fired n x c t job b lt at le =
    let (out, idle) = held_once n x c t job b lt at le in
    run_rested _ t _ (x.threads t).thread_created (sym (put_self x.threads t _)) refl out idle
    ∙ ap (λ f. some (record (fired x c t job b) { threads = f })) (put-put x.threads t _ _)

-- One thread changes phase.
pub busy-change :
    {J : Type 0} (f : ℕ → Thread J) (u t : ℕ) (th : Thread J)
    → busy (put f u th t).phase + (if u == t then busy (f u).phase else 0)
      ≡ busy (f t).phase + (if u == t then busy th.phase else 0)
busy-change f u t th = elim (ℕ_discrete t u) [
  | yes e ↦
      subst
        (λ k.
          busy (put f u th k).phase + (if u == k then busy (f u).phase else 0)
          ≡ busy (f k).phase + (if u == k then busy th.phase else 0))
        (sym e) (ground (arith, ap (λ z. busy z.phase) (put_self f u th)))
  | no ne ↦ ground (arith, ap (λ z. busy z.phase) (put_ne f u th t ne))
]

pub places-fired :
    {J : Type 0} (n : ℕ) (x : Pool J) (c u t : ℕ) (job : J) (b : Bool)
    → c < n
    → x.callers c ≡ holding u job b
    → places n u x ≤ 1
    → places n t (fired x c u job b) ≡ places n t x
places-fired n x c u t job b lt at le =
    let (out, idle) = held_once n x c u job b lt at le in
    moved n x (fired x c u job b) c t (if b then waiting u else outside) lt (λ j. refl)
      (ground (
        arith,
        busy-change x.threads u t (assigned c job b),
        ap busy idle,
        ap (holds t) at,
        put_self x.threads u (assigned c job b),
      ))

-- A thread's job, once it has run.
abbrev pub ran : {J : Type 0} → Pool J → ℕ → J → Pool J
ran x u job = record (with_thread x u (record (x.threads u) { phase = finished })) {
  executed = x.executed ++ (job ∷ []);
}

pub stage2-ran :
    {J : Type 0} (x y : Pool J) (u : ℕ) (arg : Option J)
    → (x.threads u).arg ≡ arg
    → thread_stage2 x u ≡ some y
    → (job : J) × ((x.threads u).arg ≡ some job) × (y ≡ ran x u job)
unfolding thread_stage2
stage2-ran x y u none e r =
    let null : thread_stage2 x u ≡ none = ap (run_job x u) e in absurd (cc (r, null))
stage2-ran x y u (some job) e r = (job, e, cc (r, ap (run_job x u) e))

pub places-ran :
    {J : Type 0} (n : ℕ) (x : Pool J) (u t : ℕ) (job : J)
    → (x.threads u).phase ≡ working
    → places n t (ran x u job) ≡ places n t x
places-ran n x u t job at = stayed n x (ran x u job) t refl (
    ground
      (arith, ap busy at, busy-change x.threads u t (record (x.threads u) { phase = finished })))
