-- ===== src/Barrier/Rounds.antt =====
-- How many threads wait at the barrier.
use multithreading_bible.Common.{ℕ, ◌+◌, ◌%◌, ◌^◌, ◌≤◌, ◌<◌, ◌≡◌, refl, arith, sym, false}
use multithreading_bible.Sync.{
  quiet, signal, Wake, leaves, sleeps, unlocks, World, Reach, here, next, start,
}
use multithreading_bible.Sync.Change.{
  Change, returned, blocked, resumed, reblocked, passed, roused, After, waits, waits-le,
  waits-start, Step-Change,
}
use multithreading_bible.Barrier.{
  Barrier, Cv, cv, busy_cv, Point, at_barrier, at_busy, thread_barrier_init,
  thread_barrier_signal_all, thread_barrier_barricade, thread_barrier_leave, Call, barricade,
  signal_all, enter, resume, api,
}

abbrev pub is_at_barrier : Point → ℕ
is_at_barrier at_barrier = 1
is_at_barrier at_busy = 0

is_at_barrier-le : (k : Point) → is_at_barrier k ≤ 1
is_at_barrier-le at_barrier = omega arith
is_at_barrier-le at_busy = omega arith

-- A section of a thread that counted among the waiting as `u` before and as `v` after.
record Did (c u v : ℕ) (m m' : Barrier) : Type 0 where
  threshold : m'.threshold ≡ c
  below : m'.curr_wait_count < c
  change : (m'.curr_wait_count + u) % 2 ^ 32 ≡ (m.curr_wait_count + v) % 2 ^ 32

record IsValid (n c : ℕ) (x : World Cv Point Barrier ℕ) : Type 0 where
  few : n < 2 ^ 32
  narrow : c < 2 ^ 32
  threshold : x.state.threshold ≡ c
  below : x.state.curr_wait_count < c
  counted : x.state.curr_wait_count ≡ waits n is_at_barrier x

module _ {c : ℕ} (m : Barrier) {m' : Barrier} (t : ℕ) (narrow : c < 2 ^ 32) (e : m.threshold ≡ c)
    (lt : m.curr_wait_count < c) where
  enter-Did : {w : Wake Cv} (o : Call) → enter m t o ≡ leaves m' w → Did c 0 0 m m'
  unfolding enter thread_barrier_barricade thread_barrier_signal_all
  enter-Did barricade s = ground arith
  enter-Did signal_all s = ground arith

  enter_blocks-Did :
      {a : Cv} {k : Point} (o : Call) → enter m t o ≡ sleeps a k m' → Did c 0 (is_at_barrier k) m m'
  unfolding enter thread_barrier_barricade thread_barrier_signal_all
  enter_blocks-Did barricade s = ground arith
  enter_blocks-Did signal_all s = ground arith

  resume-Did :
      {w : Wake Cv} (k : Point)
      → is_at_barrier k ≤ m.curr_wait_count
      → resume m t k ≡ leaves m' w
      → Did c (is_at_barrier k) 0 m m'
  unfolding resume thread_barrier_barricade thread_barrier_leave
  resume-Did at_barrier p s = ground arith
  resume-Did at_busy p s = ground arith

  resume_blocks-Did :
      {a : Cv} {k' : Point} (k : Point)
      → resume m t k ≡ sleeps a k' m'
      → Did c (is_at_barrier k) (is_at_barrier k') m m'
  unfolding resume thread_barrier_barricade thread_barrier_leave
  resume_blocks-Did at_barrier s = ground arith
  resume_blocks-Did at_busy s = ground arith

enter_returns :
    (o : Call) (t : ℕ) (m : Barrier) {m' : Barrier} {k : Point} → enter m t o ≡ unlocks k m' → ⊥
unfolding enter thread_barrier_barricade thread_barrier_signal_all
enter_returns barricade t m e = ground arith
enter_returns signal_all t m e = ground arith

module _ {n c : ℕ} {x y : World Cv Point Barrier ℕ} (v : IsValid n c x) where
  Did-IsValid :
      {i h : ℕ} {p q : (Point → ℕ) → ℕ}
      → p is_at_barrier ≤ 1
      → Did c (p is_at_barrier) (q is_at_barrier) x.state y.state
      → After n x y i h p q
      → IsValid n c y
  Did-IsValid small did after = record {
    few = v.few;
    narrow = v.narrow;
    threshold = did.threshold;
    below = did.below;
    counted = omega (
      arith,
      v.few,
      v.narrow,
      v.counted,
      did.below,
      did.change,
      after.waits_change is_at_barrier,
      waits-le n is_at_barrier y is_at_barrier-le,
      waits-le n is_at_barrier x is_at_barrier-le,
    );
  }

  Change-IsValid : Change api n x y → IsValid n c y
  Change-IsValid (returned i o w ok e after) =
      Did-IsValid (omega arith) (enter-Did x.state i v.narrow v.threshold v.below o e) after
  Change-IsValid (blocked i o _ k ok e after) =
      Did-IsValid (omega arith) (enter_blocks-Did x.state i v.narrow v.threshold v.below o e) after
  Change-IsValid (resumed i k w e after) =
      Did-IsValid (is_at_barrier-le k)
        (resume-Did x.state i v.narrow v.threshold v.below k
          (omega (arith, v.counted, after.waits_change is_at_barrier)) e)
        after
  Change-IsValid (reblocked i k _ k' e after) =
      Did-IsValid (is_at_barrier-le k)
        (resume_blocks-Did x.state i v.narrow v.threshold v.below k e) after
  Change-IsValid (passed i o k ok e after) = absurd (enter_returns o i x.state e)
  Change-IsValid (roused i k e after) =
      Did-IsValid (is_at_barrier-le k)
        (rw e (record { threshold = v.threshold; below = v.below; change = refl })) after

-- A barrier initialised for `c` threads, with no thread in it.
abbrev pub fresh : Barrier → ℕ → World Cv Point Barrier ℕ
fresh m c = start (thread_barrier_init m c) 0

Reach-IsValid :
    {n c : ℕ} (m : Barrier) {x : World Cv Point Barrier ℕ}
    → n < 2 ^ 32
    → 0 < c
    → c < 2 ^ 32
    → Reach api n (fresh m c) x
    → IsValid n c x
unfolding thread_barrier_init
Reach-IsValid {n} m few pos narrow here = record {
  few = few;
  narrow = narrow;
  threshold = refl;
  below = pos;
  counted = sym (waits-start {K = Point} {H = ℕ} Cv n is_at_barrier _ _);
}
Reach-IsValid {n} m few pos narrow (next r st) =
    Change-IsValid (Reach-IsValid m few pos narrow r) (Step-Change api n st)

-- `curr_wait_count` is the number of threads that wait at the barrier, woken or not, and is always
-- below the threshold: under every interleaving of fewer than 2^32 threads, with spurious wakeups,
-- for a threshold from 1 on.
pub waiters_counted :
    {n c : ℕ} (m : Barrier) {x : World Cv Point Barrier ℕ}
    → n < 2 ^ 32
    → 0 < c
    → c < 2 ^ 32
    → Reach api n (fresh m c) x
    → (x.state.curr_wait_count ≡ waits n is_at_barrier x) × (waits n is_at_barrier x < c)
waiters_counted m few pos narrow r =
    let v = Reach-IsValid m few pos narrow r in (v.counted, omega (arith, v.counted, v.below))

-- A barrier for one thread is stuck after one call: that call returns, every later one blocks, a
-- woken one blocks again, and `thread_barrier_signal_all` wakes nobody.
pub threshold_one_sticks :
    (m : Barrier) (t : ℕ)
    → (m' : Barrier) × (thread_barrier_barricade (thread_barrier_init m 1) ≡ leaves m' (signal cv))
      × (thread_barrier_barricade m' ≡ sleeps busy_cv at_busy m')
      × (resume m' t at_busy ≡ sleeps busy_cv at_busy m')
      × (thread_barrier_signal_all m' ≡ leaves m' quiet)
unfolding resume thread_barrier_init thread_barrier_barricade thread_barrier_signal_all
threshold_one_sticks m t =
    (record { threshold = 1; curr_wait_count = 0; is_ready_again = false }, refl, refl, refl, refl)
