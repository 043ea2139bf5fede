-- ===== src/WaitQueue/Counted.antt =====
-- The wait queue counts the threads that wait, and no signal is dropped while one does.
use multithreading_bible.Common.{
  ℕ, ◌+◌, ◌%◌, ◌^◌, ◌≤◌, ◌<◌, ◌≡◌, Bool, true, false, refl, arith, ◌∙◌, ap, sym, dec_lt,
}
use multithreading_bible.Sync.{
  Wake, signal, leaves, sleeps, unlocks, asleep, World, Reach, here, next, start,
}
use multithreading_bible.Sync.Change.{
  Change, returned, blocked, resumed, reblocked, passed, roused, After, waits, waits-start,
  waits_pos, waits-le, After-waits-le, Step-Change,
}
use multithreading_bible.WaitQueue.{
  Glthread, new_wait_queue, wait_queue_set_auto_unlock_appln_mutex, caught, wait_block,
  wait_unblock, wait_queue_signal,
}
use multithreading_bible.WaitQueue.Waiting.{
  Shared, Cv, queue_cv, thread_cv, Point, waiting, Call, test_and_wait, change, signal_one,
  signal_all, unblocked, wait_round, wait_queue_test_and_wait, enter, resume, api,
}

abbrev pub one_each : Point → ℕ
one_each waiting = 1

one_each-le : (k : Point) → one_each k ≤ 1
one_each-le waiting = omega arith

-- A section of a thread that counted as `u` among the waiting and then counts as `v`.
record Did {A : Type 0} (u v : ℕ) (m m' : Shared A) : Type 0 where
  kind : m'.wq.priority_flag ≡ m.wq.priority_flag
  below : m'.wq.thread_wait_count < 2 ^ 32
  change : (m'.wq.thread_wait_count + u) % 2 ^ 32 ≡ (m.wq.thread_wait_count + v) % 2 ^ 32
  kept : m.wq.appln_mutex ≡ true → m'.wq.appln_mutex ≡ true
  came : u < v → m'.wq.appln_mutex ≡ true

record IsValid {A : Type 0} (n : ℕ) (flag : Bool) (x : World Cv Point (Shared A) ℕ) : Type 0 where
  kind : x.state.wq.priority_flag ≡ flag
  counted : x.state.wq.thread_wait_count ≡ waits n one_each x
  cached : 0 < waits n one_each x → x.state.wq.appln_mutex ≡ true

module _ {A : Type 0} (gl : Glthread) (block : A → Bool) where
  round-Did :
      (m : Shared A) {m' : Shared A} {w : Wake Cv} (t : ℕ)
      → m.wq.thread_wait_count < 2 ^ 32
      → wait_round gl block m t ≡ leaves m' w
      → Did 0 0 m m'
  unfolding wait_round unblocked
  round-Did m t lt s = record {
    kind = ground (arith, s);
    below = ground (arith, s);
    change = ground (arith, s);
    kept = λ e. ground (arith, s, e);
    came = λ l. absurd (omega (arith, l));
  }

  round_blocks-Did :
      (m : Shared A) {m' : Shared A} {c : Cv} (k : Point) (t : ℕ)
      → m.wq.thread_wait_count < 2 ^ 32
      → m.wq.appln_mutex ≡ true
      → wait_round gl block m t ≡ sleeps c k m'
      → Did 0 (one_each k) m m'
  unfolding wait_round unblocked wait_block
  round_blocks-Did m waiting t lt own s = record {
    kind = ground (arith, s);
    below = ground (arith, s);
    change = ground (arith, s);
    kept = λ e. ground (arith, s, e);
    came = λ l. ground (arith, s, own);
  }

  same-Did :
      {u : ℕ} {m m' : Shared A} → m.wq.thread_wait_count < 2 ^ 32 → m'.wq ≡ m.wq → Did u u m m'
  same-Did {u} lt e = record {
    kind = ap (λ q. q.priority_flag) e;
    below = rw e lt;
    change = ap (λ q. (q.thread_wait_count + u) % 2 ^ 32) e;
    kept = λ own. ap (λ q. q.appln_mutex) e ∙ own;
    came = λ l. absurd (omega (arith, l));
  }

  -- The rest of the round in which the thread waited comes before what it does next.
  unblocked-Did :
      {v : ℕ} (m : Shared A) {m' : Shared A} (t : ℕ)
      → 1 ≤ m.wq.thread_wait_count
      → m.wq.thread_wait_count < 2 ^ 32
      → m.wq.appln_mutex ≡ true
      → Did 0 v (record m { wq = wait_unblock gl m.wq t }) m'
      → Did 1 v m m'
  unfolding wait_unblock
  unblocked-Did m t pos lt own did = record {
    kind = did.kind;
    below = did.below;
    change = omega (arith, did.change, pos, lt, did.below);
    kept = λ e. did.kept e;
    came = λ l. did.kept own;
  }

  enter-Did :
      (m : Shared A) {m' : Shared A} {w : Wake Cv} (o : Call A) (t : ℕ)
      → m.wq.thread_wait_count < 2 ^ 32
      → enter gl block m t o ≡ leaves m' w
      → Did 0 0 m m'
  unfolding enter wait_queue_test_and_wait
  enter-Did m test_and_wait t lt s =
      let did = round-Did (record m { wq = caught m.wq }) t lt s in
      record {
        kind = did.kind;
        below = did.below;
        change = did.change;
        kept = λ e. did.kept refl;
        came = did.came;
      }
  enter-Did m {m'} (change f) t lt s =
      let same : record m { appln = f m.appln } ≡ m' = cc s in
      same-Did lt (sym (ap (λ m. m.wq) same))
  enter-Did m {m'} (signal_one b) t lt s =
      let same : m ≡ m' = cc s in same-Did lt (sym (ap (λ m. m.wq) same))
  enter-Did m {m'} (signal_all b) t lt s =
      let same : m ≡ m' = cc s in same-Did lt (sym (ap (λ m. m.wq) same))

  enter_blocks-Did :
      (m : Shared A) {m' : Shared A} {c : Cv} (k : Point) (o : Call A) (t : ℕ)
      → m.wq.thread_wait_count < 2 ^ 32
      → enter gl block m t o ≡ sleeps c k m'
      → Did 0 (one_each k) m m'
  unfolding enter wait_queue_test_and_wait
  enter_blocks-Did m k test_and_wait t lt s =
      let did = round_blocks-Did (record m { wq = caught m.wq }) k t lt refl s in
      record {
        kind = did.kind;
        below = did.below;
        change = did.change;
        kept = λ e. did.kept refl;
        came = did.came;
      }
  enter_blocks-Did m k (change f) t lt s = absurd (cc)
  enter_blocks-Did m k (signal_one b) t lt s = absurd (cc)
  enter_blocks-Did m k (signal_all b) t lt s = absurd (cc)

  enter_returns :
      (m : Shared A) {m' : Shared A} {k : Point} (o : Call A) (t : ℕ)
      → enter gl block m t o ≡ unlocks k m'
      → ⊥
  unfolding enter wait_queue_test_and_wait wait_round unblocked
  enter_returns m test_and_wait t s = ground (arith, s)
  enter_returns m (change f) t s = absurd (cc)
  enter_returns m (signal_one b) t s = absurd (cc)
  enter_returns m (signal_all b) t s = absurd (cc)

  unblock_small : (m : Shared A) (t : ℕ) → (wait_unblock gl m.wq t).thread_wait_count < 2 ^ 32
  unfolding wait_unblock
  unblock_small m t = omega arith

  unblock_own :
      (m : Shared A) (t : ℕ) → m.wq.appln_mutex ≡ true → (wait_unblock gl m.wq t).appln_mutex ≡ true
  unfolding wait_unblock
  unblock_own m t own = own

  small :
      {n : ℕ} {flag : Bool} {x : World Cv Point (Shared A) ℕ}
      → n < 2 ^ 32
      → IsValid n flag x
      → x.state.wq.thread_wait_count < 2 ^ 32
  small {n} {x = x} few v = omega (arith, v.counted, few, waits-le n one_each x one_each-le)

  module _ {n : ℕ} {flag : Bool} {x y : World Cv Point (Shared A) ℕ} (few : n < 2 ^ 32)
      (v : IsValid n flag x) where
    Did-IsValid :
        {i h : ℕ} {p q : (Point → ℕ) → ℕ}
        → Did (p one_each) (q one_each) x.state y.state
        → After n x y i h p q
        → IsValid n flag y
    Did-IsValid did after = record {
      kind = did.kind ∙ v.kind;
      counted = omega (
        arith,
        few,
        v.counted,
        did.below,
        did.change,
        after.waits_change one_each,
        waits-le n one_each y one_each-le,
        waits-le n one_each x one_each-le,
      );
      cached = λ pos. elim (dec_lt 0 (waits n one_each x)) [
        | yes before ↦ did.kept (v.cached before)
        | no none_before ↦ did.came (omega (arith, pos, none_before, after.waits_change one_each))
      ];
    }

    Change-IsValid : Change (api gl block) n x y → IsValid n flag y
    unfolding resume
    Change-IsValid (returned i o w ok e after) =
        Did-IsValid (enter-Did x.state o i (small few v) e) after
    Change-IsValid (blocked i o c k ok e after) =
        Did-IsValid (enter_blocks-Did x.state k o i (small few v) e) after
    Change-IsValid (resumed i waiting w e after) =
        let pos : 1 ≤ waits n one_each x = After-waits-le after one_each in
        let own = v.cached pos in
        Did-IsValid
          (unblocked-Did x.state i (omega (arith, v.counted, pos)) (small few v) own (
            round-Did (record x.state { wq = wait_unblock gl x.state.wq i }) i
              (unblock_small x.state i) e))
          after
    Change-IsValid (reblocked i waiting c k e after) =
        let pos : 1 ≤ waits n one_each x = After-waits-le after one_each in
        let own = v.cached pos in
        Did-IsValid
          (unblocked-Did x.state i (omega (arith, v.counted, pos)) (small few v) own (
            round_blocks-Did (record x.state { wq = wait_unblock gl x.state.wq i }) k i
              (unblock_small x.state i) (unblock_own x.state i own) e))
          after
    Change-IsValid (passed i o k ok e after) = absurd (enter_returns x.state o i e)
    Change-IsValid (roused i waiting e after) =
        Did-IsValid (same-Did (small few v) (ap (λ m. m.wq) e)) after

-- The queue set up, with the application's data and the choice of who unlocks its mutex.
abbrev pub fresh : {A : Type 0} → Bool → Bool → A → World Cv Point (Shared A) ℕ
fresh priority_flag auto_unlock a =
    start
      (record {
        wq = wait_queue_set_auto_unlock_appln_mutex (new_wait_queue priority_flag) auto_unlock;
        appln = a;
      })
      0

Reach-IsValid :
    {A : Type 0} (gl : Glthread) (block : A → Bool) {n : ℕ} (flag auto_unlock : Bool) (a : A)
    {x : World Cv Point (Shared A) ℕ}
    → n < 2 ^ 32
    → Reach (api gl block) n (fresh flag auto_unlock a) x
    → IsValid n flag x
unfolding wait_queue_set_auto_unlock_appln_mutex
Reach-IsValid gl block {n} flag auto_unlock a few here =
    let none_yet =
      waits-start {K = Point} {H = ℕ} Cv n one_each
        (record {
          wq = wait_queue_set_auto_unlock_appln_mutex (new_wait_queue flag) auto_unlock;
          appln = a;
        })
        0 in
    record {
      kind = refl;
      counted = sym none_yet;
      cached = λ pos. absurd (omega (arith, pos, none_yet));
    }
Reach-IsValid gl block {n} flag auto_unlock a few (next r st) =
    Change-IsValid gl block few (Reach-IsValid gl block flag auto_unlock a few r)
      (Step-Change (api gl block) n st)

-- However fewer than 2^32 threads wait for a condition of the application, change its data and
-- signal, with spurious wakeups: while a thread is blocked in wait_queue_test_and_wait of a queue
-- without priorities, a call of wait_queue_signal signals the queue's condition variable, also one
-- that takes the mutex that the queue has cached; and the count is that of the threads that wait.
pub signals_arrive :
    {A : Type 0} (gl : Glthread) (block : A → Bool) {n : ℕ} (auto_unlock lock_mutex : Bool) (a : A)
    {x : World Cv Point (Shared A) ℕ} (j : ℕ) (c : Cv)
    → n < 2 ^ 32
    → j < n
    → Reach (api gl block) n (fresh false auto_unlock a) x
    → (x.threads j).pc ≡ asleep c waiting
    → (wait_queue_signal queue_cv thread_cv x.state.wq lock_mutex ≡ signal queue_cv)
      × (x.state.wq.thread_wait_count ≡ waits n one_each x)
unfolding wait_queue_signal
signals_arrive gl block {n} auto_unlock lock_mutex a {x} j c few lt reach at =
    let v = Reach-IsValid gl block false auto_unlock a few reach in
    let pos : 0 < waits n one_each x = omega (arith, waits_pos n one_each x j c waiting lt at) in
    (ground (arith, v.kind, v.counted, pos, v.cached pos), v.counted)
