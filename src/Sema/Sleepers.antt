-- ===== src/Sema/Sleepers.antt =====
-- How many threads are asleep in sema_wait, and what one section does to that number.
use multithreading_bible.Common.{ℕ, ◌+◌, ◌-◌, ◌≤◌, ◌<◌, ◌≡◌, ◌≢◌, refl, arith, ap, sym, subst}
use multithreading_bible.Common.Sums.{
  put, sum_below, sum_below-congr, sum_below-change, sum_below_zero,
}
use multithreading_bible.Sync.{
  Wake, quiet, signal, leaves, sleeps, unlocks, Pc, idle, asleep, woken, Thread, World, Wakes,
  silent, lost, one, all, several, Step, returns, blocks, resumes, reblocks, passes, spurious,
  Reach, here, next, start,
}
use multithreading_bible.Sync.Change.{put_self, put_ne}
use multithreading_bible.Sema.{
  ℤ, pos, negsuc, minus, IsInt, Sema, Cv, cv, Point, waiting, sema_init, sema_wait, sema_wake,
  sema_post, Call, wait, post, enter, resume, Done, credit, api,
}

-- `1` for a thread in `pthread_cond_wait` that nothing has woken.
abbrev pub sleeping : Pc Cv Point → ℕ
sleeping idle = 0
sleeping (asleep c k) = 1
sleeping (woken k) = 0

abbrev pub sleepers : ℕ → (ℕ → Thread Cv Point Done) → ℕ
sleepers n f = sum_below n (λ j. sleeping (f j).pc)

sleepers-congr :
    (n : ℕ) (f g : ℕ → Thread Cv Point Done) → ((j : ℕ) → g j ≡ f j) → sleepers n g ≡ sleepers n f
sleepers-congr n f g same = sum_below-congr n _ _ (λ j lt. ap (λ t. sleeping t.pc) (same j))

sleepers-put :
    (n i : ℕ) (f : ℕ → Thread Cv Point Done) (t : Thread Cv Point Done)
    → i < n
    → sleepers n (put f i t) + sleeping (f i).pc ≡ sleepers n f + sleeping t.pc
sleepers-put n i f t lt = omega (
  arith,
  sum_below-change n i (λ j. sleeping (f j).pc) (λ j. sleeping (put f i t j).pc) lt
      (λ j ne. ap (λ t. sleeping t.pc) (put_ne f i t j ne)),
  ap (λ t. sleeping t.pc) (put_self f i t),
)

-- A thread's move from the place `p` to the place of `t`, nobody else moving.
moved :
    (n i : ℕ) (f : ℕ → Thread Cv Point Done) {g : ℕ → Thread Cv Point Done}
    (t : Thread Cv Point Done) {p : Pc Cv Point}
    → i < n
    → (f i).pc ≡ p
    → ((j : ℕ) → g j ≡ put f i t j)
    → sleepers n g + sleeping p ≡ sleepers n f + sleeping t.pc
moved n i f {g} t lt e same =
    omega (arith, sleepers-congr n (put f i t) g same, sleepers-put n i f t lt, ap sleeping e)

-- A thread that leaves was not asleep and is not.
left :
    (n i : ℕ) (f : ℕ → Thread Cv Point Done) (h : Done) {p : Pc Cv Point}
    → i < n
    → (f i).pc ≡ p
    → sleeping p ≡ 0
    → sleepers n (put f i (record { pc = idle; held = h })) ≡ sleepers n f
left n i f h lt e awake =
    omega (arith, moved n i f (record { pc = idle; held = h }) lt e (λ j. refl), awake)

not_asleep : (p : Pc Cv Point) → ((k : Point) → p ≢ asleep cv k) → sleeping p ≡ 0
not_asleep idle ne = refl
not_asleep (asleep cv k) ne = absurd (ne k refl)
not_asleep (woken k) ne = refl

quiet_sleepers :
    {n : ℕ} (f : ℕ → Thread Cv Point Done) {g : ℕ → Thread Cv Point Done} {w : Wake Cv}
    → Wakes n f g w
    → w ≡ quiet
    → sleepers n g ≡ sleepers n f
quiet_sleepers {n} f {g} (silent e same) q = sleepers-congr n f g same
quiet_sleepers f (lost c e nobody same) q = absurd (cc)
quiet_sleepers f (one c i k e lt p same) q = absurd (cc)
quiet_sleepers f (all c e roused) q = absurd (cc)
quiet_sleepers f (several cs e roused) q = absurd (cc)

-- A signal wakes one, where there is one.
signal_sleepers :
    {n : ℕ} (f : ℕ → Thread Cv Point Done) {g : ℕ → Thread Cv Point Done} {w : Wake Cv}
    → Wakes n f g w
    → w ≡ signal cv
    → sleepers n g ≡ sleepers n f - 1
signal_sleepers f (silent e same) q = absurd (cc)
signal_sleepers {n} f {g} (lost cv e nobody same) q = omega (
  arith,
  sleepers-congr n f g same,
  sum_below_zero n (λ j. sleeping (f j).pc) (λ j lt. not_asleep (f j).pc (λ k. nobody j k lt)),
)
signal_sleepers {n} f {g} (one c i k e lt p same) q =
    omega (arith, moved n i f (record { pc = woken k; held = (f i).held }) lt p same)
signal_sleepers f (all c e roused) q = absurd (cc)
signal_sleepers f (several cs e roused) q = absurd (cc)

wait_leaves :
    (m : Sema) {m' : Sema} {w : Wake Cv}
    → IsInt m.permit_counter
    → sema_wait m ≡ leaves m' w
    → (w ≡ quiet)
      × (minus m.permit_counter ≡ 0)
      × (minus m'.permit_counter ≡ 0)
      × IsInt m'.permit_counter
unfolding sema_wait
wait_leaves m b e = (ground arith, ground arith, ground arith, ground arith)

wait_sleeps :
    (m : Sema) {m' : Sema} {c : Cv} {k : Point}
    → IsInt m.permit_counter
    → sema_wait m ≡ sleeps c k m'
    → (minus m'.permit_counter ≡ minus m.permit_counter + 1) × IsInt m'.permit_counter
unfolding sema_wait
wait_sleeps m b e = (ground arith, ground arith)

-- A post takes one from what the counter lacks, and signals where it lacks something.
data Posted (m m' : Sema) (w : Wake Cv) : Type 0 where
  enough : w ≡ quiet → minus m.permit_counter ≡ 0 → minus m'.permit_counter ≡ 0 → Posted m m' w
  lacking : w ≡ signal cv → minus m'.permit_counter + 1 ≡ minus m.permit_counter → Posted m m' w

post_leaves :
    (m : Sema) {m' : Sema} {w : Wake Cv} (v : ℤ)
    → m.permit_counter ≡ v
    → IsInt m.permit_counter
    → sema_post m ≡ leaves m' w
    → Posted m m' w × IsInt m'.permit_counter
unfolding sema_post
post_leaves m (pos n) q b e =
    (enough (ground arith) (ground arith) (ground arith), (ground arith, ground arith))
post_leaves m (negsuc n) q b e =
    (lacking (ground arith) (ground arith), (ground arith, ground arith))

post_returns : (m : Sema) {m' : Sema} {c : Cv} {k : Point} → sema_post m ≡ sleeps c k m' → ⊥
unfolding sema_post
post_returns m e = ground arith

pub enter_returns :
    (c : Call) (t : ℕ) (m : Sema) {m' : Sema} {k : Point} → enter m t c ≡ unlocks k m' → ⊥
unfolding enter sema_wait sema_post
enter_returns wait t m e = ground arith
enter_returns post t m e = ground arith

-- The spurious wakeups of a run.
abbrev pub is_spurious : {n : ℕ} {x y : World Cv Point Sema Done} → Step api n x y → ℕ
is_spurious (returns i op w lt p may e wakes) = 0
is_spurious (blocks i op c k lt p may e th) = 0
is_spurious (resumes i k w lt p e wakes) = 0
is_spurious (reblocks i k c k' lt p e th) = 0
is_spurious (passes i op k lt p may e th) = 0
is_spurious (spurious i c k lt p e th) = 1

abbrev pub spurious_wakeups : {n : ℕ} {x y : World Cv Point Sema Done} → Reach api n x y → ℕ
spurious_wakeups here = 0
spurious_wakeups (next r st) = spurious_wakeups r + is_spurious st

-- The counter is an `int`; no more threads are asleep than it lacks permits, and no fewer but for
-- the `s` that nothing has woken and what the first value lacked.
pub record Slept (p : ℤ) (n s : ℕ) (x : World Cv Point Sema Done) : Type 0 where
  pub in_range : IsInt x.state.permit_counter
  pub enough_asleep : minus x.state.permit_counter ≤ minus p + sleepers n x.threads + s
  pub not_too_many : sleepers n x.threads ≤ minus x.state.permit_counter

module _ (p : ℤ) {n s : ℕ} {x y : World Cv Point Sema Done} (b : Slept p n s x) where
  returned_Slept :
      (i : ℕ) (c : Call) {w : Wake Cv}
      → i < n
      → (x.threads i).pc ≡ idle
      → enter x.state i c ≡ leaves y.state w
      → Wakes n
          (put x.threads i (record { pc = idle; held = credit c (x.threads i).held }))
          y.threads
          w
      → Slept p n s y
  unfolding enter
  returned_Slept i wait lt at e wakes =
      let (q, none_lacking, still_none, range) = wait_leaves x.state b.in_range e in
      let same = quiet_sleepers (put x.threads i _) wakes q in
      let put = left n i x.threads (credit wait (x.threads i).held) lt at refl in
      record {
        in_range = range;
        enough_asleep = omega (arith, b.enough_asleep, same, put, none_lacking, still_none);
        not_too_many = omega (arith, b.not_too_many, same, put, none_lacking, still_none);
      }
  returned_Slept i post lt at e wakes =
      let (posted, range) = post_leaves x.state _ refl b.in_range e in
      let back = left n i x.threads (credit post (x.threads i).held) lt at refl in
      elim posted [
        | enough q none_lacking still_none ↦
            let same = quiet_sleepers (put x.threads i _) wakes q in
            record {
              in_range = range;
              enough_asleep = omega (arith, b.enough_asleep, same, back, none_lacking, still_none);
              not_too_many = omega (arith, b.not_too_many, same, back, none_lacking, still_none);
            }
        | lacking q less ↦
            let fewer = signal_sleepers (put x.threads i _) wakes q in
            record {
              in_range = range;
              enough_asleep = omega (arith, b.enough_asleep, fewer, back, less);
              not_too_many = omega (arith, b.not_too_many, fewer, back, less);
            }
      ]

  -- The state stays, and at most the `s' - s` that nothing has woken go.
  kept :
      {s' : ℕ}
      → y.state ≡ x.state
      → sleepers n y.threads ≤ sleepers n x.threads
      → sleepers n x.threads + s ≤ sleepers n y.threads + s'
      → Slept p n s' y
  kept {s'} e fewer more = record {
    in_range = subst (λ m. IsInt m.permit_counter) (sym e) b.in_range;
    enough_asleep = omega (arith, b.enough_asleep, more, ap (λ m. minus m.permit_counter) e);
    not_too_many = omega (arith, b.not_too_many, fewer, ap (λ m. minus m.permit_counter) e);
  }

  Step-Slept : (st : Step api n x y) → Slept p n (s + is_spurious st) y
  unfolding enter resume sema_wake
  Step-Slept (returns i c w lt at ok e wakes) =
      let after = returned_Slept i c lt at e wakes in
      record {
        in_range = after.in_range;
        enough_asleep = omega (arith, after.enough_asleep);
        not_too_many = after.not_too_many;
      }
  Step-Slept (blocks i wait c k lt at ok e same) =
      let (more, range) = wait_sleeps x.state b.in_range e in
      let one_more =
        moved n i x.threads (record { pc = asleep c k; held = (x.threads i).held }) lt at same in
      record {
        in_range = range;
        enough_asleep = omega (arith, b.enough_asleep, one_more, more);
        not_too_many = omega (arith, b.not_too_many, one_more, more);
      }
  Step-Slept (blocks i post c k lt at ok e same) = absurd (post_returns x.state e)
  Step-Slept (resumes i waiting w lt at e wakes) =
      let none_woken : w ≡ quiet = ground arith in
      let same_state : y.state ≡ x.state = ground arith in
      let same = quiet_sleepers (put x.threads i _) wakes none_woken in
      let back = left n i x.threads (api.granted waiting (x.threads i).held) lt at refl in
      kept same_state (omega (arith, same, back)) (omega arith)
  Step-Slept (reblocks i waiting c k lt at e same) = absurd (cc)
  Step-Slept (passes i c k lt at ok e same) = absurd (enter_returns c i x.state e)
  Step-Slept (spurious i c k lt at e same) =
      let one_less =
        moved n i x.threads (record { pc = woken k; held = (x.threads i).held }) lt at same in
      kept e (omega (arith, one_less)) (omega (arith, one_less))

pub Reach-Slept :
    {n : ℕ} (p : ℤ) (m : Sema) {x : World Cv Point Sema Done}
    → IsInt p
    → (r : Reach api n (start (sema_init m p) (record { waits = 0; posts = 0 })) x)
    → Slept p n (spurious_wakeups r) x
unfolding sema_init
Reach-Slept {n} p m b here = record {
  in_range = b;
  enough_asleep = omega arith;
  not_too_many = omega (
    arith,
    sum_below_zero n
        (λ j.
          sleeping
            ((start {C = Cv} {K = Point} {H = Done} (sema_init m p)
                (record { waits = 0; posts = 0 })).threads
              j).pc)
        (λ j lt. refl),
  );
}
Reach-Slept p m b (next r st) = Step-Slept p (Reach-Slept p m b r) st
