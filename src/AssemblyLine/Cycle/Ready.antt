-- ===== src/AssemblyLine/Cycle/Ready.antt =====
-- The engine's count of the workers that are ready.
use multithreading_bible.Common.{
  ℕ, zero, suc, ◌+◌, ◌*◌, ◌%◌, ◌^◌, ◌<◌, ◌≤◌, ◌≡◌, ◌≢◌, ◌==◌, refl, ap, ◌∙◌, sym, subst, List,
  Option, arith,
}
use multithreading_bible.Common.Sums.{sum_below, sum_below-change, sum_below_zero, le-sum_below}
use multithreading_bible.Sync.Change.{put_ne}
use multithreading_bible.Queues.Fifo.{Fifo}
use multithreading_bible.AssemblyLine.{
  Phase, parked, running, visited, moved, Worker, Asl, worker_move, worker_report, asl_engine_begin,
}
use multithreading_bible.AssemblyLine.Cycle.{
  Step, visits, moves, reports, Steps, here, next, InCycle,
}
use multithreading_bible.AssemblyLine.Cycle.Shift.{
  visit_lem, some-injective, Steps-InCycle, begin-InCycle, Between,
}

-- The sections that a worker, and all the workers, still have to run in a cycle.
abbrev pub to_go : Phase → ℕ
to_go parked = 0
to_go moved = 1
to_go visited = 2
to_go running = 3

unfoldable pub all_to_go : {O : Type 0} → ℕ → Asl O → ℕ
all_to_go n a = sum_below n (λ i. to_go (a.workers i).phase)

abbrev pub is_ready : Phase → ℕ
is_ready parked = 1
is_ready moved = 0
is_ready visited = 0
is_ready running = 0

pub all_ready : {O : Type 0} → ℕ → Asl O → ℕ
all_ready n a = sum_below n (λ i. is_ready (a.workers i).phase)

-- Of the workers those are ready that have nothing to go.
balance_one : (p : Phase) → (1 ≤ is_ready p + to_go p) × (3 * is_ready p + to_go p ≤ 3)
balance_one parked = omega arith
balance_one moved = omega arith
balance_one visited = omega arith
balance_one running = omega arith

balance :
    (n : ℕ) (f : ℕ → Phase)
    → (n ≤ sum_below n (λ i. is_ready (f i)) + sum_below n (λ i. to_go (f i)))
      × (3 * sum_below n (λ i. is_ready (f i)) + sum_below n (λ i. to_go (f i)) ≤ 3 * n)
unfolding sum_below
balance zero f = omega arith
balance (suc n) f = omega (arith, balance n f, balance_one (f n))

-- A change of the phase of worker `i` alone.
pub phase_change :
    {O : Type 0} {n : ℕ} (g : Phase → ℕ) (a b : Asl O) (i : ℕ)
    → i < n
    → ((k : ℕ) → k ≢ i → (b.workers k).phase ≡ (a.workers k).phase)
    → sum_below n (λ i. g (b.workers i).phase) + g (a.workers i).phase
      ≡ sum_below n (λ i. g (a.workers i).phase) + g (b.workers i).phase
phase_change {n = n} g a b i lt same =
    sum_below-change n i (λ i. g (a.workers i).phase) (λ i. g (b.workers i).phase) lt
      (λ k ne. ap g (same k ne))

-- `n_workers_ready` counts the workers that are parked.
pub record Counted {O : Type 0} (n : ℕ) (a : Asl O) : Type 0 where
  pub sized : a.asl_size ≡ n
  pub narrow : n < 2 ^ 32
  pub counts : a.n_workers_ready ≡ all_ready n a

pub Counted-all :
    {O : Type 0} {n : ℕ} {a : Asl O}
    → Counted n a
    → (a.n_workers_ready == a.asl_size) ≡ (all_to_go n a == 0)
unfolding all_ready all_to_go
Counted-all {n = n} {a = a} c =
    ground (arith, c.sized, c.counts, balance n (λ i. (a.workers i).phase))

-- The engine sets the count to 0 and starts all the workers.
pub begin-Counted :
    {O : Type 0} {n s : ℕ} {f : ℕ → O → O} {v : ℕ → Option O} {out : List O} {a : Asl O}
    → Between n s f v out a
    → Counted n (asl_engine_begin a)
unfolding asl_engine_begin all_ready
begin-Counted {n = n} {a = a} b = record {
  sized = b.line.sized;
  narrow = omega (arith, b.line.slots.narrow, b.line.length);
  counts = sym (sum_below_zero n _ (λ j lt. ground (arith, lt, b.line.sized)));
}

Counted-lt : {O : Type 0} {n : ℕ} {a : Asl O} → Counted n a → a.n_workers_ready < 2 ^ 32
unfolding all_ready
Counted-lt {n = n} {a = a} r =
    omega (arith, r.counts, r.narrow, balance n (λ i. (a.workers i).phase))

Counted-change :
    {O : Type 0} {n : ℕ} {a b : Asl O} (i : ℕ)
    → i < n
    → ((k : ℕ) → k ≢ i → (b.workers k).phase ≡ (a.workers k).phase)
    → b.asl_size ≡ a.asl_size
    → b.n_workers_ready + is_ready (a.workers i).phase
      ≡ (a.n_workers_ready + is_ready (b.workers i).phase) % 2 ^ 32
    → Counted n a
    → Counted n b
unfolding all_ready
Counted-change {n = n} {a = a} {b = b} i lt same size ready r = record {
  sized = size ∙ r.sized;
  narrow = r.narrow;
  counts = omega (
    arith,
    ready,
    r.counts,
    r.narrow,
    phase_change is_ready a b i lt same,
    balance n (λ i. (a.workers i).phase),
    balance n (λ i. (b.workers i).phase),
    balance_one (b.workers i).phase,
  );
}

Step-Counted :
    {O : Type 0} {n s : ℕ} {f : ℕ → O → O} {v : ℕ → Option O} {out : List O} {a b : Asl O}
    → InCycle n s f v out a
    → Step a b
    → Counted n a
    → Counted n b
unfolding worker_move worker_report
Step-Counted {n = n} {a = a} {b = b} c (visits i lt e done) r =
    let ilt : i < n = omega (arith, lt, c.line.sized) in
    let (b', done', w) = visit_lem c i ilt e in
    subst (Counted n) (some-injective (sym done' ∙ done)) (
      Counted-change {a = a} {b = b'} i ilt
        (λ k ne. ap (λ (u : Worker _). u.phase) (w.workers k ∙ put_ne a.workers i _ k ne))
        (w.line.sized ∙ sym c.line.sized)
        (ground (arith, w.same_ready, e, w.workers i, Counted-lt r)) r)
Step-Counted {n = n} {a = a} {b = b} c (moves i lt e q) r =
    Counted-change {a = a} {b = b} i (omega (arith, lt, c.line.sized)) (λ k ne. ground (arith, q))
      (ground (arith, q)) (ground (arith, q, e, Counted-lt r)) r
Step-Counted {n = n} {a = a} {b = b} c (reports i lt e q) r =
    Counted-change {a = a} {b = b} i (omega (arith, lt, c.line.sized)) (λ k ne. ground (arith, q))
      (ground (arith, q)) (ground (arith, q, e)) r

Steps-Counted :
    {O : Type 0} {n s : ℕ} {f : ℕ → O → O} {v : ℕ → Option O} {out : List O} {a b : Asl O}
    → InCycle n s f v out a
    → Steps a b
    → Counted n a
    → Counted n b
Steps-Counted c here r = r
Steps-Counted c (next steps st) r =
    Step-Counted (Steps-InCycle steps c) st (Steps-Counted c steps r)

-- In a cycle, the engine's test.
pub cycle-Counted :
    {O : Type 0} {n s : ℕ} {f : ℕ → O → O} {v : ℕ → Option O} {out : List O} {a b : Asl O}
    → Between n s f v out a
    → Steps (asl_engine_begin a) b
    → Counted n b
cycle-Counted start steps = Steps-Counted (begin-InCycle start) steps (begin-Counted start)

-- Where nothing is to go, every worker is parked.
pub all_parked :
    {O : Type 0} (n : ℕ) (a : Asl O)
    → all_to_go n a ≡ 0
    → (k : ℕ) → k < n
    → (a.workers k).phase ≡ parked
unfolding all_to_go
all_parked n a e k lt =
    none_to_go (a.workers k).phase
      (omega (arith, e, le-sum_below n k (λ i. to_go (a.workers i).phase) lt))
  where
    none_to_go : (p : Phase) → to_go p ≡ 0 → p ≡ parked
    none_to_go parked q = refl
    none_to_go moved q = absurd (omega (arith, q))
    none_to_go visited q = absurd (omega (arith, q))
    none_to_go running q = absurd (omega (arith, q))

-- The wait list does not matter to the count.
pub list-Counted :
    {O : Type 0} {n : ℕ} {a : Asl O} (w : Fifo O)
    → Counted n a
    → Counted n (record a { wait_lst_fq = w })
unfolding all_ready
list-Counted w c = record { sized = c.sized; narrow = c.narrow; counts = c.counts }
