-- ===== src/AssemblyLine/Cycle/Progress.antt =====
-- A cycle comes to its end.
use multithreading_bible.Common.{
  ℕ, zero, suc, ◌+◌, ◌*◌, ◌<◌, ◌≤◌, ◌≡◌, ◌≢◌, ◌==◌, refl, ap, ◌∙◌, sym, List, Option, none, some,
  Bool, true, false, not, if◌then◌else◌, arith,
}
use multithreading_bible.Common.Sums.{put, sum_below-change, sum_below-le-mul, sum_below_witness}
use multithreading_bible.Sync.Change.{put_ne}
use multithreading_bible.AssemblyLine.{
  Phase, parked, running, visited, moved, Asl, worker_move, worker_report, asl_engine_begin,
  asl_engine_refill, asl_engine_wake, went_on, Worker,
}
use multithreading_bible.AssemblyLine.Cycle.{
  Step, visits, moves, reports, Steps, here, next, InCycle,
}
use multithreading_bible.AssemblyLine.Cycle.Shift.{
  visit_lem, some-injective, Steps-InCycle, begin-InCycle, Between,
}
use multithreading_bible.AssemblyLine.Cycle.Ready.{
  to_go, all_to_go, all_parked, Counted, Counted-all, cycle-Counted,
}

-- A section of worker `i` that takes it from `p` to `q` counts as one.
one_less :
    {O : Type 0} {n : ℕ} (a b : Asl O) (i : ℕ)
    → i < n
    → ((k : ℕ) → k ≢ i → (b.workers k).phase ≡ (a.workers k).phase)
    → to_go (b.workers i).phase + 1 ≡ to_go (a.workers i).phase
    → all_to_go n b + 1 ≡ all_to_go n a
unfolding all_to_go
one_less {n = n} a b i lt same less = omega (
  arith,
  less,
  sum_below-change n i (λ i. to_go (a.workers i).phase) (λ i. to_go (b.workers i).phase) lt
      (λ k ne. ap to_go (same k ne)),
)

-- In a cycle, a worker that is not parked can run its next section, and no `assert` fails in it.
worker_goes_on :
    {O : Type 0} {n s : ℕ} {f : ℕ → O → O} {v : ℕ → Option O} {out : List O} {a : Asl O}
    → InCycle n s f v out a
    → (i : ℕ) → i < n
    → (a.workers i).phase ≢ parked
    → (b : Asl O) × Step a b
worker_goes_on {a = a} c i lt ne = go (a.workers i).phase refl
  where
    lt' : i < a.asl_size
    lt' = omega (arith, lt, c.line.sized)

    go : (p : Phase) → (a.workers i).phase ≡ p → (b : Asl _) × Step a b
    go parked e = absurd (ne e)
    go moved e = ((worker_report a i).0, reports i lt' e refl)
    go visited e = (worker_move a i, moves i lt' e refl)
    go running e = let (b, done, _) = visit_lem c i lt e in (b, visits i lt' e done)

Step-to_go :
    {O : Type 0} {n s : ℕ} {f : ℕ → O → O} {v : ℕ → Option O} {out : List O} {a b : Asl O}
    → InCycle n s f v out a
    → Step a b
    → all_to_go n b + 1 ≡ all_to_go n a
unfolding worker_move worker_report
Step-to_go {n = n} {f = f} {v = v} {a = a} {b = b} c (visits i lt e done) =
    one_less a b i ilt (λ k ne. ap (λ (u : Worker _). u.phase) (ws k ∙ put_ne a.workers i _ k ne))
      (ground (arith, ws i))
  where
    ilt : i < n
    ilt = omega (arith, lt, c.line.sized)

    ws : (k : ℕ) → b.workers k ≡ put a.workers i (record (a.workers i) { phase = visited }) k
    ws k =
        let (b', done', w) = visit_lem c i ilt e in
        ap (λ (x : Asl _). x.workers k) (some-injective (sym done ∙ done')) ∙ w.workers k
Step-to_go {n = n} {a = a} {b = b} c (moves i lt e q) =
    one_less a b i (omega (arith, lt, c.line.sized)) (λ k ne. ground (arith, q)) (ground (arith, q))
Step-to_go {n = n} {a = a} {b = b} c (reports i lt e q) =
    one_less a b i (omega (arith, lt, c.line.sized)) (λ k ne. ground (arith, q)) (ground (arith, q))

to_go-le : (p : Phase) → to_go p ≤ 3
to_go-le parked = omega arith
to_go-le moved = omega arith
to_go-le visited = omega arith
to_go-le running = omega arith

if_not : {A : Type 0} (x y : A) (b : Bool) → (if not b then x else y) ≡ (if b then y else x)
if_not x y true = refl
if_not x y false = refl

-- The engine's test, by what the workers have to go.
pub wake-Counted :
    {O : Type 0} {n : ℕ} {a : Asl O}
    → Counted n a
    → asl_engine_wake a
      ≡ (if all_to_go n a == 0 then went_on (asl_engine_refill a) else some (a, false))
unfolding asl_engine_wake
wake-Counted {n = n} {a = a} c =
    ap (λ b. if not b then some (a, false) else went_on (asl_engine_refill a)) (Counted-all c)
    ∙ if_not _ _ (all_to_go n a == 0)

-- Where the engine goes on, all workers are parked, and it takes in what waits.
pub wake-parked :
    {O : Type 0} {n : ℕ} {a d : Asl O}
    → Counted n a
    → asl_engine_wake a ≡ some (d, true)
    → ((k : ℕ) → k < n → (a.workers k).phase ≡ parked) × (asl_engine_refill a ≡ some d)
wake-parked {O} {n = n} {a = a} {d = d} c e =
    cases (all_to_go n a) refl (asl_engine_refill a) refl (sym (wake-Counted c) ∙ e)
  where
    cases :
        (k : ℕ)
        → all_to_go n a ≡ k
        → (o : Option (Asl O)) → asl_engine_refill a ≡ o
        → (if k == 0 then went_on o else some (a, false)) ≡ some (d, true)
        → ((k : ℕ) → k < n → (a.workers k).phase ≡ parked) × (asl_engine_refill a ≡ some d)
    cases zero none_to_go (some b) re q = (
      all_parked n a none_to_go,
      re ∙ ap some (ap (λ (p : Asl O × Bool). p.0) (some-injective q)),
    )
    cases zero none_to_go none re q = cc
    cases (suc k) more o re q = absurd (ground (arith, q))

-- Some worker that has sections to go.
unfinished :
    {O : Type 0} (n : ℕ) (a : Asl O)
    → 0 < all_to_go n a
    → (i : ℕ) × (i < n) × ((a.workers i).phase ≢ parked)
unfolding all_to_go
unfinished n a pos =
    let (i, lt, p) = sum_below_witness n (λ i. to_go (a.workers i).phase) pos in
    (i, lt, λ e. absurd (omega (arith, p, ap to_go e)))

-- Runs of sections, one after the other.
joined : {O : Type 0} {x y z : Asl O} → Steps x y → Steps y z → Steps x z
joined steps here = steps
joined steps (next rest st) = next (joined steps rest) st

-- The workers can run a cycle to its end.
finish :
    {O : Type 0} {n s : ℕ} {f : ℕ → O → O} {v : ℕ → Option O} {out : List O} {a : Asl O} (k : ℕ)
    (b : Asl O)
    → InCycle n s f v out a
    → Steps a b
    → all_to_go n b ≡ k
    → (c : Asl O) × Steps b c × (all_to_go n c ≡ 0)
finish zero b start steps e = (b, here, e)
finish {n = n} (suc k) b start steps e =
    let (i, lt, busy) = unfinished n b (omega (arith, e)) in
    let (d, st) = worker_goes_on (Steps-InCycle steps start) i lt busy in
    let (c, rest, done) =
      finish k d start (next steps st)
        (omega (arith, e, Step-to_go (Steps-InCycle steps start) st)) in
    (c, joined (next here st) rest, done)

-- A cycle ends by the engine's count. Of the at most `3 n` sections that its workers have still to
-- run, each that is run is one less, and a worker that is not parked can always run its next one
-- without a failing `assert`. While there is one to run the engine, whenever it wakes, waits again;
-- once there is none, it goes on, and the workers can always run up to there. The report of a worker
-- signals the engine exactly if it leaves none to run.
pub cycle_ends :
    {O : Type 0} {n s : ℕ} {f : ℕ → O → O} {v : ℕ → Option O} {out : List O} {a b : Asl O}
    → Between n s f v out a
    → Steps (asl_engine_begin a) b
    → (all_to_go n b ≤ n * 3)
      × ((c : Asl O) → Step b c → all_to_go n c + 1 ≡ all_to_go n b)
      × ((i : ℕ) → i < n → (b.workers i).phase ≢ parked → (c : Asl O) × Step b c)
      × (asl_engine_wake b
          ≡ (if all_to_go n b == 0 then went_on (asl_engine_refill b) else some (b, false)))
      × ((c : Asl O) × Steps b c × (asl_engine_wake c ≡ went_on (asl_engine_refill c)))
      × ((i : ℕ)
          → i < n
          → (b.workers i).phase ≡ moved
          → (worker_report b i).1 ≡ (all_to_go n (worker_report b i).0 == 0))
unfolding all_to_go worker_report
cycle_ends {n = n} {b = b} start steps =
    let c = Steps-InCycle steps (begin-InCycle start) in
    let (d, rest, done) = finish (all_to_go n b) b (begin-InCycle start) steps refl in
    (
      sum_below-le-mul n 3 _ (λ j _. to_go-le (b.workers j).phase),
      λ d st. Step-to_go c st,
      worker_goes_on c,
      wake-Counted (cycle-Counted start steps),
      (
        d,
        rest,
        wake-Counted (cycle-Counted start (joined steps rest))
            ∙ ap (λ k. if k == 0 then went_on (asl_engine_refill d) else some (d, false)) done,
      ),
      λ i lt e.
          Counted-all
            (cycle-Counted start (next steps (reports i (omega (arith, lt, c.line.sized)) e refl))),
    )
