-- ===== src/AssemblyLine/Cycle/Shift.antt =====
-- A cycle moves every object on by one worker, in whatever order the workers run.
use multithreading_bible.Common.{
  ℕ, ◌-◌, ◌<◌, ◌≡◌, refl, sym, ap, ◌∙◌, subst, true, Option, none, some, List, arith, if◌then◌else◌,
  ℕ_discrete,
}
use multithreading_bible.Common.Lists.{get_or}
use multithreading_bible.Common.Sums.{put}
use multithreading_bible.Sync.Change.{put_at}
use multithreading_bible.AssemblyLine.{
  Phase, parked, running, moved, Worker, Asl, slot, worker_visit, worker_move, worker_report,
  asl_engine_begin,
}
use multithreading_bible.AssemblyLine.Places.{
  place, back, back_lem, back-lt, place-lt, place_apart, back-place, place-back-suc,
  place-back-zero,
}
use multithreading_bible.AssemblyLine.Cycle.{
  is_done, is_away, Step, visits, moves, reports, Steps, here, next, worked, left, and_maybe,
  IsLine, InCycle, Visited, work_lem,
}

module _ {O : Type 0} {n s : ℕ} {f : ℕ → O → O} {v : ℕ → Option O} {out : List O} {a : Asl O}
    (c : InCycle n s f v out a) where
  -- A worker that has not begun stands at its slot, which holds what it held.
  at_slot : (i : ℕ) → i < n → (a.workers i).phase ≡ running → slot a i ≡ place n s i
  at_slot i lt e = ground (arith, c.placed i lt)

  in_slot :
      (i : ℕ) → i < n → (a.workers i).phase ≡ running → get_or a.asl_q.elem (slot a i) none ≡ v i
  in_slot i lt e =
      ap (λ j. get_or a.asl_q.elem j none) (at_slot i lt e) ∙ ground (arith, c.holds i lt)

  Visited-InCycle :
      {b : Asl O} (i : ℕ)
      → i < n
      → (a.workers i).phase ≡ running
      → Visited n f i (v i) a b
      → InCycle n s f v out b
  Visited-InCycle {b} i lt e w = record {
    line = w.line;
    base = c.base;
    placed = λ k lk. ground (arith, c.placed k lk, w.workers k);
    holds = λ k lk. elim (ℕ_discrete k i) [
      | yes q ↦ here_holds k q
      | no ne ↦
          w.others (place n s k)
            (λ q. place_apart n s i k c.base lt lk (λ r. ne (sym r)) (sym (at_slot i lt e) ∙ q))
          ∙ ground (arith, c.holds k lk, w.workers k)
    ];
    finished = ground (arith, c.finished, w.finished, w.workers (n - 1));
  }
    where
      here_holds :
          (k : ℕ)
          → k ≡ i
          → get_or b.asl_q.elem (place n s k) none
            ≡ (if is_done (b.workers k).phase then left n f k (v k) else v k)
      here_holds k q =
          ap (λ j. get_or b.asl_q.elem (place n s j) none) q
          ∙ ap (λ j. get_or b.asl_q.elem j none) (sym (at_slot i lt e))
          ∙ w.cell
          ∙ ap (λ j. left n f j (v j)) (sym q)
          ∙ sym (
              ap (λ (p : Phase). if is_done p then left n f k (v k) else v k)
                (ap (λ (u : Worker O). u.phase) (w.workers k ∙ put_at a.workers i _ k q)))

  pub visit_lem :
      (i : ℕ)
      → i < n
      → (a.workers i).phase ≡ running
      → (b : Asl O) × (worker_visit a i ≡ some b) × Visited n f i (v i) a b
  unfolding worker_visit
  visit_lem i lt e =
      let (b, done, w) =
        work_lem a i (v i) c.line lt
          (subst (λ j. j < n) (sym (at_slot i lt e)) (place-lt n s i c.base lt)) (in_slot i lt e) in
      (b, rw (c.line.works i lt, in_slot i lt e) done, w)

  -- Another place in the loop, and another slot, of worker `i`.
  other-InCycle :
      (i j : ℕ) (p : Phase)
      → i < n
      → is_done (a.workers i).phase ≡ true
      → is_done p ≡ true
      → j ≡ (if is_away p then back n (place n s i) else place n s i)
      → InCycle n s f v out (record a {
        workers = put a.workers i (record (a.workers i) { curr_slot = j; phase = p });
      })
  other-InCycle i j p lt d d' e = record {
    line = record {
      sized = c.line.sized;
      slots = c.line.slots;
      length = c.line.length;
      last = c.line.last;
      works = λ k lk. ground (arith, c.line.works k lk);
    };
    base = c.base;
    placed = λ k lk. ground (arith, c.placed k lk);
    holds = λ k lk. ground (arith, c.holds k lk);
    finished = ground (arith, c.finished);
  }

-- `n_workers_ready` does not matter.
ready-InCycle :
    {O : Type 0} {n s : ℕ} {f : ℕ → O → O} {v : ℕ → Option O} {out : List O} {a : Asl O} (m : ℕ)
    → InCycle n s f v out a
    → InCycle n s f v out (record a { n_workers_ready = m })
ready-InCycle m c = record {
  line = record {
    sized = c.line.sized;
    slots = c.line.slots;
    length = c.line.length;
    last = c.line.last;
    works = c.line.works;
  };
  base = c.base;
  placed = c.placed;
  holds = c.holds;
  finished = c.finished;
}

pub some-injective : {A : Type 0} {x y : A} → some x ≡ some y → x ≡ y
some-injective e = cc

-- Sections of the workers keep the cycle, in whatever order.
Step-InCycle :
    {O : Type 0} {n s : ℕ} {f : ℕ → O → O} {v : ℕ → Option O} {out : List O} {a b : Asl O}
    → Step a b
    → InCycle n s f v out a
    → InCycle n s f v out b
unfolding worker_move worker_report
Step-InCycle {n = n} {s} {f} {v} {out} {a} (visits i lt e done) c =
    let (b', done', c') = visit_lem c i (omega (arith, lt, c.line.sized)) e in
    subst (InCycle n s f v out) (some-injective (sym done' ∙ done))
      (Visited-InCycle c i (omega (arith, lt, c.line.sized)) e c')
Step-InCycle {n = n} {s} {f} {v} {out} {a} (moves i lt e q) c =
    subst (InCycle n s f v out) (sym q) (
      other-InCycle c i _ moved ilt (ground arith) refl
        (ground (arith, c.placed i ilt, c.line.sized, back_lem n (slot a i))))
  where
    ilt : i < n
    ilt = omega (arith, lt, c.line.sized)
Step-InCycle {n = n} {s} {f} {v} {out} {a} (reports i lt e q) c =
    subst (InCycle n s f v out) (sym q) (
      ready-InCycle _
        (other-InCycle c i _ parked ilt (ground arith) refl (ground (arith, c.placed i ilt))))
  where
    ilt : i < n
    ilt = omega (arith, lt, c.line.sized)

pub Steps-InCycle :
    {O : Type 0} {n s : ℕ} {f : ℕ → O → O} {v : ℕ → Option O} {out : List O} {a b : Asl O}
    → Steps a b
    → InCycle n s f v out a
    → InCycle n s f v out b
Steps-InCycle here c = c
Steps-InCycle (next r st) c = Step-InCycle st (Steps-InCycle r c)

-- Between two cycles, worker 0 at slot `s`, the slot of worker `k` with `v k`.
pub record Between {O : Type 0} (n s : ℕ) (f : ℕ → O → O) (v : ℕ → Option O) (out : List O)
    (a : Asl O) : Type 0 where
  pub line : IsLine n f a
  pub base : s < n
  pub placed : (k : ℕ) → k < n → slot a k ≡ place n s k
  pub holds : (k : ℕ) → k < n → get_or a.asl_q.elem (slot a k) none ≡ v k
  pub finished : a.finished ≡ out

-- What stands before worker `k` once all have worked and moved on.
abbrev pub shifted : {O : Type 0} → (ℕ → O → O) → (ℕ → Option O) → ℕ → Option O
shifted f v ℕ.zero = none
shifted f v (ℕ.suc k) = worked (f k) (v k)

pub begin-InCycle :
    {O : Type 0} {n s : ℕ} {f : ℕ → O → O} {v : ℕ → Option O} {out : List O} {a : Asl O}
    → Between n s f v out a
    → InCycle n s f v out (asl_engine_begin a)
unfolding asl_engine_begin
begin-InCycle b = record {
  line = record {
    sized = b.line.sized;
    slots = b.line.slots;
    length = b.line.length;
    last = b.line.last;
    works = λ k lt. ground (arith, b.line.works k lt);
  };
  base = b.base;
  placed = λ k lt. ground (arith, b.placed k lt, b.line.sized);
  holds = λ k lt. ground (arith, b.holds k lt, b.placed k lt, b.line.sized);
  finished = ground (arith, b.finished, b.line.sized, b.base);
}

-- A cycle that the engine starts with the objects `v` before the workers, run to the end by the
-- workers in any order, leaves before worker 0 nothing, before worker `k + 1` the object that was
-- before worker `k` with the work of `k` done, and finishes the object of the last worker.
pub cycle_shifts :
    {O : Type 0} {n s : ℕ} {f : ℕ → O → O} {v : ℕ → Option O} {out : List O} {a b : Asl O}
    → Between n s f v out a
    → Steps (asl_engine_begin a) b
    → ((k : ℕ) → k < n → (b.workers k).phase ≡ parked)
    → Between n (back n s) f (shifted f v) (and_maybe out (worked (f (n - 1)) (v (n - 1)))) b
cycle_shifts {n = n} {s} {f} {v} {out} {a} {b} start steps all = record {
  line = c.line;
  base = back-lt n s c.base;
  placed = placed;
  holds = holds;
  finished = ground (arith, c.finished, all (n - 1) (omega (arith, c.base)));
}
  where
    c : InCycle n s f v out b
    c = Steps-InCycle steps (begin-InCycle start)

    placed : (k : ℕ) → k < n → slot b k ≡ place n (back n s) k
    placed k lt = ground (arith, c.placed k lt, all k lt) ∙ back-place n s k c.base lt

    was : (k : ℕ) → k < n → get_or b.asl_q.elem (place n s k) none ≡ left n f k (v k)
    was k lt = ground (arith, c.holds k lt, all k lt)

    holds : (k : ℕ) → k < n → get_or b.asl_q.elem (slot b k) none ≡ shifted f v k
    holds ℕ.zero lt =
        ap (λ j. get_or b.asl_q.elem j none) (placed 0 lt ∙ place-back-zero n s c.base)
        ∙ was (n - 1) (omega arith)
        ∙ ground arith
    holds (ℕ.suc k) lt =
        ap (λ j. get_or b.asl_q.elem j none) (placed (ℕ.suc k) lt ∙ place-back-suc n s k c.base lt)
        ∙ was k (omega arith)
        ∙ ground arith
