-- ===== src/AssemblyLine/Rounds.antt =====
-- An object's way down the line, over many cycles.
use multithreading_bible.Common.{
  ℕ, zero, suc, ◌+◌, ◌-◌, ◌<◌, ◌≡◌, refl, sym, ap, ◌∙◌, subst, Option, none, some, true, List, [],
  ◌∷◌, ◌++◌, arith,
}
use multithreading_bible.Common.Lists.{get_or}
use multithreading_bible.Queues.Spec.{pop}
use multithreading_bible.Queues.Fifo.{Fifo}
use multithreading_bible.Queues.Fifo.Refines.{Represents}
use multithreading_bible.AssemblyLine.{Asl, slot, asl_engine_begin, asl_engine_wake}
use multithreading_bible.AssemblyLine.Places.{back}
use multithreading_bible.AssemblyLine.Cycle.{Steps, worked, and_maybe}
use multithreading_bible.AssemblyLine.Cycle.Shift.{Between, shifted, cycle_shifts, some-injective}
use multithreading_bible.AssemblyLine.Cycle.Ready.{cycle-Counted, list-Counted}
use multithreading_bible.AssemblyLine.Cycle.Progress.{wake-parked}
use multithreading_bible.AssemblyLine.Refill.{entered, list-Between, refill_lem}

-- Rounds of the engine: it starts a cycle, which the workers run in any order, while clients may
-- add to the wait list, until its count lets it go on, and then takes in a waiting object.
pub data Rounds {O : Type 0} (a : Asl O) : ℕ → Asl O → Type 0 where
  start : Rounds a 0 a
  round :
      {m : ℕ} {b c d : Asl O} (w : Fifo O) (xs : List O)
      → Rounds a m b
      → Steps (asl_engine_begin b) c
      → Represents 50 w xs
      → asl_engine_wake (record c { wait_lst_fq = w }) ≡ some (d, true)
      → Rounds a (suc m) d

module _ {O : Type 0} where
  -- The work of `m` workers, from `k` on, in their order.
  pub works : (ℕ → O → O) → ℕ → ℕ → O → O
  works f k zero o = o
  works f k (suc m) o = f (k + m) (works f k m o)

  round-Between :
      {n s : ℕ} {f : ℕ → O → O} {v : ℕ → Option O} {out : List O} {b c d : Asl O} (w : Fifo O)
      (xs : List O)
      → Between n s f v out b
      → Steps (asl_engine_begin b) c
      → Represents 50 w xs
      → asl_engine_wake (record c { wait_lst_fq = w }) ≡ some (d, true)
      → Between n
          (back n s)
          f
          (entered (pop xs).0 (shifted f v))
          (and_maybe out (worked (f (n - 1)) (v (n - 1))))
          d
  round-Between {n} {s} {f} {v} {out} w xs from steps r wakes =
      let (all, done) = wake-parked (list-Counted w (cycle-Counted from steps)) wakes in
      let (d', done', e, _) = refill_lem xs (list-Between w (cycle_shifts from steps all)) refl r in
      subst (Between n (back n s) f (entered (pop xs).0 (shifted f v)) _)
        (some-injective (sym done' ∙ done)) e

  -- After `m` rounds, between two cycles, `v k` having been before worker `k` at the start: it is
  -- before worker `k + m`, or has just been finished.
  record Way (n : ℕ) (f : ℕ → O → O) (k m : ℕ) (o : O) (b : Asl O) : Type 0 where
    s : ℕ
    v : ℕ → Option O
    out : List O
    between : Between n s f v out b
    there : k + m < n → v (k + m) ≡ some (works f k m o)
    done : k + m ≡ n → (l : List O) × (out ≡ l ++ (works f k m o ∷ []))

  Rounds-Way :
      {n s : ℕ} {f : ℕ → O → O} {v : ℕ → Option O} {out : List O} {a b : Asl O} {m : ℕ} (k : ℕ)
      (o : O)
      → Between n s f v out a
      → k < n
      → v k ≡ some o
      → Rounds a m b
      → Way n f k m o b
  unfolding works
  Rounds-Way {s = s} {v = v} {out = out} k o c lt e start = record {
    s = s;
    v = v;
    out = out;
    between = c;
    there = λ _. ap v {x = k + 0} {y = k} (omega arith) ∙ e;
    done = λ z. absurd (omega arith);
  }
  Rounds-Way {n = n} {f = f} k o c lt e (round {m = m} w xs before steps r wakes) =
      let y = Rounds-Way k o c lt e before in
      record {
        s = _;
        v = _;
        out = _;
        between = round-Between w xs y.between steps r wakes;
        there = λ z.
            ap (entered (pop xs).0 (shifted f y.v)) {x = k + suc m} {y = suc (k + m)} (omega arith)
            ∙ ap (worked (f (k + m))) (y.there (omega arith));
        done = λ z. (
          y.out,
          ap (λ j. and_maybe y.out (worked (f j) (y.v j))) {x = n - 1} {y = k + m} (omega arith)
              ∙ ap (λ p. and_maybe y.out (worked (f (k + m)) p)) (y.there (omega arith)),
        );
      }

  -- An object before worker `k` is before worker `k + m` after `m` rounds, as long as there is such a
  -- worker, and the works of the workers from `k` on have been done on it, each once and in their
  -- order. In each round the workers run in any order, and clients may add to the wait list.
  pub object_moves_on :
      {n s : ℕ} {f : ℕ → O → O} {v : ℕ → Option O} {out : List O} {a b : Asl O} {m : ℕ} (k : ℕ)
      (o : O)
      → Between n s f v out a
      → k + m < n
      → v k ≡ some o
      → Rounds a m b
      → get_or b.asl_q.elem (slot b (k + m)) none ≡ some (works f k m o)
  object_moves_on {m = m} k o c lt e r =
      let y = Rounds-Way k o c (omega (arith, lt)) e r in y.between.holds (k + m) lt ∙ y.there lt

  -- An object before worker 0 of `n` is the last product finished after `n` rounds, and the work of
  -- every worker has been done on it, once and in their order.
  pub object_finishes :
      {n s : ℕ} {f : ℕ → O → O} {v : ℕ → Option O} {out : List O} {a b : Asl O} (o : O)
      → Between n s f v out a
      → v 0 ≡ some o
      → Rounds a n b
      → (l : List O) × (b.finished ≡ l ++ (works f 0 n o ∷ []))
  object_finishes o c e r =
      let y = Rounds-Way 0 o c (omega (arith, c.base)) e r in
      let (l, q) = y.done (omega arith) in (l, y.between.finished ∙ q)
