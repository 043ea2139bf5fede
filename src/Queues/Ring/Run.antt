-- ===== src/Queues/Ring/Run.antt =====
-- Calls on the upward queue, side by side with the same calls on the downward one.
use multithreading_bible.Common.{◌≡◌, refl, ap, false, some, List, [], ◌∷◌, arith}
use multithreading_bible.Queues.Spec.{Op, put, get, Reply, stored, got, run}
use multithreading_bible.Queues.Fifo.{Fifo, fifo_init_q}
use multithreading_bible.Queues.Fifo.Run.{fifo_run, fifo_refines}
use multithreading_bible.Queues.Ring.{Ring, default_size, init_q, enqueue, deque}
use multithreading_bible.Queues.Ring.Mirror.{
  mirror, IsInside, mirror-enqueue, mirror-deque, enqueue-IsInside, deque-IsInside,
}

-- A client's calls on the queue, with what they return.
pub ring_run : {A : Type 0} → Ring A → List (Op A) → List (Reply A)
ring_run q [] = []
ring_run q (put p ∷ ops) = let (b, q') = enqueue q p in stored b ∷ ring_run q' ops
ring_run q (get ∷ ops) = let (p, q') = deque q in got p ∷ ring_run q' ops

run-mirror :
    {A : Type 0} (ops : List (Op A)) {q : Ring A}
    → IsInside q
    → fifo_run (mirror q) ops ≡ some (ring_run q ops)
unfolding ring_run fifo_run
run-mirror [] r = refl
run-mirror (put p ∷ ops) r =
    rw (fifo_run, ring_run, mirror-enqueue r p, run-mirror ops (enqueue-IsInside r p)) refl
run-mirror (get ∷ ops) r =
    rw (fifo_run, ring_run, mirror-deque r, run-mirror ops (deque-IsInside r)) refl

new-IsInside : {A : Type 0} → IsInside (init_q {A = A})
new-IsInside = record {
  storage = refl;
  front_in = omega arith;
  rear_in = omega arith;
  count_in = omega arith;
  linked = refl;
}

new_mirror : {A : Type 0} → fifo_init_q default_size false ≡ some (mirror (init_q {A = A}))
unfolding fifo_init_q
new_mirror = refl

-- The queue of ProducerConsumer and a five-cell sequential queue of the thread library give the
-- same answers to every sequence of calls, and both answer as a bounded first-in-first-out queue
-- of five pointers does.
pub rings_agree :
    {A : Type 0} (ops : List (Op A))
    → (q : Fifo A) × (fifo_init_q default_size false ≡ some q)
      × (fifo_run q ops ≡ some (ring_run init_q ops))
      × (ring_run init_q ops ≡ run default_size [] ops)
rings_agree ops =
    let (q, e, f) = fifo_refines default_size ops (omega arith) (omega arith) in
    let same : q ≡ mirror init_q = cc (e, new_mirror) in
    let both = run-mirror ops new-IsInside in
    (mirror init_q, new_mirror, both, cc (ap (λ c. fifo_run c ops) same, both, f))
