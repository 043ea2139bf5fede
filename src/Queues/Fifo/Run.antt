-- ===== src/Queues/Fifo/Run.antt =====
-- Runs of the queue.
use mathlib.Core.Option
use multithreading_bible.Common.{
  ℕ, ◌-◌, ◌^◌, ◌<◌, ◌≡◌, refl, false, Option, none, some, List, [], ◌∷◌, arith,
}
use multithreading_bible.Common.Lists.{replicate, length-replicate}
use multithreading_bible.Queues.Spec.{Op, put, get, Reply, stored, got, run}
use multithreading_bible.Queues.Fifo.{Fifo, fifo_init_q, fifo_enqueue, fifo_deque}
use multithreading_bible.Queues.Fifo.Refines.{Represents, enqueue_refines}
use multithreading_bible.Queues.Fifo.Deque.{deque_refines}

-- A client's calls on the queue, with what they return; `none` if an `assert` fails.
unfoldable pub fifo_run : {A : Type 0} → Fifo A → List (Op A) → Option (List (Reply A))
fifo_run q [] = some []
fifo_run q (put p ∷ ops) = elim (fifo_enqueue q p) [
  | none ↦ none
  | some (b, q') ↦ Option.map (λ l. stored b ∷ l) (fifo_run q' ops)
]
fifo_run q (get ∷ ops) = elim (fifo_deque q) [
  | none ↦ none
  | some (p, q') ↦ Option.map (λ l. got p ∷ l) (fifo_run q' ops)
]

run-Represents :
    {A : Type 0} (ops : List (Op A)) {size : ℕ} {q : Fifo A} {xs : List A}
    → Represents size q xs
    → fifo_run q ops ≡ some (run size xs ops)
unfolding fifo_run run
run-Represents [] r = refl
run-Represents (put p ∷ ops) r =
    let (q', e, r') = enqueue_refines r p in rw (e, fifo_run, run-Represents ops r')
run-Represents (get ∷ ops) {xs = xs} r =
    let (q', e, r') = deque_refines xs r in rw (e, fifo_run, run-Represents ops r')

-- A new queue of `size` cells is valid and empty.
init-Represents :
    {A : Type 0} (size : ℕ)
    → 0 < size
    → size < 2 ^ 32
    → (q : Fifo A) × (fifo_init_q size false ≡ some q) × Represents size q []
unfolding fifo_init_q
init-Represents size pos narrow = (
  record {
    front = size - 1;
    rear = size - 1;
    count = 0;
    size = size;
    random_access = false;
    elem = replicate size none;
  },
  ground arith,
  record {
    valid = record {
      sequential = refl;
      storage = length-replicate size none;
      narrow = narrow;
      front_in = omega arith;
      count_in = omega arith;
      linked = refl;
    };
    sized = refl;
    holds = refl;
  },
)

-- A queue made by `Fifo_initQ` for sequential access, of up to 2^32 - 1 cells, answers every
-- sequence of `Fifo_enqueue` and `Fifo_deque` as a bounded first-in-first-out queue does, and no
-- `assert` fails.
pub fifo_refines :
    {A : Type 0} (size : ℕ) (ops : List (Op A))
    → 0 < size
    → size < 2 ^ 32
    → (q : Fifo A) × (fifo_init_q size false ≡ some q) × (fifo_run q ops ≡ some (run size [] ops))
fifo_refines size ops pos narrow =
    let (q, e, r) = init-Represents size pos narrow in (q, e, run-Represents ops r)
