-- ===== src/Queues/Tests.antt =====
-- Runs of the queues.
use multithreading_bible.Common.{ℕ, ◌≡◌, ◌≢◌, refl, true, false, none, some, List, [], ◌∷◌, arith}
use multithreading_bible.Common.Lists.{get_or}
use multithreading_bible.Queues.Spec.{Op, put, get, stored, got, run}
use multithreading_bible.Queues.Fifo.{Fifo, fifo_init_q, fifo_insert_or_replace_at_index}
use multithreading_bible.Queues.Fifo.Run.{fifo_run, fifo_refines}
use multithreading_bible.Queues.Ring.{init_q}
use multithreading_bible.Queues.Ring.Run.{ring_run, rings_agree}
use multithreading_bible.Queues.Fifo.Slots.{IsSlots, slots_lem}

abbrev script : List (Op ℕ)
script =
    put (some 7)
    ∷ put none
    ∷ put (some 8)
    ∷ put (some 9)
    ∷ get
    ∷ put (some 9)
    ∷ get
    ∷ get
    ∷ get
    ∷ []

-- Two cells: the third `put` finds the queue full, the last `get` finds it empty.
run-script :
    run 2 [] script
    ≡ stored true
      ∷ stored false
      ∷ stored true
      ∷ stored false
      ∷ got (some 7)
      ∷ stored true
      ∷ got (some 8)
      ∷ got (some 9)
      ∷ got none
      ∷ []
unfolding run
run-script = refl

fifo_refines_example :
    (q : Fifo ℕ) × (fifo_init_q 2 false ≡ some q) × (fifo_run q script ≡ some (run 2 [] script))
fifo_refines_example = fifo_refines 2 script (omega arith) (omega arith)

abbrev slots : Fifo ℕ
slots = record {
  front = 2;
  rear = 2;
  count = 1;
  size = 3;
  random_access = true;
  elem = none ∷ some 5 ∷ none ∷ [];
}

slots-IsSlots : IsSlots slots
slots-IsSlots = record { random = refl; storage = refl; narrow = omega arith; counted = refl }

slots_test :
    (q' : Fifo ℕ) × (fifo_insert_or_replace_at_index slots none 1 ≡ some (some 5, q'))
    × IsSlots q'
    × (get_or q'.elem 1 none ≡ none)
    × ((j : ℕ) → 1 ≢ j → get_or q'.elem j none ≡ get_or slots.elem j none)
    × (q'.size ≡ 3)
slots_test = slots_lem slots none 1 slots-IsSlots (omega arith)

rings_agree_example :
    (q : Fifo ℕ) × (fifo_init_q 5 false ≡ some q)
    × (fifo_run q script ≡ some (ring_run init_q script))
    × (ring_run init_q script ≡ run 5 [] script)
rings_agree_example = rings_agree script
