-- ===== src/AssemblyLine/Late.antt =====
-- What goes wrong in the assembly line: objects that come in the middle of a cycle, and a line of
-- one worker.
use multithreading_bible.Common.{◌<◌, ◌≡◌, refl, ap, Bool, none, some, List, ◌∷◌, arith}
use multithreading_bible.Common.Lists.{get_or, set}
use multithreading_bible.Common.Sums.{put}
use multithreading_bible.Queues.Fifo.{Fifo}
use multithreading_bible.Queues.Fifo.Slots.{IsSlots, slots_lem}
use multithreading_bible.Queues.Fifo.Refines.{Represents}
use multithreading_bible.Queues.Fifo.Deque.{deque_refines}
use multithreading_bible.AssemblyLine.{
  Asl, visited, slot, at_phase, assembly_line_create_new_worker_thread, asl_engine_refill,
  assembly_line_enqueue_new_item, assembly_line_push_new_item, assembly_line_engine_start,
  assembly_line_init_worker_threads, init_worker_threads, worker_work, worker_finish,
}

module _ {O : Type 0} where
  -- The start of the engine leaves the line as it is.
  engine_start_same :
      (a : Asl O)
      → ((assembly_line_engine_start a).0.asl_q ≡ a.asl_q)
        × ((assembly_line_engine_start a).0.workers ≡ a.workers)
        × ((assembly_line_engine_start a).0.wait_lst_fq ≡ a.wait_lst_fq)
  unfolding assembly_line_engine_start
  engine_start_same a = ground arith

  -- Where the line is empty while an object still waits, which happens in the middle of a cycle once
  -- the last worker has taken its object out, a new object is put before worker 0; if that worker
  -- has already gone on to its next slot, the engine then finds the slot taken and its `assert`
  -- fails.
  pub late_push_aborts :
      (a : Asl O) (y x : O) (xs : List O)
      → IsSlots a.asl_q
      → slot a 0 < a.asl_q.size
      → a.asl_q.count ≡ 0
      → get_or a.asl_q.elem (slot a 0) none ≡ none
      → Represents 50 a.wait_lst_fq (x ∷ xs)
      → (b : Asl O) × (s : Bool) × (assembly_line_push_new_item a y ≡ some (b, s))
        × (asl_engine_refill b ≡ none)
  unfolding assembly_line_push_new_item asl_engine_refill assembly_line_enqueue_new_item
  late_push_aborts a y x xs v lt empty free r =
      let (q', done, v', at', off, sz) = slots_lem a.asl_q (some y) (slot a 0) v lt in
      let (w, taken, r') = deque_refines (x ∷ xs) r in
      let (same_q, same_ws, same_w) = engine_start_same (record a { asl_q = q' }) in
      (
        (assembly_line_engine_start (record a { asl_q = q' })).0,
        (assembly_line_engine_start (record a { asl_q = q' })).1,
        ground (arith, done),
        ground (arith, taken, same_w, ap (λ q. get_or (Fifo.elem q)) same_q, same_q, same_ws, at'),
      )

  -- In a line of one worker `Tn` is never set: the worker does its work, but no product is finished,
  -- and the object stays in the line.
  pub single_worker_keeps :
      (a : Asl O) (f : O → O) (o : O)
      → a.asl_size ≡ 1
      → a.t_n ≡ none
      → (b : Asl O) × (worker_work (assembly_line_init_worker_threads a) 0 (some f) (some o)
          ≡ some b)
        × (b.finished ≡ a.finished)
        × (b.asl_q.elem ≡ set a.asl_q.elem 0 (some (f o)))
  unfolding assembly_line_init_worker_threads init_worker_threads worker_work worker_finish
      assembly_line_create_new_worker_thread
  single_worker_keeps a f o one unset = rw (ap (init_worker_threads a 0) one) (
    record (at_phase
        (record a { workers = put a.workers 0 (assembly_line_create_new_worker_thread 0) }) 0
        visited) { asl_q = record a.asl_q { elem = set a.asl_q.elem 0 (some (f o)) } },
    ground (arith, unset),
    refl,
    refl,
  )
