-- ===== src/AssemblyLine.antt =====
-- ThreadSyncAdv/threadlib/threadlib.c, assembly line: a worker thread for each kind of work goes
-- round the slots of a queue, one slot on in each cycle, and an engine thread starts the cycles.
pub mod Places
pub mod Cycle
pub mod Refill
pub mod Rounds
pub mod Setup
pub mod Late
pub mod Tests
use multithreading_bible.Common.{
  ℕ, ◌+◌, ◌-◌, ◌%◌, ◌^◌, Bool, true, false, not, Option, none, some, List, [], ◌∷◌, ◌++◌, ltb, ◌==◌,
  if◌then◌else◌, is_self, is_set,
}
use multithreading_bible.Common.Lists.{get_or, set, replicate}
use multithreading_bible.Common.Sums.{put}
use multithreading_bible.Queues.Fifo.{
  Fifo, fifo_init_q, is_queue_full, fifo_enqueue, fifo_deque, fifo_insert_or_replace_at_index,
}

-- `asl_state_t`
pub data AslState : Type 0 where
  not_started in_progress wait stopped : AslState

-- Where a worker thread is in its loop: blocked on its condition variable, woken, past its work on
-- the slot, or past the change of `curr_slot`.
pub data Phase : Type 0 where
  parked running visited moved : Phase

-- `asl_worker_t`, of objects `O` that a work function changes in place.
pub record Worker (O : Type 0) : Type 0 where
  pub curr_slot : ℕ
  pub work : Option (O → O)
  pub initialized : Bool
  pub phase : Phase

-- `assembly_line_t`; the worker `i` is the one made `i`-th, `t_n` the number of `Tn`, `has_engine`
-- says that `asl_engine_thread` is set, and `finished` are the objects that
-- `asl_process_finished_product` was called with.
pub record Asl (O : Type 0) : Type 0 where
  pub asl_size : ℕ
  pub asl_state : AslState
  pub asl_q : Fifo O
  pub n_workers_ready : ℕ
  pub workers : ℕ → Worker O
  pub has_engine : Bool
  pub work_fns : List (Option (O → O))
  pub wait_lst_fq : Fifo O
  pub t_n : Option ℕ
  pub finished : List O

module _ {O : Type 0} where
  abbrev pub slot : Asl O → ℕ → ℕ
  slot a i = (a.workers i).curr_slot

  abbrev pub at_phase : Asl O → ℕ → Phase → Asl O
  at_phase a i p = record a { workers = put a.workers i (record (a.workers i) { phase = p }) }

  -- `none` is a failed `assert`, also below.
  pub assembly_line_get_new_assembly_line : ℕ → Option (Asl O)
  assembly_line_get_new_assembly_line size = elim (fifo_init_q {A = O} size true) [
    | none ↦ none
    | some q ↦ elim (fifo_init_q {A = O} 50 false) [
      | none ↦ none
      | some w ↦ some (record {
        asl_size = size;
        asl_state = not_started;
        asl_q = q;
        n_workers_ready = 0;
        workers = λ i. record { curr_slot = 0; work = none; initialized = false; phase = parked };
        has_engine = false;
        work_fns = replicate size none;
        wait_lst_fq = w;
        t_n = none;
        finished = [];
      })
    ]
  ]

  -- A slot beyond the array is out of bounds in the source, and changes nothing here.
  pub assembly_line_register_worker_fns : Asl O → ℕ → (O → O) → Asl O
  assembly_line_register_worker_fns a slot_no f = record a {
    work_fns = set a.work_fns slot_no (some f);
  }

  pub assembly_line_create_new_worker_thread : ℕ → Worker O
  assembly_line_create_new_worker_thread slot_no = record {
    curr_slot = slot_no;
    work = none;
    initialized = false;
    phase = running;
  }

  -- The loop of `assembly_line_init_worker_threads`, from worker `i` on, with `n` to go.
  pub init_worker_threads : Asl O → ℕ → ℕ → Asl O
  unfolding assembly_line_create_new_worker_thread
  init_worker_threads a i ℕ.zero = a
  init_worker_threads a i (ℕ.suc n) =
      init_worker_threads
        (record a {
          workers = put a.workers i (assembly_line_create_new_worker_thread i);
          t_n = if i == 0 then a.t_n else if i == a.asl_size - 1 then some i else a.t_n;
        })
        (i + 1) n

  pub assembly_line_init_worker_threads : Asl O → Asl O
  unfolding init_worker_threads
  assembly_line_init_worker_threads a = init_worker_threads a 0 a.asl_size

  -- `true`: the caller of `assembly_line_init_worker_threads` still waits.
  pub asl_wait_until_all_workers_ready : Asl O → Bool
  asl_wait_until_all_workers_ready a = not (a.n_workers_ready == a.asl_size)

  -- The first pass of a worker, up to its wait.
  pub worker_thread_init : Asl O → ℕ → Option (Asl O)
  worker_thread_init a i =
      let f = get_or a.work_fns (slot a i) none in
      if is_set f
      then some (record a {
        workers =
            put a.workers i (record (a.workers i) { work = f; initialized = true; phase = parked });
        n_workers_ready = (a.n_workers_ready + 1) % 2 ^ 32;
      })
      else none

  -- The last worker takes the finished object out of the line.
  pub worker_finish : Asl O → ℕ → Option (Asl O)
  worker_finish a i =
      if is_self a.t_n i
      then elim (fifo_insert_or_replace_at_index a.asl_q none (slot a i)) [
        | none ↦ none
        | some (none, q) ↦ some (record a { asl_q = q })
        | some (some o, q) ↦ some (record a { asl_q = q; finished = a.finished ++ (o ∷ []) })
      ]
      else some a

  -- The worker does its work on the object in its slot, in place.
  pub worker_work : Asl O → ℕ → Option (O → O) → Option O → Option (Asl O)
  unfolding worker_finish
  worker_work a i f none = some (at_phase a i visited)
  worker_work a i none (some o) = none
  worker_work a i (some f) (some o) =
      worker_finish
        (record (at_phase a i visited) {
          asl_q = record a.asl_q { elem = set a.asl_q.elem (slot a i) (some (f o)) };
        })
        i

  pub worker_visit : Asl O → ℕ → Option (Asl O)
  unfolding worker_work
  worker_visit a i = worker_work a i (a.workers i).work (get_or a.asl_q.elem (slot a i) none)

  pub worker_move : Asl O → ℕ → Asl O
  worker_move a i = record a {
    workers = put a.workers i (record (a.workers i) {
      curr_slot = if slot a i == 0 then a.asl_size - 1 else slot a i - 1;
      phase = moved;
    });
  }

  -- The worker counts itself ready and waits; `true`: it has signalled the engine.
  pub worker_report : Asl O → ℕ → Asl O × Bool
  worker_report a i =
      let n = (a.n_workers_ready + 1) % 2 ^ 32 in
      (record (at_phase a i parked) { n_workers_ready = n }, n == a.asl_size)

  pub assembly_line_enqueue_new_item : Asl O → O → Option (Asl O)
  assembly_line_enqueue_new_item a object =
      if is_set (get_or a.asl_q.elem (slot a 0) none)
      then none
      else elim (fifo_insert_or_replace_at_index a.asl_q (some object) (slot a 0)) [
        | none ↦ none
        | some (p, q) ↦ some (record a { asl_q = q })
      ]

  -- The engine starts a cycle: it signals every worker, which are all parked.
  pub asl_engine_begin : Asl O → Asl O
  asl_engine_begin a = record a {
    asl_state = in_progress;
    n_workers_ready = 0;
    workers =
        λ i. if ltb i a.asl_size then record (a.workers i) { phase = running } else a.workers i;
  }

  -- The engine after the loop in which it waits for the workers.
  pub asl_engine_refill : Asl O → Option (Asl O)
  unfolding assembly_line_enqueue_new_item
  asl_engine_refill a = elim (fifo_deque a.wait_lst_fq) [
    | none ↦ none
    | some (none, w) ↦ some (record a { wait_lst_fq = w })
    | some (some item, w) ↦ assembly_line_enqueue_new_item (record a { wait_lst_fq = w }) item
  ]

  abbrev pub went_on : Option (Asl O) → Option (Asl O × Bool)
  went_on none = none
  went_on (some a) = some (a, true)

  -- The engine's loop from its test on, which it comes to after the signals and after each wakeup: it
  -- waits again, `false`, or goes on, `true`.
  pub asl_engine_wake : Asl O → Option (Asl O × Bool)
  unfolding asl_engine_refill
  asl_engine_wake a =
      if not (a.n_workers_ready == a.asl_size)
      then some (a, false)
      else went_on (asl_engine_refill a)

  -- It goes on with the next cycle, `true`, or waits.
  pub asl_engine_next : Asl O → Asl O × Bool
  asl_engine_next a =
      if not (a.asl_q.count == 0) then (a, true) else (record a { asl_state = wait }, false)

  -- `true`: the engine was signalled.
  pub assembly_line_engine_start : Asl O → Asl O × Bool
  assembly_line_engine_start a =
      if not a.has_engine then (record a { has_engine = true }, false) else elim a.asl_state [
        | not_started ↦ (a, false)
        | in_progress ↦ (a, false)
        | wait ↦ (record a { asl_state = in_progress }, true)
        | stopped ↦ (a, false)
      ]

  abbrev started : Option (Asl O) → Option (Asl O × Bool)
  started none = none
  started (some a) = some (assembly_line_engine_start a)

  pub assembly_line_push_new_item : Asl O → O → Option (Asl O × Bool)
  unfolding assembly_line_enqueue_new_item assembly_line_engine_start
  assembly_line_push_new_item a new_item =
      if a.asl_q.count == 0
      then started (assembly_line_enqueue_new_item a new_item)
      else if not (is_queue_full a.wait_lst_fq)
      then elim (fifo_enqueue a.wait_lst_fq (some new_item)) [
        | none ↦ none
        | some (b, w) ↦ some (assembly_line_engine_start (record a { wait_lst_fq = w }))
      ]
      else none
