-- ===== src/AssemblyLine/Tests.antt =====
-- Runs of a line of two workers on numbers, each of which appends its digit.
use multithreading_bible.Common.{
  ℕ, zero, suc, ◌+◌, ◌-◌, ◌*◌, ◌<◌, ◌≤◌, ◌≡◌, ◌≢◌, refl, Bool, true, false, Option, none, some,
  List, [], ◌∷◌, ◌++◌, arith, if◌then◌else◌, ◌==◌,
}
use multithreading_bible.Common.Lists.{get_or, set, replicate}
use multithreading_bible.Queues.Fifo.{
  Fifo, fifo_init_q, fifo_enqueue, fifo_deque, fifo_insert_or_replace_at_index,
}
use multithreading_bible.Queues.Fifo.Refines.{Represents}
use multithreading_bible.AssemblyLine.{
  Asl, wait, in_progress, parked, slot, assembly_line_get_new_assembly_line,
  assembly_line_register_worker_fns, assembly_line_create_new_worker_thread, init_worker_threads,
  assembly_line_init_worker_threads, worker_thread_init, worker_finish, worker_work, worker_visit,
  worker_move, worker_report, assembly_line_enqueue_new_item, asl_engine_begin, asl_engine_refill,
  asl_engine_wake, went_on, moved, assembly_line_engine_start, assembly_line_push_new_item,
}
use multithreading_bible.AssemblyLine.Places.{place, back}
use multithreading_bible.AssemblyLine.Cycle.{
  Step, visits, moves, reports, Steps, here, next, worked, and_maybe,
}
use multithreading_bible.AssemblyLine.Cycle.Shift.{Between, shifted, cycle_shifts}
use multithreading_bible.AssemblyLine.Cycle.Ready.{all_to_go}
use multithreading_bible.AssemblyLine.Cycle.Progress.{cycle_ends}
use multithreading_bible.AssemblyLine.Rounds.{
  Rounds, start, round, works, object_moves_on, object_finishes,
}
use multithreading_bible.AssemblyLine.Setup
use multithreading_bible.AssemblyLine.Setup.{register_all, Inits, new_line_ready}
use multithreading_bible.AssemblyLine.Late.{late_push_aborts, single_worker_keeps}

abbrev digit : ℕ → ℕ → ℕ
digit k o = o * 10 + (k + 1)

abbrev from_some : {A : Type 0} → A → Option A → A
from_some d none = d
from_some d (some a) = a

abbrev queue : ℕ → ℕ → Bool → List (Option ℕ) → Fifo ℕ
queue n c random l = record {
  front = n - 1;
  rear = n - 1;
  count = c;
  size = n;
  random_access = random;
  elem = l;
}

abbrev new_line : Asl ℕ
unfolding assembly_line_get_new_assembly_line fifo_init_q
new_line =
    from_some
      (record {
        asl_size = 0;
        asl_state = wait;
        asl_q = queue 1 0 true [];
        n_workers_ready = 0;
        workers = λ i. record { curr_slot = 0; work = none; initialized = false; phase = parked };
        has_engine = false;
        work_fns = [];
        wait_lst_fq = queue 50 0 false [];
        t_n = none;
        finished = [];
      })
      (assembly_line_get_new_assembly_line 2)

abbrev made : Asl ℕ
made = assembly_line_init_worker_threads (register_all digit 2 new_line)

abbrev first_pass : Asl ℕ → ℕ → Asl ℕ
first_pass a i = from_some a (worker_thread_init a i)

-- Worker 1 starts before worker 0.
abbrev ready : Asl ℕ
ready = first_pass (first_pass made 1) 0

all_below_2 : (P : ℕ → Type 0) → P 0 → P 1 → (k : ℕ) → k < 2 → P k
all_below_2 P p q zero lt = p
all_below_2 P p q (suc zero) lt = q
all_below_2 P p q (suc (suc k)) lt = absurd (omega arith)

inits : Inits made ready
unfolding assembly_line_get_new_assembly_line fifo_init_q register_all
    assembly_line_register_worker_fns assembly_line_init_worker_threads init_worker_threads
    assembly_line_create_new_worker_thread worker_thread_init
inits =
    Setup.next {b = first_pass made 1} 0
      (Setup.next {b = made} 1 Setup.here (omega arith) refl refl) (omega arith) refl refl

new_line_ready_example : Between 2 0 digit (λ _. none) [] ready
unfolding assembly_line_get_new_assembly_line fifo_init_q register_all
    assembly_line_register_worker_fns assembly_line_init_worker_threads init_worker_threads
    assembly_line_create_new_worker_thread worker_thread_init
new_line_ready_example =
    new_line_ready new_line (omega arith) (omega arith) refl inits
      (all_below_2 (λ k. (ready.workers k).initialized ≡ true) refl refl)

-- The two workers at slots `i` and `j`, parked; `c` objects in the slots, and `w` waiting.
abbrev line : ℕ → ℕ → ℕ → List (Option ℕ) → Fifo ℕ → List ℕ → Asl ℕ
line i j c l w out = record {
  asl_size = 2;
  asl_state = in_progress;
  asl_q = queue 2 c true l;
  n_workers_ready = 2;
  workers = λ k. record {
    curr_slot = from_some j (if k == 0 then some i else none);
    work = some (digit k);
    initialized = true;
    phase = parked;
  };
  has_engine = true;
  work_fns = some (digit 0) ∷ some (digit 1) ∷ [];
  wait_lst_fq = w;
  t_n = some 1;
  finished = out;
}

abbrev no_wait : Fifo ℕ
no_wait = queue 50 0 false (replicate 50 none)

-- The object 7 before worker 0.
abbrev loaded : Asl ℕ
loaded = line 0 1 1 (some 7 ∷ none ∷ []) no_wait []

abbrev objects : ℕ → Option ℕ
objects zero = some 7
objects (suc k) = none

loaded-Between : Between 2 0 digit objects [] loaded
unfolding place
loaded-Between = record {
  line = record {
    sized = refl;
    slots = record { random = refl; storage = refl; narrow = omega arith; counted = refl };
    length = refl;
    last = refl;
    works = λ k lt. refl;
  };
  base = omega arith;
  placed = all_below_2 (λ k. slot loaded k ≡ place 2 0 k) refl refl;
  holds = all_below_2 (λ k. get_or loaded.asl_q.elem (slot loaded k) none ≡ objects k) refl refl;
  finished = refl;
}

abbrev visit : Asl ℕ → ℕ → Asl ℕ
visit a i = from_some a (worker_visit a i)

abbrev report : Asl ℕ → ℕ → Asl ℕ
report a i = (worker_report a i).0

-- Worker 1 is the first to work, and the last to park.
abbrev cycle : Asl ℕ → Asl ℕ
cycle a =
    report (worker_move (report (worker_move (visit (visit (asl_engine_begin a) 1) 0) 0) 0) 1) 1

steps : Steps (asl_engine_begin loaded) (cycle loaded)
unfolding asl_engine_begin worker_visit worker_work worker_finish worker_move worker_report
    fifo_insert_or_replace_at_index
steps =
    let a0 = asl_engine_begin loaded in
    let a1 = visit a0 1 in
    let a2 = visit a1 0 in
    let a3 = worker_move a2 0 in
    let a4 = report a3 0 in
    let a5 = worker_move a4 1 in
    next {b = a5}
      (next {b = a4}
        (next {b = a3}
          (next {b = a2}
            (next {b = a1} (next here (visits 1 (omega arith) refl refl))
              (visits 0 (omega arith) refl refl))
            (moves 0 (omega arith) refl refl))
          (reports 0 (omega arith) refl refl))
        (moves 1 (omega arith) refl refl))
      (reports 1 (omega arith) refl refl)

cycle_shifts_example :
    Between 2 1 digit
      (shifted digit objects)
      (and_maybe [] (worked (digit 1) (objects 1)))
      (cycle loaded)
unfolding asl_engine_begin worker_visit worker_work worker_finish worker_move worker_report
    fifo_insert_or_replace_at_index back
cycle_shifts_example =
    cycle_shifts loaded-Between steps
      (all_below_2 (λ k. ((cycle loaded).workers k).phase ≡ parked) refl refl)

cycle_ends_example :
    (all_to_go 2 (asl_engine_begin loaded) ≤ 2 * 3)
    × ((c : Asl ℕ)
        → Step (asl_engine_begin loaded) c
        → all_to_go 2 c + 1 ≡ all_to_go 2 (asl_engine_begin loaded))
    × ((i : ℕ)
        → i < 2
        → ((asl_engine_begin loaded).workers i).phase ≢ parked
        → (c : Asl ℕ) × Step (asl_engine_begin loaded) c)
    × (asl_engine_wake (asl_engine_begin loaded) ≡ (
        if all_to_go 2 (asl_engine_begin loaded) == 0
        then went_on (asl_engine_refill (asl_engine_begin loaded))
        else some (asl_engine_begin loaded, false)))
    × ((c : Asl ℕ) × Steps (asl_engine_begin loaded) c
        × (asl_engine_wake c ≡ went_on (asl_engine_refill c)))
    × ((i : ℕ)
        → i < 2
        → ((asl_engine_begin loaded).workers i).phase ≡ moved
        → (worker_report (asl_engine_begin loaded) i).1
          ≡ (all_to_go 2 (worker_report (asl_engine_begin loaded) i).0 == 0))
cycle_ends_example = cycle_ends loaded-Between here

-- The line after a round, nobody having pushed.
abbrev after_round : Asl ℕ → Asl ℕ
after_round a = from_some a (asl_engine_refill (record (cycle a) { wait_lst_fq = no_wait }))

no_wait-Represents : Represents 50 no_wait []
no_wait-Represents = record {
  valid = record {
    sequential = refl;
    storage = refl;
    narrow = omega arith;
    front_in = omega arith;
    count_in = omega arith;
    linked = refl;
  };
  sized = refl;
  holds = refl;
}

round1 : Rounds loaded 1 (after_round loaded)
unfolding asl_engine_begin worker_visit worker_work worker_finish worker_move worker_report
    asl_engine_refill asl_engine_wake fifo_insert_or_replace_at_index fifo_deque
round1 = round no_wait [] start steps no_wait-Represents refl

object_moves_on_test :
    get_or (after_round loaded).asl_q.elem (slot (after_round loaded) 1) none
    ≡ some (works digit 0 1 7)
object_moves_on_test = object_moves_on 0 7 loaded-Between (omega arith) refl round1

abbrev second : Asl ℕ
second = after_round loaded

steps2 : Steps (asl_engine_begin second) (cycle second)
unfolding asl_engine_begin worker_visit worker_work worker_finish worker_move worker_report
    asl_engine_refill fifo_insert_or_replace_at_index fifo_deque
steps2 =
    let a0 = asl_engine_begin second in
    let a1 = visit a0 1 in
    let a2 = visit a1 0 in
    let a3 = worker_move a2 0 in
    let a4 = report a3 0 in
    let a5 = worker_move a4 1 in
    next {b = a5}
      (next {b = a4}
        (next {b = a3}
          (next {b = a2}
            (next {b = a1} (next here (visits 1 (omega arith) refl refl))
              (visits 0 (omega arith) refl refl))
            (moves 0 (omega arith) refl refl))
          (reports 0 (omega arith) refl refl))
        (moves 1 (omega arith) refl refl))
      (reports 1 (omega arith) refl refl)

round2 : Rounds loaded 2 (after_round second)
unfolding asl_engine_begin worker_visit worker_work worker_finish worker_move worker_report
    asl_engine_refill asl_engine_wake fifo_insert_or_replace_at_index fifo_deque
round2 = round no_wait [] round1 steps2 no_wait-Represents refl

object_finishes_example :
    (l : List ℕ) × ((after_round second).finished ≡ l ++ (works digit 0 2 7 ∷ []))
object_finishes_example = object_finishes 7 loaded-Between refl round2

finished_digits : (after_round second).finished ≡ 712 ∷ []
unfolding asl_engine_begin worker_visit worker_work worker_finish worker_move worker_report
    asl_engine_refill fifo_insert_or_replace_at_index fifo_deque
finished_digits = refl

-- 8 waits while 7 is at the last worker; worker 0 goes on, the last worker takes 7 out, and then 9
-- is pushed.
abbrev push : Asl ℕ → ℕ → Asl ℕ
push a o = (from_some (a, false) (assembly_line_push_new_item a o)).0

abbrev late : Asl ℕ
late = visit (worker_move (visit (push (asl_engine_begin second) 8) 0) 0) 1

late_aborts : asl_engine_refill (push late 9) ≡ none
unfolding asl_engine_begin worker_visit worker_work worker_finish worker_move worker_report
    asl_engine_refill fifo_insert_or_replace_at_index fifo_deque fifo_enqueue
    assembly_line_push_new_item assembly_line_enqueue_new_item assembly_line_engine_start
late_aborts = refl

late_push_aborts_example :
    (b : Asl ℕ) × (s : Bool) × (assembly_line_push_new_item late 9 ≡ some (b, s))
    × (asl_engine_refill b ≡ none)
unfolding asl_engine_begin worker_visit worker_work worker_finish worker_move worker_report
    asl_engine_refill fifo_insert_or_replace_at_index fifo_deque fifo_enqueue
    assembly_line_push_new_item assembly_line_enqueue_new_item assembly_line_engine_start
late_push_aborts_example =
    late_push_aborts late 9 8 []
      (record { random = refl; storage = refl; narrow = omega arith; counted = refl }) (omega arith)
      refl refl
      (record {
        valid = record {
          sequential = refl;
          storage = refl;
          narrow = omega arith;
          front_in = omega arith;
          count_in = omega arith;
          linked = refl;
        };
        sized = refl;
        holds = refl;
      })

single_worker_kept :
    (b : Asl ℕ) × (worker_work
        (assembly_line_init_worker_threads (record loaded { asl_size = 1; t_n = none }))
        0
        (some (digit 0))
        (some 7)
      ≡ some b)
    × (b.finished ≡ [])
    × (b.asl_q.elem ≡ set loaded.asl_q.elem 0 (some 71))
single_worker_kept =
    single_worker_keeps (record loaded { asl_size = 1; t_n = none }) (digit 0) 7 refl refl
