-- ===== src/AssemblyLine/Cycle.antt =====
-- One cycle of the assembly line: what holds in it, and what the work of one worker does.
pub mod Shift
pub mod Ready
pub mod Progress
use multithreading_bible.Common.{
  ℕ, ◌+◌, ◌-◌, ◌<◌, ◌≡◌, ◌≢◌, refl, sym, ap, ◌∙◌, subst, Bool, true, false, Option, none, some,
  List, [], ◌∷◌, ◌++◌, arith, ◌==◌, if◌then◌else◌, ℕ_discrete, ==_iff, is_self,
}
use multithreading_bible.Common.Lists.{get_or, set, length-set, get_or-set_self, get_or-set_ne}
use multithreading_bible.Common.Sums.{put}
use multithreading_bible.Sync.Change.{put_self, put_ne, put_at}
use multithreading_bible.Queues.Fifo.{Fifo, fifo_insert_or_replace_at_index}
use multithreading_bible.Queues.Fifo.Slots.{IsSlots, slots_lem, used, used-set, one_if}
use multithreading_bible.AssemblyLine.{
  Phase, parked, running, visited, moved, Worker, Asl, slot, at_phase, worker_finish, worker_work,
  worker_visit, worker_move, worker_report,
}
use multithreading_bible.AssemblyLine.Places.{place, back, place-lt, place_apart, back-place}

-- The worker is past its work, or past the change of its slot, in this cycle.
abbrev pub is_done : Phase → Bool
is_done running = false
is_done visited = true
is_done moved = true
is_done parked = true

abbrev pub is_away : Phase → Bool
is_away running = false
is_away visited = false
is_away moved = true
is_away parked = true

-- A section of a worker: at its slot, to the next slot, and to its wait.
pub data Step {O : Type 0} (a b : Asl O) : Type 0 where
  visits :
      (i : ℕ)
      → i < a.asl_size
      → (a.workers i).phase ≡ running
      → worker_visit a i ≡ some b
      → Step a b
  moves : (i : ℕ) → i < a.asl_size → (a.workers i).phase ≡ visited → b ≡ worker_move a i → Step a b
  reports :
      (i : ℕ) → i < a.asl_size → (a.workers i).phase ≡ moved → b ≡ (worker_report a i).0 → Step a b

pub data Steps {O : Type 0} (a : Asl O) : Asl O → Type 0 where
  here : Steps a a
  next : {b c : Asl O} → Steps a b → Step b c → Steps a c

module _ {O : Type 0} where
  abbrev pub worked : (O → O) → Option O → Option O
  worked g none = none
  worked g (some o) = some (g o)

  -- What worker `k` of `n` leaves of an object: the last one takes it out.
  abbrev pub left : ℕ → (ℕ → O → O) → ℕ → Option O → Option O
  left n f k p = if k == n - 1 then none else worked (f k) p

  -- The objects finished, with one more if there is one.
  abbrev pub and_maybe : List O → Option O → List O
  and_maybe l none = l
  and_maybe l (some o) = l ++ (o ∷ [])

  -- A line whose workers, from 0 at slot `s` on, do the work `f`.
  pub record IsLine (n : ℕ) (f : ℕ → O → O) (a : Asl O) : Type 0 where
    pub sized : a.asl_size ≡ n
    pub slots : IsSlots a.asl_q
    pub length : a.asl_q.size ≡ n
    pub last : a.t_n ≡ some (n - 1)
    pub works : (k : ℕ) → k < n → (a.workers k).work ≡ some (f k)

  -- In a cycle that began with worker 0 at slot `s`, with `v k` in the slot of worker `k`, after
  -- the objects `out` had been finished.
  pub record InCycle (n s : ℕ) (f : ℕ → O → O) (v : ℕ → Option O) (out : List O) (a : Asl O)
      : Type 0 where
    pub line : IsLine n f a
    pub base : s < n
    pub placed :
        (k : ℕ)
        → k < n
        → slot a k ≡ (if is_away (a.workers k).phase then back n (place n s k) else place n s k)
    pub holds :
        (k : ℕ)
        → k < n
        → get_or a.asl_q.elem (place n s k) none
          ≡ (if is_done (a.workers k).phase then left n f k (v k) else v k)
    pub finished : a.finished ≡ (
        if is_done (a.workers (n - 1)).phase
        then and_maybe out (worked (f (n - 1)) (v (n - 1)))
        else out)

  -- What the visit of worker `i` does, where its slot holds `p`.
  pub record Visited (n : ℕ) (f : ℕ → O → O) (i : ℕ) (p : Option O) (a b : Asl O) : Type 0 where
    pub line : IsLine n f b
    pub same_ready : b.n_workers_ready ≡ a.n_workers_ready
    pub workers :
        (k : ℕ) → b.workers k ≡ put a.workers i (record (a.workers i) { phase = visited }) k
    pub cell : get_or b.asl_q.elem (slot a i) none ≡ left n f i p
    pub others : (j : ℕ) → slot a i ≢ j → get_or b.asl_q.elem j none ≡ get_or a.asl_q.elem j none
    pub finished :
        b.finished ≡ (if i == n - 1 then and_maybe a.finished (worked (f i) p) else a.finished)

  -- A worker's record with another phase does the same work.
  pub phase_works :
      {n : ℕ} {f : ℕ → O → O} {a : Asl O} (i : ℕ) (p : Phase)
      → IsLine n f a
      → (k : ℕ) → k < n
      → (put a.workers i (record (a.workers i) { phase = p }) k).work ≡ some (f k)
  phase_works i p l k lt = ground (arith, l.works k lt)

  -- Work on the object in a slot keeps the count of slots in use.
  worked-IsSlots :
      (q : Fifo O) (i : ℕ) (o o' : O)
      → IsSlots q
      → i < q.size
      → get_or q.elem i none ≡ some o
      → IsSlots (record q { elem = set q.elem i (some o') })
  worked-IsSlots q i o o' v lt e = record {
    random = v.random;
    storage = length-set q.elem i (some o') ∙ v.storage;
    narrow = v.narrow;
    counted =
        omega (
          arith,
          v.counted,
          used-set q.elem i (some o') (omega (arith, v.storage, lt)),
          ap one_if e,
        );
  }

  -- The visit of a worker meets no failing `assert`.
  pub work_lem :
      {n : ℕ} {f : ℕ → O → O} (a : Asl O) (i : ℕ) (p : Option O)
      → IsLine n f a
      → i < n
      → slot a i < n
      → get_or a.asl_q.elem (slot a i) none ≡ p
      → (b : Asl O) × (worker_work a i (some (f i)) p ≡ some b) × Visited n f i p a b
  unfolding worker_work worker_finish
  work_lem {n} {f} a i none l lt ls at = (
    at_phase a i visited,
    refl,
    record {
      line = record {
        sized = l.sized;
        slots = l.slots;
        length = l.length;
        last = l.last;
        works = phase_works i visited l;
      };
      same_ready = refl;
      workers = λ k. refl;
      cell = at ∙ ground arith;
      others = λ j ne. refl;
      finished = ground arith;
    },
  )
  work_lem {n} {f} a i (some o) l lt ls at = elim (ℕ_discrete i (n - 1)) [
    | yes e ↦
        let (q', done, v, at', off, sz) = slots_lem q1 none (slot a i) v1 inside in
        (
          record (at_phase a i visited) { asl_q = q'; finished = a.finished ++ (f i o ∷ []) },
          ground (arith, done, self, l.last),
          record {
            line = record {
              sized = l.sized;
              slots = v;
              length = sz ∙ l.length;
              last = l.last;
              works = phase_works i visited l;
            };
            same_ready = refl;
            workers = λ k. refl;
            cell = at' ∙ ground arith;
            others =
                λ j ne. off j ne ∙ get_or-set_ne a.asl_q.elem (slot a i) j (some (f i o)) none ne;
            finished = ground arith;
          },
        )
    | no ne ↦ (
      record (at_phase a i visited) { asl_q = q1 },
      ground (arith, l.last),
      record {
        line = record {
          sized = l.sized;
          slots = v1;
          length = l.length;
          last = l.last;
          works = phase_works i visited l;
        };
        same_ready = refl;
        workers = λ k. refl;
        cell = self ∙ ground arith;
        others = λ j ne. get_or-set_ne a.asl_q.elem (slot a i) j (some (f i o)) none ne;
        finished = ground arith;
      },
    )
  ]
    where
      q1 : Fifo O
      q1 = record a.asl_q { elem = set a.asl_q.elem (slot a i) (some (f i o)) }

      inside : slot a i < a.asl_q.size
      inside = omega (arith, ls, l.length)

      v1 : IsSlots q1
      v1 = worked-IsSlots a.asl_q (slot a i) o (f i o) l.slots inside at

      self : get_or q1.elem (slot a i) none ≡ some (f i o)
      self =
          get_or-set_self a.asl_q.elem (slot a i) (some (f i o)) none
            (omega (arith, inside, l.slots.storage))
