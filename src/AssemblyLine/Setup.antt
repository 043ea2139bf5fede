-- ===== src/AssemblyLine/Setup.antt =====
-- A new assembly line, with a work for each worker, is ready for its first cycle.
use multithreading_bible.Common.{
  ℕ, zero, suc, ◌+◌, ◌-◌, ◌%◌, ◌^◌, ◌<◌, ◌≤◌, ◌≡◌, refl, sym, ap, ◌∙◌, true, false, none, some, [],
  arith, ◌==◌, if◌then◌else◌, subst, ℕ_discrete,
}
use multithreading_bible.Common.Lists.{
  length, get_or, set, replicate, length-replicate, length-set, get_or-set_self, get_or-set_ne,
}
use multithreading_bible.Common.Sums.{put}
use multithreading_bible.Queues.Fifo.{fifo_init_q}
use multithreading_bible.Queues.Fifo.Slots.{IsSlots, used-replicate}
use multithreading_bible.AssemblyLine.{
  Asl, not_started, Worker, parked, slot, assembly_line_get_new_assembly_line,
  assembly_line_register_worker_fns, assembly_line_create_new_worker_thread, init_worker_threads,
  assembly_line_init_worker_threads, worker_thread_init,
}
use multithreading_bible.AssemblyLine.Places.{place_base}
use multithreading_bible.AssemblyLine.Cycle.Shift.{Between, some-injective}

get_or-replicate : {A : Type 0} (n j : ℕ) (d : A) → get_or (replicate n d) j d ≡ d
get_or-replicate zero j d = refl
get_or-replicate (suc n) zero d = refl
get_or-replicate (suc n) (suc j) d = get_or-replicate n j d

module _ {O : Type 0} where
  -- A client registers the work `f k` for each slot `k` below `m`.
  unfoldable pub register_all : (ℕ → O → O) → ℕ → Asl O → Asl O
  register_all f zero a = a
  register_all f (suc m) a = assembly_line_register_worker_fns (register_all f m a) m (f m)

  -- What a new line, with works registered below `m`, looks like.
  record IsNew (n m : ℕ) (f : ℕ → O → O) (a : Asl O) : Type 0 where
    sized : a.asl_size ≡ n
    slots : IsSlots a.asl_q
    length_q : a.asl_q.size ≡ n
    empty : (j : ℕ) → get_or a.asl_q.elem j none ≡ none
    fns : length a.work_fns ≡ n
    works : (k : ℕ) → k < m → get_or a.work_fns k none ≡ some (f k)
    unset : a.t_n ≡ none
    nothing : a.finished ≡ []
    nobody : a.n_workers_ready ≡ 0

  new-IsNew :
      (n : ℕ) (f : ℕ → O → O)
      → 0 < n
      → n < 2 ^ 32
      → (a : Asl O) × (assembly_line_get_new_assembly_line n ≡ some a) × IsNew n 0 f a
  unfolding assembly_line_get_new_assembly_line fifo_init_q
  new-IsNew n f pos narrow = (
    record {
      asl_size = n;
      asl_state = not_started;
      asl_q = record {
        front = n - 1;
        rear = n - 1;
        count = 0;
        size = n;
        random_access = true;
        elem = replicate n none;
      };
      n_workers_ready = 0;
      workers = λ i. record { curr_slot = 0; work = none; initialized = false; phase = parked };
      has_engine = false;
      work_fns = replicate n none;
      wait_lst_fq = record {
        front = 49;
        rear = 49;
        count = 0;
        size = 50;
        random_access = false;
        elem = replicate 50 none;
      };
      t_n = none;
      finished = [];
    },
    ground arith,
    record {
      sized = refl;
      slots = record {
        random = refl;
        storage = length-replicate n none;
        narrow = narrow;
        counted = sym (used-replicate O n);
      };
      length_q = refl;
      empty = λ j. get_or-replicate n j none;
      fns = length-replicate n none;
      works = λ k lt. absurd (omega arith);
      unset = refl;
      nothing = refl;
      nobody = refl;
    },
  )

  register-IsNew :
      {n m : ℕ} {f : ℕ → O → O} {a : Asl O}
      → IsNew n m f a
      → m < n
      → IsNew n (suc m) f (assembly_line_register_worker_fns a m (f m))
  unfolding assembly_line_register_worker_fns
  register-IsNew {m = m} {f = f} {a = a} v lt = record {
    sized = v.sized;
    slots = v.slots;
    length_q = v.length_q;
    empty = v.empty;
    fns = length-set a.work_fns m (some (f m)) ∙ v.fns;
    works = λ k lk. elim (ℕ_discrete k m) [
      | yes e ↦
          ap (λ j. get_or (set a.work_fns m (some (f m))) j none) e
          ∙ get_or-set_self a.work_fns m (some (f m)) none (omega (arith, lt, v.fns))
          ∙ ap (λ j. some (f j)) (sym e)
      | no ne ↦
          get_or-set_ne a.work_fns m k (some (f m)) none (λ e. ne (sym e))
          ∙ v.works k (omega (arith, lk, ne))
    ];
    unset = v.unset;
    nothing = v.nothing;
    nobody = v.nobody;
  }

  register_all-IsNew :
      {n : ℕ} {f : ℕ → O → O} {a : Asl O} (m : ℕ)
      → IsNew n 0 f a
      → m ≤ n
      → IsNew n m f (register_all f m a)
  unfolding register_all
  register_all-IsNew zero v le = v
  register_all-IsNew (suc m) v le =
      register-IsNew (register_all-IsNew m v (omega (arith, le))) (omega (arith, le))

  -- The workers, `Tn` and `n_workers_ready` aside.
  unmarked :
      {n m : ℕ} {f : ℕ → O → O} {a : Asl O} (ws : ℕ → Worker O)
      → IsNew n m f a
      → IsNew n m f (record a { workers = ws; t_n = none; n_workers_ready = 0 })
  unmarked ws v = record {
    sized = v.sized;
    slots = v.slots;
    length_q = v.length_q;
    empty = v.empty;
    fns = v.fns;
    works = v.works;
    unset = refl;
    nothing = v.nothing;
    nobody = refl;
  }

  -- The loop that makes the workers, up to worker `i`.
  record IsMade (n i : ℕ) (f : ℕ → O → O) (a : Asl O) : Type 0 where
    new : IsNew n n f (record a { t_n = none; n_workers_ready = 0 })
    made : (k : ℕ) → k < i → a.workers k ≡ assembly_line_create_new_worker_thread k
    last : a.t_n ≡ (if i == n then some (n - 1) else none)

  init-IsMade :
      {n : ℕ} {f : ℕ → O → O} (m : ℕ) {a : Asl O} (i : ℕ)
      → 1 < n
      → i + m ≡ n
      → IsMade n i f a
      → IsMade n n f (init_worker_threads a i m)
  unfolding init_worker_threads
  init-IsMade {n} {f} zero {a} i two e v = subst (λ j. IsMade n j f a) {x = i} (omega (arith, e)) v
  init-IsMade {n} (suc m) {a} i two e v = init-IsMade m (i + 1) two (omega arith) (record {
    new = unmarked _ v.new;
    made = λ k lk. ground (arith, v.made k);
    last = ground (arith, v.last, v.new.sized);
  })

  -- The workers in their first pass, in any order.
  pub data Inits (a : Asl O) : Asl O → Type 0 where
    here : Inits a a
    next :
        {b c : Asl O} (i : ℕ)
        → Inits a b
        → i < a.asl_size
        → (b.workers i).initialized ≡ false
        → worker_thread_init b i ≡ some c
        → Inits a c

  record IsStarting (n : ℕ) (f : ℕ → O → O) (a : Asl O) : Type 0 where
    new : IsNew n n f (record a { t_n = none; n_workers_ready = 0 })
    last : a.t_n ≡ some (n - 1)
    slots : (k : ℕ) → k < n → slot a k ≡ k
    works : (k : ℕ) → k < n → (a.workers k).initialized ≡ true → (a.workers k).work ≡ some (f k)

  Inits-IsStarting :
      {n : ℕ} {f : ℕ → O → O} {a b : Asl O} → Inits a b → IsStarting n f a → IsStarting n f b
  unfolding worker_thread_init
  Inits-IsStarting here v = v
  Inits-IsStarting {n} {f} (next {b = b} {c = c} i before lt fresh e) v =
      let y = Inits-IsStarting before v in
      subst (IsStarting n f) (some-injective (sym (does y) ∙ e)) (record {
        new = unmarked _ y.new;
        last = y.last;
        slots = λ k lk. ground (arith, y.slots k lk);
        works = λ k lk. ground (arith, y.works k lk);
      })
    where
      inside : i < n
      inside = omega (arith, lt, v.new.sized)

      ready : Asl O
      ready = record b {
        workers =
            put b.workers i
              (record (b.workers i) { work = some (f i); initialized = true; phase = parked });
        n_workers_ready = (b.n_workers_ready + 1) % 2 ^ 32;
      }

      does : IsStarting n f b → worker_thread_init b i ≡ some ready
      does y =
          ground
            (arith, ap (λ j. get_or b.work_fns j none) (y.slots i inside), y.new.works i inside)

  Starting-Between :
      {n : ℕ} {f : ℕ → O → O} {b : Asl O}
      → 1 < n
      → IsStarting n f b
      → ((k : ℕ) → k < n → (b.workers k).initialized ≡ true)
      → Between n 0 f (λ _. none) [] b
  Starting-Between {n} two y all = record {
    line = record {
      sized = y.new.sized;
      slots = y.new.slots;
      length = y.new.length_q;
      last = y.last;
      works = λ k lk. y.works k lk (all k lk);
    };
    base = omega (arith, two);
    placed = λ k lk. y.slots k lk ∙ sym (place_base n k lk);
    holds = λ k lk. y.new.empty _;
    finished = y.new.nothing;
  }

  -- The workers of a new line, before their first pass.
  made-IsStarting :
      {n : ℕ} {f : ℕ → O → O} {a : Asl O}
      → 1 < n
      → IsNew n n f a
      → IsStarting n f (assembly_line_init_worker_threads a)
  unfolding assembly_line_init_worker_threads assembly_line_create_new_worker_thread
  made-IsStarting {n} {f} {a} two v =
      subst (λ j. IsStarting n f (init_worker_threads a 0 j)) (sym v.sized)
        (record {
          new = unmarked _ m.new;
          last = ground (arith, m.last);
          slots = λ k lk. ap (λ (w : Worker O). w.curr_slot) (m.made k lk);
          works = λ k lk e. absurd (cc (ap (λ (w : Worker O). w.initialized) (m.made k lk)));
        })
    where
      m : IsMade n n f (init_worker_threads a 0 n)
      m = init-IsMade n 0 two (omega arith) (record {
        new = unmarked a.workers v;
        made = λ k lk. absurd (omega arith);
        last = ground (arith, v.unset);
      })

  -- A new line of `n` workers, two at least, for which the works `f` are registered: in whatever
  -- order its workers start, once all have, worker `k` stands at slot `k` with the work `f k`, the
  -- line is empty, and it is ready for its first cycle.
  pub new_line_ready :
      {n : ℕ} {f : ℕ → O → O} (a : Asl O) {b : Asl O}
      → 1 < n
      → n < 2 ^ 32
      → assembly_line_get_new_assembly_line n ≡ some a
      → Inits (assembly_line_init_worker_threads (register_all f n a)) b
      → ((k : ℕ) → k < n → (b.workers k).initialized ≡ true)
      → Between n 0 f (λ _. none) [] b
  new_line_ready {n} {f} a {b} two narrow e inits all =
      let (a', e', v) = new-IsNew n f (omega (arith, two)) narrow in
      let v' = subst (IsNew n 0 f) (some-injective (sym e' ∙ e)) v in
      Starting-Between two
        (Inits-IsStarting inits (made-IsStarting two (register_all-IsNew n v' (omega arith)))) all
