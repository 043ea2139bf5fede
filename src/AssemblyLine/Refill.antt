-- ===== src/AssemblyLine/Refill.antt =====
-- What the engine takes in between two cycles.
use multithreading_bible.Common.{
  ℕ, zero, suc, ◌<◌, ◌≡◌, ◌≢◌, refl, sym, ◌∙◌, subst, Option, none, some, List, [], ◌∷◌, arith,
}
use multithreading_bible.Common.Lists.{get_or}
use multithreading_bible.Queues.Spec.{pop}
use multithreading_bible.Queues.Fifo.{Fifo}
use multithreading_bible.Queues.Fifo.Slots.{slots_lem}
use multithreading_bible.Queues.Fifo.Refines.{Represents}
use multithreading_bible.Queues.Fifo.Deque.{deque_refines}
use multithreading_bible.AssemblyLine.{Asl, slot, asl_engine_refill, assembly_line_enqueue_new_item}
use multithreading_bible.AssemblyLine.Places.{place-lt, place_apart}
use multithreading_bible.AssemblyLine.Cycle.Shift.{Between}

module _ {O : Type 0} where
  -- The objects before the workers once `p` has come before worker 0.
  abbrev pub entered : Option O → (ℕ → Option O) → ℕ → Option O
  entered p v zero = p
  entered p v (suc k) = v (suc k)

  -- A new object is taken in if there is none before worker 0, and no `assert` fails.
  pub enqueue_new_item_lem :
      {n s : ℕ} {f : ℕ → O → O} {v : ℕ → Option O} {out : List O} {a : Asl O} (o : O)
      → Between n s f v out a
      → v 0 ≡ none
      → (b : Asl O) × (assembly_line_enqueue_new_item a o ≡ some b)
        × Between n s f (entered (some o) v) out b
        × (b.wait_lst_fq ≡ a.wait_lst_fq)
  unfolding assembly_line_enqueue_new_item
  enqueue_new_item_lem {n} {s} {f} {v} {out} {a} o c free =
      let (q', done, v', at', off, sz) =
        slots_lem a.asl_q (some o) (slot a 0) c.line.slots inside in
      (
        record a { asl_q = q' },
        ground (arith, done, empty),
        record {
          line = record {
            sized = c.line.sized;
            slots = v';
            length = sz ∙ c.line.length;
            last = c.line.last;
            works = c.line.works;
          };
          base = c.base;
          placed = c.placed;
          holds = holds q' at' off;
          finished = c.finished;
        },
        refl,
      )
    where
      pos : 0 < n
      pos = omega (arith, c.base)

      inside : slot a 0 < a.asl_q.size
      inside =
          subst (λ j. slot a 0 < j) (sym c.line.length)
            (subst (λ j. j < n) (sym (c.placed 0 pos)) (place-lt n s 0 c.base pos))

      empty : get_or a.asl_q.elem (slot a 0) none ≡ none
      empty = c.holds 0 pos ∙ free

      holds :
          (q : Fifo O)
          → get_or q.elem (slot a 0) none ≡ some o
          → ((j : ℕ) → slot a 0 ≢ j → get_or q.elem j none ≡ get_or a.asl_q.elem j none)
          → (k : ℕ) → k < n
          → get_or q.elem (slot a k) none ≡ entered (some o) v k
      holds q here off zero lt = here
      holds q here off (suc k) lt =
          off (slot a (suc k)) (λ e.
            place_apart n s 0 (suc k) c.base pos lt (λ z. absurd (omega (arith, z)))
              (sym (c.placed 0 pos) ∙ e ∙ c.placed (suc k) lt))
          ∙ c.holds (suc k) lt

  -- Only the wait list is another one.
  pub list-Between :
      {n s : ℕ} {f : ℕ → O → O} {v : ℕ → Option O} {out : List O} {a : Asl O} (w : Fifo O)
      → Between n s f v out a
      → Between n s f v out (record a { wait_lst_fq = w })
  list-Between w c = record {
    line = record {
      sized = c.line.sized;
      slots = c.line.slots;
      length = c.line.length;
      last = c.line.last;
      works = c.line.works;
    };
    base = c.base;
    placed = c.placed;
    holds = c.holds;
    finished = c.finished;
  }

  -- Nothing comes in where nothing was.
  none-Between :
      {n s : ℕ} {f : ℕ → O → O} {v : ℕ → Option O} {out : List O} {a : Asl O}
      → v 0 ≡ none
      → Between n s f v out a
      → Between n s f (entered none v) out a
  none-Between {n} {v = v} {a = a} free c = record {
    line = c.line;
    base = c.base;
    placed = c.placed;
    holds = holds;
    finished = c.finished;
  }
    where
      holds : (k : ℕ) → k < n → get_or a.asl_q.elem (slot a k) none ≡ entered none v k
      holds zero lt = c.holds 0 lt ∙ free
      holds (suc k) lt = c.holds (suc k) lt

  -- After a cycle the engine takes the oldest waiting object in, if there is one, and no `assert`
  -- fails.
  pub refill_lem :
      {n s : ℕ} {f : ℕ → O → O} {v : ℕ → Option O} {out : List O} {a : Asl O} (xs : List O)
      → Between n s f v out a
      → v 0 ≡ none
      → Represents 50 a.wait_lst_fq xs
      → (b : Asl O) × (asl_engine_refill a ≡ some b)
        × Between n s f (entered (pop xs).0 v) out b
        × Represents 50 b.wait_lst_fq (pop xs).1
  unfolding asl_engine_refill
  refill_lem {a = a} [] c free r =
      let (w, done, r') = deque_refines [] r in
      (record a { wait_lst_fq = w }, ground (arith, done), none-Between free (list-Between w c), r')
  refill_lem {a = a} (x ∷ xs) c free r =
      let (w, done, r') = deque_refines (x ∷ xs) r in
      let (b, stored, c', same) = enqueue_new_item_lem x (list-Between w c) free in
      (b, ground (arith, done, stored), c', subst (λ u. Represents 50 u xs) (sym same) r')
