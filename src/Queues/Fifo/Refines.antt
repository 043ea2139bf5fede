-- ===== src/Queues/Fifo/Refines.antt =====
-- `Fifo_enqueue` and `Fifo_deque` are a bounded FIFO queue of the pointers stored.
use mathlib.Core.List.{map, map-append}
use multithreading_bible.Common.{
  ℕ, suc, ◌+◌, ◌-◌, ◌%◌, ◌^◌, ◌≤◌, ◌<◌, ◌≡◌, refl, sym, ap, ◌∙◌, true, false, Option, none, some,
  List, [], ◌∷◌, ◌++◌, arith, ltb, ◌==◌, if◌then◌else◌, Bool-cases, ==_iff, inl, inr,
}
use multithreading_bible.Common.Lists.{length, set, length-set}
use multithreading_bible.Queues.Spec.{push}
use multithreading_bible.Queues.Cyclic.{
  cell, cell-suc, window, length-window, window-set_next, down, down-lt, down_apart,
}
use multithreading_bible.Queues.Fifo.{Fifo, fifo_enqueue, store}

pub record IsValid {A : Type 0} (q : Fifo A) : Type 0 where
  pub sequential : q.random_access ≡ false
  pub storage : length q.elem ≡ q.size
  pub narrow : q.size < 2 ^ 32
  pub front_in : q.front < q.size
  pub count_in : q.count ≤ q.size
  pub linked : q.rear ≡ cell (down q.size) q.front (q.count - 1)

-- The pointers from the front on.
abbrev pub contents : {A : Type 0} → Fifo A → List (Option A)
contents q = window (down q.size) none q.elem q.front q.count

length-map-some : {A : Type 0} (xs : List A) → length (map some xs) ≡ length xs
length-map-some [] = refl
length-map-some (x ∷ xs) = ap suc (length-map-some xs)

-- The queue is valid, of `size` cells, and holds `xs`.
pub record Represents {A : Type 0} (size : ℕ) (q : Fifo A) (xs : List A) : Type 0 where
  pub valid : IsValid q
  pub sized : q.size ≡ size
  pub holds : contents q ≡ map some xs

module _ {A : Type 0} {size : ℕ} {q : Fifo A} {xs : List A} (r : Represents size q xs) where
  pub counts : q.count ≡ length xs
  counts = omega (
    arith,
    length-window (down q.size) none q.elem q.front q.count,
    ap length r.holds,
    length-map-some xs,
  )

  -- Writing `a` at the cell after the last one.
  extends :
      (a : A)
      → q.count < q.size
      → window
          (down q.size)
          none
          (set q.elem (cell (down q.size) q.front q.count) (some a))
          q.front
          (suc q.count)
        ≡ map some (xs ++ (a ∷ []))
  extends a room =
      window-set_next (down q.size) none q.size (down-lt q.size) (down_apart q.size) q.elem (some a)
        q.front q.count r.valid.storage r.valid.front_in room
      ∙ ap (λ l. l ++ (some a ∷ [])) r.holds
      ∙ sym (map-append some xs (a ∷ []))

  -- The cell after the last one, by the code's tests.
  next_cell :
      cell (down q.size) q.front q.count ≡ (if q.count == 0 then q.rear else down q.size q.rear)
  next_cell = elim (Bool-cases (q.count == 0)) [
    | inl z ↦
        let e : q.count ≡ 0 = (==_iff _ _).0 z in
        rw z (ap (cell (down q.size) q.front) e ∙ sym (rear_empty e))
    | inr p ↦
        let e : q.count ≡ suc (q.count - 1) = ground arith in
        rw p (
          ap (cell (down q.size) q.front) e
          ∙ cell-suc (down q.size) q.front (q.count - 1)
          ∙ ap (down q.size) (sym r.valid.linked))
  ]
    where
      rear_empty : q.count ≡ 0 → q.rear ≡ q.front
      rear_empty e = r.valid.linked ∙ ap (λ n. cell (down q.size) q.front (n - 1)) e

  -- With room, `Fifo_enqueue` stores at the cell after the last one.
  enqueue_room :
      (a : A)
      → q.count < q.size
      → fifo_enqueue q (some a) ≡ some (true, store q (cell (down q.size) q.front q.count) (some a))
  unfolding fifo_enqueue down
  enqueue_room a room = rw next_cell (ground (arith, r.valid))

  enqueue_full : (a : A) → q.count ≡ q.size → fifo_enqueue q (some a) ≡ some (false, q)
  unfolding fifo_enqueue
  enqueue_full a full = ground (arith, r.valid.sequential)

  enqueue_null : fifo_enqueue q none ≡ some (false, q)
  unfolding fifo_enqueue
  enqueue_null = ground (arith, r.valid.sequential)

  stored-Represents :
      (a : A)
      → q.count < q.size
      → Represents size (store q (cell (down q.size) q.front q.count) (some a)) (xs ++ (a ∷ []))
  stored-Represents a room = record {
    valid = record {
      sequential = r.valid.sequential;
      storage = length-set q.elem _ (some a) ∙ r.valid.storage;
      narrow = r.valid.narrow;
      front_in = r.valid.front_in;
      count_in = omega (arith, r.valid);
      linked = ap (cell (down q.size) q.front) before;
    };
    sized = r.sized;
    holds =
        ap
          (window (down q.size) none (set q.elem (cell (down q.size) q.front q.count) (some a))
            q.front)
          counted
        ∙ extends a room;
  }
    where
      counted : (q.count + 1) % 2 ^ 32 ≡ suc q.count
      counted = omega (arith, r.valid)

      before : q.count ≡ (q.count + 1) % 2 ^ 32 - 1
      before = omega (arith, r.valid)

  -- `Fifo_enqueue` of a queue that holds `xs` returns and stores what `push` does.
  pub enqueue_refines :
      (p : Option A)
      → (q' : Fifo A) × (fifo_enqueue q p ≡ some ((push size xs p).0, q'))
        × Represents size q' (push size xs p).1
  enqueue_refines none = (q, enqueue_null, r)
  enqueue_refines (some a) = elim (Bool-cases (ltb (length xs) size)) [
    | inl room ↦ rw room (
      _,
      enqueue_room a (ground (arith, counts, r)),
      stored-Represents a (ground (arith, counts, r)),
    )
    | inr full ↦ rw full (q, enqueue_full a (ground (arith, counts, r, r.valid)), r)
  ]
