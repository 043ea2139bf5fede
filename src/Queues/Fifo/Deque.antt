-- ===== src/Queues/Fifo/Deque.antt =====
-- `Fifo_deque` takes the oldest pointer.

use mathlib.Core.List.{map}
use multithreading_bible.Common.{
  ℕ, suc, ◌-◌, ◌≤◌, ◌<◌, ◌≡◌, ◌≢◌, sym, ap, ◌∙◌, none, some, List, [], ◌∷◌, arith,
}
use multithreading_bible.Common.Lists.{length, set, length-set, get_or}
use multithreading_bible.Queues.Spec.{pop}
use multithreading_bible.Queues.Cyclic.{
  cell, window, window-set_beyond, down, down-lt, down_apart, down_round,
}
use multithreading_bible.Queues.Fifo.{Fifo, fifo_deque}
use multithreading_bible.Queues.Fifo.Refines.{IsValid, Represents, counts}

module _ {A : Type 0} {size : ℕ} {q : Fifo A} {xs : List A} (r : Represents size q xs) where
  -- Clearing the front leaves the pointers after it.
  rest :
      (n : ℕ)
      → suc n ≤ q.size
      → window (down q.size) none (set q.elem q.front none) (down q.size q.front) n
        ≡ window (down q.size) none q.elem (down q.size q.front) n
  rest n le =
      ap (λ i. window (down q.size) none (set q.elem i none) (down q.size q.front) n)
        (sym (down_round q.size q.front r.valid.front_in))
      ∙ window-set_beyond (down q.size) none q.size (down-lt q.size) (down_apart q.size) q.elem none
          (down q.size q.front) n (q.size - 1) (down-lt q.size q.front r.valid.front_in)
          (omega arith) (omega arith)

  deque_empty : q.count ≡ 0 → fifo_deque q ≡ some (none, q)
  unfolding fifo_deque
  deque_empty e = ground (arith, r.valid.sequential)

  -- The queue after the last pointer, and after another one, has been taken.
  emptied : Fifo A
  emptied = record q { elem = set q.elem q.front none; count = q.count - 1 }

  advanced : Fifo A
  advanced = record q {
    elem = set q.elem q.front none;
    front = down q.size q.front;
    count = q.count - 1;
  }

  deque_last : q.count ≡ 1 → fifo_deque q ≡ some (get_or q.elem q.front none, emptied)
  unfolding fifo_deque emptied
  deque_last e =
      ground
        (arith, r.valid.sequential, r.valid.linked ∙ ap (λ n. cell (down q.size) q.front (n - 1)) e)

  deque_more : 1 < q.count → fifo_deque q ≡ some (get_or q.elem q.front none, advanced)
  unfolding fifo_deque advanced down
  deque_more more = ground (arith, r.valid.sequential, apart)
    where
      apart : q.rear ≢ q.front
      apart e = down_apart q.size q.front (q.count - 2) r.valid.front_in (omega (arith, r.valid)) (
          ap (cell (down q.size) q.front) {x = suc (q.count - 2)} {y = q.count - 1} (omega arith)
          ∙ sym r.valid.linked
          ∙ e)

  advanced-IsValid : 1 < q.count → IsValid advanced
  unfolding advanced
  advanced-IsValid more = record {
    sequential = r.valid.sequential;
    storage = length-set q.elem q.front none ∙ r.valid.storage;
    narrow = r.valid.narrow;
    front_in = down-lt q.size q.front r.valid.front_in;
    count_in = omega (arith, r.valid);
    linked =
        r.valid.linked
        ∙ ap (cell (down q.size) q.front) {x = q.count - 1} {y = suc (q.count - 1 - 1)}
            (omega arith);
  }

  emptied-IsValid : q.count ≡ 1 → IsValid emptied
  unfolding emptied
  emptied-IsValid e = record {
    sequential = r.valid.sequential;
    storage = length-set q.elem q.front none ∙ r.valid.storage;
    narrow = r.valid.narrow;
    front_in = r.valid.front_in;
    count_in = omega (arith, r.valid);
    linked =
        r.valid.linked
        ∙ ap (cell (down q.size) q.front) {x = q.count - 1} {y = q.count - 1 - 1} (omega arith);
  }

∷-injective : {A : Type 0} {x y : A} {xs ys : List A} → x ∷ xs ≡ y ∷ ys → (x ≡ y) × (xs ≡ ys)
∷-injective e = (cc, cc)

module _ {A : Type 0} {size : ℕ} {q : Fifo A} (x : A) (xs : List A)
    (r : Represents size q (x ∷ xs)) where
  -- The front is the oldest pointer, and the rest follows it.
  split :
      (get_or q.elem q.front none ≡ some x)
      × (window (down q.size) none q.elem (down q.size q.front) (length xs) ≡ map some xs)
  split = ∷-injective (ap (window (down q.size) none q.elem q.front) (sym (counts r)) ∙ r.holds)

  cleared :
      window (down q.size) none (set q.elem q.front none) (down q.size q.front) (length xs)
      ≡ map some xs
  cleared = rest r (length xs) (omega (arith, counts r, r.valid)) ∙ split.1

  taken : q.count - 1 ≡ length xs
  taken = omega (arith, counts r)

-- `Fifo_deque` of a queue that holds `xs` returns and leaves what `pop` does.
pub deque_refines :
    {A : Type 0} {size : ℕ} {q : Fifo A} (xs : List A)
    → Represents size q xs
    → (q' : Fifo A) × (fifo_deque q ≡ some ((pop xs).0, q')) × Represents size q' (pop xs).1
unfolding emptied advanced
deque_refines {q = q} [] r = (q, deque_empty r (counts r), r)
deque_refines {q = q} (x ∷ []) r = (
  emptied r,
  deque_last r (counts r) ∙ ap (λ p. some (p, emptied r)) (split x [] r).0,
  record {
    valid = emptied-IsValid r (counts r);
    sized = r.sized;
    holds = ap (window (down q.size) none (set q.elem q.front none) q.front) (taken x [] r);
  },
)
deque_refines {q = q} (x ∷ y ∷ xs) r = (
  advanced r,
  deque_more r (omega (arith, counts r)) ∙ ap (λ p. some (p, advanced r)) (split x (y ∷ xs) r).0,
  record {
    valid = advanced-IsValid r (omega (arith, counts r));
    sized = r.sized;
    holds =
        ap (window (down q.size) none (set q.elem q.front none) (down q.size q.front))
          (taken x (y ∷ xs) r)
        ∙ cleared x (y ∷ xs) r;
  },
)
