-- ===== src/Queues/Fifo/Slots.antt =====
-- The queue as the slots of an assembly line: `count` is the number of slots in use.
use multithreading_bible.Common.{
  ℕ, zero, suc, ◌+◌, ◌^◌, ◌≤◌, ◌<◌, ◌≡◌, ◌≢◌, refl, true, Option, none, some, List, [], ◌∷◌, arith,
}
use multithreading_bible.Common.Lists.{
  length, get_or, set, replicate, length-set, get_or-set_self, get_or-set_ne,
}
use multithreading_bible.Queues.Fifo.{Fifo, recount, fifo_insert_or_replace_at_index}

-- The slots in use.
abbrev pub used : {A : Type 0} → List (Option A) → ℕ
used [] = 0
used (none ∷ l) = used l
used (some a ∷ l) = suc (used l)

abbrev pub one_if : {A : Type 0} → Option A → ℕ
one_if none = 0
one_if (some a) = 1

pub used-set :
    {A : Type 0} (l : List (Option A)) (i : ℕ) (v : Option A)
    → i < length l
    → used (set l i v) + one_if (get_or l i none) ≡ used l + one_if v
used-set [] i v h = elim h [ ]
used-set (none ∷ l) zero none h = omega arith
used-set (none ∷ l) zero (some b) h = omega arith
used-set (some a ∷ l) zero none h = omega arith
used-set (some a ∷ l) zero (some b) h = omega arith
used-set (none ∷ l) (suc i) v h = used-set l i v (omega arith)
used-set (some a ∷ l) (suc i) v h = omega (arith, used-set l i v (omega arith))

used-le : {A : Type 0} (l : List (Option A)) → used l ≤ length l
used-le [] = omega arith
used-le (none ∷ l) = omega (arith, used-le l)
used-le (some a ∷ l) = omega (arith, used-le l)

pub used-replicate : (A : Type 0) (n : ℕ) → used {A = A} (replicate n none) ≡ 0
used-replicate A zero = refl
used-replicate A (suc n) = used-replicate A n

pub record IsSlots {A : Type 0} (q : Fifo A) : Type 0 where
  pub random : q.random_access ≡ true
  pub storage : length q.elem ≡ q.size
  pub narrow : q.size < 2 ^ 32
  pub counted : q.count ≡ used q.elem

-- `Fifo_insert_or_replace_at_index` in range returns the old content of the slot, puts the new one
-- there and leaves the other slots, and keeps `count` the number of slots in use.
pub slots_lem :
    {A : Type 0} (q : Fifo A) (p : Option A) (i : ℕ)
    → IsSlots q
    → i < q.size
    → (q' : Fifo A) × (fifo_insert_or_replace_at_index q p i ≡ some (get_or q.elem i none, q'))
      × IsSlots q'
      × (get_or q'.elem i none ≡ p)
      × ((j : ℕ) → i ≢ j → get_or q'.elem j none ≡ get_or q.elem j none)
      × (q'.size ≡ q.size)
unfolding fifo_insert_or_replace_at_index
slots_lem q p i v lt = (
  record q { elem = set q.elem i p; count = recount q.count (get_or q.elem i none) p },
  ground (arith, v.random),
  record {
    random = v.random;
    storage = ground (arith, length-set q.elem i p, v.storage);
    narrow = v.narrow;
    counted = ground (
      arith,
      v,
      used-set q.elem i p,
      used-le q.elem,
      used-le (set q.elem i p),
      length-set q.elem i p,
    );
  },
  get_or-set_self q.elem i p none (omega (arith, v)),
  λ j ne. get_or-set_ne q.elem i j p none ne,
  refl,
)
