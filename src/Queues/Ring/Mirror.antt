-- ===== src/Queues/Ring/Mirror.antt =====
-- The upward queue seen in a mirror is the downward queue of five cells.
use multithreading_bible.Common.{
  ℕ, zero, suc, ◌+◌, ◌-◌, ◌≤◌, ◌<◌, ◌≡◌, refl, ap, false, Option, none, some, List, [], ◌∷◌, ◌++◌,
  arith, ltb, if◌then◌else◌,
}
use multithreading_bible.Common.Lists.{length, length-append, length-set, get_or, set}
use multithreading_bible.Queues.Fifo.{Fifo, fifo_enqueue, fifo_deque}
use multithreading_bible.Queues.Ring.{Ring, enqueue, deque, default_size}

-- A list seen in a mirror: the last cell first.
abbrev mirror_list : {A : Type 0} → List A → List A
mirror_list [] = []
mirror_list (x ∷ xs) = mirror_list xs ++ (x ∷ [])

abbrev pub mirror : {A : Type 0} → Ring A → Fifo A
mirror q = record {
  front = default_size - 1 - q.front;
  rear = default_size - 1 - q.rear;
  count = q.count;
  size = default_size;
  random_access = false;
  elem = mirror_list q.elem;
}

pub record IsInside {A : Type 0} (q : Ring A) : Type 0 where
  pub storage : length q.elem ≡ default_size
  pub front_in : q.front < default_size
  pub rear_in : q.rear < default_size
  pub count_in : q.count ≤ default_size
  pub linked :
      let last = q.front + (q.count - 1) in
      q.rear ≡ (if ltb last default_size then last else last - default_size)

module _ {A : Type 0} where
  set-append_left :
      (xs ys : List A) (i : ℕ) (v : A) → i < length xs → set (xs ++ ys) i v ≡ set xs i v ++ ys
  set-append_left [] ys i v lt = elim lt [ ]
  set-append_left (x ∷ xs) ys zero v lt = refl
  set-append_left (x ∷ xs) ys (suc i) v lt =
      ap (λ l. x ∷ l) (set-append_left xs ys i v (omega arith))

  set-append_last : (xs : List A) (y v : A) → set (xs ++ (y ∷ [])) (length xs) v ≡ xs ++ (v ∷ [])
  set-append_last [] y v = refl
  set-append_last (x ∷ xs) y v = ap (λ l. x ∷ l) (set-append_last xs y v)

  get_or-append_left :
      (xs ys : List A) (i : ℕ) (d : A) → i < length xs → get_or (xs ++ ys) i d ≡ get_or xs i d
  get_or-append_left [] ys i d lt = elim lt [ ]
  get_or-append_left (x ∷ xs) ys zero d lt = refl
  get_or-append_left (x ∷ xs) ys (suc i) d lt = get_or-append_left xs ys i d (omega arith)

  get_or-append_last : (xs : List A) (y d : A) → get_or (xs ++ (y ∷ [])) (length xs) d ≡ y
  get_or-append_last [] y d = refl
  get_or-append_last (x ∷ xs) y d = get_or-append_last xs y d

  length-mirror_list : (xs : List A) → length (mirror_list xs) ≡ length xs
  length-mirror_list [] = refl
  length-mirror_list (x ∷ xs) =
      omega (arith, length-append (mirror_list xs) (x ∷ []), length-mirror_list xs)

  -- A cell counted from the end of a list of known length.
  set-mirror_list :
      (xs : List A) (n i j : ℕ) (v : A)
      → length xs ≡ n
      → suc (i + j) ≡ n
      → set (mirror_list xs) j v ≡ mirror_list (set xs i v)
  set-mirror_list [] n i j v len e = absurd (omega arith)
  set-mirror_list (x ∷ xs) n zero j v len e =
      let at : j ≡ length (mirror_list xs) = omega (arith, length-mirror_list xs) in
      rw at (set-append_last (mirror_list xs) x v)
  set-mirror_list (x ∷ xs) n (suc i) j v len e =
      rw
        (
          set-append_left (mirror_list xs) (x ∷ []) j v (omega (arith, length-mirror_list xs)),
          set-mirror_list xs (n - 1) i j v (omega arith) (omega arith),
        )
        refl

  get_or-mirror_list :
      (xs : List A) (n i j : ℕ) (d : A)
      → length xs ≡ n
      → suc (i + j) ≡ n
      → get_or (mirror_list xs) j d ≡ get_or xs i d
  get_or-mirror_list [] n i j d len e = absurd (omega arith)
  get_or-mirror_list (x ∷ xs) n zero j d len e =
      let at : j ≡ length (mirror_list xs) = omega (arith, length-mirror_list xs) in
      rw at (get_or-append_last (mirror_list xs) x d)
  get_or-mirror_list (x ∷ xs) n (suc i) j d len e =
      rw
        (
          get_or-append_left (mirror_list xs) (x ∷ []) j d (omega (arith, length-mirror_list xs)),
          get_or-mirror_list xs (n - 1) i j d (omega arith) (omega arith),
        )
        refl

module _ {A : Type 0} {q : Ring A} (r : IsInside q) where
  -- A write, and a read, of the mirrored cell.
  written :
      (i : ℕ) (v : Option A)
      → i < default_size
      → set (mirror_list q.elem) (default_size - 1 - i) v ≡ mirror_list (set q.elem i v)
  written i v lt =
      set-mirror_list q.elem default_size i (default_size - 1 - i) v r.storage (omega arith)

  read :
      (i : ℕ)
      → i < default_size
      → get_or (mirror_list q.elem) (default_size - 1 - i) none ≡ get_or q.elem i none
  read i lt =
      get_or-mirror_list q.elem default_size i (default_size - 1 - i) none r.storage (omega arith)

  pub mirror-enqueue :
      (p : Option A) → fifo_enqueue (mirror q) p ≡ some ((enqueue q p).0, mirror (enqueue q p).1)
  unfolding fifo_enqueue enqueue
  mirror-enqueue none = refl
  mirror-enqueue (some a) = ground (
    arith,
    r,
    written q.front (some a) r.front_in,
    written 0 (some a),
    written (q.rear + 1) (some a),
  )

  pub mirror-deque : fifo_deque (mirror q) ≡ some ((deque q).0, mirror (deque q).1)
  unfolding fifo_deque deque
  mirror-deque = ground (arith, r, written q.front none r.front_in, read q.front r.front_in)

  pub enqueue-IsInside : (p : Option A) → IsInside (enqueue q p).1
  unfolding enqueue
  enqueue-IsInside none = r
  enqueue-IsInside (some a) = record {
    storage = ground (
      arith,
      r,
      length-set q.elem q.front (some a),
      length-set q.elem 0 (some a),
      length-set q.elem (q.rear + 1) (some a),
    );
    front_in = ground (arith, r);
    rear_in = ground (arith, r);
    count_in = ground (arith, r);
    linked = ground (arith, r);
  }

  pub deque-IsInside : IsInside (deque q).1
  unfolding deque
  deque-IsInside = record {
    storage = ground (arith, r, length-set q.elem q.front none);
    front_in = ground (arith, r);
    rear_in = ground (arith, r);
    count_in = ground (arith, r);
    linked = ground (arith, r);
  }
