-- ===== src/Queues/Fifo.antt =====
-- ThreadSyncAdv/threadlib/Fifo_Queue.c: a circular queue that runs downwards, or with random access
-- the slots of an assembly line. The queue pointer is not NULL; `none` is a failed `assert`.
pub mod Refines
pub mod Deque
pub mod Run
pub mod Slots
use multithreading_bible.Common.{
  ℕ, ◌+◌, ◌-◌, ◌%◌, ◌^◌, Bool, true, false, ◌&&◌, Option, none, some, List, ◌==◌, if◌then◌else◌,
  is_set, not,
}
use multithreading_bible.Common.Lists.{get_or, set, replicate}

-- `Fifo_Queue_t`; the counters are `uint32_t`, and a cell is `none` for NULL.
pub record Fifo (A : Type 0) : Type 0 where
  pub front : ℕ
  pub rear : ℕ
  pub count : ℕ
  pub size : ℕ
  pub random_access : Bool
  pub elem : List (Option A)

module _ {A : Type 0} where
  unfoldable pub fifo_init_q : ℕ → Bool → Option (Fifo A)
  fifo_init_q size random_access =
      if size == 0
      then none
      else some (record {
        front = size - 1;
        rear = size - 1;
        count = 0;
        size = size;
        random_access = random_access;
        elem = replicate size none;
      })

  abbrev pub is_queue_empty : Fifo A → Bool
  is_queue_empty q = q.count == 0

  abbrev pub is_queue_full : Fifo A → Bool
  is_queue_full q = q.count == q.size

  -- `q->elem[r] = ptr; q->count++`, with the rear at `r`.
  abbrev pub store : Fifo A → ℕ → Option A → Fifo A
  store q r ptr = record q { rear = r; elem = set q.elem r ptr; count = (q.count + 1) % 2 ^ 32 }

  unfoldable pub fifo_enqueue : Fifo A → Option A → Option (Bool × Fifo A)
  fifo_enqueue q ptr =
      if q.random_access
      then none
      else if not (is_set ptr)
      then some (false, q)
      else if is_queue_full q
      then some (false, q)
      else if is_queue_empty q
      then some (true, store q q.rear ptr)
      else if q.rear == 0
      then if q.front == q.size - 1 && is_queue_full q
        then some (false, q)
        else some (true, store q (q.size - 1) ptr)
      else some (true, store q (q.rear - 1) ptr)

  unfoldable pub fifo_deque : Fifo A → Option (Option A × Fifo A)
  fifo_deque q =
      if q.random_access
      then none
      else if is_queue_empty q
      then some (none, q)
      else if q.front == q.rear
      then some (
        get_or q.elem q.front none,
        record q { elem = set q.elem q.front none; count = q.count - 1 },
      )
      else some (
        get_or q.elem q.front none,
        record q {
          elem = set q.elem q.front none;
          front = if q.front == 0 then q.size - 1 else q.front - 1;
          count = q.count - 1;
        },
      )

  -- The count once a slot with `ptr` holds `new_data`.
  abbrev pub recount : ℕ → Option A → Option A → ℕ
  recount count ptr new_data =
      if not (is_set ptr) && is_set new_data
      then (count + 1) % 2 ^ 32
      else if is_set ptr && not (is_set new_data)
      then (count + 2 ^ 32 - 1) % 2 ^ 32
      else count

  -- A read out of bounds is `none` here, and a write out of bounds changes nothing.
  unfoldable pub fifo_insert_or_replace_at_index :
      Fifo A → Option A → ℕ → Option (Option A × Fifo A)
  fifo_insert_or_replace_at_index q new_data index =
      let ptr = get_or q.elem index none in
      if not q.random_access
      then none
      else some
          (ptr, record q { elem = set q.elem index new_data; count = recount q.count ptr new_data })
