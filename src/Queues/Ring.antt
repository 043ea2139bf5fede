-- ===== src/Queues/Ring.antt =====
-- ProducerConsumer/Queue.c: the circular queue of five cells that the producers and the consumers
-- of the earlier chapters share; it runs upwards. The queue pointer is not NULL, and `calloc`
-- succeeds.
pub mod Mirror
pub mod Run
use multithreading_bible.Common.{
  ℕ, ◌+◌, ◌-◌, ◌%◌, ◌^◌, Bool, true, false, Option, none, List, ◌==◌, if◌then◌else◌, is_set, not,
}
use multithreading_bible.Common.Lists.{get_or, set, replicate}

-- `Q_DEFAULT_SIZE`.
abbrev pub default_size : ℕ
default_size = 5

-- `Queue_t`; the counters are `unsigned int`, and a cell is `none` for NULL.
pub record Ring (A : Type 0) : Type 0 where
  pub elem : List (Option A)
  pub front : ℕ
  pub rear : ℕ
  pub count : ℕ

abbrev pub init_q : {A : Type 0} → Ring A
init_q = record { elem = replicate default_size none; front = 0; rear = 0; count = 0 }

module _ {A : Type 0} where
  abbrev pub is_queue_empty : Ring A → Bool
  is_queue_empty q = q.count == 0

  abbrev pub is_queue_full : Ring A → Bool
  is_queue_full q = q.count == default_size

  unfoldable pub enqueue : Ring A → Option A → Bool × Ring A
  enqueue q ptr =
      if not (is_set ptr)
      then (false, q)
      else if is_queue_full q
      then (false, q)
      else if is_queue_empty q
      then (true, record q { elem = set q.elem q.front ptr; count = (q.count + 1) % 2 ^ 32 })
      else let rear = if q.rear == default_size - 1 then 0 else q.rear + 1 in
        (true, record q { rear = rear; elem = set q.elem rear ptr; count = (q.count + 1) % 2 ^ 32 })

  unfoldable pub deque : Ring A → Option A × Ring A
  deque q =
      if is_queue_empty q
      then (none, q)
      else let elem = get_or q.elem q.front none in
        let q' : Ring A = record q { elem = set q.elem q.front none; count = q.count - 1 } in
        if q'.front == q'.rear
        then (elem, q')
        else if q'.front == default_size - 1
        then (elem, record q' { front = 0 })
        else (elem, record q' { front = q'.front + 1 })
